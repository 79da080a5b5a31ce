-- ===== src/Bin/View.antt =====
-- aicl/bin/codec_view.py: the constructor of PacketView and its lookups.
pub mod Operands
pub mod Sorting
pub mod Payload
use aicl.Common.{
  List, Option, [], drop, if◌then◌else◌, map, none, some, suc, take, zero, ℕ, ◌++◌, ◌==◌, ◌∷◌,
}
use aicl.Bin.Header.{Header, header_size, unpack_header}
use aicl.Bin.Operands.{decode_symbol}
use aicl.Bin.Symbol.{Symbol, is_vendor, raw_of, tag_of, value_of}
use aicl.Bin.Varint.{decode_varint}
use aicl.Py.Result.{Result, ok, ◌>>=◌, ◌>>◌}
use aicl.Py.Struct.{Bytes}

-- `_extensions`, a dict from vendor tags to the values in wire order.
abbrev pub Extensions : Type 0
Extensions = List (ℕ × List Bytes)

-- `self._extensions.setdefault(tag, []).append(value)`
unfoldable pub add_extension : ℕ → Bytes → Extensions → Extensions
add_extension tag b [] = (tag, b ∷ []) ∷ []
add_extension tag b ((t, bs) ∷ es) =
    let rest = add_extension tag b es in
    if t == tag then (t, bs ++ (b ∷ [])) ∷ es else (t, bs) ∷ rest

-- `_ext_all` and `_ext_one`.
unfoldable pub ext_all : ℕ → Extensions → List Bytes
ext_all tag [] = []
ext_all tag ((t, bs) ∷ es) = if t == tag then bs else ext_all tag es

abbrev pub first : List Bytes → Option Bytes
first [] = none
first (b ∷ bs) = some b

abbrev pub ext_one : ℕ → Extensions → Option Bytes
ext_one tag es = first (ext_all tag es)

-- `extension_tlvs`
unfoldable pub extension_tlvs : Extensions → List (ℕ × Bytes)
extension_tlvs [] = []
extension_tlvs ((t, bs) ∷ es) = map (λ b. (t, b)) bs ++ extension_tlvs es

pub record PacketView : Type 0 where
  pub header : Header
  pub operation : ℕ
  pub symbols : List Symbol
  pub extensions : Extensions

-- One operand goes to the extensions or to the core symbols.
abbrev pub sort_operand : Symbol → List Symbol × Extensions → List Symbol × Extensions
sort_operand s (core, es) =
    if is_vendor (tag_of s)
    then (core, add_extension (tag_of s) (raw_of (value_of s)) es)
    else (core ++ (s ∷ []), es)

-- The loop of the constructor.
unfoldable pub read_operands :
    ℕ → Bytes → List Symbol × Extensions → Result (List Symbol × Extensions)
read_operands zero src sorted = ok sorted
read_operands (suc n) src sorted = do
  (s, rest) ← decode_symbol src
  read_operands n rest (sort_operand s sorted)

unfoldable pub read_payload : Bytes → Result (ℕ × List Symbol × Extensions)
unfolding read_operands
read_payload [] = ok (0, [], [])
read_payload (operation ∷ []) = ok (operation, [], [])
read_payload (operation ∷ src) = do
  (count, rest) ← decode_varint src
  (core, es) ← read_operands count rest ([], [])
  ok (operation, core, es)

unfoldable pub packet_view : Bytes → ℕ → ℕ → Result PacketView
unfolding read_payload
packet_view raw hdr_end pay_end = do
  header ← unpack_header (take header_size raw)
  (operation, core, es) ← read_payload (drop hdr_end (take pay_end raw))
  ok (record { header = header; operation = operation; symbols = core; extensions = es })
