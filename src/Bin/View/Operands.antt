-- ===== src/Bin/View/Operands.antt =====
-- aicl/bin/codec_view.py: the constructor reads back the operands of a payload, sorted.
use aicl.Common.{
  All, List, [], append_assoc, arith, if◌then◌else◌, length, length-append, refl, ℕ, ◌++◌, ◌==◌,
  ◌∷◌, ◌≡◌,
}
use aicl.Bin.Operands.{decode_symbol, encode_symbol}
use aicl.Bin.Operands.Fits.{Fits}
use aicl.Bin.Operands.RoundTrip.{encode_symbol_codes}
use aicl.Bin.Packet.{encode_symbols}
use aicl.Bin.Symbol.{Symbol}
use aicl.Bin.View.{Extensions, add_extension, ext_all, read_operands, sort_operand}
use aicl.Py.Result.{>>=-eq-ok, ok}
use aicl.Py.Struct.{Bytes}

pub ext_all-add_extension :
    (t tag : ℕ) (b : Bytes) (es : Extensions)
    → ext_all t (add_extension tag b es)
      ≡ (if tag == t then ext_all t es ++ (b ∷ []) else ext_all t es)
unfolding ext_all add_extension
ext_all-add_extension t tag b [] = refl
ext_all-add_extension t tag b ((u, bs) ∷ es) = ground (arith, ext_all-add_extension t tag b es)

-- What the loop collects.
abbrev pub sort_all : List Symbol → List Symbol × Extensions → List Symbol × Extensions
sort_all [] sorted = sorted
sort_all (s ∷ ss) sorted = sort_all ss (sort_operand s sorted)

-- The operands can be read back one after the other.
abbrev pub Reads : Symbol → Type 0
Reads s =
    (out : Bytes) × (encode_symbol s ≡ ok out)
    × ((rest : Bytes) → decode_symbol (out ++ rest) ≡ ok (s, rest))

pub Fits-Reads : (s : Symbol) → Fits s → Reads s
unfolding decode_symbol
Fits-Reads s h =
    let (out, wrote, reads) = encode_symbol_codes s h in
    (out, wrote, λ rest. reads (length (out ++ rest)) rest (omega (arith, length-append out rest)))

pub read_operands-encode_symbols :
    (ss : List Symbol) (sorted : List Symbol × Extensions) (rest : Bytes) {body : Bytes}
    → All Reads ss
    → encode_symbols ss ≡ ok body
    → read_operands (length ss) (body ++ rest) sorted ≡ ok (sort_all ss sorted)
unfolding read_operands encode_symbols
read_operands-encode_symbols [] sorted rest h e = refl
read_operands-encode_symbols (s ∷ ss) sorted rest {body} ((out, wrote, reads), h) e =
    let (here, p, e1) = >>=-eq-ok (encode_symbol s) _ e in
    let (there, q, e2) = >>=-eq-ok (encode_symbols ss) _ e1 in
    let whole : body ≡ out ++ there = cc in
    rw (whole, append_assoc out there rest, reads (there ++ rest))
      (read_operands-encode_symbols ss (sort_operand s sorted) rest h q)
