-- ===== src/Bin/Access.antt =====
-- aicl/bin/codec_view.py: the properties of PacketView that read extension values, and
-- `decode_symbols` of aicl/bin/operands.py. Each takes the view's extensions.
pub mod Infos
pub mod Metadata
pub mod Fixed
pub mod Texts
pub mod Lists
pub mod Symbols
pub mod Found
pub mod Shown
pub mod Calls
pub mod Errors
use aicl.Common.{
  Bool, List, Option, [], false, if◌then◌else◌, length, ltb, none, pos, some, suc, true, zero, ℕ, ℤ,
  ◌+◌, ◌==◌, ◌∷◌,
}
use aicl.Bin.Operands.{decode_symbol}
use aicl.Bin.Symbol.{Symbol}
use aicl.Bin.Types.{ChunkInfo, Identity, Qos, TraceEntry, identity_from_bytes}
use aicl.Bin.View.{Extensions, ext_all, ext_one}
use aicl.Py.Float.{one_bits}
use aicl.Py.Ints.{unpack_int}
use aicl.Py.Result.{Result, err, index_error, map_ok, ok, out_of_fuel, struct_error, ◌>>=◌, ◌>>◌}
use aicl.Py.Struct.{Bytes, slice, unpack_at}
use aicl.Py.Utf8.{Str, utf8_decode}

-- `v[i]`
abbrev pub byte_at : ℕ → Bytes → Result ℕ
byte_at i [] = err index_error
byte_at zero (b ∷ v) = ok b
byte_at (suc i) (b ∷ v) = byte_at i v

-- `struct.unpack_from` of one integer.
unfoldable pub int_at : Bool → ℕ → ℕ → Bytes → Result ℤ
int_at signed w i v =
    if ltb (length v) (i + w) then err struct_error else ok (unpack_int signed w (slice i w v))

-- `f(v) if v else default`
abbrev pub when_value : {A : Type 0} → Option Bytes → A → (Bytes → Result A) → Result A
when_value none default f = ok default
when_value (some []) default f = ok default
when_value (some (b ∷ v)) default f = f (b ∷ v)

-- `if not v or len(v) < room: return None`
abbrev pub with_room : {A : Type 0} → ℕ → Option Bytes → (Bytes → Result A) → Result (Option A)
with_room room v f =
    when_value v none (λ b. if ltb (length b) room then ok none else map_ok some (f b))

-- `v.split(b",")`
abbrev pub onto_first : ℕ → List Bytes → List Bytes
onto_first b [] = (b ∷ []) ∷ []
onto_first b (p ∷ ps) = (b ∷ p) ∷ ps

unfoldable pub split_commas : Bytes → List Bytes
split_commas [] = [] ∷ []
split_commas (b ∷ v) =
    let rest = split_commas v in if b == 0x2C then [] ∷ rest else onto_first b rest

-- `[t.decode() for t in parts if t]`
unfoldable pub decode_texts : List Bytes → Result (List Str)
decode_texts [] = ok []
decode_texts ([] ∷ ps) = decode_texts ps
decode_texts ((b ∷ p) ∷ ps) = do t ← utf8_decode (b ∷ p); ts ← decode_texts ps; ok (t ∷ ts)

unfoldable pub view_texts : ℕ → Extensions → Result (List Str)
unfolding split_commas decode_texts
view_texts tag es = when_value (ext_one tag es) [] (λ v. decode_texts (split_commas v))

unfoldable pub view_text : ℕ → Extensions → Result Str
view_text tag es = when_value (ext_one tag es) [] utf8_decode

unfoldable pub view_origin : Extensions → Result (Option Identity)
view_origin es = when_value (ext_one 0x81 es) none (λ v. map_ok some (identity_from_bytes v))

-- `while pos < len(data)`: one operand after the other.
unfoldable pub decode_all : ℕ → Bytes → Result (List Symbol)
decode_all f [] = ok []
decode_all zero (b ∷ src) = err out_of_fuel
decode_all (suc f) (b ∷ src) = do
  (s, rest) ← decode_symbol (b ∷ src)
  ss ← decode_all f rest
  ok (s ∷ ss)

unfoldable pub decode_symbols : Bytes → Result (List Symbol)
unfolding decode_all
decode_symbols src = decode_all (length src) src

unfoldable pub view_response_symbols : Extensions → Result (List Symbol)
view_response_symbols es = when_value (ext_one 0x84 es) [] decode_symbols

unfoldable pub view_confidence : Extensions → Result ℕ
view_confidence es = when_value (ext_one 0x85 es) one_bits (unpack_at 8 0)

unfoldable pub view_priority : Extensions → Result ℕ
view_priority es = when_value (ext_one 0x86 es) 128 (byte_at 0)

unfoldable pub read_qos : Bytes → Result Qos
unfolding int_at
read_qos v = do
  a ← byte_at 0 v
  b ← byte_at 1 v
  c ← byte_at 2 v
  d ← byte_at 3 v
  retries ← int_at false 4 4 v
  delay ← int_at false 4 8 v
  ok (record {
    priority_class = pos a;
    reliability = pos b;
    ordering = pos c;
    delivery_mode = pos d;
    max_retries = retries;
    retry_delay_ms = delay;
  })

unfoldable pub view_qos : Extensions → Result (Option Qos)
view_qos es = with_room 12 (ext_one 0x88 es) read_qos

unfoldable pub read_trace : Bytes → Result TraceEntry
unfolding int_at
read_trace v = do
  actor_type ← byte_at 0 v
  nl ← byte_at 1 v
  al ← byte_at 2 v
  actor_name ← utf8_decode (slice 3 nl v)
  action ← utf8_decode (slice (3 + nl) al v)
  ts ← int_at true 8 (3 + nl + al) v
  dur ← int_at true 4 (3 + nl + al + 8) v
  ok (record {
    actor_type = pos actor_type;
    actor_name = actor_name;
    action = action;
    timestamp_ms = ts;
    duration_us = dur;
  })

-- A loop that reads each value of a tag.
unfoldable pub read_each : {A : Type 0} → (Bytes → Result A) → List Bytes → Result (List A)
read_each f [] = ok []
read_each f (v ∷ vs) = do a ← f v; rest ← read_each f vs; ok (a ∷ rest)

unfoldable pub view_trace : Extensions → Result (List TraceEntry)
view_trace es = read_each read_trace (ext_all 0x8A es)

unfoldable pub read_chunk : Bytes → Result ChunkInfo
unfolding int_at
read_chunk v = do
  total ← byte_at 0 v
  index ← byte_at 1 v
  original ← int_at false 4 2 v
  offset ← int_at false 4 6 v
  size ← int_at false 4 10 v
  ok (record {
    total_chunks = pos total;
    chunk_index = pos index;
    original_size = original;
    chunk_offset = offset;
    chunk_size = size;
  })

unfoldable pub view_chunk_info : Extensions → Result (Option ChunkInfo)
view_chunk_info es = with_room 14 (ext_one 0x8B es) read_chunk

-- The BlobRef that `BlobRef(ref_type, identifier, size, offset)` makes: the dataclass declares its
-- fields in the order ref_type, size, offset, identifier.
pub record BlobView : Type 0 where
  pub ref_type : ℤ
  pub size : Str
  pub offset : ℤ
  pub identifier : ℤ

unfoldable pub read_blob : Bytes → Result BlobView
unfolding int_at
read_blob v = do
  ref_type ← byte_at 0 v
  il ← byte_at 1 v
  size ← int_at false 4 2 v
  offset ← int_at false 4 6 v
  identifier ← utf8_decode (slice 10 il v)
  ok (record { ref_type = pos ref_type; size = identifier; offset = size; identifier = offset })

unfoldable pub view_blob_refs : Extensions → Result (List BlobView)
view_blob_refs es = read_each read_blob (ext_all 0x8C es)
