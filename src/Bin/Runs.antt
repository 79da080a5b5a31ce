-- ===== src/Bin/Runs.antt =====
-- Concrete runs of aicl/bin, and the theorems at concrete inputs.
use aicl.Common.{
  All, [], arith, false, leb, length, none, pos, refl, replicate, true, ℕ, ◌++◌, ◌+◌, ◌<◌, ◌^◌, ◌∷◌,
  ◌≡◌, ◌≤◌,
}
use aicl.Bin.Codec.{decode, encode}
use aicl.Bin.Codec.RoundTrip.{Carries, decode-encode, wire_flags}
use aicl.Bin.Header.{compute_crc32, max_payload, pack_header, unpack_header, validate_header}
use aicl.Bin.Header.Valid.{header_of, packed_header, unpack_header-pack_header}
use aicl.Bin.Operands.{decode_symbol, encode_symbol}
use aicl.Bin.Operands.Fits.{Fits}
use aicl.Bin.Operands.RoundTrip.{decode_symbol-encode_symbol}
use aicl.Bin.Operands.Total.{decode_symbol_total}
use aicl.Bin.Ops.{is_assigned, is_listed}
use aicl.Bin.Ops.Ranges.{assigned_ranges, is_assigned-ranges, within}
use aicl.Bin.Packet.{
  Packet, append_extensions, build_payload, encode_symbols, extension_fields, join_texts, run_field,
  run_fields,
}
use aicl.Bin.Symbol.{Symbol, bool, cons, dict, end, entry, int, items, kind_of, nil, str, symbol}
use aicl.Bin.Types.{Identity, identity_from_bytes, identity_to_bytes}
use aicl.Bin.Types.Laws.{identity_round_trip}
use aicl.Bin.Varint.{decode_varint, encode_varint}
use aicl.Bin.Varint.Decode.{decode_varint-append, decode_varint_bounds, encode_varint_overlong}
use aicl.Bin.Varint.RoundTrip.{decode_varint-encode_varint}
use aicl.Bin.View.{PacketView}
use aicl.Bin.View.Payload.{IsCore}
use aicl.Py.Float.{one_bits}
use aicl.Py.Ints.{pack_int}
use aicl.Py.Result.{err, guard, header_error, ok, symbol_error}
use aicl.Py.Result.Ensures.{Ensures}
use aicl.Py.Struct.{Bytes, IsBytes, be}
use aicl.Py.Utf8.{utf8_encode}

abbrev pub ids : Bytes
ids = replicate 16 7

-- A packet with one core operand, an intent and one target.
abbrev pub hello : Packet
hello = record {
  version = 0x0100;
  flags = 0x0001;
  session_id = ids;
  message_id = ids;
  correlation_id = replicate 16 0;
  origin = none;
  targets = (0x61 ∷ []) ∷ [];
  operation = 0x0123;
  intent = 0x68 ∷ 0x69 ∷ [];
  symbols = symbol 0x01 (int (pos 5)) ∷ [];
  response_symbols = [];
  confidence = one_bits;
  priority = pos 128;
  deadline_ms = pos 250;
  capabilities = [];
  qos = none;
  security = none;
  trace = [];
  chunk_info = none;
  blob_refs = [];
  backpressure = none;
  error_info = none;
  ack_info = none;
  target_caps = [];
  schema_id = [];
  stream_id = none;
  partial_result = none;
  model_invocation = none;
  tool_invocation = none;
  metadata = [];
}

abbrev pub hello_payload : Bytes
hello_payload =
    0x23 ∷ 4 ∷ (0x01 ∷ 5 ∷ [])
    ++ (0x80 ∷ 16 ∷ ids)
    ++ (0x82 ∷ 1 ∷ 0x61 ∷ [])
    ++ (0x83 ∷ 2 ∷ 0x68 ∷ 0x69 ∷ [])

pub hello_built : build_payload hello ≡ ok hello_payload
unfolding build_payload append_extensions extension_fields run_fields run_field encode_symbols
    encode_symbol encode_varint join_texts utf8_encode kind_of pack_int be
hello_built = refl

abbrev pub hello_prefix : Bytes
hello_prefix =
    packed_header 0x0100 0x0101 ids (replicate 16 0) 250 (length hello_payload) ++ hello_payload

abbrev pub hello_wire : Bytes
hello_wire = hello_prefix ++ be 4 (compute_crc32 hello_prefix)

pub hello_sent : encode hello true ≡ ok hello_wire
unfolding encode pack_header
hello_sent = rw hello_built

pub hello-IsCore : All IsCore hello.symbols
unfolding kind_of
hello-IsCore = (((omega arith, omega arith), refl), tt)

decode-encode_example :
    (view : PacketView) × (decode hello_wire ≡ ok view)
    × Carries hello (wire_flags hello true) hello_payload view
decode-encode_example = decode-encode hello true hello-IsCore hello_built (omega arith) hello_sent

-- A list of a text and a dict under one key.
abbrev nested : Symbol
nested = symbol 0x17 (
    items (
      cons (symbol 0x11 (str (0x61 ∷ 0xE9 ∷ [])))
        (cons (symbol 0x18 (dict (entry (0x6B ∷ []) (symbol 0x10 (bool true)) end))) nil)))

nested-Fits : Fits nested
unfolding kind_of utf8_encode
nested-Fits = (
  omega arith,
  (
    omega arith,
    (
      (omega arith, (_, refl, omega arith)),
      ((omega arith, (omega arith, ((_, refl, omega arith), (omega arith, tt), tt, tt))), tt),
    ),
  ),
)

decode_symbol-encode_symbol_example :
    (out : Bytes) × (encode_symbol nested ≡ ok out)
    × (decode_symbol (out ++ (1 ∷ [])) ≡ ok (nested, 1 ∷ []))
decode_symbol-encode_symbol_example = decode_symbol-encode_symbol nested (1 ∷ []) nested-Fits

decode_symbol_total_example : Ensures (λ r. length r.1 < 2) (decode_symbol (0x05 ∷ 9 ∷ []))
decode_symbol_total_example = decode_symbol_total (0x05 ∷ 9 ∷ [])

decode_varint-encode_varint_example :
    (out : Bytes) × (encode_varint (pos 300) ≡ ok out)
    × (decode_varint (out ++ (9 ∷ [])) ≡ ok (300, 9 ∷ []))
decode_varint-encode_varint_example = decode_varint-encode_varint 300 (9 ∷ []) (omega arith)

encode_varint_overlong_example :
    (out : Bytes) × (encode_varint (pos 0x1000_0000) ≡ ok out)
    × (length out ≡ 4)
    × (decode_varint (out ++ (0 ∷ [])) ≡ err symbol_error)
encode_varint_overlong_example = encode_varint_overlong 0x1000_0000 (0 ∷ []) (omega arith)

number_read : decode_varint (0xAC ∷ 2 ∷ 9 ∷ []) ≡ ok (300, 9 ∷ [])
unfolding decode_varint
number_read = refl

decode_varint-append_example : decode_varint (0xAC ∷ 2 ∷ 9 ∷ 8 ∷ []) ≡ ok (300, 9 ∷ 8 ∷ [])
decode_varint-append_example = decode_varint-append (0xAC ∷ 2 ∷ 9 ∷ []) (8 ∷ []) number_read

decode_varint_bounds_example :
    (300 < 2 ^ 28)
    × (length {A = ℕ} (9 ∷ []) < 3)
    × (3 ≤ length {A = ℕ} (9 ∷ []) + 4)
    × IsBytes (9 ∷ [])
decode_varint_bounds_example =
    decode_varint_bounds (0xAC ∷ 2 ∷ 9 ∷ []) (omega arith, (omega arith, (omega arith, tt)))
      number_read

header_packed :
    pack_header 0x0100 1 ids ids (pos 250) 28 ≡ ok (packed_header 0x0100 1 ids ids 250 28)
unfolding pack_header
header_packed = refl

unpack_header-pack_header_example :
    (d : ℕ) × (pos 250 ≡ pos d)
    × (length (packed_header 0x0100 1 ids ids 250 28) ≡ 56)
    × (unpack_header (packed_header 0x0100 1 ids ids 250 28 ++ (5 ∷ []))
        ≡ ok (header_of 0x0100 1 ids ids d 28))
    × (validate_header (packed_header 0x0100 1 ids ids 250 28 ++ (5 ∷ []))
        ≡ guard (leb 28 max_payload) header_error)
unpack_header-pack_header_example =
    unpack_header-pack_header 0x0100 1 ids ids (pos 250) 28 (5 ∷ []) header_packed

abbrev someone : Identity
someone = record { id_type = pos 2; name = 0x62 ∷ 0x6F ∷ 0x74 ∷ []; instance_id = pos 77 }

identity_round_trip_example :
    identity_from_bytes (2 ∷ 3 ∷ 0x62 ∷ 0x6F ∷ 0x74 ∷ 0 ∷ 0 ∷ 0 ∷ 77 ∷ []) ≡ ok someone
identity_round_trip_example =
    identity_round_trip someone (unfold identity_to_bytes utf8_encode pack_int be in refl)

is_assigned-ranges_example : is_assigned 0x0B ≡ within 0x0B assigned_ranges
is_assigned-ranges_example = is_assigned-ranges 0x0B

unassigned_code : is_assigned 0x0B ≡ false
unfolding is_assigned is_listed
unassigned_code = refl
