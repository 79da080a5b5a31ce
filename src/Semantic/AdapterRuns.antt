-- ===== src/Semantic/AdapterRuns.antt =====
-- Concrete runs of aicl/semantic/adapter.py, and the theorems at concrete inputs.
use aicl.Common.{
  All, [], arith, false, length, none, pos, refl, replicate, some, sym, true, ◌++◌, ◌∙◌, ◌∷◌, ◌≡◌,
  ◌≢◌, ◌⊎◌,
}
use aicl.Bin.Access.{view_text}
use aicl.Bin.Access.Infos.{view_error_info}
use aicl.Bin.Access.Metadata.{text_update}
use aicl.Bin.Codec.{decode, encode}
use aicl.Bin.Header.{pack_header}
use aicl.Bin.Header.Valid.{packed_header}
use aicl.Bin.Operands.{encode_symbol}
use aicl.Bin.Packet.{
  Packet, append_extensions, build_payload, encode_symbols, extension_fields, join_texts,
  pack_error, pack_metadata, post_init, run_field, run_fields,
}
use aicl.Bin.Symbol.{kind_of, str, symbol}
use aicl.Bin.Types.{identity_to_bytes}
use aicl.Bin.Varint.{encode_varint}
use aicl.Bin.View.{PacketView}
use aicl.Bin.View.Payload.{IsCore}
use aicl.Py.Any.{
  Any, Dict, build_dict, codes, dict_get, dict_put, dict_update, key, no_keys, of_dict, of_none,
  of_str,
}
use aicl.Py.Decimal.{show_number}
use aicl.Py.Float.{one_bits}
use aicl.Py.Ints.{pack_int}
use aicl.Py.Json.Dump.{dumps}
use aicl.Py.Json.Load.{after_whole, loads, scan_number, scan_value}
use aicl.Py.Json.Scan.{scan_whole, skip_space}
use aicl.Py.Json.Heads.{IsJson, compact}
use aicl.Py.Result.{Exc, err, ok, value_error}
use aicl.Py.Show.{repr_of}
use aicl.Py.Struct.{Bytes, be}
use aicl.Py.Utf8.{Str, utf8_encode}
use aicl.Py.Uuid.{drop_while}
use aicl.Sdk.Capabilities.{occurs_in}
use aicl.Semantic.Action.{ModelAction, action_to_dict, contains_text, is_valid, validate}
use aicl.Semantic.Adapter.{
  Action, SemanticAdapter, action_to_packet, build_symbols, model_action, new_adapter,
  other_symbols, texts_of, to_binary_symbol, with_intent,
}
use aicl.Semantic.Adapter.Arrival.{arrived, bytes_to_observation-encode}
use aicl.Semantic.Adapter.Inbound.{bytes_to_observation}
use aicl.Semantic.Adapter.Output.{parse_model_output, text_dict}
use aicl.Semantic.Adapter.Parsed.{parse_model_output-action_to_dict, parse_model_output_keyword}
use aicl.Semantic.Adapter.Results.{
  Answer, answer_packet, decode-result_to_bytes, error_info_of, error_symbols, error_text,
  output_symbols, result_to_bytes,
}
use aicl.Semantic.Adapter.Sent.{packet_of}
use aicl.Semantic.Adapter.Text.{
  action_to_sl, build_sl_symbols, escape_quotes, join_with, other_sl_symbols, sl_metadata,
}
use aicl.Semantic.CodecRuns.{no_float, no_repr, sample, sample-IsTyped}
use aicl.Semantic.Intents.{all_intents, intent_value, read_memory, return_result}

-- A text is shown between quotes here.
abbrev quoted : Str → Str
quoted s = 0x27 ∷ (s ++ (0x27 ∷ []))

abbrev sender : SemanticAdapter
sender = new_adapter (codes "a") none (pos 4)

abbrev receiver : SemanticAdapter
receiver = new_adapter (codes "b") none (pos 4)

abbrev session_9 : Bytes
session_9 = replicate 16 9

abbrev message_8 : Bytes
message_8 = replicate 16 8

abbrev looked : Action
looked = record {
  intent = read_memory;
  target = codes "m";
  inputs = key (codes "text") (of_str (codes "hi")) no_keys;
  params = no_keys;
  result = no_keys;
  confidence = one_bits;
  stream = false;
  cancel = false;
  correlation_id = [];
  deadline_ms = pos 250;
  metadata = no_keys;
}

abbrev looked_packet : Packet
looked_packet =
    packet_of no_repr quoted sender (session_9, message_8, replicate 16 0) looked none none

abbrev looked_payload : Bytes
looked_payload =
    0x20 ∷ 6 ∷ (0x11 ∷ 2 ∷ codes "hi")
    ++ (0x80 ∷ 16 ∷ session_9)
    ++ (0x81 ∷ 7 ∷ 4 ∷ 1 ∷ 0x61 ∷ 0 ∷ 0 ∷ 0 ∷ 0 ∷ [])
    ++ (0x82 ∷ 1 ∷ 0x6D ∷ [])
    ++ (0x83 ∷ 11 ∷ codes "READ_MEMORY")
    ++ (0x96 ∷ 29 ∷ 15 ∷ codes "semantic_intent" ++ (0 ∷ 11 ∷ codes "READ_MEMORY"))

looked_made : action_to_packet no_repr quoted sender session_9 message_8 looked ≡ ok looked_packet
unfolding action_to_packet validate contains_text post_init
looked_made = refl

looked_built : build_payload looked_packet ≡ ok looked_payload
unfolding build_payload append_extensions extension_fields run_fields run_field encode_symbols
    encode_symbol encode_varint join_texts utf8_encode kind_of pack_int be build_symbols
    other_symbols to_binary_symbol texts_of dict_update dict_put dict_get identity_to_bytes
    pack_metadata
looked_built = refl

abbrev looked_wire : Bytes
looked_wire =
    packed_header 0x0100 0x0001 message_8 (replicate 16 0) 250 (length looked_payload)
    ++ looked_payload

looked_encoded : encode looked_packet false ≡ ok looked_wire
unfolding encode pack_header
looked_encoded = rw looked_built

looked-IsCore : All IsCore (build_symbols no_repr quoted looked)
unfolding kind_of build_symbols other_symbols to_binary_symbol dict_get utf8_encode
looked-IsCore = (((omega arith, (_, refl, omega arith)), refl), tt)

bytes_to_observation-encode_example :
    (is_valid (model_action looked) ≡ ok true)
    × (bytes_to_observation receiver looked_wire
        ≡ ok (
            arrived
              (codes "a")
              session_9
              read_memory
              one_bits
              (pos 250)
              (text_update [] (with_intent no_repr quoted read_memory no_keys))))
bytes_to_observation-encode_example =
    bytes_to_observation-encode no_repr quoted sender receiver session_9 message_8 looked false
      (λ view. refl) looked-IsCore (((λ h. cc), (refl, tt)), tt) (omega arith) looked_made
      looked_built (omega arith) looked_encoded

abbrev failed : Answer
failed = record {
  intent = read_memory;
  output = of_none;
  confidence = one_bits;
  tokens_used = pos 0;
  latency_ms = 0;
  error = some (codes "no");
  metadata = no_keys;
}

abbrev failed_packet : Packet
failed_packet =
    answer_packet (λ d. codes "0.0") quoted receiver (session_9, message_8, replicate 16 0) failed

abbrev failed_payload : Bytes
failed_payload =
    0x20 ∷ 6 ∷ (0x11 ∷ 2 ∷ codes "no")
    ++ (0x80 ∷ 16 ∷ session_9)
    ++ (0x81 ∷ 7 ∷ 4 ∷ 1 ∷ 0x62 ∷ 0 ∷ 0 ∷ 0 ∷ 0 ∷ [])
    ++ (0x83 ∷ 11 ∷ codes "READ_MEMORY")
    ++ (0x8E ∷ 9 ∷ 0 ∷ 1 ∷ 0 ∷ 1 ∷ 2 ∷ 0x6E ∷ 0x6F ∷ 0 ∷ 0 ∷ [])
    ++ (0x96 ∷ 60 ∷ (15 ∷ codes "semantic_intent" ++ (0 ∷ 11 ∷ codes "READ_MEMORY"))
        ++ (11 ∷ codes "tokens_used" ++ (0 ∷ 1 ∷ codes "0"))
        ++ (10 ∷ codes "latency_ms" ++ (0 ∷ 3 ∷ codes "0.0")))

failed_built : build_payload failed_packet ≡ ok failed_payload
unfolding build_payload append_extensions extension_fields run_fields run_field encode_symbols
    encode_symbol encode_varint join_texts utf8_encode kind_of pack_int be texts_of dict_update
    dict_put repr_of show_number identity_to_bytes pack_metadata pack_error to_binary_symbol
failed_built = refl

parse_model_output-action_to_dict_example :
    parse_model_output no_float (λ s. s) (dumps no_repr compact (of_dict (action_to_dict sample)))
    ≡ ok sample
unfolding IsJson dict_get dict_put action_to_dict build_dict
parse_model_output-action_to_dict_example =
    parse_model_output-action_to_dict no_repr no_float (λ s. s) sample sample-IsTyped
      (
        (refl, (refl, (refl, (refl, (refl, (refl, tt)))))),
        (tt, (tt, (((refl, tt), (tt, tt)), (((refl, tt), (tt, tt)), (tt, (tt, tt)))))),
      )

plan_refused : loads no_float (codes "PLAN it") ≡ err value_error
unfolding loads scan_value scan_number scan_whole skip_space after_whole
plan_refused = refl

err-ok : {e : Exc} {v : Any} → err e ≡ ok v → ⊥
err-ok h = cc

no_json : (d : Dict) → loads no_float (codes "PLAN it") ≢ ok (of_dict d)
no_json d h = err-ok (sym plan_refused ∙ h)

parse_model_output_keyword_example :
    (a : ModelAction) × (parse_model_output no_float (λ s. s) (codes " PLAN it ") ≡ ok a)
    × (((occurs_in (intent_value a.intent) (codes "PLAN it") ≡ true)
          × (a.inputs ≡ of_dict (text_dict (codes "PLAN it"))))
        ⊎ (All (λ i. occurs_in (intent_value i) (codes "PLAN it") ≡ false) all_intents
            × (a.intent ≡ return_result)
            × (a.result ≡ of_dict (text_dict (codes "PLAN it")))))
unfolding drop_while
parse_model_output_keyword_example =
    parse_model_output_keyword no_repr no_float (λ s. s) (codes " PLAN it ") 0x50 (codes "LAN it")
      refl no_json

abbrev failed_wire : Bytes
failed_wire =
    packed_header 0x0100 0x0002 message_8 (replicate 16 0) 0 (length failed_payload)
    ++ failed_payload

failed_encoded : encode failed_packet false ≡ ok failed_wire
unfolding encode pack_header
failed_encoded = rw failed_built

failed_sent :
    result_to_bytes (λ d. codes "0.0") quoted receiver session_9 message_8 failed [] none
    ≡ ok failed_wire
unfolding result_to_bytes post_init
failed_sent = failed_encoded

failed-IsCore : All IsCore (
    output_symbols (λ d. codes "0.0") quoted failed.output
    ++ error_symbols (error_text failed.error))
unfolding kind_of utf8_encode
failed-IsCore = (((omega arith, (_, refl, omega arith)), refl), tt)

decode-result_to_bytes_example :
    (view : PacketView) × (decode failed_wire ≡ ok view)
    × (view.header.flags ≡ 0x0002)
    × (view.header.correlation_id ≡ replicate 16 0)
    × (view.symbols ≡ symbol 0x11 (str (codes "no")) ∷ [])
    × (view_text 0x83 view.extensions ≡ ok (codes "READ_MEMORY"))
    × (view_error_info view.extensions ≡ ok (error_info_of (codes "no")))
decode-result_to_bytes_example =
    decode-result_to_bytes (λ d. codes "0.0") quoted receiver session_9 message_8 failed [] none
      refl failed-IsCore (omega arith) failed_built (omega arith) failed_sent

looked_text :
    action_to_sl (λ d. codes "1.0") quoted sender 5 session_9 looked
    ≡ codes
        "AICL/1.0|SID:s-5-09090909|ORI:a|TGT:m|OP:MEM_READ|SYM:S:\"hi\"|CNF:1.0|META:semantic_intent=READ_MEMORY"
unfolding action_to_sl build_sl_symbols other_sl_symbols join_with sl_metadata escape_quotes
    dict_get show_number
looked_text = refl
