-- ===== src/Bin/Access/Shown.antt =====
-- aicl/bin/codec_view.py: what the properties of a view return for a packet's extensions.
use aicl.Common.{
  All, List, [], ap, arith, if◌then◌else◌, length, le→ltb, ltb, none, pos, refl, some, sym, ℕ, ◌++◌,
  ◌<◌, ◌^◌, ◌∙◌, ◌∷◌, ◌≡◌, ◌≢◌, ◌≤◌,
}
use aicl.Bin.Access.{
  decode_symbols, decode_texts, read_chunk, read_qos, read_trace, split_commas, view_chunk_info,
  view_confidence, view_origin, view_priority, view_qos, view_response_symbols, view_text,
  view_texts, view_trace, when_value, with_room,
}
use aicl.Bin.Access.Calls.{read_model-pack_model, read_tool-pack_tool}
use aicl.Bin.Access.Errors.{IsDetails, read_error-pack_error}
use aicl.Bin.Access.Fixed.{
  read_backpressure-pack_backpressure, read_chunk-pack_chunk, read_qos-pack_qos,
}
use aicl.Bin.Access.Found.{
  found_any, found_as, found_bytes, found_confidence, found_each, found_priorities, found_some,
  sequence_once, when_value-some, when_value_list, with_room-some,
}
use aicl.Bin.Access.Infos.{
  read_backpressure, read_error, read_metadata, read_model, read_tool, view_backpressure,
  view_error_info, view_metadata, view_model_invocation, view_tool_invocation,
}
use aicl.Bin.Access.Lists.{IsPlain, split_commas-join_texts}
use aicl.Bin.Access.Metadata.{read_metadata-pack_metadata, text_update}
use aicl.Bin.Access.Symbols.{decode_symbols-encode_symbols}
use aicl.Bin.Access.Texts.{read_trace-pack_trace}
use aicl.Bin.Operands.Fits.{Fits}
use aicl.Bin.Packet.{
  Packet, encode_symbols, extension_fields, join_texts, pack_backpressure, pack_chunk, pack_error,
  pack_metadata, pack_model, pack_qos, pack_tool, pack_trace, when_any,
}
use aicl.Bin.Packet.Fields.{gather, sequence}
use aicl.Bin.Types.{ErrorInfo, Identity, identity_from_bytes, identity_to_bytes}
use aicl.Bin.Types.Laws.{identity_round_trip}
use aicl.Bin.View.{Extensions, ext_all, ext_one, first}
use aicl.Py.Result.{map_ok, ok, ok-injective}
use aicl.Py.Struct.{Bytes}
use aicl.Py.Utf8.{Str, utf8_decode, utf8_encode}
use aicl.Py.Utf8.Laws.{utf8_decode-utf8_encode}

-- What the encoding of the extensions does not keep apart is left out: empty texts and commas in
-- lists of texts, empty optional bytes, and empty details of an error.
pub record Clean (p : Packet) : Type 0 where
  pub session : 1 ≤ length p.session_id
  pub targets_plain : All IsPlain p.targets
  pub capabilities_plain : All IsPlain p.capabilities
  pub target_caps_plain : All IsPlain p.target_caps
  pub response_fits : All Fits p.response_symbols
  pub confidence_double : p.confidence < 2 ^ 64
  pub security_sent : p.security ≢ some []
  pub stream_id_sent : p.stream_id ≢ some []
  pub partial_result_sent : p.partial_result ≢ some []
  pub details_sent : (e : ErrorInfo) → p.error_info ≡ some e → IsDetails e.details

pub record Shows (p : Packet) (es : Extensions) : Type 0 where
  pub session_shown : ext_one 0x80 es ≡ some p.session_id
  pub origin_shown : view_origin es ≡ ok p.origin
  pub targets_shown : view_texts 0x82 es ≡ ok p.targets
  pub intent_shown : view_text 0x83 es ≡ ok p.intent
  pub response_shown : view_response_symbols es ≡ ok p.response_symbols
  pub confidence_shown : view_confidence es ≡ ok p.confidence
  pub priority_shown : map_ok pos (view_priority es) ≡ ok p.priority
  pub capabilities_shown : view_texts 0x87 es ≡ ok p.capabilities
  pub qos_shown : view_qos es ≡ ok p.qos
  pub security_shown : ext_one 0x89 es ≡ p.security
  pub trace_shown : view_trace es ≡ ok p.trace
  pub chunk_shown : view_chunk_info es ≡ ok p.chunk_info
  pub backpressure_shown : view_backpressure es ≡ ok p.backpressure
  pub error_shown : view_error_info es ≡ ok p.error_info
  pub target_caps_shown : view_texts 0x90 es ≡ ok p.target_caps
  pub schema_shown : view_text 0x91 es ≡ ok p.schema_id
  pub stream_shown : ext_one 0x92 es ≡ p.stream_id
  pub partial_shown : ext_one 0x93 es ≡ p.partial_result
  pub model_shown : view_model_invocation es ≡ ok p.model_invocation
  pub tool_shown : view_tool_invocation es ≡ ok p.tool_invocation
  pub metadata_shown : view_metadata es ≡ ok (text_update [] p.metadata)

identity_room : (b : Bytes) {i : Identity} → identity_from_bytes b ≡ ok i → 1 ≤ length b
unfolding identity_from_bytes
identity_room [] e = absurd (cc)
identity_room (x ∷ b) e = omega arith

module _ (p : Packet) (es : Extensions) (clean : Clean p)
    (found : (t : ℕ) → sequence (gather t (extension_fields p)) ≡ ok (ext_all t es)) where
  texts_shown :
      (t : ℕ) (ts : List Str)
      → All IsPlain ts
      → sequence (when_any ts (join_texts ts) ++ []) ≡ ok (ext_all t es)
      → view_texts t es ≡ ok ts
  unfolding view_texts decode_texts split_commas
  texts_shown t ts plain h =
      found_any ts (join_texts ts) (λ v. when_value v [] (λ b. decode_texts (split_commas b))) h
        refl
        (λ b some_text e.
          when_value_list (λ b. decode_texts (split_commas b)) b refl
            (split_commas-join_texts ts plain some_text e))

  text_shown :
      (t : ℕ) (s : Str)
      → sequence (when_any s (utf8_encode s) ++ []) ≡ ok (ext_all t es)
      → view_text t es ≡ ok s
  unfolding view_text utf8_decode
  text_shown t s h =
      found_any s (utf8_encode s) (λ v. when_value v [] utf8_decode) h refl
        (λ b some_text e. when_value_list utf8_decode b refl (utf8_decode-utf8_encode s e).0)

  session_lem : ext_one 0x80 es ≡ some p.session_id
  unfolding extension_fields
  session_lem = found_session p.session_id clean.session (found 0x80)
    where
      found_session :
          (b : Bytes) {vs : List Bytes}
          → 1 ≤ length b
          → sequence (when_any b (ok b) ++ []) ≡ ok vs
          → first vs ≡ some b
      found_session [] one e = absurd (omega arith)
      found_session (x ∷ b) one e =
          let (c, q, is) = sequence_once (ok (x ∷ b)) e in
          ap first is ∙ ap some (sym (ok-injective q))

  origin_lem : view_origin es ≡ ok p.origin
  unfolding extension_fields view_origin
  origin_lem =
      found_some p.origin identity_to_bytes
        (λ v. when_value v none (λ b. map_ok some (identity_from_bytes b))) (found 0x81) refl
        (λ a b _ e.
          let back = identity_round_trip a e in
          when_value-some (λ b. map_ok some (identity_from_bytes b)) b none (identity_room b back)
          ∙ ap (map_ok some) back)

  response_lem : view_response_symbols es ≡ ok p.response_symbols
  unfolding extension_fields view_response_symbols decode_symbols
  response_lem =
      found_any p.response_symbols (encode_symbols p.response_symbols)
        (λ v. when_value v [] decode_symbols) (found 0x84) refl
        (λ b _ e.
          when_value_list decode_symbols b refl
            (decode_symbols-encode_symbols p.response_symbols clean.response_fits e))

  qos_lem : view_qos es ≡ ok p.qos
  unfolding extension_fields view_qos
  qos_lem =
      found_some p.qos pack_qos (λ v. with_room 12 v read_qos) (found 0x88) refl
        (λ q b _ e.
          let (back, size) = read_qos-pack_qos q e in
          with_room-some 12 b read_qos (omega arith) (omega (arith, size)) back)

  chunk_lem : view_chunk_info es ≡ ok p.chunk_info
  unfolding extension_fields view_chunk_info
  chunk_lem =
      found_some p.chunk_info pack_chunk (λ v. with_room 14 v read_chunk) (found 0x8B) refl
        (λ c b _ e.
          let (back, size) = read_chunk-pack_chunk c e in
          with_room-some 14 b read_chunk (omega arith) (omega (arith, size)) back)

  backpressure_lem : view_backpressure es ≡ ok p.backpressure
  unfolding extension_fields view_backpressure
  backpressure_lem =
      found_some p.backpressure pack_backpressure (λ v. with_room 12 v read_backpressure)
        (found 0x8D) refl
        (λ c b _ e.
          let (back, size) = read_backpressure-pack_backpressure c e in
          with_room-some 12 b read_backpressure (omega arith) (omega (arith, size)) back)

  model_lem : view_model_invocation es ≡ ok p.model_invocation
  unfolding extension_fields view_model_invocation
  model_lem =
      found_some p.model_invocation pack_model (λ v. with_room 3 v read_model) (found 0x94) refl
        (λ c b _ e.
          let (back, size) = read_model-pack_model c e in
          with_room-some 3 b read_model (omega arith) size back)

  tool_lem : view_tool_invocation es ≡ ok p.tool_invocation
  unfolding extension_fields view_tool_invocation
  tool_lem =
      found_some p.tool_invocation pack_tool (λ v. with_room 2 v read_tool) (found 0x95) refl
        (λ c b _ e.
          let (back, size) = read_tool-pack_tool c e in
          with_room-some 2 b read_tool (omega arith) size back)

  error_lem : view_error_info es ≡ ok p.error_info
  unfolding extension_fields view_error_info
  error_lem =
      found_some p.error_info pack_error
        (λ v. when_value v none (λ b. if ltb (length b) 7 then ok none else read_error b))
        (found 0x8E) refl
        (λ c b is e.
          let (back, size) = read_error-pack_error c (clean.details_sent c is) e in
          when_value-some (λ b. if ltb (length b) 7 then ok none else read_error b) b none
            (omega arith)
          ∙ rw (le→ltb (length b) 7 size) back)

  metadata_lem : view_metadata es ≡ ok (text_update [] p.metadata)
  unfolding extension_fields view_metadata text_update
  metadata_lem =
      found_as p.metadata (pack_metadata p.metadata)
        (λ v. when_value v [] (λ b. read_metadata (length b) b [])) (text_update []) (found 0x96)
        refl
        (λ b some_entry e.
          when_value_list (λ b. read_metadata (length b) b []) b refl
            (read_metadata-pack_metadata p.metadata [] (length b) (omega arith) e))

  -- Every property of the view but `blob_refs` and `ack_info` returns the packet's field.
  pub Clean-Shows : Shows p es
  unfolding extension_fields view_confidence view_priority view_trace
  Clean-Shows = record {
    session_shown = session_lem;
    origin_shown = origin_lem;
    targets_shown = texts_shown 0x82 p.targets clean.targets_plain (found 0x82);
    intent_shown = text_shown 0x83 p.intent (found 0x83);
    response_shown = response_lem;
    confidence_shown = found_confidence p.confidence clean.confidence_double (found 0x85);
    priority_shown = found_priorities p.priority (found 0x86);
    capabilities_shown = texts_shown 0x87 p.capabilities clean.capabilities_plain (found 0x87);
    qos_shown = qos_lem;
    security_shown = found_bytes p.security clean.security_sent (found 0x89);
    trace_shown =
        found_each p.trace pack_trace read_trace (found 0x8A) (λ t b e. read_trace-pack_trace t e);
    chunk_shown = chunk_lem;
    backpressure_shown = backpressure_lem;
    error_shown = error_lem;
    target_caps_shown = texts_shown 0x90 p.target_caps clean.target_caps_plain (found 0x90);
    schema_shown = text_shown 0x91 p.schema_id (found 0x91);
    stream_shown = found_bytes p.stream_id clean.stream_id_sent (found 0x92);
    partial_shown = found_bytes p.partial_result clean.partial_result_sent (found 0x93);
    model_shown = model_lem;
    tool_shown = tool_lem;
    metadata_shown = metadata_lem;
  }
