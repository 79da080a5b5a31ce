-- ===== src/Semantic/Adapter/Results.antt =====
-- aicl/semantic/adapter.py: the answer to a request, in bytes. The fields of a result have their
-- annotated types.
use aicl.Common.{
  All, List, Option, [], arith, false, length, none, pos, some, subst, sym, ℕ, ℤ, ◌++◌, ◌<◌, ◌^◌,
  ◌∙◌, ◌∷◌, ◌≡◌, ◌≤◌,
}
use aicl.Bin.Access.{view_text}
use aicl.Bin.Access.Errors.{IsDetails}
use aicl.Bin.Access.Infos.{view_error_info}
use aicl.Bin.Access.Shown.{Clean, Clean-Shows}
use aicl.Bin.Codec.{decode, encode}
use aicl.Bin.Codec.RoundTrip.{decode-encode}
use aicl.Bin.Header.{max_payload}
use aicl.Bin.Packet.{Packet, build_payload, post_init}
use aicl.Bin.Symbol.{Symbol, str, symbol}
use aicl.Bin.Types.{ErrorInfo}
use aicl.Bin.View.{PacketView}
use aicl.Bin.View.Payload.{IsCore}
use aicl.Py.Any.{
  Any, Dict, codes, dict_update, key, no_keys, of_dict, of_float, of_int, of_none, of_str,
}
use aicl.Py.Result.{>>=-eq-ok, Result, ok, ok-injective, ◌>>=◌}
use aicl.Py.Show.{str_of}
use aicl.Py.Struct.{Bytes}
use aicl.Py.Utf8.{Str}
use aicl.Semantic.Adapter.{SemanticAdapter, base_packet, texts_of, to_binary_symbol, zeros_or_uuid}
use aicl.Semantic.Adapter.Sent.{post_init-eq-ok}
use aicl.Semantic.Intents.{ModelIntent, intent_to_opcode, intent_value}

pub record Answer : Type 0 where
  pub intent : ModelIntent
  pub output : Any
  pub confidence : ℕ
  pub tokens_used : ℤ
  pub latency_ms : ℕ
  pub error : Option Str
  pub metadata : Dict

-- `if result.error:`
abbrev pub error_text : Option Str → Str
error_text none = []
error_text (some s) = s

-- `session_id or uuid.uuid4().bytes`
abbrev pub session_or : Option Bytes → Bytes → Bytes
session_or none fresh = fresh
session_or (some []) fresh = fresh
session_or (some (b ∷ bs)) fresh = b ∷ bs

abbrev pub error_info_of : Str → Option ErrorInfo
error_info_of [] = none
error_info_of (c ∷ s) =
    some (record { error_code = pos 0x0001; severity = pos 1; message = c ∷ s; details = none })

abbrev pub error_symbols : Str → List Symbol
error_symbols [] = []
error_symbols (c ∷ s) = symbol 0x11 (str (c ∷ s)) ∷ []

abbrev HasDetails : Option ErrorInfo → Type 0
HasDetails none = Unit {0}
HasDetails (some e) = IsDetails e.details

no_details : (s : Str) (e : ErrorInfo) → error_info_of s ≡ some e → IsDetails e.details
no_details [] e h = cc
no_details (c ∷ s) e h = subst HasDetails h tt

module _ (float_repr : ℕ → Str) (text_repr : Str → Str) where
  abbrev pub output_symbols : Any → List Symbol
  output_symbols of_none = []
  output_symbols (of_dict d) = to_binary_symbol float_repr text_repr (of_dict d) ∷ []
  output_symbols (of_str s) = to_binary_symbol float_repr text_repr (of_str s) ∷ []
  output_symbols v =
      to_binary_symbol float_repr text_repr (of_str (str_of float_repr text_repr v)) ∷ []

  abbrev pub result_metadata : Answer → Dict
  result_metadata r =
      dict_update
        (key (codes "semantic_intent") (of_str (intent_value r.intent)) (
          key (codes "tokens_used") (of_int r.tokens_used)
            (key (codes "latency_ms") (of_float r.latency_ms) no_keys)))
        r.metadata

  abbrev pub answer_packet : SemanticAdapter → Bytes × Bytes × Bytes → Answer → Packet
  answer_packet adapter three r =
      record (base_packet 0x0002 three
        (record { id_type = adapter.identity_type; name = adapter.origin; instance_id = pos 0 })
        (intent_to_opcode r.intent) (intent_value r.intent)
        (output_symbols r.output ++ error_symbols (error_text r.error)) r.confidence
        (texts_of float_repr text_repr (result_metadata r))) {
          error_info = error_info_of (error_text r.error);
        }

  -- `result_to_bytes`, with two fresh ids.
  unfoldable pub result_to_bytes :
      SemanticAdapter → Bytes → Bytes → Answer → Str → Option Bytes → Result Bytes
  result_to_bytes adapter fresh message r correlation_id session_id = do
    correlation ← zeros_or_uuid correlation_id
    three ←
        post_init fresh message (some (session_or session_id fresh)) (some message)
          (some correlation)
    encode (answer_packet adapter three r) false

  answer-Clean :
      (adapter : SemanticAdapter) (session message correlation : Bytes) (r : Answer)
      → length session ≡ 16
      → r.confidence < 2 ^ 64
      → Clean (answer_packet adapter (session, message, correlation) r)
  answer-Clean adapter session message correlation r size small = record {
    session = omega arith;
    targets_plain = tt;
    capabilities_plain = tt;
    target_caps_plain = tt;
    response_fits = tt;
    confidence_double = small;
    security_sent = λ h. cc;
    stream_id_sent = λ h. cc;
    partial_result_sent = λ h. cc;
    details_sent = no_details (error_text r.error);
  }

  -- If `result_to_bytes` succeeds on a result whose operands fit and whose confidence is a double, and
  -- the payload has at most 0xFFFFFF bytes, `decode` accepts the bytes; the view has the flag of a
  -- response alone, the correlation id that was asked for, the output and the error as its operands,
  -- the intent, and an error info exactly if the result has an error that is not empty, with its text.
  pub decode-result_to_bytes :
      (adapter : SemanticAdapter) (fresh message : Bytes) (r : Answer) (correlation_id : Str)
      (session_id : Option Bytes) {correlation wire payload : Bytes}
      → zeros_or_uuid correlation_id ≡ ok correlation
      → All IsCore (output_symbols r.output ++ error_symbols (error_text r.error))
      → r.confidence < 2 ^ 64
      → build_payload (answer_packet adapter (session_or session_id fresh, message, correlation) r)
        ≡ ok payload
      → length payload ≤ max_payload
      → result_to_bytes adapter fresh message r correlation_id session_id ≡ ok wire
      → (view : PacketView) × (decode wire ≡ ok view)
        × (view.header.flags ≡ 0x0002)
        × (view.header.correlation_id ≡ correlation)
        × (view.symbols ≡ output_symbols r.output ++ error_symbols (error_text r.error))
        × (view_text 0x83 view.extensions ≡ ok (intent_value r.intent))
        × (view_error_info view.extensions ≡ ok (error_info_of (error_text r.error)))
  unfolding result_to_bytes
  decode-result_to_bytes adapter fresh message r correlation_id session_id {correlation} cis core
        small built fits h =
      let session = session_or session_id fresh in
      let (c, h1, e1) = >>=-eq-ok (zeros_or_uuid correlation_id) _ h in
      let (three, h2, e2) =
        >>=-eq-ok (post_init fresh message (some session) (some message) (some c)) _ e1 in
      let (size, is) = post_init-eq-ok fresh message session message c h2 in
      let same : c ≡ correlation = ok-injective (sym h1 ∙ cis) in
      let p : Packet = answer_packet adapter (session, message, correlation) r in
      let sent_as : encode p false ≡ ok _ =
        (λ j. encode (answer_packet adapter (session, message, sym same j) r) false)
        ∙ (λ j. encode (answer_packet adapter (sym is j) r) false)
        ∙ e2 in
      let (view, accepted, carries) = decode-encode p false core built fits sent_as in
      let shows =
        Clean-Shows p view.extensions
          (answer-Clean adapter session message correlation r size small) carries.extensions_same in
      (
        view, accepted, carries.flags_same, carries.correlation_id_same, carries.symbols_same,
        shows.intent_shown, shows.error_shown,
      )
