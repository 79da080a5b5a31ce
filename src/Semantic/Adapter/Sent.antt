-- ===== src/Semantic/Adapter/Sent.antt =====
-- aicl/semantic/adapter.py: the packets that `action_to_packet` makes.
use aicl.Common.{
  ==_iff, All, Bool, Option, ap, arith, false, length, pos, refl, some, sym, true, ℕ, ◌<◌, ◌==◌,
  ◌^◌, ◌∙◌, ◌≡◌,
}
use aicl.Bin.Access.Lists.{IsPlain}
use aicl.Bin.Access.Shown.{Clean}
use aicl.Bin.Packet.{Packet, post_init}
use aicl.Bin.Types.{ModelInvocation, ToolInvocation}
use aicl.Py.Result.{>>=-eq-ok, Exc, encode_error, guard, map_ok, ok, ok-injective, semantic_error}
use aicl.Py.Struct.{Bytes}
use aicl.Py.Utf8.{Str}
use aicl.Semantic.Action.{is_nil, is_valid, validate}
use aicl.Semantic.Adapter.{
  Action, SemanticAdapter, action_to_packet, base_packet, build_symbols, model_action, model_of,
  packet_flags, targets_of, tool_of, with_intent, zeros_or_uuid,
}
use aicl.Semantic.Intents.{intent_to_opcode, intent_value}

guard-eq-ok : (c : Bool) (e : Exc) {u : Unit {0}} → guard c e ≡ ok u → c ≡ true
guard-eq-ok true e h = refl
guard-eq-ok false e h = cc

pub post_init-eq-ok :
    (fresh_s fresh_m s m c : Bytes) {three : Bytes × Bytes × Bytes}
    → post_init fresh_s fresh_m (some s) (some m) (some c) ≡ ok three
    → (length s ≡ 16) × (three ≡ (s, m, c))
unfolding post_init
post_init-eq-ok fresh_s fresh_m s m c h =
    let (_, h1, e1) = >>=-eq-ok (guard (length s == 16) encode_error) _ h in
    let (_, h2, e2) = >>=-eq-ok (guard (length m == 16) encode_error) _ e1 in
    let (_, h3, e3) = >>=-eq-ok (guard (length c == 16) encode_error) _ e2 in
    ((==_iff (length s) 16).0 (guard-eq-ok (length s == 16) encode_error h1), sym (ok-injective e3))

module _ (float_repr : ℕ → Str) (text_repr : Str → Str) where
  -- The packet of an action, with its invocations.
  abbrev pub packet_of :
      SemanticAdapter
      → Bytes × Bytes × Bytes
      → Action
      → Option ToolInvocation
      → Option ModelInvocation
      → Packet
  packet_of adapter three a tool model =
      record (base_packet (packet_flags a.stream a.cancel) three
        (record { id_type = adapter.identity_type; name = adapter.origin; instance_id = pos 0 })
        (intent_to_opcode a.intent) (intent_value a.intent) (build_symbols float_repr text_repr a)
        a.confidence (with_intent float_repr text_repr a.intent a.metadata)) {
          targets = targets_of a.target;
          deadline_ms = a.deadline_ms;
          tool_invocation = tool;
          model_invocation = model;
        }

  -- What the success of `action_to_packet` says.
  pub action_to_packet-eq-ok :
      (adapter : SemanticAdapter) (session message : Bytes) (a : Action) {p : Packet}
      → action_to_packet float_repr text_repr adapter session message a ≡ ok p
      → (correlation : Bytes) × (tool : Option ToolInvocation) × (model : Option ModelInvocation)
        × (is_valid (model_action a) ≡ ok true)
        × ((adapter.gate.check_outbound (model_action a)).allowed ≡ true)
        × (zeros_or_uuid a.correlation_id ≡ ok correlation)
        × (length session ≡ 16)
        × (p ≡ packet_of adapter (session, message, correlation) a tool model)
  unfolding action_to_packet is_valid
  action_to_packet-eq-ok adapter session message a h =
      let (errors, h1, e1) = >>=-eq-ok (validate (model_action a)) _ h in
      let (_, h2, e2) = >>=-eq-ok (guard (is_nil errors) semantic_error) _ e1 in
      let (_, h3, e3) =
        >>=-eq-ok (guard (adapter.gate.check_outbound (model_action a)).allowed semantic_error) _
          e2 in
      let (correlation, h4, e4) = >>=-eq-ok (zeros_or_uuid a.correlation_id) _ e3 in
      let (three, h5, e5) =
        >>=-eq-ok (post_init session message (some session) (some message) (some correlation)) _
          e4 in
      let (tool, h6, e6) = >>=-eq-ok (tool_of float_repr text_repr a.intent a.params) _ e5 in
      let (model, h7, e7) =
        >>=-eq-ok (model_of float_repr text_repr a.intent a.target a.params) _ e6 in
      let (size, is) = post_init-eq-ok session message session message correlation h5 in
      (
        correlation,
        tool,
        model,
        ap (map_ok is_nil) h1 ∙ ap ok (guard-eq-ok (is_nil errors) semantic_error h2),
        guard-eq-ok (adapter.gate.check_outbound (model_action a)).allowed semantic_error h3,
        h4,
        size,
        sym (ok-injective e7) ∙ (λ j. packet_of adapter (is j) a tool model),
      )

  -- Nothing in such a packet is lost on the wire, if its target has no comma.
  pub packet_of-Clean :
      (adapter : SemanticAdapter) (a : Action) (session message correlation : Bytes)
      (tool : Option ToolInvocation) (model : Option ModelInvocation)
      → length session ≡ 16
      → All IsPlain (targets_of a.target)
      → a.confidence < 2 ^ 64
      → Clean (packet_of adapter (session, message, correlation) a tool model)
  packet_of-Clean adapter a session message correlation tool model size plain small = record {
    session = omega arith;
    targets_plain = plain;
    capabilities_plain = tt;
    target_caps_plain = tt;
    response_fits = tt;
    confidence_double = small;
    security_sent = λ h. cc;
    stream_id_sent = λ h. cc;
    partial_result_sent = λ h. cc;
    details_sent = λ e h. absurd (cc);
  }
