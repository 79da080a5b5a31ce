-- ===== src/Semantic/Adapter/Arrival.antt =====
-- aicl/semantic/adapter.py: an action that one adapter sends, as another one sees it.
use aicl.Common.{
  All, Bool, List, [], ap, length, pos, refl, some, sym, true, ℕ, ℤ, ◌<◌, ◌^◌, ◌∙◌, ◌≡◌, ◌≤◌,
}
use aicl.Bin.Access.Lists.{IsPlain}
use aicl.Bin.Access.Metadata.{text_update}
use aicl.Bin.Access.Shown.{Clean-Shows, Shows}
use aicl.Bin.Codec.{encode}
use aicl.Bin.Codec.RoundTrip.{decode-encode}
use aicl.Bin.Header.{max_payload}
use aicl.Bin.Packet.{Packet, build_payload}
use aicl.Bin.Types.{Identity}
use aicl.Bin.View.{PacketView}
use aicl.Bin.View.Payload.{IsCore}
use aicl.Py.Any.{codes, key, no_keys, of_dict, of_float, of_int, of_str}
use aicl.Py.Result.{ok, ◌>>=◌}
use aicl.Py.Struct.{Bytes}
use aicl.Py.Utf8.{Str}
use aicl.Py.Uuid.{hex}
use aicl.Semantic.Action.{is_valid}
use aicl.Semantic.Adapter.{
  Action, SemanticAdapter, action_to_packet, build_symbols, model_action, targets_of, with_intent,
}
use aicl.Semantic.Adapter.Inbound.{bytes_to_observation, observe, texts_dict, view_to_observation}
use aicl.Semantic.Adapter.Sent.{action_to_packet-eq-ok, packet_of, packet_of-Clean}
use aicl.Semantic.Intents.{ModelIntent, intent_value}
use aicl.Semantic.Messages.{ModelObservation}

-- The observation that arrives.
abbrev pub arrived : Str → Bytes → ModelIntent → ℕ → ℤ → List (Str × Str) → ModelObservation
arrived origin session intent confidence deadline metadata = record {
  task = of_str (intent_value intent);
  context = of_dict (key (codes "intent") (of_str (intent_value intent)) no_keys);
  inputs = of_dict no_keys;
  params = of_dict no_keys;
  schema_id = of_str [];
  trace_id = of_str (hex session);
  origin = of_str origin;
  confidence = of_float confidence;
  deadline_ms = of_int deadline;
  metadata = of_dict (texts_dict metadata);
}

observe-Shows :
    (view : PacketView) (p : Packet) (i : Identity)
    → p.origin ≡ some i
    → p.schema_id ≡ []
    → Shows p view.extensions
    → observe view
      ≡ ok (record {
        task = of_str p.intent;
        context = of_dict (key (codes "intent") (of_str p.intent) no_keys);
        inputs = of_dict no_keys;
        params = of_dict no_keys;
        schema_id = of_str [];
        trace_id = of_str (hex p.session_id);
        origin = of_str i.name;
        confidence = of_float p.confidence;
        deadline_ms = of_int (pos view.header.deadline_ms);
        metadata = of_dict (texts_dict (text_update [] p.metadata));
      })
unfolding observe
observe-Shows view p i origin schema shows = rw (
  shows.intent_shown, shows.metadata_shown, shows.schema_shown, shows.origin_shown,
  shows.confidence_shown, shows.session_shown, origin, schema,
)

let_in :
    (adapter : SemanticAdapter) (view : PacketView)
    → (adapter.gate.check_inbound view).allowed ≡ true
    → view_to_observation adapter view ≡ observe view
unfolding view_to_observation
let_in adapter view h = rw h

module _ (float_repr : ℕ → Str) (text_repr : Str → Str) where
  -- If `action_to_packet` makes a packet of an action whose operands fit, whose target has no comma and
  -- whose confidence is a double, and `encode` puts its payload of at most 0xFFFFFF bytes on the wire,
  -- with or without the checksum, then the action is valid, and `bytes_to_observation` of an adapter
  -- whose gate lets every packet in accepts the bytes and yields the observation whose task is the
  -- intent, whose trace id is the session id in hex, whose origin is the sender's, whose confidence and
  -- deadline are those of the action, and whose metadata are the intent and the action's metadata in
  -- texts; its inputs and parameters are empty, whatever those of the action are.
  pub bytes_to_observation-encode :
      (sender receiver : SemanticAdapter) (session message : Bytes) (a : Action) (checksum : Bool)
      {p : Packet} {payload wire : Bytes}
      → ((view : PacketView) → (receiver.gate.check_inbound view).allowed ≡ true)
      → All IsCore (build_symbols float_repr text_repr a)
      → All IsPlain (targets_of a.target)
      → a.confidence < 2 ^ 64
      → action_to_packet float_repr text_repr sender session message a ≡ ok p
      → build_payload p ≡ ok payload
      → length payload ≤ max_payload
      → encode p checksum ≡ ok wire
      → (is_valid (model_action a) ≡ ok true)
        × (bytes_to_observation receiver wire
            ≡ ok (
                arrived sender.origin session a.intent a.confidence a.deadline_ms
                  (text_update [] (with_intent float_repr text_repr a.intent a.metadata))))
  unfolding bytes_to_observation
  bytes_to_observation-encode sender receiver session message a checksum {p} {payload} {wire} gate
        core plain small made built fits packs =
      let (correlation, tool, model, valid, _, _, size, is) =
        action_to_packet-eq-ok float_repr text_repr sender session message a made in
      let q : Packet =
        packet_of float_repr text_repr sender (session, message, correlation) a tool model in
      let (view, accepted, carries) =
        decode-encode q checksum core (ap build_payload (sym is) ∙ built) fits
          (ap (λ (x : Packet). encode x checksum) (sym is) ∙ packs) in
      let clean =
        packet_of-Clean float_repr text_repr sender a session message correlation tool model size
          plain small in
      let seen =
        observe-Shows view q _ refl refl
          (Clean-Shows q view.extensions clean carries.extensions_same) in
      (
        valid,
        ap (λ r. r >>= view_to_observation receiver) accepted
            ∙ let_in receiver view (gate view)
            ∙ seen
            ∙ (λ j. ok (
                arrived sender.origin session a.intent a.confidence (carries.deadline_same j)
                  (text_update [] (with_intent float_repr text_repr a.intent a.metadata)))),
      )
