-- ===== src/Semantic/Adapter/Parsed.antt =====
-- aicl/semantic/adapter.py: what `parse_model_output` makes of JSON and of other texts.
use aicl.Common.{
  All, Bool, Bool-cases, List, Option, [], ap, append_assoc, false, inl, inr, none, refl, reverse,
  some, sym, true, ℕ, ◌++◌, ◌∙◌, ◌∷◌, ◌≡◌, ◌≢◌, ◌⊎◌,
}
use aicl.Py.Any.{
  Any, Dict, key, no_keys, of_bool, of_dict, of_float, of_int, of_list, of_none, of_str,
}
use aicl.Py.Json.Dump.{dump_first_key, dump_next_key, dump_string, dumps}
use aicl.Py.Json.Load.{loads}
use aicl.Py.Json.Consumed.{Scans, refused, scanned}
use aicl.Py.Json.Heads.{IsJson, compact}
use aicl.Py.Json.RoundTrip.{loads-dumps}
use aicl.Py.Json.Total.{loads_total}
use aicl.Py.Result.{Result, ok}
use aicl.Py.Utf8.{Str}
use aicl.Py.Uuid.{drop_while, strip}
use aicl.Sdk.Capabilities.{occurs_in}
use aicl.Semantic.Action.{ModelAction, action_from_dict, action_to_dict}
use aicl.Semantic.Action.RoundTrip.{IsTyped, action_from_dict-action_to_dict}
use aicl.Semantic.Adapter.Output.{
  first_intent, from_json, is_white, keyword_action, parse_model_output, parse_stripped, text_dict,
  without_json,
}
use aicl.Semantic.Intents.{ModelIntent, all_intents, intent_value, return_result}
use mathlib.Core.List.{reverse-append, reverse-reverse}

drop_while_stop :
    (test : ℕ → Bool) (x : ℕ) (s : Str) → test x ≡ false → drop_while test (x ∷ s) ≡ x ∷ s
unfolding drop_while
drop_while_stop test x s h = rw h

reverse_ends : (x y : ℕ) (s : Str) → reverse (x ∷ (s ++ (y ∷ []))) ≡ y ∷ reverse (x ∷ s)
reverse_ends x y s = reverse-append (x ∷ s) (y ∷ [])

-- A text whose first and last characters stay is not changed.
strip_ends :
    (test : ℕ → Bool) (x y : ℕ) (s : Str)
    → test x ≡ false
    → test y ≡ false
    → strip test (x ∷ (s ++ (y ∷ []))) ≡ x ∷ (s ++ (y ∷ []))
strip_ends test x y s h k =
    let t : Str = x ∷ (s ++ (y ∷ [])) in
    ap (λ (r : Str). reverse (drop_while test (reverse r)))
      (drop_while_stop test x (s ++ (y ∷ [])) h)
    ∙ ap (λ (r : Str). reverse (drop_while test r)) (reverse_ends x y s)
    ∙ ap reverse (drop_while_stop test y (reverse (x ∷ s)) k)
    ∙ ap reverse (sym (reverse_ends x y s))
    ∙ reverse-reverse t

-- A text that ends with a closing brace.
abbrev Ends : Str → Type 0
Ends s = (front : Str) × (s ≡ front ++ (0x7D ∷ []))

Ends-append : (a : Str) {s : Str} → Ends s → Ends (a ++ s)
Ends-append a {s} (front, is) =
    (a ++ front, ap (λ (t : Str). a ++ t) is ∙ sym (append_assoc a front (0x7D ∷ [])))

-- The value of an intent, if there is one, stands in the text.
abbrev intent_occurs : Str → Option ModelIntent → Bool
intent_occurs text none = false
intent_occurs text (some i) = occurs_in (intent_value i) text

first_intent-some :
    (text : Str) (intents : List ModelIntent) {i : ModelIntent}
    → first_intent text intents ≡ some i
    → occurs_in (intent_value i) text ≡ true
unfolding first_intent
first_intent-some text [] h = cc
first_intent-some text (j ∷ intents) {i} h = elim (Bool-cases (occurs_in (intent_value j) text)) [
  | inl e ↦
      let one : first_intent text (j ∷ intents) ≡ some j = rw e in
      ap (intent_occurs text) (sym h ∙ one) ∙ e
  | inr e ↦ first_intent-some text intents (sym (rw e) ∙ h)
]

first_intent-none :
    (text : Str) (intents : List ModelIntent)
    → first_intent text intents ≡ none
    → All (λ i. occurs_in (intent_value i) text ≡ false) intents
unfolding first_intent
first_intent-none text [] h = tt
first_intent-none text (j ∷ intents) h = elim (Bool-cases (occurs_in (intent_value j) text)) [
  | inl e ↦ absurd (cc)
  | inr e ↦ (e, first_intent-none text intents (sym (rw e) ∙ h))
]

module _ (float_repr : ℕ → Str) (float_of : Str → ℕ) (upper : Str → Str) where
  dump_next_key-Ends : (d : Dict) → Ends (dump_next_key float_repr compact d)
  unfolding dumps
  dump_next_key-Ends no_keys = ([], refl)
  dump_next_key-Ends (key k v d) = Ends-append (0x2C ∷ []) (
      Ends-append (dump_string false k)
        (Ends-append (0x3A ∷ []) (Ends-append (dumps float_repr compact v) (dump_next_key-Ends d))))

  dump_first_key-Ends : (d : Dict) → Ends (dump_first_key float_repr compact d)
  unfolding dumps
  dump_first_key-Ends no_keys = ([], refl)
  dump_first_key-Ends (key k v d) =
      Ends-append (dump_string false k)
        (Ends-append (0x3A ∷ []) (Ends-append (dumps float_repr compact v) (dump_next_key-Ends d)))

  parse_model_output-dumps :
      (d : Dict)
      → IsJson float_repr float_of (of_dict d)
      → parse_model_output float_of upper (dumps float_repr compact (of_dict d))
        ≡ action_from_dict d
  unfolding parse_model_output dumps
  parse_model_output-dumps d j =
      let (front, is) = dump_first_key-Ends d in
      ap (parse_stripped float_of upper) (
        ap (λ (t : Str). strip is_white (0x7B ∷ t)) is
        ∙ strip_ends is_white 0x7B 0x7D front refl refl
        ∙ ap (λ (t : Str). 0x7B ∷ t) (sym is))
      ∙ ap (from_json float_of upper (dumps float_repr compact (of_dict d)))
          (loads-dumps float_repr float_of (of_dict d) j)

  -- `parse_model_output` reads back the action from the compact JSON of its `to_dict`, if its fields
  -- have their types and the dict can be printed as JSON and read back.
  pub parse_model_output-action_to_dict :
      (a : ModelAction)
      → IsTyped a
      → IsJson float_repr float_of (of_dict (action_to_dict a))
      → parse_model_output float_of upper (dumps float_repr compact (of_dict (action_to_dict a)))
        ≡ ok a
  parse_model_output-action_to_dict a typ j =
      parse_model_output-dumps (action_to_dict a) j ∙ action_from_dict-action_to_dict a typ

  from_json_other :
      (raw : Str) {r : Result Any}
      → ((d : Dict) → r ≢ ok (of_dict d))
      → Scans (λ v. Unit {0}) r
      → from_json float_of upper raw r ≡ ok (without_json float_of upper raw)
  from_json_other raw no_dict refused = refl
  from_json_other raw no_dict (scanned {a = of_dict d} u) = absurd (no_dict d refl)
  from_json_other raw no_dict (scanned {a = of_none} u) = refl
  from_json_other raw no_dict (scanned {a = of_bool b} u) = refl
  from_json_other raw no_dict (scanned {a = of_int z} u) = refl
  from_json_other raw no_dict (scanned {a = of_float d} u) = refl
  from_json_other raw no_dict (scanned {a = of_str t} u) = refl
  from_json_other raw no_dict (scanned {a = of_list vs} u) = refl

  -- On a text that is not blank and no JSON object, `parse_model_output` returns an action: if one of
  -- the intents stands in the upper-case text, an action whose intent stands there, with the stripped
  -- text as its input; if none does, RETURN_RESULT with the stripped text as its result.
  pub parse_model_output_keyword :
      (raw : Str) (c : ℕ) (s : Str)
      → strip is_white raw ≡ c ∷ s
      → ((d : Dict) → loads float_of (c ∷ s) ≢ ok (of_dict d))
      → (a : ModelAction) × (parse_model_output float_of upper raw ≡ ok a)
        × (((occurs_in (intent_value a.intent) (upper (c ∷ s)) ≡ true)
              × (a.inputs ≡ of_dict (text_dict (c ∷ s))))
            ⊎ (All (λ i. occurs_in (intent_value i) (upper (c ∷ s)) ≡ false) all_intents
                × (a.intent ≡ return_result)
                × (a.result ≡ of_dict (text_dict (c ∷ s)))))
  unfolding parse_model_output
  parse_model_output_keyword raw c s is no_dict = (
    without_json float_of upper (c ∷ s),
    ap (parse_stripped float_of upper) is
        ∙ from_json_other (c ∷ s) no_dict (loads_total float_of (c ∷ s)),
    found (first_intent (upper (c ∷ s)) all_intents) refl,
  )
    where
      found :
          (o : Option ModelIntent)
          → first_intent (upper (c ∷ s)) all_intents ≡ o
          → ((occurs_in (intent_value (keyword_action (c ∷ s) o).intent) (upper (c ∷ s)) ≡ true)
              × ((keyword_action (c ∷ s) o).inputs ≡ of_dict (text_dict (c ∷ s))))
            ⊎ (All (λ i. occurs_in (intent_value i) (upper (c ∷ s)) ≡ false) all_intents
                × ((keyword_action (c ∷ s) o).intent ≡ return_result)
                × ((keyword_action (c ∷ s) o).result ≡ of_dict (text_dict (c ∷ s))))
      found (some i) h = inl (first_intent-some (upper (c ∷ s)) all_intents h, refl)
      found none h = inr (first_intent-none (upper (c ∷ s)) all_intents h, refl, refl)
