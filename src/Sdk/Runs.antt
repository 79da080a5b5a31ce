-- ===== src/Sdk/Runs.antt =====
-- Concrete runs of aicl/sdk, and the theorems at concrete inputs.
use aicl.Common.{
  All, List, [], false, get_elem?, if◌then◌else◌, map, refl, some, true, ℕ, ◌++◌, ◌==◌, ◌∷◌, ◌≡◌,
}
use aicl.Py.Result.{err, ok, value_error}
use aicl.Py.Utf8.{Str}
use aicl.Sdk.Cancellation.{
  Callback, TokenCall, cancels, invoke_all, new_token, registers, token_run, wait,
}
use aicl.Sdk.Cancellation.Once.{registered, token_run-new_token}
use aicl.Sdk.Capabilities.{Capability, any_tag, find, has, matches, occurs_in, starts_with}
use aicl.Sdk.Runtime.{
  Runtime, RuntimeCall, close_model, close_models, closes_runtime, connect_any, connects_any,
  connects_to, new_runtime, or_name, register, runtime_close, runtime_connect, runtime_run,
}
use aicl.Sdk.Runtime.Closed.{ClosedAt, runtime_close-ClosedAt}
use aicl.Sdk.Runtime.Registry.{IsSound, runtime_run-IsSound}
use aicl.Sdk.Runtime.Served.{runtime_connect-has}

-- Callbacks that note their number; the second raises.
abbrev notes : ℕ → Callback (List ℕ)
notes n w = (if n == 2 then err value_error else ok tt, w ++ (n ∷ []))

abbrev token_calls : List (TokenCall (List ℕ))
token_calls =
    registers (notes 1) ∷ registers (notes 2) ∷ cancels ∷ registers (notes 3) ∷ cancels ∷ []

token_notes : (token_run token_calls (new_token, [])).1 ≡ 1 ∷ 2 ∷ 3 ∷ []
unfolding token_run invoke_all
token_notes = refl

token_run-new_token_example :
    ((token_run token_calls (new_token, [])).0.cancelled ≡ true)
    × (wait (token_run token_calls (new_token, [])).0 ≡ true)
    × ((token_run token_calls (new_token, [])).1 ≡ invoke_all (registered token_calls) [])
token_run-new_token_example = token_run-new_token token_calls []

-- A runtime with the capability "ab", and a "lower" that knows small letters only.
abbrev an_ability : Capability
an_ability = record {
  name = 0x61 ∷ 0x62 ∷ [];
  version = [];
  description = [];
  max_payload = 0;
  tags = [];
}

abbrev same_text : Str → Str
same_text s = s

abbrev a_runtime : Runtime
a_runtime = new_runtime [] (an_ability ∷ [])

abbrev runtime_calls : List RuntimeCall
runtime_calls =
    connects_to (0x62 ∷ []) []
    ∷ connects_any ((0x63 ∷ []) ∷ (0x61 ∷ []) ∷ []) []
    ∷ closes_runtime
    ∷ []

-- Two models with one capability: closing the runtime closes the second only.
first_model_stays_open :
    map (λ m. m.is_closed) (runtime_run same_text runtime_calls a_runtime).heap ≡ false ∷ true ∷ []
unfolding connect_any runtime_connect runtime_close close_models close_model register find matches
    any_tag occurs_in starts_with
first_model_stays_open = refl

ability_is_there : has a_runtime.capabilities (0x61 ∷ 0x62 ∷ []) ≡ true
unfolding has
ability_is_there = refl

runtime_connect-has_example :
    (cap : Capability) × ((runtime_connect same_text (0x61 ∷ 0x62 ∷ []) [] a_runtime).0 ≡ ok 0)
    × (get_elem? (runtime_connect same_text (0x61 ∷ 0x62 ∷ []) [] a_runtime).1.heap 0
        ≡ some (record { capability = cap; name = or_name [] cap.name; is_closed = false }))
    × (matches same_text cap (0x61 ∷ 0x62 ∷ []) ≡ true)
runtime_connect-has_example =
    runtime_connect-has same_text (0x61 ∷ 0x62 ∷ []) [] a_runtime refl ability_is_there

runtime_run-IsSound_example : IsSound (runtime_run same_text runtime_calls a_runtime)
runtime_run-IsSound_example = runtime_run-IsSound same_text [] (an_ability ∷ []) runtime_calls

abbrev one_call : List RuntimeCall
one_call = connects_to (0x62 ∷ []) [] ∷ []

runtime_close-ClosedAt_example :
    All
      (λ (p : Str × ℕ).
        ClosedAt (runtime_close (runtime_run same_text one_call a_runtime)).heap p.1)
      (runtime_run same_text one_call a_runtime).models
runtime_close-ClosedAt_example = runtime_close-ClosedAt same_text [] (an_ability ∷ []) one_call
