-- ===== src/Sdk/Cancellation/Once.antt =====
-- aicl/sdk/_cancellation.py: every registered callback runs once, in the order of registration, and
-- only if the token is cancelled.
use aicl.Common.{
  Bool, List, [], ap, append_assoc, false, if◌then◌else◌, refl, sym, true, ◌++◌, ◌∙◌, ◌∷◌, ◌≡◌,
}
use aicl.Sdk.Cancellation.{
  Callback, Token, TokenCall, cancels, invoke, invoke_all, new_token, registers, token_run, wait,
}

-- Whether the calls cancel, and what they register.
abbrev pub cancels_in : {W : Type 0} → List (TokenCall W) → Bool
cancels_in [] = false
cancels_in (cancels ∷ cs) = true
cancels_in (registers cb ∷ cs) = cancels_in cs

abbrev pub registered : {W : Type 0} → List (TokenCall W) → List (Callback W)
registered [] = []
registered (cancels ∷ cs) = registered cs
registered (registers cb ∷ cs) = cb ∷ registered cs

invoke_all-append :
    {W : Type 0} (xs ys : List (Callback W)) (w : W)
    → invoke_all (xs ++ ys) w ≡ invoke_all ys (invoke_all xs w)
unfolding invoke_all
invoke_all-append [] ys w = refl
invoke_all-append (x ∷ xs) ys w = invoke_all-append xs ys (invoke x w)

-- A cancelled token runs what is registered at once.
run_cancelled :
    {W : Type 0} (cs : List (TokenCall W)) (e : Bool) (cbs : List (Callback W)) (w : W)
    → token_run cs (record { cancelled = true; event_set = e; callbacks = cbs }, w)
      ≡ (record { cancelled = true; event_set = e; callbacks = cbs }, invoke_all (registered cs) w)
unfolding token_run invoke_all
run_cancelled [] e cbs w = refl
run_cancelled (cancels ∷ cs) e cbs w = run_cancelled cs e cbs w
run_cancelled (registers cb ∷ cs) e cbs w = run_cancelled cs e cbs (invoke cb w)

run_active :
    {W : Type 0} (cs : List (TokenCall W)) (cbs : List (Callback W)) (w : W)
    → let s : Token W × W =
        token_run cs (record { cancelled = false; event_set = false; callbacks = cbs }, w) in
      (s.0.cancelled ≡ cancels_in cs)
      × (s.0.event_set ≡ cancels_in cs)
      × (s.1 ≡ (if cancels_in cs then invoke_all (cbs ++ registered cs) w else w))
unfolding token_run
run_active [] cbs w = (refl, refl, refl)
run_active (cancels ∷ cs) cbs w =
    let done = run_cancelled cs true cbs (invoke_all cbs w) in
    (
      ap (λ s. s.0.cancelled) done,
      ap (λ s. s.0.event_set) done,
      ap (λ s. s.1) done ∙ sym (invoke_all-append cbs (registered cs) w),
    )
run_active (registers cb ∷ cs) cbs w =
    let (a, b, c) = run_active cs (cbs ++ (cb ∷ [])) w in
    (
      a,
      b,
      c
          ∙ ap (λ (all : List (Callback _)). if cancels_in cs then invoke_all all w else w)
              (append_assoc cbs (cb ∷ []) (registered cs)),
    )

-- From a new token and whatever the calls: the token is cancelled, and `wait` sees it, exactly if
-- `cancel` was called; then every registered callback has run once, in the order of registration,
-- those that raise included, wherever the first `cancel` stands among the calls; and no callback
-- has run otherwise.
pub token_run-new_token :
    {W : Type 0} (cs : List (TokenCall W)) (w : W)
    → ((token_run cs (new_token, w)).0.cancelled ≡ cancels_in cs)
      × (wait (token_run cs (new_token, w)).0 ≡ cancels_in cs)
      × ((token_run cs (new_token, w)).1
          ≡ (if cancels_in cs then invoke_all (registered cs) w else w))
token_run-new_token cs w = run_active cs [] w
