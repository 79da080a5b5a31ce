-- ===== src/Sdk/Runtime/Registry.antt =====
-- aicl/sdk/runtime.py: the registry names the models that are there.
use aicl.Common.{
  All, Bool-cases, List, Option, [], ap, arith, false, get_elem?, inl, inr, length, none, refl,
  same_list, same_list→eq, some, subst, suc, sym, true, zero, ℕ, ◌++◌, ◌∙◌, ◌∷◌, ◌≡◌,
}
use aicl.Py.Result.{Result, aicl_error, err}
use aicl.Py.Utf8.{Str}
use aicl.Sdk.Capabilities.{Capability, find}
use aicl.Sdk.Runtime.{
  Model, Runtime, RuntimeCall, close_model, closes_model, closes_runtime, connect_any,
  connect_first, connects_any, connects_to, lacks_capability, new_runtime, or_name, or_next,
  register, runtime_close, runtime_connect, runtime_run, runtime_step,
}

-- The handle of an entry is that of a model with the capability of this name.
abbrev pub Registered : List Model → Str × ℕ → Type 0
Registered heap p = (m : Model) × (get_elem? heap p.1 ≡ some m) × (m.capability.name ≡ p.0)

-- Every entry of the registry is registered, a closed runtime has none, and its transport is closed
-- with it.
abbrev pub IsSound : Runtime → Type 0
IsSound r =
    All (Registered r.heap) r.models
    × (r.is_closed ≡ true → r.models ≡ [])
    × (r.transport_closed ≡ r.is_closed)

get_elem?-append :
    (heap more : List Model) (i : ℕ) {m : Model}
    → get_elem? heap i ≡ some m
    → get_elem? (heap ++ more) i ≡ some m
get_elem?-append [] more i e = cc
get_elem?-append (x ∷ heap) more zero e = e
get_elem?-append (x ∷ heap) more (suc i) e = get_elem?-append heap more i e

pub get_elem?-length :
    (heap : List Model) (m : Model) → get_elem? (heap ++ (m ∷ [])) (length heap) ≡ some m
get_elem?-length [] m = refl
get_elem?-length (x ∷ heap) m = get_elem?-length heap m

pub All-map :
    (heap heap' : List Model) (models : List (Str × ℕ))
    → ((p : Str × ℕ) → Registered heap p → Registered heap' p)
    → All (Registered heap) models
    → All (Registered heap') models
All-map heap heap' [] f h = tt
All-map heap heap' (p ∷ models) f h = (f p h.0, All-map heap heap' models f h.1)

register-Registered :
    (heap : List Model) (k : Str) (i : ℕ) (models : List (Str × ℕ))
    → Registered heap (k, i)
    → All (Registered heap) models
    → All (Registered heap) (register k i models)
unfolding register
register-Registered heap k i [] new h = (new, tt)
register-Registered heap k i ((l, j) ∷ models) new h = elim (Bool-cases (same_list k l)) [
  | inl same ↦
      rw same (subst (λ (n : Str). Registered heap (n, i)) (same_list→eq k l same) new, h.1)
  | inr differ ↦ rw differ (h.0, register-Registered heap k i models new h.1)
]

name_at : Option Model → Str
name_at none = []
name_at (some m) = m.capability.name

pub close_model-Registered :
    (heap : List Model) (i : ℕ) (p : Str × ℕ)
    → Registered heap p
    → Registered (close_model i heap) p
unfolding close_model name_at
close_model-Registered [] i p h = h
close_model-Registered (m ∷ heap) zero (k, zero) (n, is, name) =
    (record m { is_closed = true }, refl, ap name_at is ∙ name)
close_model-Registered (m ∷ heap) zero (k, suc j) h = h
close_model-Registered (m ∷ heap) (suc i) (k, zero) h = h
close_model-Registered (m ∷ heap) (suc i) (k, suc j) h = close_model-Registered heap i (k, j) h

connect_first-IsSound :
    (name : Str) (caps : List Capability) (r : Runtime)
    → r.is_closed ≡ false
    → IsSound r
    → IsSound (connect_first name caps r).1
connect_first-IsSound name [] r live h = h
connect_first-IsSound name (cap ∷ caps) r live h =
    let new : Model = record {
      capability = cap;
      name = or_name name cap.name;
      is_closed = false;
    } in
    (
      register-Registered (r.heap ++ (new ∷ [])) cap.name (length r.heap) r.models
          (new, get_elem?-length r.heap new, refl)
          (All-map r.heap (r.heap ++ (new ∷ [])) r.models
            (λ p x. (x.0, get_elem?-append r.heap (new ∷ []) p.1 x.1, x.2)) h.0),
      (λ closed. absurd (ground (arith, live, closed))),
      h.2,
    )

or_next-IsSound :
    (outcome next : Result ℕ × Runtime)
    → IsSound outcome.1
    → IsSound next.1
    → IsSound (or_next outcome next).1
or_next-IsSound outcome next h k = elim (Bool-cases (lacks_capability outcome.0)) [
  | inl lacks ↦ rw lacks k
  | inr serves ↦ rw serves h
]

module _ (lower : Str → Str) where
  runtime_connect-IsSound :
      (q name : Str) (r : Runtime) → IsSound r → IsSound (runtime_connect lower q name r).1
  unfolding runtime_connect
  runtime_connect-IsSound q name r h = elim (Bool-cases r.is_closed) [
    | inl shut ↦
        let run : runtime_connect lower q name r ≡ (err aicl_error, r) = ground (arith, shut) in
        subst (λ (x : Result ℕ × Runtime). IsSound x.1) (sym run) h
    | inr live ↦
        let caps : List Capability = find lower r.capabilities q in
        let run : runtime_connect lower q name r ≡ connect_first name caps r =
          ground (arith, live) in
        subst (λ (x : Result ℕ × Runtime). IsSound x.1) (sym run)
          (connect_first-IsSound name caps r live h)
  ]

  connect_any-IsSound :
      (qs : List Str) (name : Str) (r : Runtime)
      → IsSound r
      → IsSound (connect_any lower qs name r).1
  unfolding connect_any
  connect_any-IsSound [] name r h = h
  connect_any-IsSound (q ∷ qs) name r h =
      or_next-IsSound (runtime_connect lower q name r) (connect_any lower qs name r)
        (runtime_connect-IsSound q name r h) (connect_any-IsSound qs name r h)

  step-IsSound : (c : RuntimeCall) (r : Runtime) → IsSound r → IsSound (runtime_step lower c r)
  unfolding runtime_close
  step-IsSound (connects_to q name) r h = runtime_connect-IsSound q name r h
  step-IsSound (connects_any qs name) r h = connect_any-IsSound qs name r h
  step-IsSound (closes_model i) r h = (
    All-map r.heap (close_model i r.heap) r.models (close_model-Registered r.heap i) h.0,
    h.1,
    h.2,
  )
  step-IsSound closes_runtime r h = (tt, (λ _. refl), refl)

  run-IsSound :
      (calls : List RuntimeCall) (r : Runtime) → IsSound r → IsSound (runtime_run lower calls r)
  run-IsSound [] r h = h
  run-IsSound (c ∷ calls) r h = run-IsSound calls (runtime_step lower c r) (step-IsSound c r h)

  -- After any calls of a new runtime, every entry of the registry leads to a model with the
  -- capability that the entry names, the registry of a closed runtime is empty, and
  -- the transport is closed exactly if the runtime is.
  pub runtime_run-IsSound :
      (builtin caps : List Capability) (calls : List RuntimeCall)
      → IsSound (runtime_run lower calls (new_runtime builtin caps))
  runtime_run-IsSound builtin caps calls = run-IsSound calls _ (tt, (λ _. refl), refl)
