-- ===== src/Sdk/Runtime/Closed.antt =====
-- aicl/sdk/runtime.py: `close` closes the models of the registry.
use aicl.Common.{All, List, [], get_elem?, refl, some, suc, true, zero, ℕ, ◌∷◌, ◌≡◌}
use aicl.Py.Utf8.{Str}
use aicl.Sdk.Capabilities.{Capability}
use aicl.Sdk.Runtime.{
  Model, Runtime, RuntimeCall, close_model, close_models, new_runtime, runtime_close, runtime_run,
}
use aicl.Sdk.Runtime.Registry.{All-map, Registered, close_model-Registered, runtime_run-IsSound}
use aicl.Transport.Address.{lower}

-- The handle is that of a closed model.
abbrev pub ClosedAt : List Model → ℕ → Type 0
ClosedAt heap i = (m : Model) × (get_elem? heap i ≡ some m) × (m.is_closed ≡ true)

close_model-here :
    (heap : List Model) (i : ℕ) {m : Model}
    → get_elem? heap i ≡ some m
    → ClosedAt (close_model i heap) i
unfolding close_model
close_model-here [] i e = cc
close_model-here (m ∷ heap) zero e = (record m { is_closed = true }, refl, refl)
close_model-here (m ∷ heap) (suc i) e = close_model-here heap i e

close_model-there :
    (heap : List Model) (i j : ℕ) → ClosedAt heap j → ClosedAt (close_model i heap) j
unfolding close_model
close_model-there [] i j h = h
close_model-there (m ∷ heap) zero zero h = (record m { is_closed = true }, refl, refl)
close_model-there (m ∷ heap) zero (suc j) h = h
close_model-there (m ∷ heap) (suc i) zero h = h
close_model-there (m ∷ heap) (suc i) (suc j) h = close_model-there heap i j h

close_models-there :
    (models : List (Str × ℕ)) (heap : List Model) (j : ℕ)
    → ClosedAt heap j
    → ClosedAt (close_models models heap) j
unfolding close_models
close_models-there [] heap j h = h
close_models-there ((k, i) ∷ models) heap j h =
    close_models-there models (close_model i heap) j (close_model-there heap i j h)

close_models-All :
    (models : List (Str × ℕ)) (heap : List Model)
    → All (Registered heap) models
    → All (λ (p : Str × ℕ). ClosedAt (close_models models heap) p.1) models
unfolding close_models
close_models-All [] heap h = tt
close_models-All ((k, i) ∷ models) heap h = (
  close_models-there models (close_model i heap) i (close_model-here heap i h.0.1),
  close_models-All models (close_model i heap)
      (All-map heap (close_model i heap) models (close_model-Registered heap i) h.1),
)

-- Whatever the calls of a new runtime so far, `close` closes every model of its registry.
pub runtime_close-ClosedAt :
    (lower : Str → Str) (builtin caps : List Capability) (calls : List RuntimeCall)
    → All
        (λ (p : Str × ℕ).
          ClosedAt (runtime_close (runtime_run lower calls (new_runtime builtin caps))).heap p.1)
        (runtime_run lower calls (new_runtime builtin caps)).models
unfolding runtime_close
runtime_close-ClosedAt lower builtin caps calls =
    let r : Runtime = runtime_run lower calls (new_runtime builtin caps) in
    close_models-All r.models r.heap (runtime_run-IsSound lower builtin caps calls).0
