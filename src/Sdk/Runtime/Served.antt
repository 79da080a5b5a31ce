-- ===== src/Sdk/Runtime/Served.antt =====
-- aicl/sdk/runtime.py: `connect` serves what `has_capability` promises.
use aicl.Common.{ap, arith, false, get_elem?, length, some, true, ℕ, ◌∙◌, ◌∷◌, ◌≡◌}
use aicl.Py.Result.{Result, ok}
use aicl.Py.Utf8.{Str}
use aicl.Sdk.Capabilities.{Capability, has, matches}
use aicl.Sdk.Capabilities.Found.{find-has}
use aicl.Sdk.Runtime.{Runtime, connect_first, or_name, runtime_connect}
use aicl.Sdk.Runtime.Registry.{get_elem?-length}

module _ (lower : Str → Str) where
  -- An open runtime connects to every name that `has_capability` reports: the handle is new, and its
  -- model is open, has the given name or that of the capability, and has a capability that matches.
  pub runtime_connect-has :
      (q name : Str) (r : Runtime)
      → r.is_closed ≡ false
      → has r.capabilities q ≡ true
      → (cap : Capability) × ((runtime_connect lower q name r).0 ≡ ok (length r.heap))
        × (get_elem? (runtime_connect lower q name r).1.heap (length r.heap)
            ≡ some (record { capability = cap; name = or_name name cap.name; is_closed = false }))
        × (matches lower cap q ≡ true)
  unfolding runtime_connect
  runtime_connect-has q name r live h =
      let (cap, rest, is, m) = find-has lower r.capabilities q h in
      let run : runtime_connect lower q name r ≡ connect_first name (cap ∷ rest) r =
        ground (arith, live, is) in
      (
        cap,
        ap (λ (x : Result ℕ × Runtime). x.0) run,
        ap (λ (x : Result ℕ × Runtime). get_elem? x.1.heap (length r.heap)) run
            ∙ get_elem?-length r.heap _,
        m,
      )
