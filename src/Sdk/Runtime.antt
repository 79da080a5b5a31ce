-- ===== src/Sdk/Runtime.antt =====
-- aicl/sdk/runtime.py: the registry of models of a runtime. The models that a program holds are kept
-- in a list of all models made: a handle is a position in it. Timeouts are left out.
pub mod Registry
pub mod Served
pub mod Closed
use aicl.Common.{
  Bool, List, [], false, if◌then◌else◌, length, same_list, suc, true, zero, ℕ, ◌++◌, ◌∷◌,
}
use aicl.Py.Result.{Result, aicl_error, capability_error, err, ok}
use aicl.Py.Utf8.{Str}
use aicl.Sdk.Capabilities.{Capability, find}
use aicl.Transport.Address.{lower}

pub record Model : Type 0 where
  pub capability : Capability
  pub name : Str
  pub is_closed : Bool

pub record Runtime : Type 0 where
  pub capabilities : List Capability
  pub heap : List Model
  pub models : List (Str × ℕ)
  pub transport_closed : Bool
  pub is_closed : Bool

-- `capabilities or BUILTIN_CAPABILITIES`, with a transport.
abbrev pub or_builtin : List Capability → List Capability → List Capability
or_builtin builtin [] = builtin
or_builtin builtin (c ∷ caps) = c ∷ caps

abbrev pub new_runtime : List Capability → List Capability → Runtime
new_runtime builtin caps = record {
  capabilities = or_builtin builtin caps;
  heap = [];
  models = [];
  transport_closed = false;
  is_closed = false;
}

-- `self._models[name] = model`
unfoldable pub register : Str → ℕ → List (Str × ℕ) → List (Str × ℕ)
register k i [] = (k, i) ∷ []
register k i ((l, j) ∷ models) =
    let rest = register k i models in if same_list k l then (l, i) ∷ models else (l, j) ∷ rest

-- `Model.close`
unfoldable pub close_model : ℕ → List Model → List Model
close_model i [] = []
close_model zero (m ∷ heap) = record m { is_closed = true } ∷ heap
close_model (suc i) (m ∷ heap) = m ∷ close_model i heap

unfoldable pub close_models : List (Str × ℕ) → List Model → List Model
unfolding close_model
close_models [] heap = heap
close_models ((k, i) ∷ models) heap = close_models models (close_model i heap)

unfoldable pub runtime_close : Runtime → Runtime
unfolding close_models
runtime_close r = record r {
  heap = close_models r.models r.heap;
  models = [];
  transport_closed = true;
  is_closed = true;
}

-- `name or capability.name`
abbrev pub or_name : Str → Str → Str
or_name [] other = other
or_name (c ∷ name) other = c ∷ name

-- `connect` behind the search.
abbrev pub connect_first : Str → List Capability → Runtime → Result ℕ × Runtime
connect_first name [] r = (err capability_error, r)
connect_first name (cap ∷ caps) r = (
  ok (length r.heap),
  record r {
    heap =
        r.heap
        ++ (record { capability = cap; name = or_name name cap.name; is_closed = false } ∷ []);
    models = register cap.name (length r.heap) r.models;
  },
)

pub data RuntimeCall : Type 0 where
  connects_to : Str → Str → RuntimeCall
  connects_any : List Str → Str → RuntimeCall
  closes_model : ℕ → RuntimeCall
  closes_runtime : RuntimeCall

-- `except CapabilityError`
abbrev pub lacks_capability : Result ℕ → Bool
lacks_capability (ok i) = false
lacks_capability (err capability_error) = true
lacks_capability (err e) = false

-- What `connect_any` does with the outcome of one `connect`, and with the other names.
abbrev pub or_next : Result ℕ × Runtime → Result ℕ × Runtime → Result ℕ × Runtime
or_next outcome next = if lacks_capability outcome.0 then next else outcome

module _ (lower : Str → Str) where
  unfoldable pub runtime_connect : Str → Str → Runtime → Result ℕ × Runtime
  unfolding find register
  runtime_connect query name r =
      if r.is_closed
      then (err aicl_error, r)
      else connect_first name (find lower r.capabilities query) r

  unfoldable pub connect_any : List Str → Str → Runtime → Result ℕ × Runtime
  unfolding runtime_connect
  connect_any [] name r = (err capability_error, r)
  connect_any (q ∷ queries) name r = or_next (runtime_connect q name r) (connect_any queries name r)

  abbrev pub runtime_step : RuntimeCall → Runtime → Runtime
  runtime_step (connects_to q name) r = (runtime_connect q name r).1
  runtime_step (connects_any qs name) r = (connect_any qs name r).1
  runtime_step (closes_model i) r = record r { heap = close_model i r.heap }
  runtime_step closes_runtime r = runtime_close r

  abbrev pub runtime_run : List RuntimeCall → Runtime → Runtime
  runtime_run [] r = r
  runtime_run (c ∷ calls) r = runtime_run calls (runtime_step c r)
