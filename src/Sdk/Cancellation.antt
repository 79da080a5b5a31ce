-- ===== src/Sdk/Cancellation.antt =====
-- aicl/sdk/_cancellation.py: the cancellation token.
pub mod Once
use aicl.Common.{Bool, List, [], false, if◌then◌else◌, true, ◌++◌, ◌∷◌}
use aicl.Py.Result.{Result, cancelled_error, err, ok}

-- A callback acts on the rest of the program, whose state is `W`, and returns or raises.
abbrev pub Callback : Type 0 → Type 0
Callback W = W → Result (Unit {0}) × W

pub record Token (W : Type 0) : Type 0 where
  pub cancelled : Bool
  pub event_set : Bool
  pub callbacks : List (Callback W)

abbrev pub new_token : {W : Type 0} → Token W
new_token = record { cancelled = false; event_set = false; callbacks = [] }

-- `try: cb() except Exception: pass`
abbrev pub invoke : {W : Type 0} → Callback W → W → W
invoke cb w = (cb w).1

unfoldable pub invoke_all : {W : Type 0} → List (Callback W) → W → W
invoke_all [] w = w
invoke_all (cb ∷ cbs) w = invoke_all cbs (invoke cb w)

-- `cancel`, on the token and the rest of the program.
unfoldable pub cancel : {W : Type 0} → Token W × W → Token W × W
unfolding invoke_all
cancel (t, w) = if t.cancelled then (t, w) else (
  record { cancelled = true; event_set = true; callbacks = t.callbacks },
  invoke_all t.callbacks w,
)

unfoldable pub on_cancelled : {W : Type 0} → Callback W → Token W × W → Token W × W
on_cancelled cb (t, w) = if t.cancelled then (t, invoke cb w) else (
  record { cancelled = t.cancelled; event_set = t.event_set; callbacks = t.callbacks ++ (cb ∷ []) },
  w,
)

-- `wait` with a timeout that has passed: whether the event is set.
abbrev pub wait : {W : Type 0} → Token W → Bool
wait t = t.event_set

unfoldable pub check : {W : Type 0} → Token W → Result (Unit {0})
check t = if t.cancelled then err cancelled_error else ok tt

-- The calls of a token, and a run of them.
pub data TokenCall (W : Type 0) : Type 0 where
  cancels : TokenCall W
  registers : Callback W → TokenCall W

unfoldable pub token_step : {W : Type 0} → TokenCall W → Token W × W → Token W × W
unfolding cancel on_cancelled
token_step cancels s = cancel s
token_step (registers cb) s = on_cancelled cb s

unfoldable pub token_run : {W : Type 0} → List (TokenCall W) → Token W × W → Token W × W
unfolding token_step
token_run [] s = s
token_run (c ∷ cs) s = token_run cs (token_step c s)
