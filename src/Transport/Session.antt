-- ===== src/Transport/Session.antt =====
-- aicl/transport/session.py: a session over a transport.
pub mod States
use aicl.Common.{Bool, List, Option, [], false, if◌then◌else◌, none, some, true, ℕ, ◌∷◌}
use aicl.Py.Result.{Result, channel_closed, err, ok, transport_error}
use aicl.Py.Struct.{Bytes}

-- The role: the string "server", or any other value.
pub data Role : Type 0 where
  client : Role
  server : Role

-- A backend of the abstract class Transport of aicl/transport/interface.py: `S` is what it keeps, and
-- `send` and `recv` are its coroutines, which return or raise and leave a state.
pub record Backend (S : Type 0) : Type 0 where
  pub backend_send : Bytes → S → Result ℕ × S
  pub backend_recv : S → Result Bytes × S

-- `_transport` is the state of the backend, if there is one.
pub record Session (S : Type 0) : Type 0 where
  pub role : Role
  pub transport : Option S
  pub is_open : Bool

abbrev pub new_session : {S : Type 0} → Role → Option S → Session S
new_session r t = record { role = r; transport = t; is_open = false }

abbrev pub opened : {S : Type 0} → Bool → Session S → Session S
opened b s = record { role = s.role; transport = s.transport; is_open = b }

abbrev pub with_state : {S : Type 0} → S → Session S → Session S
with_state t s = record { role = s.role; transport = some t; is_open = s.is_open }

-- What a coroutine does with the backend, if there is one.
abbrev pub when_backend :
    {S A : Type 0} → Option S → (S → Result A × Session S) → Session S → Result A × Session S
when_backend none f s = (err transport_error, s)
when_backend (some t) f s = f t

-- Each coroutine: what it returns or raises, and the session afterwards.
unfoldable pub connect : {S : Type 0} → Session S → Result (Unit {0}) × Session S
connect s = when_backend s.transport (λ t. (ok tt, opened true s)) s

abbrev pub when_server : {S : Type 0} → Role → Session S → Result (Unit {0}) × Session S
when_server client s = (err transport_error, s)
when_server server s = (ok tt, opened true s)

unfoldable pub accept : {S : Type 0} → Session S → Result (Unit {0}) × Session S
accept s = when_server s.role s

unfoldable pub close : {S : Type 0} → Session S → Session S
close s = opened false s

-- `send` and `recv` share their guards.
abbrev pub call_backend : {S A : Type 0} → (S → Result A × S) → Session S → Result A × Session S
call_backend f s =
    let used = when_backend s.transport (λ t. ((f t).0, with_state (f t).1 s)) s in
    if s.is_open then used else (err channel_closed, s)

unfoldable pub send : {S : Type 0} → Backend S → Bytes → Session S → Result ℕ × Session S
send b data_bytes s = call_backend (b.backend_send data_bytes) s

unfoldable pub recv : {S : Type 0} → Backend S → Session S → Result Bytes × Session S
recv b s = call_backend b.backend_recv s

-- The calls of a session.
pub data Call : Type 0 where
  connects : Call
  accepts : Call
  sends : Bytes → Call
  receives : Call
  closes : Call

unfoldable pub step : {S : Type 0} → Backend S → Call → Session S → Session S
unfolding connect accept send recv close
step b connects s = (connect s).1
step b accepts s = (accept s).1
step b (sends d) s = (send b d s).1
step b receives s = (recv b s).1
step b closes s = close s

unfoldable pub run : {S : Type 0} → Backend S → List Call → Session S → Session S
unfolding step
run b [] s = s
run b (c ∷ cs) s = run b cs (step b c s)
