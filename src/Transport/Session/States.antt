-- ===== src/Transport/Session/States.antt =====
-- aicl/transport/session.py: when a session is open, whatever its backend does.
use aicl.Common.{
  Bool, List, Option, [], ap, false, if◌then◌else◌, is_some, none, refl, some, sym, true, ◌||◌, ◌∙◌,
  ◌∷◌, ◌≡◌,
}
use aicl.Py.Result.{Result, channel_closed, err, ok}
use aicl.Transport.Session.{
  Backend, Call, Role, Session, accept, accepts, call_backend, client, close, closes, connect,
  connects, opened, receives, recv, run, send, sends, server, step, when_backend, when_server,
  with_state,
}

-- Whether a session is open, by its role and whether it has a backend.
abbrev pub open_after : Role → Bool → Call → Bool → Bool
open_after role backed connects was = backed || was
open_after client backed accepts was = was
open_after server backed accepts was = true
open_after role backed closes was = false
open_after role backed (sends d) was = was
open_after role backed receives was = was

abbrev pub open_run : Role → Bool → List Call → Bool → Bool
open_run role backed [] was = was
open_run role backed (c ∷ cs) was = open_run role backed cs (open_after role backed c was)

-- The parts of a session that the calls keep, and the openness behind a call.
record Follows {S : Type 0} (s s' : Session S) (now : Bool) : Type 0 where
  same_role : s'.role ≡ s.role
  same_backed : is_some s'.transport ≡ is_some s.transport
  open_now : s'.is_open ≡ now

stays : {S : Type 0} (s : Session S) → Follows s s s.is_open
stays s = record { same_role = refl; same_backed = refl; open_now = refl }

module _ {S : Type 0} (s : Session S) where
  connect_Follows :
      (o : Option S)
      → s.transport ≡ o
      → Follows s (when_backend o (λ t. (ok tt, opened true s)) s).1 (is_some o || s.is_open)
  connect_Follows none e = stays s
  connect_Follows (some t) e = record { same_role = refl; same_backed = refl; open_now = refl }

  accept_Follows :
      (backed : Bool) (r : Role)
      → Follows s (when_server r s).1 (open_after r backed accepts s.is_open)
  accept_Follows backed client = stays s
  accept_Follows backed server = record { same_role = refl; same_backed = refl; open_now = refl }

  used_Follows :
      {A : Type 0} (f : S → Result A × S) (o : Option S)
      → s.transport ≡ o
      → Follows s (when_backend o (λ t. ((f t).0, with_state (f t).1 s)) s).1 s.is_open
  used_Follows f none e = stays s
  used_Follows f (some t) e = record {
    same_role = refl;
    same_backed = sym (ap is_some e);
    open_now = refl;
  }

  either_Follows :
      {A : Type 0} (b : Bool) (x y : Result A × Session S) (now : Bool)
      → Follows s x.1 now
      → Follows s y.1 now
      → Follows s (if b then x else y).1 now
  either_Follows true x y now h k = h
  either_Follows false x y now h k = k

  call_Follows : {A : Type 0} (f : S → Result A × S) → Follows s (call_backend f s).1 s.is_open
  call_Follows f =
      either_Follows s.is_open (when_backend s.transport (λ t. ((f t).0, with_state (f t).1 s)) s)
        (err channel_closed, s) s.is_open (used_Follows f s.transport refl) (stays s)

  step-Follows :
      (b : Backend S) (c : Call)
      → Follows s (step b c s) (open_after s.role (is_some s.transport) c s.is_open)
  unfolding step connect accept send recv close
  step-Follows b connects = connect_Follows s.transport refl
  step-Follows b accepts = accept_Follows (is_some s.transport) s.role
  step-Follows b (sends d) = call_Follows (b.backend_send d)
  step-Follows b receives = call_Follows b.backend_recv
  step-Follows b closes = record { same_role = refl; same_backed = refl; open_now = refl }

-- After any calls of a session it has kept its role and whether it has a backend, and it is open
-- exactly if the calls say so, whatever the backend returns or raises: `connect` opens a session
-- with a backend, `accept` that of a server, `close` closes it, and no other call changes it.
pub run_is_open :
    {S : Type 0} (b : Backend S) (cs : List Call) (s : Session S)
    → ((run b cs s).role ≡ s.role)
      × (is_some (run b cs s).transport ≡ is_some s.transport)
      × ((run b cs s).is_open ≡ open_run s.role (is_some s.transport) cs s.is_open)
unfolding run
run_is_open b [] s = (refl, refl, refl)
run_is_open b (c ∷ cs) s =
    let f = step-Follows s b c in
    let (kept_role, kept_backend, now) = run_is_open b cs (step b c s) in
    (
      kept_role ∙ f.same_role,
      kept_backend ∙ f.same_backed,
      now
          ∙ ap (λ (r : Role). open_run r (is_some (step b c s).transport) cs (step b c s).is_open)
              f.same_role
          ∙ ap (λ (o : Bool). open_run s.role o cs (step b c s).is_open) f.same_backed
          ∙ ap (λ (o : Bool). open_run s.role (is_some s.transport) cs o) f.open_now,
    )
