-- ===== src/Agent/Sleeping.antt =====
-- The sleep monitor and the agent together.
use fw_id_agent.Prelude.{
  ◌≡◌, refl, ◌∙◌, inl, inr, arith, Bool, true, false, List, [], ◌∷◌, ◌++◌, map, All,
}
use mathlib.Core.List.{map-append, append-nil}
use fw_id_agent.Krbmon.{Krb}
use fw_id_agent.Handoff.{Link, Reach}
use fw_id_agent.Agent.SleepMon.Sending.{sender, sleep_receives}
use fw_id_agent.Agent.State.{Agent}
use fw_id_agent.Agent.Handlers.{handle_sleep_event}
use fw_id_agent.Agent.Loop.{sleep_event, running, select, run}
use fw_id_agent.Agent.Lifecycle.{IsServed}
use fw_id_agent.Agent.Served.{IsServed-IsInvariant}
use fw_id_agent.Agent.Reach.{IsProper, WhileRunning, run_inv}
use fw_id_agent.Agent.Shutdown.{IsValue, run_values, run-append}
use fw_id_agent.Agent.Sleep.{IsDormant, sleep-IsDormant}
use fw_id_agent.Agent.SleepMon.{Signal, signal, announcement, listen, handle_signal, listen-append}

module _ (K : Krb) where
  sleeps-IsProper : (ys : List Bool) → All (IsProper {K = K}) (map sleep_event ys)
  sleeps-IsProper [] = tt
  sleeps-IsProper (y ∷ ys) = (tt, sleeps-IsProper ys)

  sleeps-IsValue : (ys : List Bool) → All (IsValue {K = K}) (map sleep_event ys)
  sleeps-IsValue [] = tt
  sleeps-IsValue (y ∷ ys) = (tt, sleeps-IsValue ys)

-- When the login manager announces a sleep, after any signals, a served agent that handles all that
-- the sleep monitor has sent goes on, and has no client and counts the network as not trusted, in
-- the state "logged out".
announced_sleep :
    {K : Krb} {C : Type 0} (a : Agent K C) (xs : List Signal)
    → IsServed a
    → (b : Agent K C) × (run a
          (map sleep_event (listen (map signal xs ++ (signal (announcement true) ∷ []))).sent)
        ≡ running b)
      × IsDormant b
unfolding listen handle_signal run select
announced_sleep {K = K} a xs v =
    let (ys, e, _) = listen-append xs (signal (announcement true) ∷ []) in
    let (b, ran) = run_values a (map sleep_event ys) (sleeps-IsValue K ys) in
    let kept : WhileRunning IsServed (run a (map sleep_event ys)) =
      run_inv IsServed-IsInvariant a (map sleep_event ys) (sleeps-IsProper K ys) v in
    (
      handle_sleep_event true b,
      rw (e, map-append, run-append, ran) refl,
      sleep-IsDormant b (rw ran at kept),
    )

-- When the signals that the sleep monitor has taken end with the announcement of a sleep, the agent has
-- not stopped the monitor, and no event waits to be sent: a served agent that handles what it has
-- received goes on, and has no client and counts the network as not trusted, in the state "logged out".
-- This is so however the two take turns.
pub sleep_arrives :
    {K : Krb} {C : Type 0} (a : Agent K C) {l : Link (List Signal) Bool}
    → IsServed a
    → Reach sender [] l
    → (xs : List Signal) → l.state ≡ xs ++ (announcement true ∷ [])
    → l.stopped ≡ false
    → l.pending ≡ []
    → (b : Agent K C) × (run a (map sleep_event l.received) ≡ running b) × IsDormant b
sleep_arrives a {l} v r xs last going quiet =
    let (rest, sent, missing) = sleep_receives r in
    let (b, ran, dormant) = announced_sleep a xs v in
    let none_left : rest ≡ [] = elim missing [
      | inl gone ↦ absurd (ground arith)
      | inr p ↦ p ∙ quiet
    ] in
    let all : (listen (map signal xs ++ (signal (announcement true) ∷ []))).sent ≡ l.received =
      rw (last, map-append, none_left, append-nil) at sent in
    (b, rw all at ran, dormant)
