-- ===== src/Agent/Shutdown.antt =====
-- How the main loop ends: by `Stop`, or with an error because a channel was closed.
use fw_id_agent.Prelude.{
  String, ◌≡◌, refl, false, Option, none, some, List, [], ◌∷◌, ◌++◌, arith, All, inl, inr, sym,
  Bool-cases,
}
use mathlib.Core.Path.{fun_ext}
use fw_id_agent.Status.LoginState
use fw_id_agent.Dbusapi.Property
use fw_id_agent.Dbusapi.{uint32}
use fw_id_agent.Krbmon.{Krb}
use fw_id_agent.LoginClient.State.{Client}
use fw_id_agent.Agent.State.{
  Agent, Effect, close_notifier, close_closed, stop_part, dbus, ccache, krbcfg, tnd, sleep, emit,
  latest,
}
use fw_id_agent.Agent.Handlers.{stop_client, handle_login_result}
use fw_id_agent.Agent.Loop.{
  Event, tnd_result, login_result, ccache_update, krbcfg_update, dbus_request, sleep_event,
  tnd_closed, ccache_closed, krbcfg_closed, dbus_closed, sleep_closed, login_closed, done, Loop,
  running, returned, deferred, fail, listens, select, next, run, stop,
}
use fw_id_agent.Agent.Mirror.{Mirrors, Mirrors-IsInvariant, stop_client-Mirrors}
use fw_id_agent.Agent.Lifecycle.{Serves, IsServed, stop_client-Serves, is_ready}
use fw_id_agent.Agent.Served.{IsServed-IsInvariant}
use fw_id_agent.Agent.Reach.{IsProper, WhileRunning, run_inv}

-- The events by which the loop goes on.
abbrev pub IsValue : {K : Krb} → Event K → Type 0
IsValue (tnd_result r) = Unit {0}
IsValue (login_result ch r now) = Unit {0}
IsValue (ccache_update u) = Unit {0}
IsValue (krbcfg_update u) = Unit {0}
IsValue (dbus_request r) = Unit {0}
IsValue (sleep_event s) = Unit {0}
IsValue e = ⊥

module _ {K : Krb} {C : Type 0} where
  select_value :
      (a : Agent K C) (e : Event K) → IsValue e → (b : Agent K C) × (select a e ≡ running b)
  unfolding select
  select_value a (tnd_result r) _ = (_, refl)
  select_value a (login_result ch r now) _ = elim (Bool-cases (listens ch a)) [
    | inl e ↦ (handle_login_result r now a, rw e)
    | inr e ↦ (a, rw e)
  ]
  select_value a (ccache_update u) _ = (_, refl)
  select_value a (krbcfg_update u) _ = (_, refl)
  select_value a (dbus_request r) _ = (_, refl)
  select_value a (sleep_event s) _ = (_, refl)
  select_value a tnd_closed h = absurd h
  select_value a (login_closed ch) h = absurd h
  select_value a ccache_closed h = absurd h
  select_value a krbcfg_closed h = absurd h
  select_value a dbus_closed h = absurd h
  select_value a sleep_closed h = absurd h
  select_value a done h = absurd h

  pub run_values :
      (a : Agent K C) (es : List (Event K))
      → All IsValue es
      → (b : Agent K C) × (run a es ≡ running b)
  unfolding run
  run_values a [] _ = (a, refl)
  run_values a (e ∷ es) vs =
      let (b, step) = select_value a e vs.0 in
      let (c, rest) = run_values b es vs.1 in (c, rw step rest)

  next-next :
      (l : Loop K C) (j k : Agent K C → Loop K C) → next (next l j) k ≡ next l (λ a. next (j a) k)
  next-next (running a) j k = refl
  next-next (returned a) j k = refl

  pub run-append :
      (a : Agent K C) (es fs : List (Event K)) → run a (es ++ fs) ≡ next (run a es) (λ b. run b fs)
  unfolding run
  run-append a [] fs = refl
  run-append a (e ∷ es) fs =
      rw (fun_ext (λ b. run-append b es fs)) (sym (next-next (select a e) _ _))

  -- What `Stop` leaves behind.
  pub record IsStopped (b : Agent K C) : Type 0 where
    pub no_client : b.client ≡ none
    pub no_results : b.login ≡ none
    pub state : b.login_state ≡ LoginState.logged_out
    pub counted_out : b.logged_in ≡ false
    pub property : latest Property.login_state b.trace ≡ some (uint32 LoginState.logged_out)
    pub closed_last :
        (earlier : List Effect) × (b.trace
          ≡ close_closed
            ∷ stop_part dbus
            ∷ stop_part ccache
            ∷ stop_part krbcfg
            ∷ stop_part tnd
            ∷ stop_part sleep
            ∷ earlier)

  deferred-IsStopped : (a : Agent K C) → Serves false a → Mirrors a → IsStopped (deferred a)
  deferred-IsStopped a v m = record {
    no_client = ground arith;
    no_results = ground arith;
    state = ground arith;
    counted_out = ground arith;
    property = ground arith;
    closed_last = (a.trace, refl);
  }

  -- `Stop` ends the main loop, whatever values the loop still takes before it sees the request, in
  -- an agent that satisfies the two invariants: no client is left, the agent counts as logged out
  -- and says so on D-Bus, and the last effects are that every component is stopped, in this order:
  -- sleep monitor, network detection, Kerberos configuration, ccache, D-Bus; then `closed` is closed.
  pub stop_ends :
      (a : Agent K C) (es : List (Event K))
      → IsServed a
      → Mirrors a
      → All IsProper es
      → All IsValue es
      → (b : Agent K C) × (stop a es ≡ returned b) × IsStopped b
  unfolding stop select
  stop_ends a es v m ps vs =
      let (b, ran) = run_values (emit close_notifier a) es vs in
      let served : WhileRunning IsServed (run (emit close_notifier a) es) =
        run_inv IsServed-IsInvariant _ es ps (ground arith) in
      let mirrors : WhileRunning Mirrors (run (emit close_notifier a) es) =
        run_inv Mirrors-IsInvariant _ es ps (ground arith) in
      (
        deferred (stop_client b),
        rw (run-append, ran),
        deferred-IsStopped (stop_client b) (stop_client-Serves (is_ready b) b (rw ran at served))
            (stop_client-Mirrors b (rw ran at mirrors)),
      )

-- The message of the error with which the loop returns when a channel of another component is closed.
abbrev pub failure : {K : Krb} → Event K → Option String
failure tnd_closed = some "Agent TND results channel closed"
failure ccache_closed = some "Agent ccache updates channel closed"
failure krbcfg_closed = some "Agent kerberos config updates channel closed"
failure dbus_closed = some "Agent dbus requests channel closed"
failure sleep_closed = some "Agent SleepMon events channel closed"
failure e = none

pub select-failure :
    {K : Krb} {C : Type 0} (a : Agent K C) (e : Event K) (m : String)
    → failure e ≡ some m
    → select a e ≡ fail m a
unfolding select
select-failure a tnd_closed m h = ground arith
select-failure a ccache_closed m h = ground arith
select-failure a krbcfg_closed m h = ground arith
select-failure a dbus_closed m h = ground arith
select-failure a sleep_closed m h = ground arith
select-failure a _ m h = cc

module _ {K : Krb} {C : Type 0} (a : Agent K C) (c : Client K C) (held : a.client ≡ some c) where
  -- If a client runs when the channel of the network detection, of a Kerberos monitor, of the D-Bus
  -- service or of the sleep monitor is closed, the loop returns with that error and stops the five
  -- components, but the client is left as it is, the login state too, and no client is stopped.
  failure_keeps_client :
      (e : Event K) (m : String)
      → failure e ≡ some m
      → (b : Agent K C) × (select a e ≡ returned b)
        × (b.client ≡ some c)
        × (b.login_state ≡ a.login_state)
        × (b.errors ≡ a.errors ++ (m ∷ []))
        × (b.trace
            ≡ close_closed
              ∷ stop_part dbus
              ∷ stop_part ccache
              ∷ stop_part krbcfg
              ∷ stop_part tnd
              ∷ stop_part sleep
              ∷ a.trace)
  failure_keeps_client e m h = (
    deferred (record a { errors = a.errors ++ (m ∷ []) }),
    select-failure a e m h,
    held,
    refl,
    refl,
    refl,
  )
