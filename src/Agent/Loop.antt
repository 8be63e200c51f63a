-- ===== src/Agent/Loop.antt =====
-- internal/agent/agent.go: the main loop as a function of the events that `select` takes, and `Stop`.
use fw_id_agent.Prelude.{
  ℕ, ◌==◌, ℤ, String, Bool, false, none, some, List, [], ◌∷◌, ◌++◌, if◌then◌else◌,
}
use fw_id_agent.Dbusapi.{Request}
use fw_id_agent.Krbmon.{Krb, CCacheUpdate, ConfUpdate}
use fw_id_agent.Agent.State.{
  Agent, dbus, ccache, krbcfg, tnd, sleep, stop_part, close_notifier, close_closed, emit,
}
use fw_id_agent.Agent.Handlers.{
  stop_client, handle_tnd_result, handle_login_result, handle_ccache_update, handle_krb_conf_update,
  handle_dbus_request, handle_sleep_event,
}

-- What the `select` of the main loop may take: a value or the closing of one of its channels. A
-- login result comes over the results channel of one client, and is handled at some time.
pub data Event (K : Krb) : Type 0 where
  tnd_result : Bool → Event K
  login_result : ℕ → ℕ → ℤ → Event K
  ccache_update : CCacheUpdate K → Event K
  krbcfg_update : ConfUpdate K → Event K
  dbus_request : Request → Event K
  sleep_event : Bool → Event K
  tnd_closed ccache_closed krbcfg_closed dbus_closed sleep_closed : Event K
  login_closed : ℕ → Event K
  done : Event K

-- The loop waits for the next event, or it has returned.
pub data Loop (K : Krb) (C : Type 0) : Type 0 where
  running : Agent K C → Loop K C
  returned : Agent K C → Loop K C

module _ {K : Krb} {C : Type 0} where
  -- The deferred calls of `start`, in the order in which they run.
  abbrev pub deferred : Agent K C → Agent K C
  deferred a = emit close_closed (
      emit (stop_part dbus) (
        emit (stop_part ccache)
          (emit (stop_part krbcfg) (emit (stop_part tnd) (emit (stop_part sleep) a)))))

  -- `a.errors <- errors.New(message)` and the return behind it. The channel holds one error and is
  -- written once, so the send does not block.
  abbrev pub fail : String → Agent K C → Loop K C
  fail message a = returned (deferred (record a { errors = a.errors ++ (message ∷ []) }))

  -- Whether the loop listens on the results channel `ch`; on a nil channel it never receives.
  unfoldable pub listens : ℕ → Agent K C → Bool
  listens ch a = elim a.login [ none ↦ false | some l ↦ l == ch ]

  -- One round of the loop. What another client sends stays with it, and the loop goes on waiting.
  unfoldable pub select : Agent K C → Event K → Loop K C
  unfolding listens
  select a (tnd_result r) = running (handle_tnd_result r a)
  select a (login_result ch r now) =
      if listens ch a then running (handle_login_result r now a) else running a
  select a (ccache_update u) = running (handle_ccache_update u a)
  select a (krbcfg_update u) = running (handle_krb_conf_update u a)
  select a (dbus_request r) = running (handle_dbus_request r a)
  select a (sleep_event s) = running (handle_sleep_event s a)
  select a tnd_closed = fail "Agent TND results channel closed" a
  select a (login_closed ch) =
      if listens ch a then fail "Agent client results channel closed" a else running a
  select a ccache_closed = fail "Agent ccache updates channel closed" a
  select a krbcfg_closed = fail "Agent kerberos config updates channel closed" a
  select a dbus_closed = fail "Agent dbus requests channel closed" a
  select a sleep_closed = fail "Agent SleepMon events channel closed" a
  select a done = returned (deferred (stop_client a))

  -- The agent when the loop has taken what there was to take, whether it runs or has returned.
  abbrev pub agent_of : Loop K C → Agent K C
  agent_of (running a) = a
  agent_of (returned a) = a

  abbrev pub next : Loop K C → (Agent K C → Loop K C) → Loop K C
  next (running a) k = k a
  next (returned a) k = returned a

  -- The loop over a sequence of events; behind a return nothing is taken.
  unfoldable pub run : Agent K C → List (Event K) → Loop K C
  run a [] = running a
  run a (e ∷ es) = next (select a e) (λ b. run b es)

  -- `Agent.Stop`: the loop may take other events before it sees that `done` is closed.
  unfoldable pub stop : Agent K C → List (Event K) → Loop K C
  unfolding run
  stop a es = run (emit close_notifier a) (es ++ (done ∷ []))
