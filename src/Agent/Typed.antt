-- ===== src/Agent/Typed.antt =====
-- The types of the values that the agent sets on D-Bus, as they are declared by the properties that
-- the service exports (internal/dbusapi/service.go).
use fw_id_agent.Prelude.{
  ℕ, ℤ, String, Bool, Bool-cases, inl, inr, Option, List, [], ◌∷◌, All, arith,
}
use fw_id_agent.Config.{Config}
use fw_id_agent.Dbusapi.{Request, Value, text, uint32, int64}
use fw_id_agent.Krbmon.{Krb, CCacheUpdate, ConfUpdate}
use fw_id_agent.Notify.{Notifier, notify}
use fw_id_agent.Agent.State.{Agent, Effect, set_property, new_agent}
use fw_id_agent.Agent.Setters.{
  set_kerberos_tgt, set_trusted_network, set_login_state, set_last_keep_alive,
}
use fw_id_agent.Agent.Reach.{IsInvariant, IsProper, select_inv}
use fw_id_agent.Agent.Loop.{
  Event, tnd_result, login_result, ccache_update, krbcfg_update, dbus_request, sleep_event,
  tnd_closed, ccache_closed, krbcfg_closed, dbus_closed, sleep_closed, login_closed, done, Loop,
  running, returned, deferred, fail, listens, agent_of, select, next, run,
}
use fw_id_agent.Agent.Histories.{Starts}
use fw_id_agent.Agent.Start.{Environment, start_ok, status_set, published_by, init_tnd}
use fw_id_agent.Agent.Handlers.{
  start_client, stop_running, stop_client, handle_tnd_result, handle_login_result, adopt_ccache,
  handle_ccache_update_cases, handle_krb_conf_update, handle_dbus_request, handle_sleep_event,
  start_if_trusted,
}
use fw_id_agent.DbusClient.Update.{
  Name, config, trusted_network, login_state, last_keep_alive, tgt_start, tgt_end, name_of,
}

-- A value of the type with which the property is exported.
abbrev pub HasType : Name → Value → Type 0
HasType config (text _) = Unit {0}
HasType trusted_network (uint32 _) = Unit {0}
HasType login_state (uint32 _) = Unit {0}
HasType last_keep_alive (int64 _) = Unit {0}
HasType tgt_start (int64 _) = Unit {0}
HasType tgt_end (int64 _) = Unit {0}
HasType _ _ = ⊥

-- All properties were set to values of their types.
abbrev pub AllTyped : List Effect → Type 0
AllTyped [] = Unit {0}
AllTyped (set_property p v ∷ es) = HasType (name_of p) v × AllTyped es
AllTyped (e ∷ es) = AllTyped es

module _ {K : Krb} {C : Type 0} where
  abbrev pub IsTyped : Agent K C → Type 0
  IsTyped a = AllTyped a.trace

  handle_tnd_result-IsTyped :
      (r : Bool) (a : Agent K C) → IsTyped a → IsTyped (handle_tnd_result r a)
  unfolding handle_tnd_result set_trusted_network start_client stop_client stop_running
      set_login_state notify
  handle_tnd_result-IsTyped r a h = ground arith

  handle_login_result-IsTyped :
      (r : ℕ) (now : ℤ) (a : Agent K C) → IsTyped a → IsTyped (handle_login_result r now a)
  unfolding notify handle_login_result set_login_state set_last_keep_alive
  handle_login_result-IsTyped r now a h = ground arith

  adopt_ccache-IsTyped :
      (u : CCacheUpdate K) (start end : ℤ) (a : Agent K C)
      → IsTyped a
      → IsTyped (adopt_ccache u start end a)
  unfolding adopt_ccache start_if_trusted start_client set_kerberos_tgt set_login_state notify
  adopt_ccache-IsTyped u start end a h = ground arith

  handle_krb_conf_update-IsTyped :
      (u : ConfUpdate K) (a : Agent K C) → IsTyped a → IsTyped (handle_krb_conf_update u a)
  unfolding handle_krb_conf_update start_if_trusted start_client set_login_state notify
  handle_krb_conf_update-IsTyped u a h = ground arith

  handle_dbus_request-IsTyped :
      (r : Request) (a : Agent K C) → IsTyped a → IsTyped (handle_dbus_request r a)
  unfolding handle_dbus_request start_client stop_client stop_running set_login_state notify
  handle_dbus_request-IsTyped r a h = ground arith

  handle_sleep_event-IsTyped :
      (s : Bool) (a : Agent K C) → IsTyped a → IsTyped (handle_sleep_event s a)
  unfolding handle_sleep_event set_trusted_network stop_client stop_running set_login_state notify
  handle_sleep_event-IsTyped s a h = ground arith

  -- Every handler sets properties to values of their types.
  pub IsTyped-IsInvariant : IsInvariant {K = K} {C = C} IsTyped
  IsTyped-IsInvariant = record {
    on_tnd = handle_tnd_result-IsTyped;
    on_login = λ r ch now a _ h. handle_login_result-IsTyped r now a h;
    on_ccache =
        λ u a _ h. handle_ccache_update_cases IsTyped u a h (λ s e. adopt_ccache-IsTyped u s e a h);
    on_krbcfg = λ u a _ h. handle_krb_conf_update-IsTyped u a h;
    on_dbus = handle_dbus_request-IsTyped;
    on_sleep = handle_sleep_event-IsTyped;
  }

module _ {K : Krb} {C : Type 0} where
  -- What the agent sets when it is stopped, and when a channel is closed.
  done-IsTyped : (a : Agent K C) → IsTyped a → IsTyped (deferred (stop_client a))
  unfolding stop_client stop_running set_login_state notify
  done-IsTyped a h = ground arith

  fail-IsTyped : (m : String) (a : Agent K C) → IsTyped a → IsTyped (agent_of (fail m a))
  fail-IsTyped m a h = ground arith

  closed-IsTyped :
      (ch : ℕ) (a : Agent K C) → IsTyped a → IsTyped (agent_of (select a (login_closed ch)))
  unfolding select
  closed-IsTyped ch a h = elim (Bool-cases (listens ch a)) [ inl e ↦ rw e h | inr e ↦ rw e h ]

  select-IsTyped :
      (a : Agent K C) (e : Event K) → IsProper e → IsTyped a → IsTyped (agent_of (select a e))
  unfolding select
  select-IsTyped a tnd_closed p h = h
  select-IsTyped a ccache_closed p h = h
  select-IsTyped a krbcfg_closed p h = h
  select-IsTyped a dbus_closed p h = h
  select-IsTyped a sleep_closed p h = h
  select-IsTyped a done p h = done-IsTyped a h
  select-IsTyped a (login_closed ch) p h = closed-IsTyped ch a h
  select-IsTyped a (tnd_result r) p h = select_inv IsTyped-IsInvariant a (tnd_result r) p h
  select-IsTyped a (login_result ch r now) p h = elim (Bool-cases (listens ch a)) [
    | inl e ↦ rw e (handle_login_result-IsTyped r now a h)
    | inr e ↦ rw e h
  ]
  select-IsTyped a (ccache_update u) p h = select_inv IsTyped-IsInvariant a (ccache_update u) p h
  select-IsTyped a (krbcfg_update u) p h = select_inv IsTyped-IsInvariant a (krbcfg_update u) p h
  select-IsTyped a (dbus_request r) p h = select_inv IsTyped-IsInvariant a (dbus_request r) p h
  select-IsTyped a (sleep_event s) p h = select_inv IsTyped-IsInvariant a (sleep_event s) p h

  next-IsTyped :
      (l : Loop K C) (k : Agent K C → Loop K C)
      → IsTyped (agent_of l)
      → ((b : Agent K C) → IsTyped b → IsTyped (agent_of (k b)))
      → IsTyped (agent_of (next l k))
  next-IsTyped (running b) k h step = step b h
  next-IsTyped (returned b) k h step = h

  agent_of-run-IsTyped :
      (a : Agent K C) (es : List (Event K))
      → All IsProper es
      → IsTyped a
      → IsTyped (agent_of (run a es))
  unfolding run
  agent_of-run-IsTyped a [] p h = h
  agent_of-run-IsTyped a (e ∷ es) p h =
      next-IsTyped (select a e) _ (select-IsTyped a e p.0 h)
        (λ b k. agent_of-run-IsTyped b es p.1 k)

module _ {K : Krb} {C : Type 0} (env : Environment C) (conf : Config C) (n : Option Notifier)
    (a : Agent K C) (ok : Starts env conf n a) where
  first-IsTyped : IsTyped (status_set (new_agent {K = K} conf n))
  unfolding set_trusted_network set_login_state init_tnd notify
  first-IsTyped = ground arith

  published_by-IsTyped : (b : Agent K C) → IsTyped b → IsTyped (published_by env b)
  published_by-IsTyped b h = ground arith

  -- Whether its loop runs or has returned, a started agent has set all properties to values of their
  -- types.
  pub run-IsTyped : (es : List (Event K)) → All IsProper es → IsTyped (agent_of (run a es))
  run-IsTyped es proper =
      agent_of-run-IsTyped a es proper
        (rw (start_ok env _ a ok) (published_by-IsTyped _ first-IsTyped))
