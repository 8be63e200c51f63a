-- ===== src/Agent/Published.antt =====
-- The configuration on D-Bus while the loop of the agent runs.
use fw_id_agent.Config.{Config}
use fw_id_agent.Prelude.{String, some, Option, List, All, ℕ, ℤ, ◌≡◌, Bool, arith}
use fw_id_agent.Dbusapi.Property
use fw_id_agent.Dbusapi.{Request, text}
use fw_id_agent.Krbmon.{Krb, CCacheUpdate, ConfUpdate}
use fw_id_agent.Notify.{Notifier, notify}
use fw_id_agent.Agent.State.{Agent, latest, new_agent}
use fw_id_agent.Agent.Setters.{
  set_kerberos_tgt, set_trusted_network, set_login_state, set_last_keep_alive,
}
use fw_id_agent.Agent.Reach.{IsInvariant, IsProper, WhileRunning, run_inv}
use fw_id_agent.Agent.Loop.{Event, run}
use fw_id_agent.Agent.Histories.{Starts}
use fw_id_agent.Agent.Start.{Environment, json_text, start_ok, status_set, published_by, init_tnd}
use fw_id_agent.Agent.Handlers.{
  start_client, stop_running, stop_client, handle_tnd_result, handle_login_result, adopt_ccache,
  handle_ccache_update_cases, handle_krb_conf_update, handle_dbus_request, handle_sleep_event,
  start_if_trusted,
}

module _ {K : Krb} {C : Type 0} (t : String) where
  -- The text of the configuration was last set to `t`.
  abbrev pub IsPublished : Agent K C → Type 0
  IsPublished a = latest Property.config a.trace ≡ some (text t)

  handle_tnd_result-IsPublished :
      (r : Bool) (a : Agent K C) → IsPublished a → IsPublished (handle_tnd_result r a)
  unfolding handle_tnd_result set_trusted_network start_client stop_client stop_running
      set_login_state notify
  handle_tnd_result-IsPublished r a h = ground arith

  handle_login_result-IsPublished :
      (r : ℕ) (now : ℤ) (a : Agent K C) → IsPublished a → IsPublished (handle_login_result r now a)
  unfolding notify handle_login_result set_login_state set_last_keep_alive
  handle_login_result-IsPublished r now a h = ground arith

  adopt_ccache-IsPublished :
      (u : CCacheUpdate K) (start end : ℤ) (a : Agent K C)
      → IsPublished a
      → IsPublished (adopt_ccache u start end a)
  unfolding adopt_ccache start_if_trusted start_client set_kerberos_tgt set_login_state notify
  adopt_ccache-IsPublished u start end a h = ground arith

  handle_krb_conf_update-IsPublished :
      (u : ConfUpdate K) (a : Agent K C) → IsPublished a → IsPublished (handle_krb_conf_update u a)
  unfolding handle_krb_conf_update start_if_trusted start_client set_login_state notify
  handle_krb_conf_update-IsPublished u a h = ground arith

  handle_dbus_request-IsPublished :
      (r : Request) (a : Agent K C) → IsPublished a → IsPublished (handle_dbus_request r a)
  unfolding handle_dbus_request start_client stop_client stop_running set_login_state notify
  handle_dbus_request-IsPublished r a h = ground arith

  handle_sleep_event-IsPublished :
      (s : Bool) (a : Agent K C) → IsPublished a → IsPublished (handle_sleep_event s a)
  unfolding handle_sleep_event set_trusted_network stop_client stop_running set_login_state notify
  handle_sleep_event-IsPublished s a h = ground arith

  -- No event changes the text.
  pub IsPublished-IsInvariant : IsInvariant {K = K} {C = C} IsPublished
  IsPublished-IsInvariant = record {
    on_tnd = handle_tnd_result-IsPublished;
    on_login = λ r ch now a _ h. handle_login_result-IsPublished r now a h;
    on_ccache = λ u a _ h.
        handle_ccache_update_cases IsPublished u a h (λ s e. adopt_ccache-IsPublished u s e a h);
    on_krbcfg = λ u a _ h. handle_krb_conf_update-IsPublished u a h;
    on_dbus = handle_dbus_request-IsPublished;
    on_sleep = handle_sleep_event-IsPublished;
  }

module _ {K : Krb} {C : Type 0} (env : Environment C) (conf : Config C) (n : Option Notifier)
    (a : Agent K C) (ok : Starts env conf n a) (t : String)
    (json : env.config_json conf ≡ json_text t) where
  first-config : (status_set (new_agent {K = K} conf n)).config ≡ conf
  unfolding set_trusted_network set_login_state init_tnd notify
  first-config = ground arith

  published_by-IsPublished : (b : Agent K C) → b.config ≡ conf → IsPublished t (published_by env b)
  published_by-IsPublished b same = ground (arith, same, json)

  -- The agent has published the text of its configuration when it has started, and as long as its
  -- loop runs.
  pub run-IsPublished :
      (es : List (Event K)) → All IsProper es → WhileRunning (IsPublished t) (run a es)
  run-IsPublished es proper =
      run_inv (IsPublished-IsInvariant t) a es proper
        (rw (start_ok env _ a ok) (published_by-IsPublished _ first-config))
