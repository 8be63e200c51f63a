-- ===== src/Tests/Data.antt =====
-- Concrete values for the parameters of the model, and an agent that has started.
use fw_id_agent.Prelude.{
  ℕ, ◌+◌, pos, String, refl, Bool, true, false, Option, none, some, List, [], ◌∷◌,
}
use fw_id_agent.Config.{Tnd, TndHttpsConfig, Config}
use fw_id_agent.Krbmon.{Krb}
use fw_id_agent.Notify.{Notifier}
use fw_id_agent.Agent.State.{Agent, new_agent}
use fw_id_agent.Agent.Setters.{set_trusted_network, set_login_state}
use fw_id_agent.Agent.Start.{Environment, json_text, start, init_tnd}
use fw_id_agent.Agent.Histories.{Starts}
use fw_id_agent.Agent.Loop.{
  Event, tnd_result, login_result, ccache_update, krbcfg_update, dbus_request,
}
use fw_id_agent.Dbusapi.{new_request, request_re_login}

-- A detection library whose configuration is a flag, valid if it is set.
abbrev pub tnd : Tnd
tnd = record {
  Conf = Bool;
  copy = λ c. c;
  valid = λ o. elim o [ none ↦ false | some c ↦ c ];
  new_config = true;
}

-- A Kerberos library whose ccaches and configurations are numbers; a ccache holds one ticket.
abbrev pub krb : Krb
krb = record {
  CCache = ℕ;
  Conf = ℕ;
  PrincipalName = String;
  Credential = ℕ;
  nt_srv_inst = 2;
  new_principal_name = λ t n. n;
  get_entry = λ c n. c;
  start_unix = λ t. pos t;
  end_unix = λ t. pos (t + 100);
}

abbrev pub server : TndHttpsConfig
server = record { url = "https://tnd1.mycompany.com:443"; hash = "abcdef" }

abbrev pub settings : Config Bool
settings = record {
  service_url = "https://myservice.mycompany.com:443";
  realm = "MYKERBEROSREALM.COM";
  keep_alive = pos 5;
  login_timeout = pos 15;
  logout_timeout = pos 5;
  retry_timer = pos 15;
  tnd = record { https_servers = server ∷ []; config = some true };
  verbose = true;
  start_delay = pos 0;
  notifications = true;
}

abbrev pub environment : Environment Bool
environment = record { start_error = λ p. none; config_json = λ c. json_text "{}" }

abbrev pub notifier : Option Notifier
notifier = some (record { notification_id = 7 })

-- The agent after its start.
unfoldable pub started : Agent krb Bool
unfolding start set_trusted_network set_login_state init_tnd
started = (start environment (new_agent settings notifier)).1

pub started-Starts : Starts environment settings notifier started
unfolding started
started-Starts = refl

-- Kerberos comes up, the network is found trusted, the client logs in, and the user asks for a
-- re-login.
abbrev pub morning : List (Event krb)
morning =
    ccache_update (record { ccache = some 40 })
    ∷ krbcfg_update (record { config = some 1 })
    ∷ tnd_result true
    ∷ login_result 0 2 (pos 0)
    ∷ login_result 0 3 (pos 1000)
    ∷ dbus_request (new_request request_re_login)
    ∷ login_result 1 3 (pos 1001)
    ∷ []
