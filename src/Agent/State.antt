-- ===== src/Agent/State.antt =====
-- internal/agent/agent.go: the fields of the agent, and the effects that its functions have on the
-- other components, as a trace.
use fw_id_agent.Prelude.{
  ℕ, ℤ, pos, String, str_eq, Bool, false, Option, none, some, List, [], ◌∷◌, if◌then◌else◌,
}
use fw_id_agent.Config.{Config}
use fw_id_agent.Status.{KerberosTicket}
use fw_id_agent.Status.TrustedNetwork
use fw_id_agent.Status.LoginState
use fw_id_agent.Dbusapi.{Value, Request}
use fw_id_agent.Krbmon.{Krb, CCacheUpdate, ConfUpdate}
use fw_id_agent.Notify.{Notifier, Notification}
use fw_id_agent.LoginClient.State.{Client}

-- The components that the agent starts and stops.
pub data Part : Type 0 where
  dbus ccache krbcfg tnd sleep : Part

-- A call of another component. A client is named by its results channel.
pub data Effect : Type 0 where
  set_property : String → Value → Effect
  notification : Notification → Effect
  start_client : ℕ → Effect
  stop_client : ℕ → Effect
  reply : Request → Effect
  set_servers : List (String × String) → Effect
  start_part : Part → Effect
  stop_part : Part → Effect
  close_notifier : Effect
  close_closed : Effect

-- `Agent`; nil pointers and channels are `none`. `errors` holds what is buffered in the channel,
-- `channels` counts the results channels made so far, and `trace` holds the effects, newest first.
pub record Agent (K : Krb) (C : Type 0) : Type 0 where
  pub config : Config C
  pub client : Option (Client K C)
  pub login : Option ℕ
  pub errors : List String
  pub ccache_up : Option (CCacheUpdate K)
  pub krbcfg_up : Option (ConfUpdate K)
  pub kerberos_tgt : KerberosTicket
  pub trusted_network : ℕ
  pub login_state : ℕ
  pub logged_in : Bool
  pub last_keep_alive : ℤ
  pub notifier : Option Notifier
  pub channels : ℕ
  pub trace : List Effect

-- What a list of effects, newest first, leaves in a D-Bus property.
abbrev pub latest : String → List Effect → Option Value
latest p [] = none
latest p (set_property q v ∷ es) = if str_eq q p then some v else latest p es
latest p (e ∷ es) = latest p es

module _ {K : Krb} {C : Type 0} where
  abbrev pub emit : Effect → Agent K C → Agent K C
  emit e a = record a { trace = e ∷ a.trace }

  -- The ccache and the Kerberos configuration that the agent holds, if they are not nil.
  abbrev pub held_ccache : Agent K C → Option K.CCache
  held_ccache a = elim a.ccache_up [ none ↦ none | some u ↦ u.ccache ]

  abbrev pub held_conf : Agent K C → Option K.Conf
  held_conf a = elim a.krbcfg_up [ none ↦ none | some u ↦ u.config ]

  -- The agent that `NewAgent` returns: Go's zero values, apart from the configuration and the
  -- notifier, which is nil if it could not be created.
  abbrev pub new_agent : Config C → Option Notifier → Agent K C
  new_agent config notifier = record {
    config = config;
    client = none;
    login = none;
    errors = [];
    ccache_up = none;
    krbcfg_up = none;
    kerberos_tgt = record { start_time = pos 0; end_time = pos 0 };
    trusted_network = TrustedNetwork.unknown;
    login_state = LoginState.unknown;
    logged_in = false;
    last_keep_alive = pos 0;
    notifier = notifier;
    channels = 0;
    trace = [];
  }
