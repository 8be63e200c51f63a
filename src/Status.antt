-- ===== src/Status.antt =====
-- pkg/status/status.go: the states that the agent reports. `TrustedNetwork` and `LoginState` are
-- uint32 in the source, so that a value outside the named constants can arrive over D-Bus.
pub mod TrustedNetwork
pub mod LoginState
pub mod Json
use fw_id_agent.Prelude.{ℕ, ℤ, pos, ◌==ℤ◌, String, Bool, ◌&&◌, Option, none, ◌==◌, if◌then◌else◌}
use fw_id_agent.Config.{Config, Tnd, copy as config_copy}

-- `KerberosTicket`
pub record KerberosTicket : Type 0 where
  pub start_time : ℤ
  pub end_time : ℤ

-- `KerberosTicket.TimesEqual`
abbrev pub times_equal : KerberosTicket → ℤ → ℤ → Bool
times_equal k start end = k.start_time ==ℤ start && k.end_time ==ℤ end

-- `Status`
pub record Status (C : Type 0) : Type 0 where
  pub config : Option (Config C)
  pub trusted_network : ℕ
  pub login_state : ℕ
  pub last_keep_alive : ℤ
  pub kerberos_tgt : KerberosTicket

-- `Status.Copy`
abbrev pub copy : (T : Tnd) → Status T.Conf → Status T.Conf
copy T s = record s { config = config_copy T s.config }

-- `New`
abbrev pub new : {C : Type 0} → Status C
new = record {
  config = none;
  trusted_network = TrustedNetwork.unknown;
  login_state = LoginState.unknown;
  last_keep_alive = pos 0;
  kerberos_tgt = record { start_time = pos 0; end_time = pos 0 };
}
