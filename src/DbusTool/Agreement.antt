-- ===== src/DbusTool/Agreement.antt =====
-- When the example program and the client package hold the same, and what keeps it so.
use fw_id_agent.Prelude.{ℕ, ℤ, String, ◌≡◌, refl, Option, none, some}
use fw_id_agent.Config.{Config}
use fw_id_agent.Status.{Status}
use fw_id_agent.Dbusapi.{config_invalid}
use fw_id_agent.DbusClient.Update.{
  got, Bus, set_config, set_trusted_network, set_login_state, set_last_keep_alive, set_tgt_start,
  set_tgt_end, apply,
}
use fw_id_agent.DbusTool.{Values}

module _ {C : Type 0} (B : Bus C) where
  open B use {Variant, store_string, store_uint32, store_int64, config_from_json}

  -- The text is that of the configuration, or of none.
  abbrev pub Reads : String → Option (Config C) → Type 0
  Reads text none = text ≡ config_invalid
  Reads text (some c) = config_from_json text ≡ got c

  -- The program holds the values of the client's status.
  pub record Agrees (v : Values) (s : Status C) : Type 0 where
    pub config : Reads v.config s.config
    pub network : v.trusted_network ≡ s.trusted_network
    pub login : v.login_state ≡ s.login_state
    pub keep_alive : v.last_keep_alive_at ≡ s.last_keep_alive
    pub tgt_start : v.kerberos_tgt_start_time ≡ s.kerberos_tgt.start_time
    pub tgt_end : v.kerberos_tgt_end_time ≡ s.kerberos_tgt.end_time

  module _ (v : Values) (s : Status C) (a : Agrees v s) where
    pub set_config-Agrees :
        (text : String) (o : Option (Config C))
        → Reads text o
        → Agrees (record v { config = text }) (apply (set_config o) s)
    set_config-Agrees text o h = record {
      config = h;
      network = a.network;
      login = a.login;
      keep_alive = a.keep_alive;
      tgt_start = a.tgt_start;
      tgt_end = a.tgt_end;
    }

    pub set_trusted_network-Agrees :
        (n : ℕ) → Agrees (record v { trusted_network = n }) (apply (set_trusted_network n) s)
    set_trusted_network-Agrees n = record {
      config = a.config;
      network = refl;
      login = a.login;
      keep_alive = a.keep_alive;
      tgt_start = a.tgt_start;
      tgt_end = a.tgt_end;
    }

    pub set_login_state-Agrees :
        (n : ℕ) → Agrees (record v { login_state = n }) (apply (set_login_state n) s)
    set_login_state-Agrees n = record {
      config = a.config;
      network = a.network;
      login = refl;
      keep_alive = a.keep_alive;
      tgt_start = a.tgt_start;
      tgt_end = a.tgt_end;
    }

    pub set_last_keep_alive-Agrees :
        (n : ℤ) → Agrees (record v { last_keep_alive_at = n }) (apply (set_last_keep_alive n) s)
    set_last_keep_alive-Agrees n = record {
      config = a.config;
      network = a.network;
      login = a.login;
      keep_alive = refl;
      tgt_start = a.tgt_start;
      tgt_end = a.tgt_end;
    }

    pub set_tgt_start-Agrees :
        (n : ℤ) → Agrees (record v { kerberos_tgt_start_time = n }) (apply (set_tgt_start n) s)
    set_tgt_start-Agrees n = record {
      config = a.config;
      network = a.network;
      login = a.login;
      keep_alive = a.keep_alive;
      tgt_start = refl;
      tgt_end = a.tgt_end;
    }

    pub set_tgt_end-Agrees :
        (n : ℤ) → Agrees (record v { kerberos_tgt_end_time = n }) (apply (set_tgt_end n) s)
    set_tgt_end-Agrees n = record {
      config = a.config;
      network = a.network;
      login = a.login;
      keep_alive = a.keep_alive;
      tgt_start = a.tgt_start;
      tgt_end = refl;
    }
