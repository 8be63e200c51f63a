-- ===== src/LoginClient/State.antt =====
-- internal/client/client.go: the state of a client, and its getters and setters. The mutex makes
-- each of them one step.
use fw_id_agent.Prelude.{ℕ, ℤ, Option}
use fw_id_agent.Config.{Config, get_keep_alive}
use fw_id_agent.Krbmon.{Krb}

-- `Client`; nil pointers are `none`. `results` stands for the identity of the results channel.
pub record Client (K : Krb) (C : Type 0) : Type 0 where
  pub config : Config C
  pub keep_alive : ℤ
  pub results : ℕ
  pub ccache : Option K.CCache
  pub krb5conf : Option K.Conf

module _ {K : Krb} {C : Type 0} where
  -- `NewClient`, which makes the results channel `ch`.
  unfoldable pub new_client : ℕ → Config C → Option K.CCache → Option K.Conf → Client K C
  new_client ch config ccache krb5conf = record {
    config = config;
    keep_alive = get_keep_alive config;
    results = ch;
    ccache = ccache;
    krb5conf = krb5conf;
  }

  -- `SetCCache`
  abbrev pub set_ccache : Client K C → Option K.CCache → Client K C
  set_ccache c ccache = record c { ccache = ccache }

  -- `SetKrb5Conf`
  abbrev pub set_krb5_conf : Client K C → Option K.Conf → Client K C
  set_krb5_conf c conf = record c { krb5conf = conf }
