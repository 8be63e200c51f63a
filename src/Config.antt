-- ===== src/Config.antt =====
-- pkg/config/config.go: the configuration of the agent, its validity and its durations. The nested
-- configuration of the trusted network detection belongs to the tnd library and is a parameter.
pub mod Validity
pub mod Durations
use fw_id_agent.Prelude.{
  ℕ, ◌*◌, ◌^◌, ℤ, pos, scale, wrap64, is_neg, String, str_eq, Bool, true, false, not, ◌||◌, List,
  [], ◌∷◌, Option, none, some, length, ◌==◌, if◌then◌else◌,
}

-- What the source uses of package tnd: `Config`, `Config.Copy`, `Config.Valid`, which is called on a
-- pointer that may be nil, and `NewConfig`.
pub record Tnd : Type 1 where
  pub Conf : Type 0
  pub copy : Conf → Conf
  pub valid : Option Conf → Bool
  pub new_config : Conf

-- `TNDHTTPSConfig`
pub record TndHttpsConfig : Type 0 where
  pub url : String
  pub hash : String

-- `TNDConfig`; a nil `Config` is `none`.
pub record TndConfig (C : Type 0) : Type 0 where
  pub https_servers : List TndHttpsConfig
  pub config : Option C

-- The `int` fields are integers in the range of int64.
pub record Config (C : Type 0) : Type 0 where
  pub service_url : String
  pub realm : String
  pub keep_alive : ℤ
  pub login_timeout : ℤ
  pub logout_timeout : ℤ
  pub retry_timer : ℤ
  pub tnd : TndConfig C
  pub verbose : Bool
  pub start_delay : ℤ
  pub notifications : Bool

-- `TNDHTTPSConfig.Valid`
unfoldable pub https_valid : TndHttpsConfig → Bool
https_valid t = if str_eq t.url "" || str_eq t.hash "" then false else true

-- The loop of `TNDConfig.Valid` over the servers.
servers_valid : List TndHttpsConfig → Bool
servers_valid [] = true
servers_valid (s ∷ ss) = elim (https_valid s) [ true ↦ servers_valid ss | false ↦ false ]

module _ (T : Tnd) where
  -- `TNDConfig.Copy`
  abbrev pub tnd_copy : TndConfig T.Conf → TndConfig T.Conf
  tnd_copy t = record {
    https_servers = t.https_servers;
    config = elim t.config [ none ↦ none | some c ↦ some (T.copy c) ];
  }

  -- `TNDConfig.Valid`
  unfoldable pub tnd_valid : TndConfig T.Conf → Bool
  unfolding https_valid servers_valid
  tnd_valid t =
      if length t.https_servers == 0
      then false
      else if servers_valid t.https_servers
      then T.valid t.config
      else false

  -- `Config.Copy`; a nil pointer is `none`.
  abbrev pub copy : Option (Config T.Conf) → Option (Config T.Conf)
  copy none = none
  copy (some c) = some (record c { tnd = tnd_copy c.tnd })

  -- The body of `Config.Valid` behind its test for nil.
  config_valid : Config T.Conf → Bool
  config_valid c =
      if str_eq c.service_url ""
        || str_eq c.realm ""
        || is_neg c.keep_alive
        || is_neg c.login_timeout
        || is_neg c.logout_timeout
        || is_neg c.retry_timer
        || not (tnd_valid c.tnd)
        || is_neg c.start_delay
      then false
      else true

  -- `Config.Valid`
  unfoldable pub valid : Option (Config T.Conf) → Bool
  unfolding config_valid tnd_valid
  valid none = false
  valid (some c) = config_valid c

  -- `Default`
  abbrev pub default : Config T.Conf
  default = record {
    service_url = "";
    realm = "";
    keep_alive = pos 5;
    login_timeout = pos 15;
    logout_timeout = pos 5;
    retry_timer = pos 15;
    tnd = record { https_servers = []; config = some T.new_config };
    verbose = false;
    start_delay = pos 0;
    notifications = true;
  }

-- Nanoseconds, as in package time.
abbrev pub second : ℕ
second = 10 ^ 9

abbrev pub minute : ℕ
minute = 60 * second

module _ {C : Type 0} (c : Config C) where
  -- `GetKeepAlive`: the product of two int64, which wraps.
  unfoldable pub get_keep_alive : ℤ
  get_keep_alive = wrap64 (scale c.keep_alive minute)

  -- `GetLoginTimeout`
  unfoldable pub get_login_timeout : ℤ
  get_login_timeout = wrap64 (scale c.login_timeout second)

  -- `GetLogoutTimeout`
  unfoldable pub get_logout_timeout : ℤ
  get_logout_timeout = wrap64 (scale c.logout_timeout second)

  -- `GetRetryTimer`
  unfoldable pub get_retry_timer : ℤ
  get_retry_timer = wrap64 (scale c.retry_timer second)

  -- `GetStartDelay`
  unfoldable pub get_start_delay : ℤ
  get_start_delay = wrap64 (scale c.start_delay second)
