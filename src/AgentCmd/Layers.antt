-- ===== src/AgentCmd/Layers.antt =====
-- A setting through its three layers: the command line, the configuration file and the defaults.
use fw_id_agent.Prelude.{
  ℤ, String, ◌≡◌, sym, ◌∙◌, ap, Bool, true, Option, none, some, List, All, arith,
}
use fw_id_agent.Config.{Tnd, TndHttpsConfig, Config, valid, default}
use fw_id_agent.DbusClient.Update.{Try, got}
use fw_id_agent.AgentCmd.{configured, Loaded, loaded, given, get_config}
use fw_id_agent.AgentCmd.Precedence.{Base, defaults, from_file, IsOverlay, config_overlays}
use fw_id_agent.AgentCmd.Arguments.{config_file, config_from, unset}
use fw_id_agent.AgentCmd.Written.{
  Written, IsReadable, write_all, last_text, given_flags, config_from-write_all,
}
use fw_id_agent.AgentCmd.Loading.{load}

-- What a JSON document names of a configuration. The detection configuration, which is another
-- library's, is changed as that library's fields are.
pub record Document (C : Type 0) : Type 0 where
  pub service_url : Option String
  pub realm : Option String
  pub keep_alive : Option ℤ
  pub login_timeout : Option ℤ
  pub logout_timeout : Option ℤ
  pub retry_timer : Option ℤ
  pub https_servers : Option (List TndHttpsConfig)
  pub tnd_config : Option C → Option C
  pub verbose : Option Bool
  pub start_delay : Option ℤ
  pub notifications : Option Bool

-- A configuration with what a document names.
abbrev pub fill : {C : Type 0} → Document C → Config C → Config C
fill d c = record {
  service_url = given d.service_url c.service_url;
  realm = given d.realm c.realm;
  keep_alive = given d.keep_alive c.keep_alive;
  login_timeout = given d.login_timeout c.login_timeout;
  logout_timeout = given d.logout_timeout c.logout_timeout;
  retry_timer = given d.retry_timer c.retry_timer;
  tnd = record {
    https_servers = given d.https_servers c.tnd.https_servers;
    config = d.tnd_config c.tnd.config;
  };
  verbose = given d.verbose c.verbose;
  start_delay = given d.start_delay c.start_delay;
  notifications = given d.notifications c.notifications;
}

module _ (T : Tnd) (unmarshal : String → Config T.Conf → Loaded T.Conf) where
  -- `json.Unmarshal` sets what the text names and leaves the other fields of its target alone.
  abbrev pub Fills : String → Document T.Conf → Type 0
  Fills text d = (c : Config T.Conf) → unmarshal text c ≡ loaded (fill d c)

  load-Fills :
      (read : String → Try String) (path text : String) (d : Document T.Conf)
      → read path ≡ got text
      → Fills text d
      → load T unmarshal read path ≡ loaded (fill d (default T))
  unfolding load
  load-Fills read path text d file fills = rw (load, file) (fills (default T))

  module _ (parse_int : String → Option ℤ) (to_lower : String → String)
      (read : String → Try String) where
    -- When the agent is configured by arguments that are written out and name a configuration file
    -- that can be read, the configuration is valid, and each setting is that of the arguments, where
    -- they name it, else that of the file, where it names it, and else the default.
    pub settings_layered :
        (gs : List Written)
        → All (IsReadable parse_int) gs
        → (path text : String) → last_text config_file gs none ≡ some path
        → read path ≡ got text
        → (d : Document T.Conf) → Fills text d
        → (c : Config T.Conf)
        → config_from parse_int T to_lower (load T unmarshal read) (write_all gs) ≡ configured c
        → (valid T (some c) ≡ true)
          × IsOverlay T to_lower
              (load T unmarshal read)
              (given_flags gs unset)
              (fill d (default T))
              c
    settings_layered gs readable path text named file d fills c h =
        let parsed : get_config T to_lower (load T unmarshal read) (given_flags gs unset)
            ≡ configured c =
          sym (config_from-write_all parse_int T to_lower (load T unmarshal read) gs readable)
          ∙ h in
        let (ok, b, base, overlay) =
          config_overlays T to_lower (load T unmarshal read) (given_flags gs unset) c parsed in
        let same : b ≡ fill d (default T) = base-fill b base in (ok, rw same at overlay)
      where
        base-fill :
            (b : Config T.Conf)
            → Base T to_lower (load T unmarshal read) (given_flags gs unset) b
            → b ≡ fill d (default T)
        base-fill b (defaults e) = absurd (ground (arith, e, named))
        base-fill b (from_file {file = other} e l) =
            let same : some path ≡ some other = sym named ∙ e in
            let found : path ≡ other = cc in
            let both : loaded b ≡ loaded (fill d (default T)) =
              sym l
              ∙ (ap (load T unmarshal read) (sym found) ∙ load-Fills read path text d file fills) in
            cc
