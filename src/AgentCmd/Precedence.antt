-- ===== src/AgentCmd/Precedence.antt =====
-- What a configuration that `getConfig` returns is made of.
use fw_id_agent.Prelude.{
  String, ◌≡◌, refl, sym, true, ◌⊎◌, inl, inr, none, some, arith, Option-cases, Bool-cases,
}
use fw_id_agent.Config.{Tnd, Config, valid, default}
use fw_id_agent.AgentCmd.{
  Flags, configured, not_loaded, given, overwrite, set_servers, Loaded, loaded, load_error,
  parse_tnd_servers, check, configure, get_config,
}

Loaded-cases :
    {C : Type 0} (l : Loaded C)
    → ((e : String) × (l ≡ load_error e)) ⊎ ((c : Config C) × (l ≡ loaded c))
Loaded-cases (load_error e) = inl (e, refl)
Loaded-cases (loaded c) = inr (c, refl)

module _ (T : Tnd) (to_lower : String → String) (load : String → Loaded T.Conf) where
  -- The configuration that the flags overwrite.
  pub data Base (f : Flags) : Config T.Conf → Type 0 where
    defaults : f.config_file ≡ none → Base f (default T)
    from_file :
        {file : String} {c : Config T.Conf}
        → f.config_file ≡ some file
        → load file ≡ loaded c
        → Base f c

  -- Each setting is that of the flag, where the flag is set, and else that of the base.
  pub record IsOverlay (f : Flags) (b c : Config T.Conf) : Type 0 where
    pub service_url : c.service_url ≡ given f.service_url b.service_url
    pub realm : c.realm ≡ given f.realm b.realm
    pub keep_alive : c.keep_alive ≡ given f.keep_alive b.keep_alive
    pub login_timeout : c.login_timeout ≡ given f.login_timeout b.login_timeout
    pub logout_timeout : c.logout_timeout ≡ given f.logout_timeout b.logout_timeout
    pub retry_timer : c.retry_timer ≡ given f.retry_timer b.retry_timer
    pub verbose : c.verbose ≡ given f.verbose b.verbose
    pub start_delay : c.start_delay ≡ given f.start_delay b.start_delay
    pub notifications : c.notifications ≡ given f.notifications b.notifications
    pub detection : c.tnd.config ≡ b.tnd.config
    pub servers :
        ((f.tnd_servers ≡ none) × (c.tnd.https_servers ≡ b.tnd.https_servers))
        ⊎ ((text : String) × (f.tnd_servers ≡ some text)
            × (parse_tnd_servers to_lower text ≡ some c.tnd.https_servers))

  check_configured :
      (d c : Config T.Conf)
      → check T to_lower load d ≡ configured c
      → (d ≡ c) × (valid T (some c) ≡ true)
  unfolding check
  check_configured d c h = elim (Bool-cases (valid T (some d))) [
    | inl v ↦
        let same : configured d ≡ configured c = rw v at h in
        let e : d ≡ c = ground arith in (e, rw e at v)
    | inr v ↦ absurd (ground arith)
  ]

  configure-IsOverlay :
      (f : Flags) (b c : Config T.Conf)
      → configure T to_lower load f b ≡ configured c
      → (valid T (some c) ≡ true) × IsOverlay f b c
  unfolding configure
  configure-IsOverlay f b c h = elim (Option-cases f.tnd_servers) [
    | inl e ↦
        let done : check T to_lower load (overwrite f b) ≡ configured c = rw e at h in
        let (same, ok) = check_configured (overwrite f b) c done in
        (
          ok,
          rw (sym same) (record {
            service_url = refl;
            realm = refl;
            keep_alive = refl;
            login_timeout = refl;
            logout_timeout = refl;
            retry_timer = refl;
            verbose = refl;
            start_delay = refl;
            notifications = refl;
            detection = refl;
            servers = inl (e, refl);
          }),
        )
    | inr (text, e) ↦ elim (Option-cases (parse_tnd_servers to_lower text)) [
      | inl bad ↦ absurd (ground (arith, rw (configure, e, bad) at h))
      | inr (ss, good) ↦
          let done : check T to_lower load (set_servers ss (overwrite f b)) ≡ configured c =
            rw (configure, e, good) at h in
          let (same, ok) = check_configured (set_servers ss (overwrite f b)) c done in
          (
            ok,
            rw (sym same) (record {
              service_url = refl;
              realm = refl;
              keep_alive = refl;
              login_timeout = refl;
              logout_timeout = refl;
              retry_timer = refl;
              verbose = refl;
              start_delay = refl;
              notifications = refl;
              detection = refl;
              servers = inr (text, e, good);
            }),
          )
    ]
  ]

  -- A configuration that `getConfig` returns is valid, and each of its settings is that of the flag,
  -- where the flag is set, and else that of the base: the loaded file, where a file is named, and else
  -- the defaults. The servers of the flag are those that were parsed, and the detection configuration
  -- is that of the base.
  pub config_overlays :
      (f : Flags) (c : Config T.Conf)
      → get_config T to_lower load f ≡ configured c
      → (valid T (some c) ≡ true) × (b : Config T.Conf) × Base f b × IsOverlay f b c
  unfolding get_config
  config_overlays f c h = elim (Bool-cases f.version) [
    | inl v ↦ absurd (ground arith)
    | inr v ↦ elim (Option-cases f.config_file) [
      | inl e ↦
          let done : configure T to_lower load f (default T) ≡ configured c =
            rw (get_config, v, e) at h in
          let (ok, overlay) = configure-IsOverlay f (default T) c done in
          (ok, default T, defaults e, overlay)
      | inr (file, e) ↦ elim (Loaded-cases (load file)) [
        | inl (m, bad) ↦
            let failed : not_loaded m ≡ configured c = rw (get_config, v, e, bad) at h in
            absurd (ground arith)
        | inr (b, good) ↦
            let done : configure T to_lower load f b ≡ configured c =
              rw (get_config, v, e, good) at h in
            let (ok, overlay) = configure-IsOverlay f b c done in (ok, b, from_file e good, overlay)
      ]
    ]
  ]
