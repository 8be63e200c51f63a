-- ===== src/Agent/Start.antt =====
-- internal/agent/agent.go: `initTND` and `Start`.
use fw_id_agent.Prelude.{
  String, ◌<>◌, str_eq, false, Option, none, some, List, [], ◌∷◌, if◌then◌else◌, ◌≡◌, refl, ◌∙◌, ap,
  arith,
}
use fw_id_agent.Config.{Config, TndHttpsConfig}
use fw_id_agent.Status.LoginState
use fw_id_agent.Dbusapi.Property
use fw_id_agent.Dbusapi.{text}
use fw_id_agent.Krbmon.{Krb}
use fw_id_agent.Agent.State.{
  Agent, Part, dbus, ccache, krbcfg, tnd, sleep, set_property, set_servers, start_part, emit,
}
use fw_id_agent.Agent.Setters.{set_trusted_network, set_login_state}

-- `servers[url] = hash` on a Go map.
unfoldable pub assign : String → String → List (String × String) → List (String × String)
assign url hash [] = (url, hash) ∷ []
assign url hash ((u, h) ∷ m) = if str_eq u url then (url, hash) ∷ m else (u, h) ∷ assign url hash m

-- The loop of `initTND`.
unfoldable pub tnd_servers : List TndHttpsConfig → List (String × String) → List (String × String)
unfolding assign
tnd_servers [] m = m
tnd_servers (s ∷ ss) m = tnd_servers ss (assign s.url s.hash m)

-- What the environment answers while the agent starts: the error of each component's `Start`, and
-- the result of `config.JSON`, an error or the text.
pub data Json : Type 0 where
  json_text : String → Json
  json_error : String → Json

pub record Environment (C : Type 0) : Type 0 where
  pub start_error : Part → Option String
  pub config_json : Config C → Json

-- A step of `Start`: the error that it returns, or none, and the agent.
abbrev pub StartStep : (K : Krb) (C : Type 0) → Type 0
StartStep K C = Agent K C → Option String × Agent K C

module _ {K : Krb} {C : Type 0} where
  abbrev and_then : Option String × Agent K C → StartStep K C → Option String × Agent K C
  and_then (some e, a) k = (some e, a)
  and_then (none, a) k = k a

  infixl 5 ◌>>◌
  abbrev pub ◌>>◌ : StartStep K C → StartStep K C → StartStep K C
  ◌>>◌ m k a = and_then (m a) k

  abbrev pub always : (Agent K C → Agent K C) → StartStep K C
  always f a = (none, f a)

  -- Start one component; its error is wrapped.
  unfoldable pub start_component : Environment C → Part → String → StartStep K C
  start_component env p message a = elim (env.start_error p) [
    | none ↦ (none, emit (start_part p) a)
    | some e ↦ (some (message <> e), a)
  ]

  -- `initTND`
  unfoldable pub init_tnd : Agent K C → Agent K C
  unfolding tnd_servers
  init_tnd a = emit (set_servers (tnd_servers a.config.tnd.https_servers [])) a

  -- The last step: the D-Bus property with the configuration.
  unfoldable pub publish_config : Environment C → StartStep K C
  publish_config env a = elim (env.config_json a.config) [
    | json_error e ↦ (some ("could not convert config to json: " <> e), a)
    | json_text t ↦ (none, emit (set_property Property.config (text t)) a)
  ]

  -- `Agent.Start`; with no error the main loop runs from the agent that is returned.
  unfoldable pub start : Environment C → StartStep K C
  unfolding start_component publish_config init_tnd
  start env = do
    start_component env dbus "could not start dbus api: "
    start_component env ccache "could not start ccache monitor: "
    start_component env krbcfg "could not start krb5.conf monitor: "
    always init_tnd
    start_component env tnd "could not start TND: "
    start_component env sleep "could not start sleep monitor: "
    always (set_trusted_network false)
    always (set_login_state LoginState.logged_out)
    publish_config env

  -- The agent up to the first status that `Start` sets.
  abbrev pub parts_started : Agent K C → Agent K C
  parts_started a = emit (start_part sleep) (
      emit (start_part tnd)
        (init_tnd (emit (start_part krbcfg) (emit (start_part ccache) (emit (start_part dbus) a)))))

  -- The agent with the first status, before the configuration is published.
  abbrev pub status_set : Agent K C → Agent K C
  unfolding init_tnd
  status_set a = set_login_state LoginState.logged_out (set_trusted_network false (parts_started a))

  abbrev pub published : String → Agent K C → Agent K C
  published t a = emit (set_property Property.config (text t)) a

  -- Where `m` returns no error, the agent is the one that `f` gives.
  abbrev SucceedsAs : StartStep K C → (Agent K C → Agent K C) → Type 0
  SucceedsAs m f = (a b : Agent K C) → m a ≡ (none, b) → b ≡ f a

  and_then-none :
      (m : Option String × Agent K C) (k : StartStep K C) (g : Agent K C → Agent K C)
      → SucceedsAs k g
      → (b : Agent K C) → and_then m k ≡ (none, b)
      → (m.0 ≡ none) × (b ≡ g m.1)
  and_then-none (none, a) k g h b e = (refl, h a b e)
  and_then-none (some e, a) k g h b eq = cc

  >>_succeeds :
      (m k : StartStep K C) (f g : Agent K C → Agent K C)
      → SucceedsAs m f
      → SucceedsAs k g
      → SucceedsAs (m >> k) (λ a. g (f a))
  >>_succeeds m k f g hm hk a b e =
      let (ok, same) = and_then-none (m a) k g hk b e in
      same ∙ ap g (hm a (m a).1 (λ i. (ok i, (m a).1)))

  always_succeeds : (f : Agent K C → Agent K C) → SucceedsAs (always f) f
  always_succeeds f a b e = ground arith

  start_component_succeeds :
      (env : Environment C) (p : Part) (m : String)
      → SucceedsAs (start_component env p m) (emit (start_part p))
  unfolding start_component
  start_component_succeeds env p m a b h = ground arith

  abbrev pub published_by : Environment C → Agent K C → Agent K C
  published_by env a = elim (env.config_json a.config) [
    | json_text t ↦ published t a
    | json_error e ↦ a
  ]

  publish_config_succeeds :
      (env : Environment C) → SucceedsAs (publish_config env) (published_by env)
  unfolding publish_config
  publish_config_succeeds env a b h = ground arith

  -- A start with no error has started every component and set the first status.
  pub start_ok :
      (env : Environment C) (a b : Agent K C)
      → start env a ≡ (none, b)
      → b ≡ published_by env (status_set a)
  unfolding start
  start_ok env = >>_succeeds _ _ (emit (start_part dbus)) _ (start_component_succeeds env dbus _) (
      >>_succeeds _ _ (emit (start_part ccache)) _ (start_component_succeeds env ccache _) (
        >>_succeeds _ _ (emit (start_part krbcfg)) _ (start_component_succeeds env krbcfg _) (
          >>_succeeds _ _ init_tnd _ (always_succeeds _) (
            >>_succeeds _ _ (emit (start_part tnd)) _ (start_component_succeeds env tnd _) (
              >>_succeeds _ _ (emit (start_part sleep)) _ (start_component_succeeds env sleep _) (
                >>_succeeds _ _ (set_trusted_network false) _ (always_succeeds _) (
                  >>_succeeds _ _ (set_login_state LoginState.logged_out) (published_by env)
                    (always_succeeds _) (publish_config_succeeds env))))))))
