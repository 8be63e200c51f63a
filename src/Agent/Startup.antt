-- ===== src/Agent/Startup.antt =====
-- internal/agent/agent.go: what `Start` leaves behind, with and without an error.
use fw_id_agent.Prelude.{
  String, ◌<>◌, ◌≡◌, Option, none, some, List, [], ◌∷◌, ◌++◌, arith, Option-cases, inl, inr, refl,
  ap, false, sym, ◌∙◌, ◌⊎◌,
}
use mathlib.Core.List.{append_assoc, append-nil}
use fw_id_agent.Config.{Config}
use fw_id_agent.Krbmon.{Krb}
use fw_id_agent.Notify.{Notifier, notify}
use fw_id_agent.Agent.State.{
  Agent, emit, Part, dbus, ccache, krbcfg, tnd, sleep, Effect, start_part, stop_part, new_agent,
}
use fw_id_agent.Status.LoginState
use fw_id_agent.Agent.Setters.{set_trusted_network, set_login_state}
use fw_id_agent.Agent.Start.{
  Environment, Json, json_text, json_error, StartStep, ◌>>◌, always, start_component, start,
  init_tnd, publish_config,
}

-- The components in the order in which they are started.
abbrev pub parts : List Part
parts = dbus ∷ ccache ∷ krbcfg ∷ tnd ∷ sleep ∷ []

-- What is said when a component cannot be started.
abbrev pub complaint : Part → String
complaint dbus = "could not start dbus api: "
complaint ccache = "could not start ccache monitor: "
complaint krbcfg = "could not start krb5.conf monitor: "
complaint tnd = "could not start TND: "
complaint sleep = "could not start sleep monitor: "

-- The components that an agent has started, or stopped, oldest first.
abbrev pub started_in : List Effect → List Part
started_in [] = []
started_in (start_part p ∷ es) = started_in es ++ (p ∷ [])
started_in (e ∷ es) = started_in es

abbrev pub stopped_in : List Effect → List Part
stopped_in [] = []
stopped_in (stop_part p ∷ es) = stopped_in es ++ (p ∷ [])
stopped_in (e ∷ es) = stopped_in es

Json-cases : (j : Json) → ((t : String) × (j ≡ json_text t)) ⊎ ((e : String) × (j ≡ json_error e))
Json-cases (json_text t) = inl (t, refl)
Json-cases (json_error e) = inr (e, refl)

module _ {C : Type 0} (env : Environment C) where
  -- The components before the first one that cannot be started.
  unfoldable pub before_error : List Part → List Part
  before_error [] = []
  before_error (p ∷ ps) =
      let rest = before_error ps in elim (env.start_error p) [ none ↦ p ∷ rest | some e ↦ [] ]

  -- The first error of a component, or else that of the configuration's JSON.
  unfoldable pub first_error : Config C → List Part → Option String
  first_error conf [] = elim (env.config_json conf) [
    | json_text t ↦ none
    | json_error e ↦ some ("could not convert config to json: " <> e)
  ]
  first_error conf (p ∷ ps) =
      let rest = first_error conf ps in
      elim (env.start_error p) [ none ↦ rest | some e ↦ some (complaint p <> e) ]

  module _ (K : Krb) (conf : Config C) where
    -- What steps that start `ps` return and leave of the agent `a`.
    record Orderly (ps : List Part) (a : Agent K C) (r : Option String × Agent K C) : Type 0 where
      error : r.0 ≡ first_error conf ps
      started : started_in r.1.trace ≡ started_in a.trace ++ before_error ps
      stopped : stopped_in r.1.trace ≡ stopped_in a.trace

    StartsOrderly : List Part → StartStep K C → Type 0
    StartsOrderly ps k = (a : Agent K C) → a.config ≡ conf → Orderly ps a (k a)

    begin-StartsOrderly :
        (p : Part) (ps : List Part) (k : StartStep K C)
        → StartsOrderly ps k
        → StartsOrderly (p ∷ ps) (start_component env p (complaint p) >> k)
    unfolding start_component before_error first_error StartsOrderly
    begin-StartsOrderly p ps k h a c = elim (Option-cases (env.start_error p)) [
      | inl fine ↦
          let rest = h (emit (start_part p) a) c in
          record {
            error = rw (start_component, first_error, fine) rest.error;
            started =
                rw (start_component, before_error, fine)
                  (rest.started ∙ append_assoc (started_in a.trace) (p ∷ []) (before_error ps));
            stopped = rw (start_component, fine) rest.stopped;
          }
      | inr (e, fails) ↦ record {
        error = rw (start_component, first_error, fails) refl;
        started = rw (start_component, before_error, fails) (sym (append-nil (started_in a.trace)));
        stopped = rw (start_component, fails) refl;
      }
    ]

    publish-StartsOrderly : StartsOrderly [] (publish_config env)
    unfolding publish_config before_error first_error StartsOrderly
    publish-StartsOrderly a c = elim (Json-cases (env.config_json conf)) [
      | inl (t, h) ↦ record {
        error = rw (publish_config, first_error, c, h) refl;
        started = rw (publish_config, c, h) (sym (append-nil (started_in a.trace)));
        stopped = rw (publish_config, c, h) refl;
      }
      | inr (e, h) ↦ record {
        error = rw (publish_config, first_error, c, h) refl;
        started = rw (publish_config, c, h) (sym (append-nil (started_in a.trace)));
        stopped = rw (publish_config, c, h) refl;
      }
    ]

    always-StartsOrderly :
        (f : Agent K C → Agent K C) (ps : List Part) (k : StartStep K C)
        → ((a : Agent K C) → (f a).config ≡ a.config)
        → ((a : Agent K C) → started_in (f a).trace ≡ started_in a.trace)
        → ((a : Agent K C) → stopped_in (f a).trace ≡ stopped_in a.trace)
        → StartsOrderly ps k
        → StartsOrderly ps (always f >> k)
    unfolding StartsOrderly
    always-StartsOrderly f ps k c s t h a e =
        let r = h (f a) (c a ∙ e) in
        record {
          error = r.error;
          started = r.started ∙ ap (λ l. l ++ before_error ps) (s a);
          stopped = r.stopped ∙ t a;
        }

    tnd-StartsOrderly :
        (ps : List Part) (k : StartStep K C)
        → StartsOrderly ps k
        → StartsOrderly ps (always init_tnd >> k)
    unfolding init_tnd
    tnd-StartsOrderly ps k = always-StartsOrderly init_tnd ps k (λ a. refl) (λ a. refl) (λ a. refl)

    network-StartsOrderly :
        (k : StartStep K C)
        → StartsOrderly [] k
        → StartsOrderly [] (always (set_trusted_network false) >> k)
    unfolding set_trusted_network notify
    network-StartsOrderly k =
        always-StartsOrderly (set_trusted_network false) [] k (λ a. ground arith)
          (λ a. ground arith) (λ a. ground arith)

    login-StartsOrderly :
        (k : StartStep K C)
        → StartsOrderly [] k
        → StartsOrderly [] (always (set_login_state LoginState.logged_out) >> k)
    unfolding set_login_state notify
    login-StartsOrderly k =
        always-StartsOrderly (set_login_state LoginState.logged_out) [] k (λ a. ground arith)
          (λ a. ground arith) (λ a. ground arith)

    start-StartsOrderly : StartsOrderly parts (start env)
    unfolding start
    start-StartsOrderly = begin-StartsOrderly dbus _ _ (
        begin-StartsOrderly ccache _ _ (
          begin-StartsOrderly krbcfg _ _ (
            tnd-StartsOrderly _ _ (
              begin-StartsOrderly tnd _ _ (
                begin-StartsOrderly sleep _ _
                  (network-StartsOrderly _ (login-StartsOrderly _ publish-StartsOrderly)))))))

  -- The start of a new agent returns the error of the first of its components, in their order, that
  -- cannot be started, with what was being started, or else that of the JSON of the configuration. It
  -- has started the components before that one, or else all, and has stopped none of them.
  pub start_in_order :
      {K : Krb} (conf : Config C) (n : Option Notifier) (err : Option String) (b : Agent K C)
      → start env (new_agent conf n) ≡ (err, b)
      → (err ≡ first_error conf parts)
        × (started_in b.trace ≡ before_error parts)
        × (stopped_in b.trace ≡ [])
  unfolding StartsOrderly
  start_in_order {K} conf n err b e =
      let r = start-StartsOrderly K conf (new_agent conf n) refl in
      (
        sym (ap (λ x. x.0) e) ∙ r.error,
        ap (λ x. started_in x.1.trace) (sym e) ∙ r.started,
        ap (λ x. stopped_in x.1.trace) (sym e) ∙ r.stopped,
      )
