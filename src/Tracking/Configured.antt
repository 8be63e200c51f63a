-- ===== src/Tracking/Configured.antt =====
-- The configuration that a client gets from the agent.
use mathlib.Core.List.{Permᴰ}
use fw_id_agent.Prelude.{
  String, eq_iff, ◌≡◌, ◌≢◌, refl, inl, sym, ap, ◌∙◌, Option, some, List, arith, All,
}
use fw_id_agent.Config.{Tnd, Config}
use fw_id_agent.Status.{Status, new}
use fw_id_agent.Krbmon.{Krb}
use fw_id_agent.Notify.{Notifier}
use fw_id_agent.Dbusapi.{text, config_invalid}
use fw_id_agent.Agent.State.{Agent, Effect}
use fw_id_agent.Agent.Loop.{Event, running, run}
use fw_id_agent.Agent.Start.{Environment, json_text}
use fw_id_agent.Agent.Mirror.{Mirrors}
use fw_id_agent.Agent.Reach.{IsProper, WhileRunning}
use fw_id_agent.Agent.Histories.{Starts, run-Mirrors}
use fw_id_agent.Agent.Published.{IsPublished, run-IsPublished}
use fw_id_agent.DbusClient.Update.{
  got, Bus, config, Change, set_config, set_trusted_network, set_login_state, set_last_keep_alive,
  set_tgt_start, set_tgt_end, nothing, apply, decode, decode_config, apply_all,
}
use fw_id_agent.DbusClient.Update.Atomic.{All-perm, apply_all_ok}
use fw_id_agent.DbusClient.Update.Order.{target, update_storable}
use fw_id_agent.DbusClient.Query.{query}
use fw_id_agent.Tracking.{Carries}
use fw_id_agent.Tracking.Properties.{current, get_all, observe-got, Agrees, All-perm_of, Has-perm}
use fw_id_agent.Tracking.Query.{get_all-IsStorable, agrees, query-Holds}
use fw_id_agent.Tracking.Joining.{Answered}
use fw_id_agent.Tracking.Shown.{Shows, AllFit, agent-AllFit, Holds-Shows}

module _ {C : Type 0} where
  config-apply : (c : Change C) (s : Status C) → target c ≢ config → (apply c s).config ≡ s.config
  config-apply (set_config o) s h = absurd (h refl)
  config-apply (set_trusted_network n) s h = refl
  config-apply (set_login_state n) s h = refl
  config-apply (set_last_keep_alive z) s h = refl
  config-apply (set_tgt_start z) s h = refl
  config-apply (set_tgt_end z) s h = refl
  config-apply nothing s h = refl

module _ (T : Tnd) (B : Bus T.Conf) (w : Carries B) where
  open B use {Variant, config_from_json}

  module _ (es : List Effect) (o : Option (Config T.Conf))
      (read : decode B config (w.variant (current es config)) ≡ got (set_config o)) where
    config-got :
        (qs : List (String × Variant)) (s : Status T.Conf)
        → Permᴰ (get_all T B w es) qs
        → AllFit es
        → (apply_all B qs s).1.config ≡ o
    config-got qs s p fit =
        observe-got T B w config (current es config) (λ t. t.config) o
          (λ c t h.
            let same : got c ≡ got (set_config o) = sym h ∙ read in
            let is_set : c ≡ set_config o = cc in rw is_set refl)
          (λ c t h. config-apply c t h) qs s
          (All-perm B p (get_all-IsStorable T B w es fit (set_config o, read)))
          (All-perm_of T B w (Agrees T B w config (current es config)) p
            (agrees T B w es fit (set_config o, read) config))
          (Has-perm T B w config p (inl refl))

    query-config :
        (ps qs : List (String × Variant)) (s : Status T.Conf)
        → Permᴰ (get_all T B w es) ps
        → Permᴰ (get_all T B w es) qs
        → AllFit es
        → query B (got (ps, qs)) ≡ got s
        → s.config ≡ o
    unfolding query
    query-config ps qs s p r fit h =
        let able = All-perm B p (get_all-IsStorable T B w es fit (set_config o, read)) in
        let done = update_storable B ps qs new able in
        let fine =
          apply_all_ok B qs new
            (All-perm B r (get_all-IsStorable T B w es fit (set_config o, read))) in
        let value : query B (got (ps, qs)) ≡ got (apply_all B qs new).1 =
          rw (query, done, fine) (ap (λ u. got u.1) done) in
        let got_same : got (apply_all B qs new).1 ≡ got s = sym value ∙ h in
        let same : (apply_all B qs new).1 ≡ s = cc in rw same at (config-got qs new r fit)

  decode-published :
      (t : String) (c : Config T.Conf) (es : List Effect)
      → current es config ≡ text t
      → t ≢ config_invalid
      → config_from_json t ≡ got c
      → decode B config (w.variant (current es config)) ≡ got (set_config (some c))
  unfolding decode decode_config
  decode-published t c es now full read =
      ground (arith, now, w.carries_string t, eq_iff t config_invalid, full, read)

  -- A client that asks for the status at any time gets the configuration that the text is read as
  -- which the agent has published at its start, and the state of the agent. The agent is reached by
  -- events without empty updates after a start with no error, and the text is not empty.
  pub client_configured :
      {K : Krb} (env : Environment T.Conf) (conf : Config T.Conf) (n : Option Notifier)
      (a : Agent K T.Conf)
      → Starts env conf n a
      → (t : String) → env.config_json conf ≡ json_text t
      → t ≢ config_invalid
      → (c : Config T.Conf) → config_from_json t ≡ got c
      → (es : List (Event K)) → All IsProper es
      → (b : Agent K T.Conf) → run a es ≡ running b
      → (ps qs : List (String × Variant)) → Answered T B w b.trace ps qs
      → (s : Status T.Conf) × (query B (got (ps, qs)) ≡ got s) × (s.config ≡ some c) × Shows b s
  client_configured env conf n a ok t json full c read es proper b ran ps qs answers =
      let held : WhileRunning Mirrors (run a es) = run-Mirrors env conf n a ok es proper in
      let mb : Mirrors b = rw ran at held in
      let kept : WhileRunning (IsPublished t) (run a es) =
        run-IsPublished env conf n a ok t json es proper in
      let shown : IsPublished t b = rw ran at kept in
      let now : current b.trace config ≡ text t = ground (arith, shown) in
      let decoded = decode-published t c b.trace now full read in
      let (s, asked, holds) =
        query-Holds T B w b.trace (agent-AllFit b mb) (set_config (some c), decoded) ps qs
          answers.first answers.second in
      (
        s,
        asked,
        query-config b.trace (some c) decoded ps qs s answers.first answers.second
            (agent-AllFit b mb) asked,
        Holds-Shows b mb s holds,
      )
