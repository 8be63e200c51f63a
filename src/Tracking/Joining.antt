-- ===== src/Tracking/Joining.antt =====
-- A D-Bus client that asks for the status, and then subscribes, at any time.
use mathlib.Core.List.{Permᴰ}
use fw_id_agent.Prelude.{
  String, ◌≡◌, ◌≢◌, ◌∙◌, sym, ap, Option, none, some, List, [], ◌∷◌, ◌++◌, map, All,
}
use fw_id_agent.Config.{Tnd, Config}
use fw_id_agent.Status.{Status, copy}
use fw_id_agent.Krbmon.{Krb}
use fw_id_agent.Notify.{Notifier}
use fw_id_agent.Agent.State.{Agent, Effect, latest}
use fw_id_agent.Agent.Loop.{Event, running, run}
use fw_id_agent.Agent.Start.{Environment}
use fw_id_agent.Agent.Mirror.{Mirrors}
use fw_id_agent.Agent.Reach.{IsProper, WhileRunning}
use fw_id_agent.Agent.Histories.{Starts, run-Mirrors}
use fw_id_agent.DbusClient.Update.{got, Bus, Name}
use fw_id_agent.DbusClient.Update.Order.{text_of}
use fw_id_agent.DbusClient.Query.{query}
use fw_id_agent.DbusClient.Signal.{follows, subscription}
use fw_id_agent.Tracking.{Carries, updates_of, signal_of, see_all}
use fw_id_agent.DbusClient.Subscription.{subscribe_calls}
use fw_id_agent.Tracking.Gaps.{unseen, join}
use fw_id_agent.Tracking.Fields.{field}
use fw_id_agent.Tracking.Follow.{FitsIf, or_else, follow-signal_of, field-see_all}
use fw_id_agent.Tracking.Properties.{current, get_all}
use fw_id_agent.Tracking.Histories.{follow-Holds}
use fw_id_agent.Tracking.Query.{current-append, later-FitsIf, ConfigReadable, query-Holds}
use fw_id_agent.Tracking.Shown.{IsField, AllFit, Shows, agent-AllFit, Holds-Shows}

module _ (T : Tnd) (B : Bus T.Conf) (w : Carries B) where
  open B use {Variant}

  -- The answers to `GetAll` at the time of some effects, in any order.
  pub record Answered (es : List Effect) (ps qs : List (String × Variant)) : Type 0 where
    pub first : Permᴰ (get_all T B w es) ps
    pub second : Permᴰ (get_all T B w es) qs

  -- A client that asks for the status when the agent has made the effects of `b`, and is subscribed
  -- before the agent makes the effects `late` that bring it to `c`, holds the status of `c`. Both
  -- agents are reached by events without empty updates after a start with no error, and the
  -- configuration that was published can be read.
  pub client_joins :
      {K : Krb} (env : Environment T.Conf) (conf : Config T.Conf) (n : Option Notifier)
      (a : Agent K T.Conf)
      → Starts env conf n a
      → (es fs : List (Event K)) → All IsProper es
      → All IsProper fs
      → (b c : Agent K T.Conf) → run a es ≡ running b
      → run a fs ≡ running c
      → (late : List Effect) → c.trace ≡ late ++ b.trace
      → ConfigReadable T B w b.trace
      → (ps qs : List (String × Variant)) → Answered b.trace ps qs
      → (s t : Status T.Conf) × (sent : List (Status T.Conf)) × (query B (got (ps, qs)) ≡ got s)
        × Shows b s
        × (subscription T B s (map (signal_of T B w) (updates_of late)) ≡ follows sent t)
        × Shows c t
  unfolding subscription
  client_joins env conf n a ok es fs proper properly b c ran going late grown readable ps qs
        answers =
      let held : WhileRunning Mirrors (run a es) = run-Mirrors env conf n a ok es proper in
      let kept : WhileRunning Mirrors (run a fs) = run-Mirrors env conf n a ok fs properly in
      let mb : Mirrors b = rw ran at held in
      let mc : Mirrors c = rw going at kept in
      let (s, asked, holds) =
        query-Holds T B w b.trace (agent-AllFit b mb) readable ps qs answers.first answers.second in
      let (l, followed) = follow-signal_of T B w (updates_of late) (copy T s ∷ []) s in
      (
        s,
        see_all T B w s (updates_of late),
        l,
        asked,
        Holds-Shows b mb s holds,
        followed,
        Holds-Shows c mc (see_all T B w s (updates_of late)) (
            follow-Holds T B w c.trace late s
              (λ q h.
                let whole : FitsIf q (latest (text_of q) (late ++ b.trace)) =
                  rw grown at (agent-AllFit c mc q h) in
                later-FitsIf q late b.trace whole)
              (λ q h f.
                ap (λ d. or_else d (latest (text_of q) late)) (holds q h)
                ∙ (current-append q late b.trace ∙ ap (λ e. current e q) (sym grown)))),
      )

  -- The answer to a call of `Query` that has been made.
  abbrev pub IsAnswered : Option (List Effect) → (ps qs : List (String × Variant)) → Type 0
  IsAnswered none ps qs = ⊥
  IsAnswered (some es) ps qs = Answered es ps qs

  -- `Subscribe` loses what the agent sets between its calls. Behind the effects `early` the agent makes
  -- `missed` between the first call and the second, `waiting` between the second and the third, and
  -- `late` behind the third. If the value of a property is then another than at the first call, and
  -- `late` does not set it, then the client, which starts from the answer to `Query` and follows the
  -- signals that reach it, keeps a value that is not that of the property.
  pub missed_update :
      (early missed waiting late : List Effect)
      → AllFit early
      → ConfigReadable T B w early
      → (ps qs : List (String × Variant))
      → IsAnswered (join subscribe_calls (missed ∷ waiting ∷ late ∷ []) early unseen).1.asked ps qs
      → (q : Name) → IsField q
      → latest (text_of q) late ≡ none
      → current (waiting ++ (missed ++ early)) q ≢ current early q
      → (s t : Status T.Conf) × (sent : List (Status T.Conf)) × (query B (got (ps, qs)) ≡ got s)
        × (subscription T B s (
              map
                (signal_of T B w)
                (join subscribe_calls (missed ∷ waiting ∷ late ∷ []) early unseen).1.signals)
            ≡ follows sent t)
        × (field q t
            ≢ current (join subscribe_calls (missed ∷ waiting ∷ late ∷ []) early unseen).0 q)
  unfolding subscription join
  missed_update early missed waiting late fit readable ps qs answers q h silent changed =
      let (s, asked, holds) =
        query-Holds T B w early fit readable ps qs answers.first answers.second in
      let (l, followed) = follow-signal_of T B w (updates_of late) (copy T s ∷ []) s in
      let seen = field-see_all T B w q (λ e. rw e at h) s late (rw silent tt) in
      let shown : field q (see_all T B w s (updates_of late)) ≡ field q s = rw silent at seen in
      let before = waiting ++ (missed ++ early) in
      let now : current before q ≡ current (late ++ before) q =
        rw silent at (current-append q late before) in
      (
        s,
        see_all T B w s (updates_of late),
        l,
        asked,
        followed,
        λ same. changed (now ∙ (sym same ∙ (shown ∙ holds q h))),
      )
