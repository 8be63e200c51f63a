-- ===== src/Tracking/Reader.antt =====
-- A client that reads its updates while the goroutine of `Subscribe` runs (pkg/client/client.go).
use mathlib.Core.Path.{subst}
use mathlib.Core.List.{append-nil}
use fw_id_agent.Prelude.{
  String, ◌≡◌, ◌∙◌, ◌⊎◌, inl, inr, refl, sym, ap, Option, List, [], ◌∷◌, ◌++◌, map, All,
}
use fw_id_agent.Config.{Tnd, Config}
use fw_id_agent.Status.{Status, copy}
use fw_id_agent.Krbmon.{Krb}
use fw_id_agent.Notify.{Notifier}
use fw_id_agent.Agent.State.{Agent, Effect}
use fw_id_agent.Agent.Loop.{Event, running, run}
use fw_id_agent.Agent.Start.{Environment}
use fw_id_agent.Agent.Reach.{IsProper}
use fw_id_agent.Agent.Histories.{Starts}
use fw_id_agent.DbusClient.Update.{Try, got, Bus}
use fw_id_agent.DbusClient.Query.{query}
use fw_id_agent.DbusClient.Signal.{Signal, follows, subscription}
use fw_id_agent.DbusClient.Signal.Following.{last_copy}
use fw_id_agent.DbusClient.Worker.{Link, waiting, Reach}
use fw_id_agent.DbusClient.Worker.Taken.{Reach-Taken, Owes-at, Queue-at}
use fw_id_agent.DbusClient.Worker.Received.{Updates-follow}
use fw_id_agent.Tracking.{Carries, updates_of, signal_of}
use fw_id_agent.Tracking.Query.{ConfigReadable}
use fw_id_agent.Tracking.Shown.{Shows}
use fw_id_agent.Tracking.Joining.{Answered, client_joins}

-- `x` is the last value that was sent when the status is `t`, which was `s` at first: the status is a
-- copy of it, or it is the copy of the status that was sent first.
abbrev pub IsLast : (T : Tnd) → Status T.Conf → Status T.Conf → Status T.Conf → Type 0
IsLast T s t x = (copy T x ≡ t) ⊎ ((x ≡ copy T s) × (t ≡ s))

module _ (T : Tnd) where
  last_of :
      (v : Status T.Conf) (us : List (Status T.Conf))
      → (x : Status T.Conf) × (xs : List (Status T.Conf)) × (v ∷ us ≡ xs ++ (x ∷ []))
        × (copy T x ≡ last_copy T (copy T v) us)
  last_of v [] = (v, [], refl, refl)
  last_of v (u ∷ us) = let (x, xs, e, same) = last_of u us in (x, v ∷ xs, ap (λ l. v ∷ l) e, same)

  sent-IsLast :
      (s : Status T.Conf) (us : List (Status T.Conf))
      → (x : Status T.Conf) × (xs : List (Status T.Conf)) × (copy T s ∷ us ≡ xs ++ (x ∷ []))
        × IsLast T s (last_copy T s us) x
  sent-IsLast s [] = (copy T s, [], refl, inr (refl, refl))
  sent-IsLast s (u ∷ us) =
      let (x, xs, e, same) = last_of (copy T s) (u ∷ us) in (x, xs, e, inl same)

follows_same :
    {C : Type 0} {sent sent' : List (Status C)} {t t' : Status C}
    → follows sent t ≡ follows sent' t'
    → t ≡ t'
follows_same e = cc

module _ (T : Tnd) (B : Bus T.Conf) where
  -- A goroutine that waits, with all signals taken: what was received last, if `t` is the status that
  -- the sequential loop ends with.
  pub reader-IsLast :
      {s t : Status T.Conf} {ss : List (Signal B.Variant)} {sent : List (Status T.Conf)}
      {l : Link B.Variant T.Conf}
      → Reach T B s ss l
      → l.place ≡ waiting
      → l.signals ≡ []
      → subscription T B s ss ≡ follows sent t
      → (x : Status T.Conf) × (xs : List (Status T.Conf)) × (l.received ≡ xs ++ (x ∷ []))
        × IsLast T s t x
  unfolding subscription
  reader-IsLast {s} {t} {ss} {sent} {l} r idle empty followed =
      let k = Reach-Taken T B r in
      let all : k.taken ≡ ss =
        sym (append-nil k.taken) ∙ ap (λ o. k.taken ++ o) (sym empty) ∙ Queue-at T B s ss k idle in
      let seen = Updates-follow T B k.taken (copy T s ∷ []) k.us s k.updates in
      let told : copy T s ∷ k.us ≡ l.received =
        k.told ∙ ap (λ o. l.received ++ o) (Owes-at T B s ss k idle) ∙ append-nil l.received in
      let read : subscription T B s ss ≡ follows (copy T s ∷ k.us) (last_copy T s k.us) =
        subst (λ o. subscription T B s o ≡ follows (copy T s ∷ k.us) (last_copy T s k.us)) all
          seen in
      let agree : last_copy T s k.us ≡ t = follows_same (sym read ∙ followed) in
      let (x, xs, e, there) = sent-IsLast T s k.us in
      (x, xs, sym told ∙ e, subst (λ q. IsLast T s q x) agree there)

module _ (T : Tnd) {K : Krb} (b : Agent K T.Conf) where
  copied-Shows : (s : Status T.Conf) → Shows b (copy T s) → Shows b s
  copied-Shows s h = record {
    network = h.network;
    login = h.login;
    keep_alive = h.keep_alive;
    tgt_start = h.tgt_start;
    tgt_end = h.tgt_end;
  }

  copy-Shows : (s : Status T.Conf) → Shows b s → Shows b (copy T s)
  copy-Shows s h = record {
    network = h.network;
    login = h.login;
    keep_alive = h.keep_alive;
    tgt_start = h.tgt_start;
    tgt_end = h.tgt_end;
  }

  last-Shows : (s t x : Status T.Conf) → IsLast T s t x → Shows b t → Shows b x
  last-Shows s t x (inl e) h = copied-Shows x (subst (λ q. Shows b q) (sym e) h)
  last-Shows s t x (inr (sent, same)) h =
      subst (λ q. Shows b q) (sym sent) (copy-Shows s (subst (λ q. Shows b q) same h))

got_same : {A : Type 0} {x y : A} → ◌≡◌ {A = Try A} (got x) (got y) → x ≡ y
got_same e = cc

module _ (T : Tnd) (B : Bus T.Conf) (w : Carries B) where
  -- However the goroutine, its reader and the arriving signals take turns: when the goroutine waits
  -- and its channel is empty, the last status received shows the agent. The client has asked for the
  -- status when the agent had made the effects of `b`, and the signals are those of the effects
  -- `late` that have brought it to `c`. Both agents are reached by events without empty updates after
  -- a start with no error, and the configuration that was published can be read.
  pub reader_joins :
      {K : Krb} (env : Environment T.Conf) (conf : Config T.Conf) (n : Option Notifier)
      (a : Agent K T.Conf)
      → Starts env conf n a
      → (es fs : List (Event K)) → All IsProper es
      → All IsProper fs
      → (b c : Agent K T.Conf) → run a es ≡ running b
      → run a fs ≡ running c
      → (late : List Effect) → c.trace ≡ late ++ b.trace
      → ConfigReadable T B w b.trace
      → (ps qs : List (String × B.Variant)) → Answered T B w b.trace ps qs
      → (s : Status T.Conf) → query B (got (ps, qs)) ≡ got s
      → (l : Link B.Variant T.Conf) → Reach T B s (map (signal_of T B w) (updates_of late)) l
      → l.place ≡ waiting
      → l.signals ≡ []
      → (x : Status T.Conf) × (xs : List (Status T.Conf)) × (l.received ≡ xs ++ (x ∷ []))
        × Shows c x
  reader_joins env conf n a ok es fs proper properly b c ran going late grown readable ps qs answers
        s asked l r idle empty =
      let (s', t, sent, asked', _, followed, shown) =
        client_joins T B w env conf n a ok es fs proper properly b c ran going late grown readable
          ps qs answers in
      let same : s' ≡ s = got_same (sym asked' ∙ asked) in
      let (x, xs, e, last) = reader-IsLast T B r idle empty (
        subst (λ q. subscription T B q (map (signal_of T B w) (updates_of late)) ≡ follows sent t)
          same followed) in
      (x, xs, e, last-Shows T c s t x last shown)
