-- ===== src/Tracking/EndToEnd.antt =====
-- The whole way of a status: from the agent through the goroutine of the D-Bus service and that of the
-- client's `Subscribe` to the reader of the updates.
use mathlib.Core.Path.{subst}
use mathlib.Core.List.{append-nil, append_assoc}
use fw_id_agent.Prelude.{
  true, String, ◌≡◌, ◌∙◌, sym, ap, Option, List, [], ◌∷◌, ◌++◌, map, All, false, append_cancel,
  Option-cases, arith, inl, inr,
}
use fw_id_agent.Config.{Tnd, Config}
use fw_id_agent.Status.{Status, copy}
use fw_id_agent.Krbmon.{Krb}
use fw_id_agent.Notify.{Notifier}
use fw_id_agent.Dbusapi.Service.{Update, stop_updates}
use fw_id_agent.Dbusapi.Serving as Serving
use fw_id_agent.Dbusapi.Serving.{Service, elsewhere, returned, selecting}
use fw_id_agent.Dbusapi.Serving.Sound.{pending}
use fw_id_agent.Dbusapi.Serving.Stopped.{service_serves}
use fw_id_agent.Agent.State.{Agent, Effect, set_property}
use fw_id_agent.Agent.Loop.{Event, running, run}
use fw_id_agent.Agent.Start.{Environment}
use fw_id_agent.Agent.Reach.{IsProper}
use fw_id_agent.Agent.Histories.{Starts}
use fw_id_agent.DbusClient.Update.{got, Bus}
use fw_id_agent.DbusClient.Query.{query}
use fw_id_agent.DbusClient.Worker.{Link, waiting}
use fw_id_agent.DbusClient.Worker as Worker
use fw_id_agent.Tracking.{Carries, updates_of, signal_of}
use fw_id_agent.Tracking.Query.{ConfigReadable}
use fw_id_agent.Tracking.Shown.{Shows}
use fw_id_agent.Tracking.Histories.{serve_updates, serve_updates_done, farewell, stop_resets}
use fw_id_agent.Tracking.Joining.{Answered}
use fw_id_agent.Tracking.Reader.{IsLast, reader-IsLast, reader_joins}

updates_of-append :
    (late early : List Effect) → updates_of (late ++ early) ≡ updates_of early ++ updates_of late
updates_of-append [] early = sym (append-nil (updates_of early))
updates_of-append (set_property p v ∷ es) early =
    ap (λ l. l ++ (record { name = p; value = v } ∷ [])) (updates_of-append es early)
    ∙ append_assoc (updates_of early) (updates_of es) (record { name = p; value = v } ∷ [])
updates_of-append (e ∷ es) early = updates_of-append es early

-- What a service emits for the later effects, once no call waits.
emitted_late :
    (late early : List Effect) (sv : Service) (fresh : List Update)
    → Serving.Reach (updates_of (late ++ early)) false sv
    → sv.caller ≡ elsewhere
    → sv.place ≡ selecting
    → sv.emitted ≡ updates_of early ++ fresh
    → fresh ≡ updates_of late
emitted_late late early sv fresh r free idle e =
    let all = (service_serves r).0 in
    let emitted : updates_of (late ++ early) ≡ sv.emitted ++ [] =
      sym (serve_updates (updates_of (late ++ early))) ∙ rw (free, idle) at all in
    append_cancel (updates_of early) fresh (updates_of late)
      (sym e ∙ (sym (append-nil sv.emitted) ∙ (sym emitted ∙ updates_of-append late early)))

-- What a service emits until its end.
emitted_last :
    (early more : List Update) (sv : Service) (fresh : List Update)
    → Serving.Reach (early ++ more) true sv
    → sv.caller ≡ returned
    → sv.emitted ≡ early ++ fresh
    → fresh ≡ more ++ stop_updates
emitted_last early more sv fresh r gone e =
    let (all, last) = service_serves r in
    let quiet : pending sv.place sv.caller ≡ [] = elim last [
      | inl n ↦ absurd (n gone)
      | inr (q, _) ↦ q
    ] in
    append_cancel early fresh (more ++ stop_updates) (
      sym e
      ∙ (sym (append-nil sv.emitted)
          ∙ (ap (λ o. sv.emitted ++ o) (sym quiet)
              ∙ (sym all
                  ∙ (serve_updates_done (early ++ more) ∙ append_assoc early more stop_updates)))))

module _ (T : Tnd) (B : Bus T.Conf) (w : Carries B) where
  copied-farewell : (x : Status T.Conf) → copy T x ≡ farewell T B w → x ≡ farewell T B w
  copied-farewell x e = elim (Option-cases x.config) [
    | inl h ↦ ground arith
    | inr (c, h) ↦ absurd (ground arith)
  ]

  last-farewell : (s x : Status T.Conf) → IsLast T s (farewell T B w) x → x ≡ farewell T B w
  last-farewell s x (inl e) = copied-farewell x e
  last-farewell s x (inr (e, same)) = e ∙ ap (λ q. copy T q) (sym same)

  -- However the agent, the goroutine of the service, that of `Subscribe` and the reader of its updates
  -- take turns: when no call of the agent waits in the service, every signal that the service has
  -- emitted since the client asked for the status has arrived, the goroutine of the client waits and
  -- its channel is empty, the last status that the reader has received shows the agent. The client has
  -- asked for the status when the service had emitted the updates of the agent `b`, and the agent is
  -- now `c`. Both agents are reached by events without empty updates after a start with no error, and
  -- the configuration that was published can be read.
  pub reader_follows :
      {K : Krb} (env : Environment T.Conf) (conf : Config T.Conf) (n : Option Notifier)
      (a : Agent K T.Conf)
      → Starts env conf n a
      → (es fs : List (Event K)) → All IsProper es
      → All IsProper fs
      → (b c : Agent K T.Conf) → run a es ≡ running b
      → run a fs ≡ running c
      → (late : List Effect) → c.trace ≡ late ++ b.trace
      → ConfigReadable T B w b.trace
      → (ps qs : List (String × B.Variant)) → Answered T B w b.trace ps qs
      → (s : Status T.Conf) → query B (got (ps, qs)) ≡ got s
      → (sv : Service) (fresh : List Update) → Serving.Reach (updates_of c.trace) false sv
      → sv.caller ≡ elsewhere
      → sv.place ≡ selecting
      → sv.emitted ≡ updates_of b.trace ++ fresh
      → (l : Link B.Variant T.Conf) → Worker.Reach T B s (map (signal_of T B w) fresh) l
      → l.place ≡ waiting
      → l.signals ≡ []
      → (x : Status T.Conf) × (xs : List (Status T.Conf)) × (l.received ≡ xs ++ (x ∷ []))
        × Shows c x
  reader_follows env conf n a ok es fs proper properly b c ran going late grown readable ps qs
        answers s asked sv fresh served free idle emitted l r waits empty =
      let same : fresh ≡ updates_of late =
        emitted_late late b.trace sv fresh
          (subst (λ t. Serving.Reach (updates_of t) false sv) grown served) free idle emitted in
      reader_joins T B w env conf n a ok es fs proper properly b c ran going late grown readable ps
        qs answers s asked l (subst (λ us. Worker.Reach T B s (map (signal_of T B w) us) l) same r)
        waits empty

  -- When `Stop` of the service has returned, every signal that the service has emitted since the client
  -- asked for the status has arrived, the goroutine of the client waits and its channel is empty, the
  -- last status that the reader has received has no configuration, unknown states and invalid times.
  -- This is so whatever status the client got at first, whatever updates the agent has made before and
  -- behind it, and however the goroutines take turns.
  pub reader_resets :
      (early more : List Update) (s : Status T.Conf) (sv : Service) (fresh : List Update)
      → Serving.Reach (early ++ more) true sv
      → sv.caller ≡ returned
      → sv.emitted ≡ early ++ fresh
      → (l : Link B.Variant T.Conf) → Worker.Reach T B s (map (signal_of T B w) fresh) l
      → l.place ≡ waiting
      → l.signals ≡ []
      → (xs : List (Status T.Conf)) × (l.received ≡ xs ++ (farewell T B w ∷ []))
  reader_resets early more s sv fresh served gone emitted l r waits empty =
      let same : fresh ≡ more ++ stop_updates =
        emitted_last early more sv fresh served gone emitted in
      let (sent, reset) = stop_resets T B w more s in
      let (x, xs, e, last) =
        reader-IsLast T B
          (subst (λ us. Worker.Reach T B s (map (signal_of T B w) us) l)
            (same ∙ sym (serve_updates_done more)) r)
          waits empty reset in
      (xs, e ∙ ap (λ q. xs ++ (q ∷ [])) (last-farewell s x last))
