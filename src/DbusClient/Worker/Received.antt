-- ===== src/DbusClient/Worker/Received.antt =====
-- pkg/client/client.go: what the reader of the updates has received, in any interleaving.
use mathlib.Core.Path.{subst}
use mathlib.Core.List.{append_assoc, append-nil}
use fw_id_agent.Prelude.{◌≡◌, ◌≢◌, refl, sym, ap, ◌∙◌, List, [], ◌∷◌, ◌++◌, All, All-prefix}
use fw_id_agent.Config.{Tnd}
use fw_id_agent.Status.{Status, copy}
use fw_id_agent.DbusClient.Update.{Bus}
use fw_id_agent.DbusClient.Signal.{
  Signal, Handled, panicked, ignored, updated, handle_properties_changed, follows, follow,
  subscription,
}
use fw_id_agent.DbusClient.Signal.Following.{
  HasParts, Updates, none_left, skip, take, last_copy, not_panicked,
}
use fw_id_agent.DbusClient.Worker.{
  Place, sending, waiting, leaving, over, dead, Link, after, Step, hand_over, give_up, read,
  drained, finish, close_conn, close_done, Reach, started, arrives, later,
}
use fw_id_agent.DbusClient.Worker.Taken.{Owes, Queue, Taken, Queue-at, Reach-Taken}

module _ (T : Tnd) (B : Bus T.Conf) where
  open B use {Variant}

  -- The updates that the signals stand for are those of the whole loop.
  pub Updates-follow :
      (ss : List (Signal Variant)) (sent us : List (Status T.Conf)) (s : Status T.Conf)
      → Updates T B ss s us
      → follow T B ss sent s ≡ follows (sent ++ us) (last_copy T s us)
  unfolding follow
  Updates-follow [] sent us s none_left = rw append-nil
  Updates-follow (x ∷ ss) sent us s (skip h c) = rw (h, follow) (Updates-follow ss sent us s c)
  Updates-follow (x ∷ ss) sent (u ∷ us) s (take h c) =
      rw (h, follow)
        (Updates-follow ss (sent ++ (u ∷ [])) us (copy T u) c
          ∙ ap (λ l. follows l (last_copy T (copy T u) us)) (append_assoc sent (u ∷ []) us))

  -- The goroutine has not panicked.
  abbrev pub IsAlive : Place T.Conf → Type 0
  IsAlive dead = ⊥
  IsAlive _ = Unit {0}

  All-middle :
      (P : Signal Variant → Type 0) (ts : List (Signal Variant)) (x : Signal Variant)
      (xs : List (Signal Variant))
      → All P (ts ++ (x ∷ xs))
      → P x
  All-middle P [] x xs h = h.0
  All-middle P (t ∷ ts) x xs h = All-middle P ts x xs h.1

  after-IsAlive :
      (h : Handled T.Conf) (l : Link Variant T.Conf)
      → h ≢ panicked
      → IsAlive l.place
      → IsAlive (after T B h l).place
  unfolding after
  after-IsAlive panicked l n a = n refl
  after-IsAlive ignored l n a = a
  after-IsAlive (updated u) l n a = tt

  Step-IsAlive :
      {s : Status T.Conf} {ss : List (Signal Variant)} {l m : Link Variant T.Conf}
      → All (λ x. HasParts x.body) ss
      → Taken T B s ss l
      → IsAlive l.place
      → Step T B l m
      → IsAlive m.place
  Step-IsAlive h t a (hand_over u e) = tt
  Step-IsAlive h t a (give_up u e gone) = tt
  Step-IsAlive {s} {ss} {l} h t a (read x xs e q) =
      let line : t.taken ++ (x ∷ xs) ≡ ss =
        ap (λ ls. t.taken ++ ls) (sym q) ∙ Queue-at T B s ss t e in
      after-IsAlive (handle_properties_changed B x (copy T l.status)) (record l { signals = xs })
        (not_panicked B x (copy T l.status) x.body refl (
          All-middle (λ x. HasParts x.body) t.taken x xs
            (subst (λ ls. All (λ x. HasParts x.body) ls) (sym line) h)))
        a
  Step-IsAlive h t a (drained e q gone) = tt
  Step-IsAlive h t a (finish e) = tt
  Step-IsAlive h t a (close_conn c) = a
  Step-IsAlive h t a (close_done c d) = a

  pub Reach-IsAlive :
      {s : Status T.Conf} {ss : List (Signal Variant)} {l : Link Variant T.Conf}
      → All (λ x. HasParts x.body) ss
      → Reach T B s ss l
      → IsAlive l.place
  Reach-IsAlive h started = tt
  Reach-IsAlive h (arrives {ss} x r up room) = Reach-IsAlive (All-prefix _ ss (x ∷ []) h) r
  Reach-IsAlive h (later r st) = Step-IsAlive h (Reach-Taken T B r) (Reach-IsAlive h r) st

  Queue-IsAlive :
      (p : Place T.Conf) (ts ls all : List (Signal Variant))
      → IsAlive p
      → Queue T B p ts ls all
      → ts ++ ls ≡ all
  Queue-IsAlive (sending u) ts ls all a e = e
  Queue-IsAlive waiting ts ls all a e = e
  Queue-IsAlive leaving ts ls all a e = e
  Queue-IsAlive over ts ls all a e = e
  Queue-IsAlive dead ts ls all a e = elim a [ ]

  -- However the goroutine, the reader, `Close` and the arriving signals take turns, where the bodies of
  -- the signals that arrived have three parts: the goroutine has not panicked, and it has taken a
  -- beginning of the signals, of which the rest is in the channel. For these it makes what
  -- `subscription` says: a copy of the initial status and one update for each signal that is not
  -- ignored, made from a copy of the status that was then current. The reader has received a beginning
  -- of that. Only the status that is being sent is missing, or one that was not sent because `done`
  -- was closed.
  pub reader_receives :
      {s : Status T.Conf} {ss : List (Signal Variant)} {l : Link Variant T.Conf}
      → All (λ x. HasParts x.body) ss
      → Reach T B s ss l
      → (taken : List (Signal Variant)) × (us : List (Status T.Conf)) × (missing : List
          (Status T.Conf))
        × IsAlive l.place
        × (taken ++ l.signals ≡ ss)
        × Updates T B taken s us
        × (subscription T B s taken ≡ follows (copy T s ∷ us) l.status)
        × (copy T s ∷ us ≡ l.received ++ missing)
        × Owes T B l.place l.done_closed missing
  unfolding subscription
  reader_receives {s} {ss} {l} h r =
      let t = Reach-Taken T B r in
      let alive = Reach-IsAlive h r in
      (
        t.taken,
        t.us,
        t.missing,
        alive,
        Queue-IsAlive l.place t.taken l.signals ss alive t.queue,
        t.updates,
        Updates-follow t.taken (copy T s ∷ []) t.us s t.updates
            ∙ ap (λ x. follows (copy T s ∷ t.us) x) (sym t.current),
        t.told,
        t.owes,
      )
