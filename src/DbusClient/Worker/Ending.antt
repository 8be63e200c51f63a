-- ===== src/DbusClient/Worker/Ending.antt =====
-- pkg/client/client.go: whether `Close` returns: what the goroutine does once `done` is closed.
use fw_id_agent.Prelude.{
  ℕ, zero, suc, ◌∙◌, ◌+◌, ◌*◌, ◌≤◌, ◌≡◌, ◌⊎◌, inl, inr, refl, true, false, List, length, arith, All,
  List-cases, length-append,
}
use fw_id_agent.Config.{Tnd}
use fw_id_agent.Status.{Status, copy}
use fw_id_agent.DbusClient.Update.{Bus}
use fw_id_agent.DbusClient.Signal.{
  Signal, Handled, panicked, ignored, updated, handle_properties_changed,
}
use fw_id_agent.DbusClient.Signal.Following.{HasParts}
use fw_id_agent.DbusClient.Worker.{
  Place, sending, waiting, leaving, over, dead, Link, capacity, after, Step, hand_over, give_up,
  read, drained, finish, close_conn, close_done, Reach, started, arrives, later, Run, here, more,
}
use fw_id_agent.DbusClient.Worker.Received.{IsAlive, Reach-IsAlive}

module _ (T : Tnd) (B : Bus T.Conf) where
  open B use {Variant}

  -- The steps that the goroutine has left, with the signals still in the channel.
  abbrev pub left : Link Variant T.Conf → ℕ
  left l = elim l.place [
    | sending u ↦ 3 + length l.signals * 2
    | waiting ↦ 2 + length l.signals * 2
    | leaving ↦ 1
    | over ↦ 0
    | dead ↦ 0
  ]

  record IsClosing (l : Link Variant T.Conf) : Type 0 where
    conn : l.conn_closed ≡ true
    done : l.done_closed ≡ true

  after-left :
      (h : Handled T.Conf) (l : Link Variant T.Conf)
      → l.place ≡ waiting
      → left (after T B h l) ≤ 3 + length l.signals * 2
  unfolding after
  after-left panicked l e = ground arith
  after-left ignored l e = ground arith
  after-left (updated u) l e = ground arith

  after-received :
      (h : Handled T.Conf) (l : Link Variant T.Conf) → (after T B h l).received ≡ l.received
  unfolding after
  after-received panicked l = refl
  after-received ignored l = refl
  after-received (updated u) l = refl

  after-IsClosing :
      (h : Handled T.Conf) (l : Link Variant T.Conf) → IsClosing l → IsClosing (after T B h l)
  unfolding after
  after-IsClosing panicked l c = record { conn = c.conn; done = c.done }
  after-IsClosing ignored l c = record { conn = c.conn; done = c.done }
  after-IsClosing (updated u) l c = record { conn = c.conn; done = c.done }

  Step-left :
      {l m : Link Variant T.Conf} → IsClosing l → Step T B l m → IsClosing m × (left m + 1 ≤ left l)
  Step-left c (hand_over u e) = (record { conn = c.conn; done = c.done }, ground arith)
  Step-left c (give_up u e gone) = (record { conn = c.conn; done = c.done }, ground arith)
  Step-left {l} c (read x xs e q) =
      let h = handle_properties_changed B x (copy T l.status) in
      let m = record l { signals = xs } in
      (
        after-IsClosing h m (record { conn = c.conn; done = c.done }),
        ground (arith, after-left h m e),
      )
  Step-left c (drained e q gone) = (record { conn = c.conn; done = c.done }, ground arith)
  Step-left c (finish e) = (record { conn = c.conn; done = c.done }, ground arith)
  Step-left c (close_conn open_still) = absurd (ground (arith, c.conn))
  Step-left c (close_done gone open_still) = absurd (ground (arith, c.done))

  Run-left :
      {l m : Link Variant T.Conf} {n : ℕ}
      → IsClosing l
      → Run T B l n m
      → IsClosing m × (left m + n ≤ left l)
  Run-left c here = (c, omega arith)
  Run-left c (more run st) =
      let (c', short) = Run-left c run in let (c'', shorter) = Step-left c' st in (c'', omega arith)

  -- The channel never holds more than its capacity, and `done` is closed behind the connection.
  record IsSound (l : Link Variant T.Conf) : Type 0 where
    short : length l.signals ≤ capacity
    ordered : (l.done_closed ≡ false) ⊎ (l.conn_closed ≡ true)

  after-IsSound :
      (h : Handled T.Conf) (l : Link Variant T.Conf) → IsSound l → IsSound (after T B h l)
  unfolding after
  after-IsSound panicked l s = record { short = s.short; ordered = s.ordered }
  after-IsSound ignored l s = s
  after-IsSound (updated u) l s = record { short = s.short; ordered = s.ordered }

  Step-IsSound : {l m : Link Variant T.Conf} → IsSound l → Step T B l m → IsSound m
  Step-IsSound s (hand_over u e) = record { short = s.short; ordered = s.ordered }
  Step-IsSound s (give_up u e gone) = record { short = s.short; ordered = s.ordered }
  Step-IsSound {l} s (read x xs e q) =
      after-IsSound (handle_properties_changed B x (copy T l.status)) (record l { signals = xs })
        (record { short = ground (arith, s.short); ordered = s.ordered })
  Step-IsSound s (drained e q gone) = record { short = s.short; ordered = s.ordered }
  Step-IsSound s (finish e) = record { short = s.short; ordered = s.ordered }
  Step-IsSound s (close_conn c) = record { short = s.short; ordered = inr refl }
  Step-IsSound s (close_done c d) = record { short = s.short; ordered = inr c }

  Reach-IsSound :
      {s : Status T.Conf} {ss : List (Signal Variant)} {l : Link Variant T.Conf}
      → Reach T B s ss l
      → IsSound l
  Reach-IsSound started = record { short = omega arith; ordered = inl refl }
  Reach-IsSound (arrives {ss} {l} x r up room) =
      let s = Reach-IsSound r in
      record { short = rw length-append (omega arith); ordered = s.ordered }
  Reach-IsSound (later r st) = Step-IsSound (Reach-IsSound r) st

  Reach-Run :
      {s : Status T.Conf} {ss : List (Signal Variant)} {l m : Link Variant T.Conf} {n : ℕ}
      → Reach T B s ss l
      → Run T B l n m
      → Reach T B s ss m
  Reach-Run r here = r
  Reach-Run r (more run st) = later (Reach-Run r run) st

  -- Unless it is over, the goroutine goes on by itself: the reader takes nothing.
  goes_on :
      (m : Link Variant T.Conf) (p : Place T.Conf)
      → m.place ≡ p
      → IsAlive T B p
      → IsClosing m
      → (m.place ≡ over) ⊎ ((k : Link Variant T.Conf) × Step T B m k × (k.received ≡ m.received))
  goes_on m (sending u) e a c = inr (_, give_up u e c.done, refl)
  goes_on m waiting e a c = elim (List-cases m.signals) [
    | inl q ↦ inr (_, drained e q c.conn, refl)
    | inr (x, xs, q) ↦ inr (
      _,
      read x xs e q,
      after-received (handle_properties_changed B x (copy T m.status)) (record m { signals = xs }),
    )
  ]
  goes_on m leaving e a c = inr (_, finish e, refl)
  goes_on m over e a c = inl e
  goes_on m dead e a c = elim a [ ]

  -- Some steps in which the reader has taken nothing, at whose end the goroutine is over.
  record Unread (m : Link Variant T.Conf) (bound : ℕ) : Type 0 where
    steps : ℕ
    last : Link Variant T.Conf
    run : Run T B m steps last
    soon : steps ≤ bound
    ended : last.place ≡ over
    nothing_read : last.received ≡ m.received

  -- The goroutine has made `j` steps and goes on, with at most `b` steps left.
  unread :
      {s : Status T.Conf} {ss : List (Signal Variant)} (b : ℕ) {m k : Link Variant T.Conf} (j : ℕ)
      → All (λ x. HasParts x.body) ss
      → Reach T B s ss k
      → IsClosing k
      → Run T B m j k
      → k.received ≡ m.received
      → left k ≤ b
      → Unread m (j + b)
  unread zero {k = k} j h r c run same few =
      elim (goes_on k k.place refl (Reach-IsAlive T B h r) c) [
        | inl e ↦ record {
          steps = j;
          last = k;
          run = run;
          soon = omega arith;
          ended = e;
          nothing_read = same;
        }
        | inr (n, st, _) ↦ let (_, less) = Step-left c st in absurd (omega arith)
      ]
  unread (suc b) {k = k} j h r c run same few =
      elim (goes_on k k.place refl (Reach-IsAlive T B h r) c) [
        | inl e ↦ record {
          steps = j;
          last = k;
          run = run;
          soon = omega arith;
          ended = e;
          nothing_read = same;
        }
        | inr (n, st, kept) ↦
            let (c', less) = Step-left c st in
            let u = unread b (j + 1) h (later r st) c' (more run st) (kept ∙ same) (omega arith) in
            record {
              steps = u.steps;
              last = u.last;
              run = u.run;
              soon = let soon = u.soon in omega arith;
              ended = u.ended;
              nothing_read = u.nothing_read;
            }
      ]

  -- Once `Close` has closed the connection and `done`, and where the bodies of the signals that have
  -- arrived have three parts: any steps in a row are at most 23, and behind them the goroutine ends
  -- and closes the channel that `Close` waits for by steps in which the reader takes nothing more,
  -- and with them the steps are still at most 23.
  pub close_returns :
      {s : Status T.Conf} {ss : List (Signal Variant)} {l m : Link Variant T.Conf} {n : ℕ}
      → All (λ x. HasParts x.body) ss
      → Reach T B s ss l
      → l.done_closed ≡ true
      → Run T B l n m
      → (n ≤ 23)
        × ((j : ℕ) × (last : Link Variant T.Conf) × Run T B m j last
            × (n + j ≤ 23)
            × (last.place ≡ over)
            × (last.received ≡ m.received))
  close_returns {l} {m} {n} h r e run =
      let sound = Reach-IsSound r in
      let closing : IsClosing l = record { conn = ground (arith, sound.ordered); done = e } in
      let (c, few) = Run-left closing run in
      let most : left l ≤ 23 = ground (arith, sound.short) in
      let u = unread (left m) 0 h (Reach-Run r run) c here refl (omega arith) in
      let soon = u.soon in
      (omega arith, (u.steps, u.last, u.run, omega arith, u.ended, u.nothing_read))
