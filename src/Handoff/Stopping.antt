-- ===== src/Handoff/Stopping.antt =====
-- Whether `Stop` returns: what such a goroutine does once `done` is closed.
use mathlib.Core.Path.{subst}
use fw_id_agent.Prelude.{
  ℕ, zero, suc, ◌+◌, ◌*◌, ◌≤◌, ◌≡◌, inl, inr, refl, true, false, length, arith, if◌then◌else◌,
  Bool-cases, List-cases,
}
use fw_id_agent.Handoff.{
  Sender, Link, Step, input, hand_over, give_up, stop, take_done, close, Reach, later,
}

module _ {S I O : Type 0} (P : Sender S I O) where
  open P use {react, outputs, exits, leave, farewell, burst, short_outputs, short_farewell}

  -- The inputs that a step takes: one or none.
  abbrev pub inputs : {l m : Link S O} → Step P l m → ℕ
  inputs (input _ _ _) = 1
  inputs _ = 0

  -- Some steps in a row: how many, and how many inputs they take.
  pub data Run (l : Link S O) : ℕ → ℕ → Link S O → Type 0 where
    here : Run l 0 0 l
    more :
        {n k : ℕ} {m m' : Link S O}
        → Run l n k m
        → (st : Step P m m') → Run l (n + 1) (k + inputs st) m'

  -- The steps that are left until the channels are closed, if no further input is taken.
  abbrev pub left : Link S O → ℕ
  left l =
      if l.leaving
      then (if l.closed then length l.pending else length l.pending + 1)
      else length l.pending + burst + 2

  Step-stopped : {l m : Link S O} → Step P l m → l.stopped ≡ true → m.stopped ≡ true
  Step-stopped (input _ _ _) e = e
  Step-stopped (hand_over _ _ _ _) e = e
  Step-stopped (give_up _ _ _ _) e = e
  Step-stopped (stop _) e = refl
  Step-stopped (take_done _ _ _ _) e = e
  Step-stopped (close _ _ _) e = e

  Step-left :
      {l m : Link S O} (st : Step P l m)
      → l.stopped ≡ true
      → left m + 1 ≤ left l + inputs st * (burst + 1)
  Step-left {l} (input i quiet going) e = ground (arith, short_outputs l.state i)
  Step-left {l} (hand_over x xs q going) e = absurd (ground arith)
  Step-left {l} (give_up x xs q gone) e = ground arith
  Step-left {l} (stop going) e = absurd (ground arith)
  Step-left {l} (take_done i quiet going gone) e = ground (arith, short_farewell l.state i)
  Step-left {l} (close quiet gone open_still) e = ground arith

  -- Behind `Stop`, steps that take `k` inputs are at most so many.
  pub Run-left :
      {l m : Link S O} {n k : ℕ}
      → l.stopped ≡ true
      → Run l n k m
      → (m.stopped ≡ true) × (left m + n ≤ left l + k * (burst + 1))
  Run-left e here = (e, omega arith)
  Run-left e (more r st) =
      let (f, le) = Run-left e r in (Step-stopped st f, omega (arith, Step-left st f))

  -- Some steps without an input, behind which `Stop` is still waiting.
  record Onward (l : Link S O) (n bound : ℕ) : Type 0 where
    link : Link S O
    run : Run l n 0 link
    held : link.stopped ≡ true
    less : left link ≤ bound

  onward :
      {l m m' : Link S O} {n b : ℕ}
      → Run l n 0 m
      → m.stopped ≡ true
      → left m ≤ b + 1
      → (st : Step P m m') → inputs st ≡ 0
      → Onward l (n + 1) b
  onward {l} {m} {m'} {n} r e le st none_taken = record {
    link = m';
    run = subst (λ j. Run l (n + 1) j m') none_left (more r st);
    held = Step-stopped st e;
    less = omega (arith, shrinks);
  }
    where
      none_left : 0 + inputs st ≡ 0
      none_left = omega (arith, none_taken)

      shrinks : left m' + 1 ≤ left m + 0 * (burst + 1)
      shrinks = subst (λ j. left m' + 1 ≤ left m + j * (burst + 1)) none_taken (Step-left st e)

  -- The loop takes `done` as the input `i` if it still waits.
  go_on :
      {l m : Link S O} {n b : ℕ} (i : I)
      → Run l n 0 m
      → m.stopped ≡ true
      → m.closed ≡ false
      → left m ≤ b + 1
      → Onward l (n + 1) b
  go_on {m} i r e unclosed le = elim (List-cases m.pending) [
    | inr (x, xs, q) ↦ onward r e le (give_up x xs q e) refl
    | inl quiet ↦ elim (Bool-cases m.leaving) [
      | inl gone ↦ onward r e le (close quiet gone unclosed) refl
      | inr going ↦ onward r e le (take_done i quiet going e) refl
    ]
  ]

  closing :
      {l : Link S O} (b : ℕ) {m : Link S O} (n : ℕ) (i : I)
      → Run l n 0 m
      → m.stopped ≡ true
      → left m ≤ b
      → (k : ℕ) × (m' : Link S O) × Run l k 0 m' × (m'.closed ≡ true) × (k ≤ n + b)
  closing zero {m} n i r e le = elim (Bool-cases m.closed) [
    | inl gone ↦ (n, m, r, gone, omega arith)
    | inr unclosed ↦ absurd (ground arith)
  ]
  closing (suc b) {m} n i r e le = elim (Bool-cases m.closed) [
    | inl gone ↦ (n, m, r, gone, omega arith)
    | inr unclosed ↦
        let o = go_on {b = b} i r e unclosed (omega arith) in
        let (k, m', run, gone, few) = closing b (n + 1) i o.run o.held o.less in
        (k, m', run, gone, omega arith)
  ]

  -- What holds when some steps behind `Stop`, with `k` inputs, have led to `m`: they were at most so
  -- many, and in a bounded number of steps that take no input but `done` the channels are closed.
  pub record Stops (bound n k : ℕ) (m : Link S O) : Type 0 where
    pub few : n ≤ bound + k * (burst + 1)
    pub steps : ℕ
    pub last : Link S O
    pub rest : Run m steps 0 last
    pub soon : steps ≤ bound
    pub closed : last.closed ≡ true

  left-pending : (l : Link S O) → length l.pending ≤ burst → left l ≤ 2 * burst + 2
  left-pending l h = ground arith

  pub stopping :
      {l m : Link S O} {n k : ℕ} (i : I)
      → length l.pending ≤ burst
      → length m.pending ≤ burst
      → l.stopped ≡ true
      → Run l n k m
      → Stops (2 * burst + 2) n k m
  stopping {l} {m} {n} {k} i short_before short_behind e r =
      let (f, le) = Run-left e r in
      let (j, last, rest, gone, soon) =
        closing (2 * burst + 2) 0 i here f (left-pending m short_behind) in
      record {
        few = omega (arith, le, left-pending l short_before);
        steps = j;
        last = last;
        rest = rest;
        soon = omega (arith, soon);
        closed = gone;
      }

  -- What is reached stays reached along some steps.
  pub Reach-Run : {s : S} {l m : Link S O} {n k : ℕ} → Reach P s l → Run l n k m → Reach P s m
  Reach-Run r here = r
  Reach-Run r (more run st) = later (Reach-Run r run) st
