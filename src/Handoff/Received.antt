-- ===== src/Handoff/Received.antt =====
-- What the agent receives from such a goroutine, in any interleaving of the two.
use mathlib.Core.List.{append_assoc}
use fw_id_agent.Prelude.{
  ◌≤◌, ◌≡◌, ◌⊎◌, inl, inr, refl, sym, ap, ◌∙◌, Bool, true, false, List, [], ◌∷◌, ◌++◌, length,
  arith, Bool-cases,
}
use fw_id_agent.Handoff.{
  Sender, Link, Step, input, hand_over, give_up, stop, take_done, close, Reach, started, later,
  reacts,
}

module _ {S I O : Type 0} (P : Sender S I O) (s : S) where
  open P use {react, outputs, exits, leave, farewell, made, burst, short_outputs, short_farewell}

  reacts-append :
      (t : S) (is : List I) (i : I) → reacts P t (is ++ (i ∷ [])) ≡ react (reacts P t is) i
  unfolding reacts
  reacts-append t [] i = refl
  reacts-append t (j ∷ is) i = reacts-append (react t j) is i

  -- Where the loop is behind the inputs `is`, by its state and the flags `stopped` and `leaving`: it
  -- goes on, it has returned behind an input, or it has taken `done`.
  pub data Place (st : S) : Bool → Bool → List I → Type 0 where
    looping : {b : Bool} {is : List I} → st ≡ reacts P s is → Place st b false is
    exited :
        {b : Bool} (js : List I) (i : I)
        → exits (reacts P s js) i ≡ true
        → st ≡ reacts P s (js ++ (i ∷ []))
        → Place st b true (js ++ (i ∷ []))
    took_done : {is : List I} (i : I) → st ≡ leave (reacts P s is) i → Place st true true is

  -- `is` are the inputs that the goroutine has taken, other than `done`. What the agent has received
  -- is the beginning of what they made it send, and what is missing is still to be sent, unless the
  -- agent has called `Stop`.
  pub record Taken (l : Link S O) (is : List I) : Type 0 where
    pub missing : List O
    pub prefix : made (reacts P s is) ≡ l.received ++ missing
    pub complete : l.stopped ≡ false → missing ≡ l.pending
    pub place : Place l.state l.stopped l.leaving is
    pub last : l.closed ≡ true → (l.leaving ≡ true) × (l.pending ≡ [])

  pub complete-Taken :
      {l : Link S O} {is : List I} (t : Taken l is) → (l.stopped ≡ true) ⊎ (t.missing ≡ l.pending)
  complete-Taken {l} t = elim (Bool-cases l.stopped) [
    | inl gone ↦ inl gone
    | inr going ↦ inr (t.complete going)
  ]

  state-Place :
      {st : S} {b g : Bool} {is : List I} → Place st b g is → g ≡ false → st ≡ reacts P s is
  state-Place (looping e) h = e
  state-Place (exited js i x e) h = absurd (ground arith)
  state-Place (took_done i e) h = absurd (ground arith)

  stop-Place : {st : S} {b g : Bool} {is : List I} → Place st b g is → Place st true g is
  stop-Place (looping e) = looping e
  stop-Place (exited js i x e) = exited js i x e
  stop-Place (took_done i e) = took_done i e

  -- `b` tells whether the loop returns behind the input `i`.
  input-Place :
      {st : S} (a b : Bool) (is : List I) (i : I)
      → st ≡ reacts P s is
      → exits (reacts P s is) i ≡ b
      → Place (react st i) a b (is ++ (i ∷ []))
  input-Place a true is i e x = exited is i x (ap (λ o. react o i) e ∙ sym (reacts-append s is i))
  input-Place a false is i e x = looping (ap (λ o. react o i) e ∙ sym (reacts-append s is i))

  pub Step-Taken :
      {l m : Link S O} {is : List I} → Taken l is → Step P l m → (js : List I) × Taken m js
  Step-Taken {l} {m} {is} t (input i quiet going) =
      let here = state-Place t.place going in
      (
        is ++ (i ∷ []),
        record {
          missing = t.missing ++ outputs (reacts P s is) i;
          prefix =
              ap made (reacts-append s is i)
              ∙ P.made-react (reacts P s is) i
              ∙ ap (λ o. o ++ outputs (reacts P s is) i) t.prefix
              ∙ append_assoc l.received t.missing (outputs (reacts P s is) i);
          complete = λ e. rw (t.complete e, quiet, here) refl;
          place =
              input-Place l.stopped (exits l.state i) is i here (ap (λ o. exits o i) (sym here));
          last = λ e. absurd (ground (arith, t.last e));
        },
      )
  Step-Taken {l} {m} {is} t (hand_over x xs e going) = (
    is,
    record {
      missing = xs;
      prefix =
          t.prefix
          ∙ ap (λ o. l.received ++ o) (t.complete going ∙ e)
          ∙ sym (append_assoc l.received (x ∷ []) xs);
      complete = λ _. refl;
      place = t.place;
      last = λ gone. absurd (ground (arith, t.last gone));
    },
  )
  Step-Taken {l} {m} {is} t (give_up x xs e gone) = (
    is,
    record {
      missing = t.missing;
      prefix = t.prefix;
      complete = λ going. absurd (ground arith);
      place = t.place;
      last = λ shut. absurd (ground (arith, t.last shut));
    },
  )
  Step-Taken {l} {m} {is} t (stop going) = (
    is,
    record {
      missing = t.missing;
      prefix = t.prefix;
      complete = λ e. absurd (ground arith);
      place = stop-Place t.place;
      last = t.last;
    },
  )
  Step-Taken {l} {m} {is} t (take_done i quiet going gone) = (
    is,
    record {
      missing = t.missing;
      prefix = t.prefix;
      complete = λ e. absurd (ground arith);
      place = rw gone (took_done i (ap (λ o. leave o i) (state-Place t.place going)));
      last = λ shut. absurd (ground (arith, t.last shut));
    },
  )
  Step-Taken {l} {m} {is} t (close quiet gone unclosed) = (
    is,
    record {
      missing = t.missing;
      prefix = t.prefix;
      complete = t.complete;
      place = t.place;
      last = λ _. (gone, quiet);
    },
  )

  -- A goroutine that was started, with anything that `s` has still to send.
  pub Reach-Taken : {l : Link S O} → Reach P s l → (is : List I) × Taken l is
  unfolding reacts
  Reach-Taken started = (
    [],
    record {
      missing = made s;
      prefix = refl;
      complete = λ _. refl;
      place = looping refl;
      last = λ e. absurd (ground arith);
    },
  )
  Reach-Taken (later r st) = let (is, t) = Reach-Taken r in Step-Taken t st

  Step-pending : {l m : Link S O} → length l.pending ≤ burst → Step P l m → length m.pending ≤ burst
  Step-pending {l} h (input i _ _) = short_outputs l.state i
  Step-pending h (hand_over x xs e _) = ground arith
  Step-pending h (give_up x xs e _) = ground arith
  Step-pending h (stop _) = h
  Step-pending {l} h (take_done i _ _ _) = short_farewell l.state i
  Step-pending h (close _ _ _) = h

  -- No more than `burst` values are ever waiting to be sent.
  pub Reach-pending :
      {l : Link S O} → length (made s) ≤ burst → Reach P s l → length l.pending ≤ burst
  Reach-pending h started = h
  Reach-pending h (later r st) = Step-pending (Reach-pending h r) st
