-- ===== src/Handoff.antt =====
-- internal/client/client.go, internal/agent/sleepmon.go, internal/krbmon: goroutines that hand values
-- to the agent. Each loops over a `select`, passes its values to `sendResult`, `sendEvent` or
-- `sendUpdate`, which wait for the agent or for `done`, and ends when `Stop` has closed `done`.
pub mod Received
pub mod Stopping
use fw_id_agent.Prelude.{ℕ, ◌≤◌, ◌≡◌, Bool, true, false, ◌||◌, List, [], ◌∷◌, ◌++◌, length}

-- The loop of such a goroutine. `react` is the case of a `select` for an input and `leave` that of
-- `done`; `outputs` and `farewell` are what they pass to the send function, oldest first, and `made`
-- is all that a state has passed so far. `exits` tells whether the loop returns behind an input.
pub record Sender (S I O : Type 0) : Type 0 where
  pub react : S → I → S
  pub outputs : S → I → List O
  pub exits : S → I → Bool
  pub leave : S → I → S
  pub farewell : S → I → List O
  pub made : S → List O
  pub burst : ℕ
  pub made-react : (s : S) (i : I) → made (react s i) ≡ made s ++ outputs s i
  pub made-leave : (s : S) (i : I) → made (leave s i) ≡ made s ++ farewell s i
  pub short_outputs : (s : S) (i : I) → length (outputs s i) ≤ burst
  pub short_farewell : (s : S) (i : I) → length (farewell s i) ≤ burst

-- The goroutine and the agent. `state` is that at the end of the case that runs, `pending` is what
-- the case has still to send, oldest first, and `received` what the agent has taken so far.
-- `stopped` tells whether `Stop` has closed `done`: the agent then waits for `closed` and takes
-- nothing. `leaving` tells whether the loop has returned or will return behind `pending`, and
-- `closed` whether the deferred calls have closed the channels.
pub record Link (S O : Type 0) : Type 0 where
  pub state : S
  pub pending : List O
  pub received : List O
  pub stopped : Bool
  pub leaving : Bool
  pub closed : Bool

module _ {S I O : Type 0} (P : Sender S I O) where
  open P use {react, outputs, exits, leave, farewell, made}

  -- The goroutine has been started in a state; it may already have something to send.
  abbrev pub begin : S → Link S O
  begin s = record {
    state = s;
    pending = made s;
    received = [];
    stopped = false;
    leaving = false;
    closed = false;
  }

  -- One step of the goroutine or of the agent. `select` chooses freely among the cases that are
  -- ready, so an input may be taken although `done` is closed. The receiver of an unbuffered channel
  -- takes a value only when it waits for one, and after `Stop` only the case of `done` is ready.
  pub data Step (l : Link S O) : Link S O → Type 0 where
    input :
        (i : I)
        → l.pending ≡ []
        → l.leaving ≡ false
        → Step l (record l {
          state = react l.state i;
          pending = outputs l.state i;
          leaving = exits l.state i;
        })
    hand_over :
        (x : O) (xs : List O)
        → l.pending ≡ x ∷ xs
        → l.stopped ≡ false
        → Step l (record l { pending = xs; received = l.received ++ (x ∷ []) })
    give_up :
        (x : O) (xs : List O)
        → l.pending ≡ x ∷ xs
        → l.stopped ≡ true
        → Step l (record l { pending = xs })
    stop : l.stopped ≡ false → Step l (record l { stopped = true })
    take_done :
        (i : I)
        → l.pending ≡ []
        → l.leaving ≡ false
        → l.stopped ≡ true
        → Step l
            (record l { state = leave l.state i; pending = farewell l.state i; leaving = true })
    close :
        l.pending ≡ [] → l.leaving ≡ true → l.closed ≡ false → Step l (record l { closed = true })

  -- What may become of a goroutine that was started in a state.
  pub data Reach (s : S) : Link S O → Type 0 where
    started : Reach s (begin s)
    later : {l m : Link S O} → Reach s l → Step l m → Reach s m

  -- The state behind some inputs, none of which is `done`.
  unfoldable pub reacts : S → List I → S
  reacts s [] = s
  reacts s (i ∷ is) = reacts (react s i) is
