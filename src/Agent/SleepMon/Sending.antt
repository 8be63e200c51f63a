-- ===== src/Agent/SleepMon/Sending.antt =====
-- internal/agent/sleepmon.go: `sendEvent`, `Stop` and `Events`: the goroutine of the monitor next to
-- the main loop of the agent, which receives its events.
use mathlib.Core.List.{append-nil, map-append}
use fw_id_agent.Prelude.{
  ℕ, ◌+◌, ◌*◌, ◌≤◌, ◌≡◌, ◌⊎◌, refl, sym, ap, ◌∙◌, Bool, false, true, List, [], ◌∷◌, ◌++◌, length,
  map, arith,
}
use fw_id_agent.Handoff.{Sender, Link, Reach, reacts}
use fw_id_agent.Handoff.Received.{
  Place, looping, exited, took_done, complete-Taken, Reach-Taken, Reach-pending,
}
use fw_id_agent.Handoff.Stopping.{Run, stopping, Reach-Run}
use fw_id_agent.Agent.SleepMon.{Signal, signal, handle_signal, handle_signal-short, listen}
use fw_id_agent.Agent.SleepMon.Start.{listen-signals}

-- What the loop takes, other than `done`: a signal, or the closing of the signals.
pub data Wake : Type 0 where
  heard : Signal → Wake
  no_signals : Wake

-- The signals that the loop has taken when it takes one more. It keeps no other state.
abbrev pub take : List Signal → Wake → List Signal
take xs (heard x) = xs ++ (x ∷ [])
take xs no_signals = xs

-- The calls of `sendEvent`.
abbrev pub events_for : Wake → List Bool
events_for (heard x) = handle_signal x
events_for no_signals = []

-- Whether the loop returns.
abbrev pub returns : Wake → Bool
returns (heard x) = false
returns no_signals = true

pub sent-take :
    (xs : List Signal) (w : Wake)
    → (listen (map signal (take xs w))).sent ≡ (listen (map signal xs)).sent ++ events_for w
unfolding listen
sent-take xs (heard x) = rw map-append (
    ap (λ h. h.sent) (listen-signals xs (signal x ∷ [])).0
    ∙ ap (λ l. (listen (map signal xs)).sent ++ l) (append-nil (handle_signal x)))
sent-take xs no_signals = sym (append-nil _)

pub events_for-short : (w : Wake) → length (events_for w) ≤ 1
events_for-short (heard x) = handle_signal-short x
events_for-short no_signals = omega arith

-- The loop of `start`.
unfoldable pub sender : Sender (List Signal) Wake Bool
sender = record {
  react = take;
  outputs = λ xs w. events_for w;
  exits = λ xs w. returns w;
  leave = λ xs w. xs;
  farewell = λ xs w. [];
  made = λ xs. (listen (map signal xs)).sent;
  burst = 1;
  made-react = sent-take;
  made-leave = λ xs w. sym (append-nil _);
  short_outputs = λ xs w. events_for-short w;
  short_farewell = λ xs w. omega arith;
}

Place-state :
    {xs : List Signal} {b g : Bool} {ws : List Wake}
    → Place sender [] xs b g ws
    → (listen (map signal xs)).sent ≡ (listen (map signal (reacts sender [] ws))).sent
unfolding sender
Place-state (looping e) = rw e refl
Place-state (exited js i x e) = rw e refl
Place-state (took_done i e) = rw e refl

-- However the monitor and the agent take turns, the agent has received the beginning of the events for
-- the signals that the monitor has taken, and unless it has called `Stop`, only the event that is being
-- sent is missing.
pub sleep_receives :
    {l : Link (List Signal) Bool}
    → Reach sender [] l
    → (rest : List Bool) × ((listen (map signal l.state)).sent ≡ l.received ++ rest)
      × ((l.stopped ≡ true) ⊎ (rest ≡ l.pending))
unfolding sender
sleep_receives {l} r =
    let (ws, t) = Reach-Taken sender [] r in
    (t.missing, Place-state t.place ∙ t.prefix, complete-Taken sender [] t)

-- `n` steps of the monitor once `Stop` has closed `done`, in which it takes `k` signals, are at most
-- 4 + 2 k; and then it can go on until its events are closed, in at most four steps that take no
-- further signal.
pub sleep_stops :
    {l m : Link (List Signal) Bool} {n k : ℕ}
    → Reach sender [] l
    → l.stopped ≡ true
    → Run sender l n k m
    → (n ≤ 4 + k * 2)
      × ((j : ℕ) × (last : Link (List Signal) Bool) × Run sender m j 0 last
          × (j ≤ 4)
          × (last.closed ≡ true))
unfolding sender listen
sleep_stops r e run =
    let t =
      stopping sender no_signals (Reach-pending sender [] (omega arith) r)
        (Reach-pending sender [] (omega arith) (Reach-Run sender r run)) e run in
    (t.few, (t.steps, t.last, t.rest, t.soon, t.closed))
