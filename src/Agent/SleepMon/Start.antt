-- ===== src/Agent/SleepMon/Start.antt =====
-- internal/agent/sleepmon.go: `NewSleepMon`, `Start` and `Stop`.
use mathlib.Core.List.{append_assoc}
use fw_id_agent.Prelude.{
  ℕ, ◌+◌, ◌≡◌, refl, sym, ap, ◌∙◌, arith, String, Bool, false, true, Option, none, some, List, [],
  ◌∷◌, ◌++◌, map, if◌then◌else◌,
}
use fw_id_agent.Agent.SleepMon.{Signal, Input, signal, done, Heard, handle_signal, listen}

-- The errors of `ConnectSystemBus` and `AddMatchSignal`.
pub record Answers : Type 0 where
  pub connect_error : Option String
  pub match_error : Option String

-- A monitor: the connections that it has opened and closed, what its goroutine does, if it runs, and
-- whether `done` is closed.
pub record SleepMon : Type 0 where
  pub opened : ℕ
  pub closed : ℕ
  pub heard : Option Heard
  pub done_closed : Bool

-- `NewSleepMon`
abbrev pub new_sleep_mon : SleepMon
new_sleep_mon = record { opened = 0; closed = 0; heard = none; done_closed = false }

-- The goroutine over what it takes; its deferred calls close the connection.
listening : List Input → SleepMon → SleepMon
listening is m = record m { closed = if (listen is).ended then 1 else 0; heard = some (listen is) }

-- `SleepMon.Start`, over what the loop then takes: the error and the monitor.
unfoldable pub start : Answers → List Input → SleepMon → Option String × SleepMon
unfolding listening
start w is m = elim w.connect_error [
  | some e ↦ (some e, m)
  | none ↦ elim w.match_error [
    | some e ↦ (some e, record m { opened = 1 })
    | none ↦ (none, listening is (record m { opened = 1 }))
  ]
]

-- How a call of `Stop` ends.
pub data Stopped : Type 0 where
  returns : SleepMon → Stopped
  blocks : SleepMon → Stopped
  panics : Stopped

-- `SleepMon.Stop` over the signals that the loop still takes before `done`. Closing a closed channel
-- panics; without a goroutine nothing closes `closed`.
unfoldable pub stop : List Signal → SleepMon → Stopped
unfolding listening
stop ss m = if m.done_closed then panics else elim m.heard [
  | none ↦ blocks (record m { done_closed = true })
  | some h ↦
      if h.ended
      then returns (record m { done_closed = true })
      else returns (record m {
        done_closed = true;
        closed = 1;
        heard = some (record {
          sent = h.sent ++ (listen (map signal ss ++ (done ∷ []))).sent;
          ended = true;
        });
      })
]

-- What the loop does over signals, and over more that it takes behind them.
pub listen-signals :
    (xs : List Signal) (is : List Input)
    → (listen (map signal xs ++ is) ≡ record {
      sent = (listen (map signal xs)).sent ++ (listen is).sent;
      ended = (listen is).ended;
    })
      × ((listen (map signal xs)).ended ≡ false)
unfolding listen
listen-signals [] is = (refl, refl)
listen-signals (x ∷ xs) is =
    let (e, d) = listen-signals xs is in
    (
      ap (λ h. record { sent = handle_signal x ++ h.sent; ended = h.ended }) e
          ∙ ap (λ l. record { sent = l; ended = (listen is).ended })
              (sym (append_assoc (handle_signal x) (listen (map signal xs)).sent (listen is).sent)),
      d,
    )

-- A monitor whose `Start` fails at the match leaves its connection open, and `Stop` then blocks.
failed_start-blocks :
    (w : Answers) (is : List Input) (ss : List Signal) (e : String)
    → w.connect_error ≡ none
    → w.match_error ≡ some e
    → let (err, m) = start w is new_sleep_mon in
      (err ≡ some e)
      × (m.opened ≡ m.closed + 1)
      × (stop ss m ≡ blocks (record m { done_closed = true }))
unfolding start stop
failed_start-blocks w is ss e c m = ground arith

-- The connection could be opened and the match be added.
abbrev pub no_errors : Answers
no_errors = record { connect_error = none; match_error = none }

ended-done : (ys : List Signal) → (listen (map signal ys ++ (done ∷ []))).ended ≡ true
unfolding listen
ended-done ys = ap (λ h. h.ended) (listen-signals ys (done ∷ [])).0

listen-done :
    (xs ys : List Signal)
    → record {
      sent = (listen (map signal xs)).sent ++ (listen (map signal ys ++ (done ∷ []))).sent;
      ended = true;
    }
      ≡ listen (map signal xs ++ (map signal ys ++ (done ∷ [])))
listen-done xs ys = sym (
    (listen-signals xs (map signal ys ++ (done ∷ []))).0
    ∙ ap
        (λ b. record {
          sent = (listen (map signal xs)).sent ++ (listen (map signal ys ++ (done ∷ []))).sent;
          ended = b;
        })
        (ended-done ys))

-- A monitor that has started and is stopped behind some signals and some more has handled all of
-- them in order, and has closed its connection.
started_stops :
    (xs ys : List Signal)
    → (s : SleepMon) × (stop ys (start no_errors (map signal xs) new_sleep_mon).1 ≡ returns s)
      × (s.opened ≡ s.closed)
      × (s.heard ≡ some (listen (map signal xs ++ (map signal ys ++ (done ∷ [])))))
unfolding start stop
started_stops xs ys = (
  record {
    opened = 1;
    closed = 1;
    heard = some (record {
      sent = (listen (map signal xs)).sent ++ (listen (map signal ys ++ (done ∷ []))).sent;
      ended = true;
    });
    done_closed = true;
  },
  rw (listen-signals xs []).1 refl,
  refl,
  ap some (listen-done xs ys),
)
