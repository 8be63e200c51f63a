-- ===== src/Krbmon/Sending.antt =====
-- internal/krbmon/ccachemon.go and confmon.go: `sendUpdate`, `Stop` and `Updates`: the goroutine of a
-- monitor next to the main loop of the agent, which receives its updates.
use mathlib.Core.List.{append-nil}
use fw_id_agent.Prelude.{
  ℕ, ◌+◌, ◌*◌, ◌≤◌, ◌≡◌, ◌⊎◌, inl, inr, refl, sym, ◌∙◌, String, str_eq, Bool, false, true, not,
  Option, none, some, List, [], ◌∷◌, ◌++◌, length, arith, if◌then◌else◌, Bool-cases, Option-cases,
}
use fw_id_agent.Handoff.{Sender, Link, Reach, reacts}
use fw_id_agent.Handoff.Received.{
  Place, looping, exited, took_done, complete-Taken, Reach-Taken, Reach-pending,
}
use fw_id_agent.Handoff.Stopping.{Run, stopping, Reach-Run}
use fw_id_agent.Krbmon.Monitor.{
  Monitor, new_monitor, Input, file_event, file_error, events_closed, errors_closed, done, adopt,
  handle_file_event, watch, start,
}
use fw_id_agent.Krbmon.Updates.{IsSteady, watch-IsSteady, start-IsSteady}

-- What the loop takes, other than `done`.
pub data Wake (F : Type 0) : Type 0 where
  file : String → F → Wake F
  error : Wake F
  no_events no_errors : Wake F

abbrev pub as_input : {F : Type 0} → Wake F → Input F
as_input (file name f) = file_event name f
as_input error = file_error
as_input no_events = events_closed
as_input no_errors = errors_closed

module _ {F V : Type 0} (same : V → Option V → Bool) (load : F → Option V) where
  -- The calls of `sendUpdate` for a file event.
  unfoldable pub updates_for : Monitor V → Option V → List V
  updates_for m none = []
  updates_for m (some v) = if same v m.held then [] else v ∷ []

  -- The calls of `sendUpdate` in one round of the loop.
  unfoldable pub updates_of : Monitor V → Wake F → List V
  unfolding updates_for
  updates_of m (file name f) = if not (str_eq name m.file) then [] else updates_for m (load f)
  updates_of m _ = []

  -- Whether the loop returns.
  abbrev pub returns : Wake F → Bool
  returns (file _ _) = false
  returns error = false
  returns _ = true

  pub sent-watch :
      (m : Monitor V) (w : Wake F)
      → (watch same load (as_input w ∷ []) m).sent ≡ m.sent ++ updates_of m w
  unfolding watch handle_file_event adopt updates_of
  sent-watch m (file name f) = elim (Bool-cases (str_eq name m.file)) [
    | inr other ↦ rw other (sym (append-nil m.sent))
    | inl ours ↦ rw ours (elim (Option-cases (load f)) [
      | inl e ↦ rw e (sym (append-nil m.sent))
      | inr (v, e) ↦ rw e (elim (Bool-cases (same v m.held)) [
        | inl old ↦ rw old (sym (append-nil m.sent))
        | inr new ↦ rw new refl
      ])
    ])
  ]
  sent-watch m error = sym (append-nil m.sent)
  sent-watch m no_events = sym (append-nil m.sent)
  sent-watch m no_errors = sym (append-nil m.sent)

  sent-done : (m : Monitor V) → (watch same load (done ∷ []) m).sent ≡ m.sent
  unfolding watch
  sent-done m = refl

  pub sent-watch_done :
      (m : Monitor V) (w : Wake F) → (watch same load (done ∷ []) m).sent ≡ m.sent ++ []
  sent-watch_done m w = sent-done m ∙ sym (append-nil m.sent)

  pub updates_of-short : (m : Monitor V) (w : Wake F) → length (updates_of m w) ≤ 1
  unfolding updates_of
  updates_of-short m (file name f) = elim (Option-cases (load f)) [
    | inl e ↦ ground arith
    | inr (v, e) ↦ ground arith
  ]
  updates_of-short m error = omega arith
  updates_of-short m no_events = omega arith
  updates_of-short m no_errors = omega arith

  -- The loop of both `start`. A round makes at most one call of `sendUpdate`, and the loop returns
  -- when a channel of the watcher is closed.
  unfoldable pub sender : Sender (Monitor V) (Wake F) V
  sender = record {
    react = λ m w. watch same load (as_input w ∷ []) m;
    outputs = updates_of;
    exits = λ m w. returns w;
    leave = λ m w. watch same load (done ∷ []) m;
    farewell = λ m w. [];
    made = λ m. m.sent;
    burst = 1;
    made-react = sent-watch;
    made-leave = sent-watch_done;
    short_outputs = updates_of-short;
    short_farewell = λ m w. omega arith;
  }

  reacts-IsSteady :
      (m : Monitor V) (ws : List (Wake F))
      → IsSteady same load m
      → IsSteady same load (reacts sender m ws)
  unfolding reacts sender
  reacts-IsSteady m [] h = h
  reacts-IsSteady m (w ∷ ws) h =
      reacts-IsSteady (watch same load (as_input w ∷ []) m) ws
        (watch-IsSteady same load (as_input w ∷ []) m h)

  Place-IsSteady :
      (s : Monitor V) {m : Monitor V} {b g : Bool} {ws : List (Wake F)}
      → IsSteady same load s
      → Place sender s m b g ws
      → IsSteady same load m × (m.sent ≡ (reacts sender s ws).sent)
  unfolding sender
  Place-IsSteady s {ws} h (looping e) = rw e (reacts-IsSteady s ws h, refl)
  Place-IsSteady s {ws} h (exited js i x e) = rw e (reacts-IsSteady s ws h, refl)
  Place-IsSteady s {ws} h (took_done i e) =
      rw e (watch-IsSteady same load (done ∷ []) _ (reacts-IsSteady s ws h), sent-done _)

  sent-start-short : (name : String) (f : F) → length (start same load name f []).sent ≤ 1
  unfolding start watch
  sent-start-short name f =
      let short = updates_of-short (new_monitor name) (file name f) in
      rw (sym (sent-watch (new_monitor name) (file name f))) at short

  -- However a started monitor and the agent that receives its updates take turns: the monitor has
  -- sent only values that could be loaded, each other than the one before, and holds the last; what
  -- the agent has received is the beginning of what it has sent; and unless the agent has called
  -- `Stop`, only the update that is being sent is missing.
  pub monitor_receives :
      (name : String) (f : F) {l : Link (Monitor V) V}
      → Reach sender (start same load name f []) l
      → IsSteady same load l.state
        × ((rest : List V) × (l.state.sent ≡ l.received ++ rest)
            × ((l.stopped ≡ true) ⊎ (rest ≡ l.pending)))
  unfolding sender
  monitor_receives name f {l} r =
      let s = start same load name f [] in
      let (ws, t) = Reach-Taken sender s r in
      let (steady, sent) = Place-IsSteady s (start-IsSteady same load name f []) t.place in
      (steady, (t.missing, sent ∙ t.prefix, complete-Taken sender s t))

  -- `n` steps of a monitor once `Stop` has closed `done`, in which it takes `k` inputs of its watcher,
  -- are at most 4 + 2 k; and then it can go on until its updates are closed, in at most four steps
  -- that take no further input.
  pub monitor_stops :
      (name : String) (f : F) {l m : Link (Monitor V) V} {n k : ℕ}
      → Reach sender (start same load name f []) l
      → l.stopped ≡ true
      → Run sender l n k m
      → (n ≤ 4 + k * 2)
        × ((j : ℕ) × (last : Link (Monitor V) V) × Run sender m j 0 last
            × (j ≤ 4)
            × (last.closed ≡ true))
  unfolding sender
  monitor_stops name f r e run =
      let s = start same load name f [] in
      let short = sent-start-short name f in
      let t =
        stopping sender error (Reach-pending sender s short r)
          (Reach-pending sender s short (Reach-Run sender r run)) e run in
      (t.few, (t.steps, t.last, t.rest, t.soon, t.closed))
