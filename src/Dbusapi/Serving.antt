-- ===== src/Dbusapi/Serving.antt =====
-- internal/dbusapi/service.go: the main loop of the service next to the agent's calls of
-- `SetProperty` and `Stop`, which the agent's main loop makes one after the other.
pub mod Sound
pub mod Stopped
use fw_id_agent.Prelude.{ℕ, ◌+◌, ◌≡◌, Bool, true, false, List, [], ◌∷◌, ◌++◌}
use fw_id_agent.Dbusapi.Service.{Update, stop_updates}

-- Where the goroutine of the service is: at its `select`, at the call of `SetMust` for an update, at
-- the calls that are left when it has taken `done`, or behind the deferred calls, which close the
-- connection and then `closed`.
pub data Place : Type 0 where
  selecting : Place
  updating : Update → Place
  resetting : List Update → Place
  over : Place

-- What the agent does with the service: nothing, wait in `SetProperty`, wait in `Stop` for `closed`,
-- or it has returned from `Stop`.
pub data Caller : Type 0 where
  elsewhere : Caller
  setting : Update → Caller
  stopping : Caller
  returned : Caller

-- `Service`, with the updates that its calls of `SetMust` have emitted, oldest first.
pub record Service : Type 0 where
  pub place : Place
  pub caller : Caller
  pub emitted : List Update
  pub conn_closed : Bool
  pub done_closed : Bool
  pub closed : Bool

-- `NewService`, started, behind the calls that end `Start`.
abbrev pub started_service : Service
started_service = record {
  place = selecting;
  caller = elsewhere;
  emitted = [];
  conn_closed = false;
  done_closed = false;
  closed = false;
}

-- A step of the goroutine of the service, or of the agent in `SetProperty` or `Stop`.
pub data Step (s : Service) : Service → Type 0 where
  -- `SetProperty`: the service takes the update, or `done` is closed.
  take_update :
      (u : Update)
      → s.caller ≡ setting u
      → s.place ≡ selecting
      → Step s (record s { caller = elsewhere; place = updating u })
  drop_update :
      (u : Update)
      → s.caller ≡ setting u
      → s.done_closed ≡ true
      → Step s (record s { caller = elsewhere })
  -- The calls of `SetMust`.
  set_must :
      (u : Update)
      → s.place ≡ updating u
      → Step s (record s { place = selecting; emitted = s.emitted ++ (u ∷ []) })
  take_done :
      s.place ≡ selecting
      → s.done_closed ≡ true
      → Step s (record s { place = resetting stop_updates })
  reset :
      (u : Update) (us : List Update)
      → s.place ≡ resetting (u ∷ us)
      → Step s (record s { place = resetting us; emitted = s.emitted ++ (u ∷ []) })
  leave :
      s.place ≡ resetting [] → Step s (record s { place = over; conn_closed = true; closed = true })
  -- The end of `Stop`.
  return : s.caller ≡ stopping → s.closed ≡ true → Step s (record s { caller = returned })

-- What may become of a service by calls of `SetProperty`, oldest first, of which `Stop` is the last.
-- An agent does not call the service again behind `Stop`.
pub data Reach : List Update → Bool → Service → Type 0 where
  begin : Reach [] false started_service
  set_property :
      {us : List Update} {s : Service} (u : Update)
      → Reach us false s
      → s.caller ≡ elsewhere
      → Reach (us ++ (u ∷ [])) false (record s { caller = setting u })
  stop :
      {us : List Update} {s : Service}
      → Reach us false s
      → s.caller ≡ elsewhere
      → Reach us true (record s { caller = stopping; done_closed = true })
  later : {us : List Update} {b : Bool} {s t : Service} → Reach us b s → Step s t → Reach us b t

-- So many steps in a row.
pub data Run (s : Service) : ℕ → Service → Type 0 where
  here : Run s 0 s
  more : {n : ℕ} {t k : Service} → Run s n t → Step t k → Run s (n + 1) k
