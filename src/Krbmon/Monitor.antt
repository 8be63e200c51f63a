-- ===== src/Krbmon/Monitor.antt =====
-- internal/krbmon/ccachemon.go and confmon.go: what the two monitors have in common. They load a
-- value from their file, keep it, and send it when it has changed.
use fw_id_agent.Prelude.{
  ℕ, ◌+◌, String, str_eq, Bool, false, true, not, Option, none, some, List, [], ◌∷◌, ◌++◌,
  if◌then◌else◌,
}

-- A monitor of values of `V`: its file, the value it holds, nil or not, the values that it passed to
-- `sendUpdate`, oldest first, how often the watcher was closed, and whether `updates` and `closed` are
-- closed.
pub record Monitor (V : Type 0) : Type 0 where
  pub file : String
  pub held : Option V
  pub sent : List V
  pub watcher_closings : ℕ
  pub ended : Bool

-- What the `select` of the loop takes: an event for a name, with what the file then holds for the
-- loader, an error of the watcher, the closing of its channels, or `done`.
pub data Input (F : Type 0) : Type 0 where
  file_event : String → F → Input F
  file_error : Input F
  events_closed errors_closed done : Input F

abbrev pub new_monitor : {V : Type 0} → String → Monitor V
new_monitor file = record {
  file = file;
  held = none;
  sent = [];
  watcher_closings = 0;
  ended = false;
}

-- The deferred calls, behind a `return` of the loop.
abbrev pub return_from : {V : Type 0} → Monitor V → Monitor V
return_from m = record m { watcher_closings = m.watcher_closings + 1; ended = true }

module _ {V : Type 0} (deep_equal : V → Option V → Bool) where
  -- The end of both handlers: the test for a change, and the update.
  unfoldable pub adopt : V → Monitor V → Monitor V
  adopt v m =
      if deep_equal v m.held then m else record m { held = some v; sent = m.sent ++ (v ∷ []) }

module _ {F V : Type 0} (deep_equal : V → Option V → Bool) (load : F → Option V) where
  -- `handleCCacheFileEvent` and `handleConfigFileEvent`: `load` gives no value on an error.
  unfoldable pub handle_file_event : String → F → Monitor V → Monitor V
  unfolding adopt
  handle_file_event name f m =
      if not (str_eq name m.file)
      then m
      else elim (load f) [ none ↦ m | some v ↦ adopt deep_equal v m ]

  -- The loop of both `start`; behind its end nothing is taken.
  unfoldable pub watch : List (Input F) → Monitor V → Monitor V
  watch [] m = m
  watch (file_event name f ∷ is) m = watch is (handle_file_event name f m)
  watch (file_error ∷ is) m = watch is m
  watch (events_closed ∷ is) m = return_from m
  watch (errors_closed ∷ is) m = return_from m
  watch (done ∷ is) m = return_from m

  -- Both `start`: the file is handled once before the loop.
  unfoldable pub start : String → F → List (Input F) → Monitor V
  unfolding watch handle_file_event
  start file f is = watch is (handle_file_event file f (new_monitor file))
