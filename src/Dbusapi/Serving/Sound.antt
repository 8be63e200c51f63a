-- ===== src/Dbusapi/Serving/Sound.antt =====
-- internal/dbusapi/service.go: what the service has emitted and what is pending, after any steps of
-- `start`, `SetProperty` and `Stop`.
use mathlib.Core.Path.{subst}
use mathlib.Core.List.{append_assoc, append-nil}
use fw_id_agent.Prelude.{
  ◌≤◌, ◌≡◌, ◌≢◌, refl, sym, ap, ◌∙◌, Bool, true, false, List, [], ◌∷◌, ◌++◌, length, arith, map,
}
use fw_id_agent.Dbusapi.Service.{Update, Input, property_update, done, stop_updates, serve}
use fw_id_agent.Dbusapi.Serving.{
  Place, selecting, updating, resetting, over, Caller, elsewhere, setting, stopping, returned,
  Service, Step, take_update, drop_update, set_must, take_done, reset, leave, return, Reach, begin,
  set_property, stop, later,
}

-- The updates that the agent still has the service emit.
abbrev pub asked : Caller → List Update
asked (setting u) = u ∷ []
asked stopping = stop_updates
asked _ = []

-- The updates that are still to be emitted.
abbrev pub pending : Place → Caller → List Update
pending selecting c = asked c
pending (updating u) c = u ∷ asked c
pending (resetting us) c = us
pending over c = []

-- What the main loop takes: the updates of the calls of `SetProperty`, and the closing of `done` by
-- `Stop`.
abbrev pub inputs : List Update → Bool → List Input
inputs us true = map property_update us ++ (done ∷ [])
inputs us false = map property_update us

abbrev pub goodbye : Bool → List Update
goodbye true = stop_updates
goodbye false = []

pub serve-inputs : (us : List Update) (b : Bool) → serve (inputs us b) ≡ us ++ goodbye b
unfolding serve
serve-inputs [] true = refl
serve-inputs [] false = refl
serve-inputs (u ∷ us) true = ap (λ l. u ∷ l) (serve-inputs us true)
serve-inputs (u ∷ us) false = ap (λ l. u ∷ l) (serve-inputs us false)

-- The flags that go with a place, and those that go with what the agent does.
abbrev pub PlaceFlags : Place → Service → Type 0
PlaceFlags (resetting us) s = (s.done_closed ≡ true) × (s.closed ≡ false) × (length us ≤ 6)
PlaceFlags over s = (s.done_closed ≡ true) × (s.closed ≡ true) × (s.conn_closed ≡ true)
PlaceFlags _ s = s.closed ≡ false

abbrev pub CallerFlags : Caller → Bool → Place → Type 0
CallerFlags stopping d p = d ≡ true
CallerFlags returned d p = (d ≡ true) × (p ≡ over)
CallerFlags _ d p = d ≡ false

CallerFlags-moves :
    (c : Caller) (d : Bool) (p q : Place) → p ≢ over → CallerFlags c d p → CallerFlags c d q
CallerFlags-moves elsewhere d p q n h = h
CallerFlags-moves (setting u) d p q n h = h
CallerFlags-moves stopping d p q n h = h
CallerFlags-moves returned d p q n h = absurd (n h.1)

asked-stopping : (c : Caller) (p : Place) → p ≢ over → CallerFlags c true p → asked c ≡ stop_updates
asked-stopping elsewhere p n h = absurd (ground arith)
asked-stopping (setting u) p n h = absurd (ground arith)
asked-stopping stopping p n h = refl
asked-stopping returned p n h = absurd (n h.1)

pub closed_over : (p : Place) (s : Service) → PlaceFlags p s → s.closed ≡ true → p ≡ over
closed_over selecting s h e = absurd (ground arith)
closed_over (updating u) s h e = absurd (ground arith)
closed_over (resetting us) s h e = absurd (ground (arith, h.1))
closed_over over s h e = refl

PlaceFlags-set :
    (p : Place) (s : Service) (c : Caller) → PlaceFlags p s → PlaceFlags p (record s { caller = c })
PlaceFlags-set selecting s c h = h
PlaceFlags-set (updating u) s c h = h
PlaceFlags-set (resetting us) s c h = h
PlaceFlags-set over s c h = h

pub record IsSound (us : List Update) (b : Bool) (s : Service) : Type 0 where
  pub flag : s.done_closed ≡ b
  pub line : us ++ goodbye b ≡ s.emitted ++ pending s.place s.caller
  pub place : PlaceFlags s.place s
  pub caller : CallerFlags s.caller s.done_closed s.place

module _ (us : List Update) (b : Bool) where
  pub place_at : {s : Service} {p : Place} → IsSound us b s → s.place ≡ p → PlaceFlags p s
  place_at {s} h e = subst (λ p. PlaceFlags p s) e h.place

  pub caller_at :
      {s : Service} {c : Caller}
      → IsSound us b s
      → s.caller ≡ c
      → CallerFlags c s.done_closed s.place
  caller_at {s} h e = subst (λ c. CallerFlags c s.done_closed s.place) e h.caller

  line_at :
      {s : Service} {p : Place}
      → IsSound us b s
      → s.place ≡ p
      → us ++ goodbye b ≡ s.emitted ++ pending p s.caller
  line_at {s} h e = subst (λ p. us ++ goodbye b ≡ s.emitted ++ pending p s.caller) e h.line

  moved_on :
      {s : Service}
      → IsSound us b s
      → s.place ≢ over
      → (q : Place) → CallerFlags s.caller s.done_closed q
  moved_on {s} h n q = CallerFlags-moves s.caller s.done_closed s.place q n h.caller

  pub Step-IsSound : {s t : Service} → IsSound us b s → Step s t → IsSound us b t
  Step-IsSound {s} h (take_update u asks idle) = record {
    flag = h.flag;
    line = rw (idle, asks) at h.line;
    place = place_at h idle;
    caller = caller_at h asks;
  }
  Step-IsSound h (drop_update u asks gone) = absurd (ground (arith, caller_at h asks))
  Step-IsSound {s} h (set_must u e) = record {
    flag = h.flag;
    line = line_at h e ∙ sym (append_assoc s.emitted (u ∷ []) (asked s.caller));
    place = place_at h e;
    caller = moved_on h (λ o. cc) selecting;
  }
  Step-IsSound {s} h (take_done idle gone) = record {
    flag = h.flag;
    line =
        line_at h idle
        ∙ ap (λ l. s.emitted ++ l)
            (asked-stopping s.caller s.place (λ o. cc)
              (subst (λ d. CallerFlags s.caller d s.place) gone h.caller));
    place = (gone, place_at h idle, omega arith);
    caller = moved_on h (λ o. cc) (resetting stop_updates);
  }
  Step-IsSound {s} h (reset u vs e) = record {
    flag = h.flag;
    line = line_at h e ∙ sym (append_assoc s.emitted (u ∷ []) vs);
    place = ((place_at h e).0, (place_at h e).1, let few = (place_at h e).2 in omega arith);
    caller = moved_on h (λ o. cc) (resetting vs);
  }
  Step-IsSound {s} h (leave e) = record {
    flag = h.flag;
    line = line_at h e;
    place = ((place_at h e).0, refl, refl);
    caller = moved_on h (λ o. cc) over;
  }
  Step-IsSound {s} h (return asks shut) =
      let gone : s.place ≡ over = closed_over s.place s h.place shut in
      record {
        flag = h.flag;
        line = rw gone (line_at h gone);
        place = PlaceFlags-set s.place s returned h.place;
        caller = (caller_at h asks, gone);
      }

-- What the service has still to emit when the agent makes a call.
pending-asked :
    (p : Place) (c : Caller) (s : Service)
    → PlaceFlags p s
    → s.done_closed ≡ false
    → pending p c ≡ pending p elsewhere ++ asked c
pending-asked selecting c s h e = refl
pending-asked (updating u) c s h e = refl
pending-asked (resetting us) c s h e = absurd (ground (arith, h.0))
pending-asked over c s h e = absurd (ground (arith, h.0))

call_line :
    {s : Service} {us : List Update} (c : Caller)
    → IsSound us false s
    → s.caller ≡ elsewhere
    → us ++ asked c ≡ s.emitted ++ pending s.place c
call_line {s} {us} c h e =
    let before : us ≡ s.emitted ++ pending s.place elsewhere =
      sym (append-nil us) ∙ subst (λ c. us ++ [] ≡ s.emitted ++ pending s.place c) e h.line in
    ap (λ l. l ++ asked c) before
    ∙ append_assoc s.emitted (pending s.place elsewhere) (asked c)
    ∙ ap (λ l. s.emitted ++ l) (sym (pending-asked s.place c s h.place h.flag))

PlaceFlags-stop :
    (p : Place) (s : Service) (c : Caller)
    → PlaceFlags p s
    → s.done_closed ≡ false
    → PlaceFlags p (record s { caller = c; done_closed = true })
PlaceFlags-stop selecting s c h e = h
PlaceFlags-stop (updating u) s c h e = h
PlaceFlags-stop (resetting us) s c h e = absurd (ground (arith, h.0))
PlaceFlags-stop over s c h e = absurd (ground (arith, h.0))

pub Reach-IsSound : {us : List Update} {b : Bool} {s : Service} → Reach us b s → IsSound us b s
Reach-IsSound begin = record { flag = refl; line = refl; place = refl; caller = refl }
Reach-IsSound (set_property {us} {s} u r e) =
    let h = Reach-IsSound r in
    record {
      flag = h.flag;
      line = append-nil (us ++ (u ∷ [])) ∙ call_line (setting u) h e;
      place = PlaceFlags-set s.place s (setting u) h.place;
      caller = h.flag;
    }
Reach-IsSound (stop {us} {s} r e) =
    let h = Reach-IsSound r in
    record {
      flag = refl;
      line = call_line stopping h e;
      place = PlaceFlags-stop s.place s stopping h.place h.flag;
      caller = refl;
    }
Reach-IsSound (later {us} {b} r st) = Step-IsSound us b (Reach-IsSound r) st
