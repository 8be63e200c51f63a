-- ===== src/Dbusapi/Serving/Stopped.antt =====
-- internal/dbusapi/service.go: what clients see of the service, and whether `SetProperty` and `Stop`
-- return.
use mathlib.Core.Path.{subst}
use fw_id_agent.Prelude.{
  ℕ, ◌+◌, ◌≤◌, ◌≡◌, ◌≢◌, ◌⊎◌, inl, inr, refl, ◌∙◌, Bool, true, List, [], ◌∷◌, ◌++◌, length, arith,
}
use fw_id_agent.Dbusapi.Service.{Update, serve}
use fw_id_agent.Dbusapi.Serving.{
  Place, selecting, updating, resetting, over, Caller, elsewhere, setting, stopping, returned,
  Service, Step, take_update, drop_update, set_must, take_done, reset, leave, return, Reach, Run,
  here, more,
}
use fw_id_agent.Dbusapi.Serving.Sound.{
  pending, inputs, PlaceFlags, CallerFlags, IsSound, place_at, caller_at, closed_over, serve-inputs,
  Step-IsSound, Reach-IsSound,
}

goodbye_said :
    {us : List Update} {b : Bool} {s : Service} (c : Caller)
    → IsSound us b s
    → s.caller ≡ c
    → (s.caller ≢ returned) ⊎ ((pending s.place s.caller ≡ []) × (s.conn_closed ≡ true))
goodbye_said elsewhere h e = inl (λ o. cc)
goodbye_said (setting u) h e = inl (λ o. cc)
goodbye_said stopping h e = inl (λ o. cc)
goodbye_said {us} {b} {s} returned h e =
    let gone : s.place ≡ over = (caller_at us b h e).1 in
    inr (rw gone refl, (place_at us b h gone).2)

-- At any time, what the service has emitted is the beginning of what its main loop makes of the calls
-- of `SetProperty` that the agent has made, in their order, and of `Stop`, and the rest is what waits
-- in these calls. When `Stop` has returned nothing is missing, and the connection is closed.
pub service_serves :
    {us : List Update} {b : Bool} {s : Service}
    → Reach us b s
    → (serve (inputs us b) ≡ s.emitted ++ pending s.place s.caller)
      × ((s.caller ≢ returned) ⊎ ((pending s.place s.caller ≡ []) × (s.conn_closed ≡ true)))
service_serves {us} {b} {s} r =
    let h = Reach-IsSound r in (serve-inputs us b ∙ h.line, goodbye_said s.caller h refl)

-- The steps that are left until the agent's call has returned and the service waits or is over.
abbrev pub asking : Caller → ℕ
asking (setting u) = 2
asking stopping = 9
asking _ = 0

abbrev pub left : Place → Caller → ℕ
left selecting c = asking c
left (updating u) c = asking c + 1
left (resetting us) c = length us + 2
left over stopping = 1
left over _ = 0

-- No call is running, and the service waits for one, or `Stop` has returned.
abbrev pub IsQuiet : Service → Type 0
IsQuiet s = ((s.caller ≡ elsewhere) × (s.place ≡ selecting)) ⊎ (s.caller ≡ returned)

asking-stopping : (c : Caller) (p : Place) → p ≢ over → CallerFlags c true p → asking c ≡ 9
asking-stopping elsewhere p n h = absurd (ground arith)
asking-stopping (setting u) p n h = absurd (ground arith)
asking-stopping stopping p n h = refl
asking-stopping returned p n h = absurd (n h.1)

left-over : (c : Caller) → left over c ≤ 1
left-over stopping = omega arith
left-over elsewhere = omega arith
left-over (setting u) = omega arith
left-over returned = omega arith

left_bound : (p : Place) (c : Caller) (s : Service) → PlaceFlags p s → left p c ≤ 10
left_bound selecting c s h = ground arith
left_bound (updating u) c s h = ground arith
left_bound (resetting us) c s h = let few = h.2 in omega arith
left_bound over c s h = let few = left-over c in omega arith

module _ (us : List Update) (b : Bool) where
  Step-left :
      {s t : Service}
      → IsSound us b s
      → Step s t
      → left t.place t.caller + 1 ≤ left s.place s.caller
  Step-left h (take_update u asks idle) = rw (asks, idle) (omega arith)
  Step-left h (drop_update u asks gone) = absurd (ground (arith, caller_at us b h asks))
  Step-left h (set_must u e) = rw e (omega arith)
  Step-left {s} h (take_done idle gone) =
      let nine =
        asking-stopping s.caller s.place (λ o. cc)
          (subst (λ d. CallerFlags s.caller d s.place) gone h.caller) in
      rw (idle, nine) (omega arith)
  Step-left h (reset u vs e) = rw e (omega arith)
  Step-left {s} h (leave e) = let short = left-over s.caller in rw e (omega arith)
  Step-left {s} h (return asks shut) = rw (asks, closed_over s.place s h.place shut) (omega arith)

  Run-left :
      {s t : Service} {n : ℕ}
      → IsSound us b s
      → Run s n t
      → IsSound us b t × (left t.place t.caller + n ≤ left s.place s.caller)
  Run-left h here = (h, omega arith)
  Run-left h (more run st) =
      let (k, short) = Run-left h run in
      let shorter = Step-left k st in (Step-IsSound us b k st, omega arith)

  goes_on :
      (s : Service) (p : Place) (c : Caller)
      → IsSound us b s
      → s.place ≡ p
      → s.caller ≡ c
      → IsQuiet s ⊎ ((t : Service) × Step s t)
  goes_on s (updating u) c h e f = inr (_, set_must u e)
  goes_on s (resetting []) c h e f = inr (_, leave e)
  goes_on s (resetting (v ∷ vs)) c h e f = inr (_, reset v vs e)
  goes_on s selecting elsewhere h e f = inl (inl (f, e))
  goes_on s selecting (setting u) h e f = inr (_, take_update u f e)
  goes_on s selecting stopping h e f = inr (_, take_done e (caller_at us b h f))
  goes_on s selecting returned h e f = inl (inr f)
  goes_on s over elsewhere h e f =
      absurd (ground (arith, (place_at us b h e).0, caller_at us b h f))
  goes_on s over (setting u) h e f =
      absurd (ground (arith, (place_at us b h e).0, caller_at us b h f))
  goes_on s over stopping h e f = inr (_, return f (place_at us b h e).1)
  goes_on s over returned h e f = inl (inr f)

-- The agent's calls return: whatever was called before, any steps in a row of the service and of the
-- call that runs are at most ten, and then either no call runs and the service waits for one, or
-- `Stop` has returned, or they can go on.
pub service_settles :
    {us : List Update} {b : Bool} {s t : Service} {n : ℕ}
    → Reach us b s
    → Run s n t
    → (n ≤ 10) × (IsQuiet t ⊎ ((k : Service) × Step t k))
service_settles {us} {b} {s} {t} r run =
    let h = Reach-IsSound r in
    let (k, few) = Run-left us b h run in
    let bound = left_bound s.place s.caller s h.place in
    (omega arith, goes_on us b t t.place t.caller k refl refl)
