-- ===== src/Agent/Reach.antt =====
-- From the invariants of the handlers to every history of the main loop.
use fw_id_agent.Prelude.{
  ℕ, ℤ, ◌≡◌, Bool, true, some, List, [], ◌∷◌, arith, is_some, All, Bool-cases, inl, inr,
}
use fw_id_agent.Krbmon.{Krb, CCacheUpdate, ConfUpdate}
use fw_id_agent.Dbusapi.{Request}
use fw_id_agent.Agent.State.{Agent}
use fw_id_agent.Agent.Loop.{
  Event, tnd_result, login_result, ccache_update, krbcfg_update, dbus_request, sleep_event,
  tnd_closed, ccache_closed, krbcfg_closed, dbus_closed, sleep_closed, login_closed, done, Loop,
  running, returned, listens, select, next, run,
}
use fw_id_agent.Agent.Handlers.{
  handle_tnd_result, handle_login_result, handle_ccache_update, handle_krb_conf_update,
  handle_dbus_request, handle_sleep_event,
}

-- The monitors never send an update without a ccache, or without a configuration.
abbrev pub IsProper : {K : Krb} → Event K → Type 0
IsProper (ccache_update u) = is_some u.ccache ≡ true
IsProper (krbcfg_update u) = is_some u.config ≡ true
IsProper e = Unit {0}

module _ {K : Krb} {C : Type 0} where
  -- `P` of the agent while the loop runs.
  abbrev pub WhileRunning {ℓ} : (Agent K C → Type ℓ) → Loop K C → Type ℓ
  WhileRunning P (running a) = P a
  WhileRunning P (returned a) = Unit

  -- What an invariant has to satisfy: one field for each handler.
  pub record IsInvariant {ℓ} (P : Agent K C → Type ℓ) : Type ℓ where
    pub on_tnd : (r : Bool) (a : Agent K C) → P a → P (handle_tnd_result r a)
    pub on_login :
        (r ch : ℕ) (now : ℤ) (a : Agent K C)
        → a.login ≡ some ch
        → P a
        → P (handle_login_result r now a)
    pub on_ccache :
        (u : CCacheUpdate K) (a : Agent K C)
        → is_some u.ccache ≡ true
        → P a
        → P (handle_ccache_update u a)
    pub on_krbcfg :
        (u : ConfUpdate K) (a : Agent K C)
        → is_some u.config ≡ true
        → P a
        → P (handle_krb_conf_update u a)
    pub on_dbus : (r : Request) (a : Agent K C) → P a → P (handle_dbus_request r a)
    pub on_sleep : (s : Bool) (a : Agent K C) → P a → P (handle_sleep_event s a)

  listens-login : (ch : ℕ) (a : Agent K C) → listens ch a ≡ true → a.login ≡ some ch
  unfolding listens
  listens-login ch a h = ground arith

  module _ {ℓ} {P : Agent K C → Type ℓ} (v : IsInvariant P) where
    pub select_inv : (a : Agent K C) (e : Event K) → IsProper e → P a → WhileRunning P (select a e)
    unfolding select
    select_inv a (tnd_result r) _ h = v.on_tnd r a h
    select_inv a (login_result ch r now) _ h = elim (Bool-cases (listens ch a)) [
      | inl e ↦ rw e (v.on_login r ch now a (listens-login ch a e) h)
      | inr e ↦ rw e h
    ]
    select_inv a (ccache_update u) p h = v.on_ccache u a p h
    select_inv a (krbcfg_update u) p h = v.on_krbcfg u a p h
    select_inv a (dbus_request r) _ h = v.on_dbus r a h
    select_inv a (sleep_event s) _ h = v.on_sleep s a h
    select_inv a (login_closed ch) _ h = elim (Bool-cases (listens ch a)) [
      | inl e ↦ rw e tt
      | inr e ↦ rw e h
    ]
    select_inv a tnd_closed _ h = tt
    select_inv a ccache_closed _ h = tt
    select_inv a krbcfg_closed _ h = tt
    select_inv a dbus_closed _ h = tt
    select_inv a sleep_closed _ h = tt
    select_inv a done _ h = tt

  module _ {ℓ κ} (P : Agent K C → Type ℓ) (Q : Event K → Type κ) where
    next_inv :
        (l : Loop K C) (k : Agent K C → Loop K C)
        → WhileRunning P l
        → ((a : Agent K C) → P a → WhileRunning P (k a))
        → WhileRunning P (next l k)
    next_inv (running a) k h f = f a h
    next_inv (returned a) k h f = tt

    -- What every round keeps, for events in `Q`, holds as long as the loop runs.
    pub run_steps :
        ((a : Agent K C) (e : Event K) → Q e → P a → WhileRunning P (select a e))
        → (a : Agent K C) (es : List (Event K)) → All Q es
        → P a
        → WhileRunning P (run a es)
    unfolding run
    run_steps step a [] qs h = h
    run_steps step a (e ∷ es) qs h =
        next_inv (select a e) _ (step a e qs.0 h) (λ b k. run_steps step b es qs.1 k)

  -- An invariant holds as long as the loop runs.
  pub run_inv {ℓ} :
      {P : Agent K C → Type ℓ}
      → IsInvariant P
      → (a : Agent K C) (es : List (Event K)) → All IsProper es
      → P a
      → WhileRunning P (run a es)
  run_inv {P} v = run_steps P IsProper (select_inv v)
