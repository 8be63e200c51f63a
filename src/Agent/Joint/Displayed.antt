-- ===== src/Agent/Joint/Displayed.antt =====
-- What D-Bus shows of the logins of the agent's client.
use fw_id_agent.Prelude.{
  ℕ, ◌≡◌, ◌⊎◌, ◌↔◌, inl, inr, refl, Option, none, some, List, [], ◌∷◌, ◌++◌, All, All-append, arith,
}
use fw_id_agent.Config.{Config}
use fw_id_agent.Status.LoginState
use fw_id_agent.Dbusapi.Property
use fw_id_agent.Dbusapi.{uint32}
use fw_id_agent.Krbmon.{Krb}
use fw_id_agent.Notify.{Notifier}
use fw_id_agent.Handoff.{Link}
use fw_id_agent.LoginClient.Session.{Session}
use fw_id_agent.Agent.State.{Agent, latest}
use fw_id_agent.Agent.Setters.{set_trusted_network, set_login_state}
use fw_id_agent.Agent.Start.{Environment, start_ok, init_tnd}
use fw_id_agent.Agent.Mirror.{Mirrors}
use fw_id_agent.Agent.Reach.{IsProper, WhileRunning}
use fw_id_agent.Agent.Loop.{Event, login_result, running, select, run}
use fw_id_agent.Agent.Histories.{Starts, start-IsServed, run-Mirrors}
use fw_id_agent.Agent.Shutdown.{run-append}
use fw_id_agent.Agent.Joint.{Try, Joint, started, kept, replaced, tried, told}
use fw_id_agent.Agent.Joint.Shown.{Accepted, Joint-Accepted}

module _ {K : Krb} {C : Type 0} where
  run-one :
      (a : Agent K C) (e : Event K) (b : Agent K C)
      → select a e ≡ running b
      → run a (e ∷ []) ≡ running b
  unfolding run
  run-one a e b h = rw h refl

  run-more :
      (first a b : Agent K C) (es : List (Event K)) (e : Event K)
      → run first es ≡ running a
      → select a e ≡ running b
      → run first (es ++ (e ∷ [])) ≡ running b
  run-more first a b es e ran h = rw (run-append, ran) (run-one a e b h)

  -- The events that the agent has handled.
  pub Joint-run :
      {first a : Agent K C} {l : Option (Link (Session K C) ℕ)} {ts : List (Try K C)}
      → Joint first a l ts
      → (es : List (Event K)) × All IsProper es × (run first es ≡ running a)
  unfolding run
  Joint-run started = ([], tt, refl)
  Joint-run (kept {a} {b} e j o p h same) =
      let (es, proper, ran) = Joint-run j in
      (es ++ (e ∷ []), All-append IsProper es e proper p, run-more _ a b es e ran h)
  Joint-run (replaced {a} {b} e j o p h other) =
      let (es, proper, ran) = Joint-run j in
      (es ++ (e ∷ []), All-append IsProper es e proper p, run-more _ a b es e ran h)
  Joint-run (tried w reads j quiet) = Joint-run j
  Joint-run (told {a} {b} ch x now xs j q listens h) =
      let (es, proper, ran) = Joint-run j in
      (
        es ++ (login_result ch x now ∷ []),
        All-append IsProper es (login_result ch x now) proper tt,
        run-more _ a b es (login_result ch x now) ran h,
      )

  start-client :
      (env : Environment C) (conf : Config C) (n : Option Notifier) (a : Agent K C)
      → Starts env conf n a
      → a.client ≡ none
  unfolding set_trusted_network set_login_state init_tnd
  start-client env conf n a ok = rw (start_ok env _ a ok) (ground arith)

  -- After a start with no error, however the agent, its clients and the other components take turns:
  -- whenever the client has told all that it has to tell, the D-Bus property of the login state was
  -- last set to "logged in" if and only if the identity service has accepted the newest login of
  -- this client, and else it was last set to "logged out".
  pub login_shown :
      (env : Environment C) (conf : Config C) (n : Option Notifier) {first a : Agent K C}
      {l : Link (Session K C) ℕ} {ts : List (Try K C)}
      → Starts env conf n first
      → Joint first a (some l) ts
      → l.pending ≡ []
      → ((latest Property.login_state a.trace ≡ some (uint32 LoginState.logged_in)) ↔ Accepted ts)
        × ((latest Property.login_state a.trace ≡ some (uint32 LoginState.logged_in))
            ⊎ (latest Property.login_state a.trace ≡ some (uint32 LoginState.logged_out)))
  login_shown env conf n {first} {a} {l} {ts} ok j quiet =
      let (es, proper, ran) = Joint-run j in
      let held : WhileRunning Mirrors (run first es) = run-Mirrors env conf n first ok es proper in
      let m : Mirrors a = rw ran at held in
      elim (Joint-Accepted (start-IsServed env conf n first ok) (start-client env conf n first ok) j
        quiet) [
          | inl (won, h) ↦ ((λ _. h, λ _. ground (arith, m.login)), inl (ground (arith, m.login)))
          | inr (lost, never) ↦ (
            (λ won. absurd (ground (arith, m.login)), λ h. absurd (never h)),
            inr (ground (arith, m.login)),
          )
        ]
