-- ===== src/Agent/Joint/Shown.antt =====
-- The login state of the agent and the answers of the identity service.
use fw_id_agent.Prelude.{
  ℕ, ◌≡◌, ◌⊎◌, inl, inr, refl, ◌∙◌, String, false, Option, none, some, List, [], ◌∷◌, arith,
}
use fw_id_agent.Status.LoginState
use fw_id_agent.Krbmon.{Krb}
use fw_id_agent.Handoff.{Link, input, hand_over, Reach, later}
use fw_id_agent.LoginClient.State.{Client}
use fw_id_agent.LoginClient.Request.{Response}
use fw_id_agent.LoginClient.Session.{login, Session, new_session}
use fw_id_agent.LoginClient.Sending.{sender}
use fw_id_agent.LoginClient.Protocol.{Accepts, login_reports}
use fw_id_agent.Agent.State.{Agent}
use fw_id_agent.Agent.Lifecycle.{IsServed}
use fw_id_agent.Agent.Served.{IsServed-IsInvariant}
use fw_id_agent.Agent.Reach.{IsProper, WhileRunning, select_inv}
use fw_id_agent.Agent.Loop.{Event, login_result, running, select}
use fw_id_agent.Agent.Joint.{Try, link_of, Joint, started, kept, replaced, tried, told}
use fw_id_agent.Agent.Joint.Turns.{turn, login_state-told}

module _ {K : Krb} {C : Type 0} where
  -- The login ends with the result `y`.
  abbrev pub Outcome : Try K C → ℕ → Type 0
  Outcome t y = (login t.client t.remote t.reads).sent ≡ LoginState.logging_in ∷ y ∷ []

  -- The service has accepted the login: it answered the request with the status 200, and the body of
  -- the answer could be read.
  abbrev pub IsAccepted : Try K C → Type 0
  IsAccepted t = (r : Response) × (b : String) × Accepts t.client t.remote t.reads r b

  -- The outcome of the newest login, or "logged out" without one.
  abbrev pub Known : List (Try K C) → ℕ → Type 0
  Known [] y = y ≡ LoginState.logged_out
  Known (t ∷ ts) y = Outcome t y

  -- How far the agent's login state is behind the client, by what the client has still to send.
  pub data Phase (state : ℕ) : List ℕ → List (Try K C) → Type 0 where
    resting : {ts : List (Try K C)} → Known ts state → Phase state [] ts
    begun :
        {t : Try K C} {ts : List (Try K C)} (y : ℕ)
        → Outcome t y
        → Known ts state
        → Phase state (LoginState.logging_in ∷ y ∷ []) (t ∷ ts)
    waiting :
        {t : Try K C} {ts : List (Try K C)} (y : ℕ)
        → Outcome t y
        → state ≡ LoginState.logging_in
        → Phase state (y ∷ []) (t ∷ ts)

  told-Phase : {s x : ℕ} {xs : List ℕ} {ts : List (Try K C)} → Phase s (x ∷ xs) ts → Phase x xs ts
  told-Phase (begun y o k) = waiting y o refl
  told-Phase (waiting y o e) = resting o

  resting-Known : {s : ℕ} {ts : List (Try K C)} → Phase s [] ts → Known ts s
  resting-Known (resting k) = k

  Outcome-cases : (t : Try K C) → Outcome t LoginState.logged_in ⊎ Outcome t LoginState.logged_out
  Outcome-cases t = let (c, _, _) = login_reports t.client t.remote t.reads in c

  tried-Phase :
      {s : ℕ} {ts : List (Try K C)} (t : Try K C)
      → Phase s [] ts
      → Phase s (login t.client t.remote t.reads).sent (t ∷ ts)
  tried-Phase t p = elim (Outcome-cases t) [
    | inl won ↦ rw won (begun LoginState.logged_in won (resting-Known p))
    | inr lost ↦ rw lost (begun LoginState.logged_out lost (resting-Known p))
  ]

  abbrev pub Follows : Agent K C → Option (Link (Session K C) ℕ) → List (Try K C) → Type 0
  Follows a none ts = a.login_state ≡ LoginState.logged_out
  Follows a (some l) ts = Phase a.login_state l.pending ts

  Follows-same :
      (a b : Agent K C) (l : Option (Link (Session K C) ℕ)) (ts : List (Try K C))
      → b.login_state ≡ a.login_state
      → Follows a l ts
      → Follows b l ts
  Follows-same a b none ts e f = e ∙ f
  Follows-same a b (some l) ts e f = rw e f

  Follows-link_of :
      (b : Agent K C) (c : Option (Client K C))
      → b.login_state ≡ LoginState.logged_out
      → Follows b (link_of c) []
  unfolding sender
  Follows-link_of b none e = e
  Follows-link_of b (some c) e = resting e

  served :
      {a b : Agent K C} (e : Event K)
      → IsProper e
      → select a e ≡ running b
      → IsServed a
      → IsServed b
  served {a} {b} e p ran v =
      let kept : WhileRunning IsServed (select a e) = select_inv IsServed-IsInvariant a e p v in
      rw ran at kept

  Joint-Follows :
      {first a : Agent K C} {l : Option (Link (Session K C) ℕ)} {ts : List (Try K C)}
      → IsServed first
      → first.client ≡ none
      → Joint first a l ts
      → IsServed a × Follows a l ts
  Joint-Follows v idle started = (v, v.idle idle)
  Joint-Follows v0 idle (kept {a} {b} {l} {ts} e j o p ran same) =
      let (v, f) = Joint-Follows v0 idle j in
      (served e p ran v, Follows-same a b l ts ((turn e o v ran).same same) f)
  Joint-Follows v0 idle (replaced {a} {b} {l} {ts} e j o p ran other) =
      let (v, f) = Joint-Follows v0 idle j in
      (served e p ran v, Follows-link_of b b.client ((turn e o v ran).fresh other))
  Joint-Follows v0 idle (tried w reads j quiet) =
      let (v, f) = Joint-Follows v0 idle j in (v, tried-Phase _ (rw quiet at f))
  Joint-Follows v0 idle (told {a} {b} {l} {ts} ch x now xs j q h ran) =
      let (v, f) = Joint-Follows v0 idle j in
      (
        served (login_result ch x now) tt ran v,
        rw (login_state-told a b ch x now h ran) (told-Phase (rw q at f)),
      )

  -- The goroutine takes the steps of its own model; nobody has stopped it.
  abbrev pub IsRun : Option (Link (Session K C) ℕ) → Type 0
  IsRun none = Unit {0}
  IsRun (some l) =
      ((c : Client K C) × Reach sender (new_session c) l)
      × (l.stopped ≡ false)
      × (l.leaving ≡ false)

  IsRun-link_of : (c : Option (Client K C)) → IsRun (link_of c)
  IsRun-link_of none = tt
  IsRun-link_of (some c) = ((c, Reach.started), refl, refl)

  -- What is handed over here is handed over in the model of the client's goroutine alone.
  pub Joint-IsRun :
      {first a : Agent K C} {l : Option (Link (Session K C) ℕ)} {ts : List (Try K C)}
      → Joint first a l ts
      → IsRun l
  unfolding sender
  Joint-IsRun started = tt
  Joint-IsRun (kept e j o p ran same) = Joint-IsRun j
  Joint-IsRun (replaced {b} e j o p ran other) = IsRun-link_of b.client
  Joint-IsRun (tried w reads j quiet) =
      let ((c, r), going, open_still) = Joint-IsRun j in
      ((c, later r (input (w, reads) quiet open_still)), going, refl)
  Joint-IsRun (told ch x now xs j q h ran) =
      let ((c, r), going, open_still) = Joint-IsRun j in
      ((c, later r (hand_over x xs q going)), going, open_still)

  -- Whether the newest login of the agent's client was accepted.
  abbrev pub Accepted : List (Try K C) → Type 0
  Accepted [] = ⊥
  Accepted (t ∷ ts) = IsAccepted t

  Known-cases :
      (ts : List (Try K C)) (y : ℕ)
      → Known ts y
      → ((y ≡ LoginState.logged_in) × Accepted ts)
        ⊎ ((y ≡ LoginState.logged_out) × (Accepted ts → ⊥))
  Known-cases [] y k = inr (k, λ h. absurd h)
  Known-cases (t ∷ ts) y k =
      let (_, accepts, _) = login_reports t.client t.remote t.reads in
      elim (Outcome-cases t) [
        | inl won ↦ inl (ground (arith, won, k), accepts.0 won)
        | inr lost ↦ inr (
          ground (arith, lost, k),
          λ h. let won = accepts.1 h in absurd (ground (arith, won, lost)),
        )
      ]

  -- Where the client has nothing to send, the agent is logged in if and only if the service has
  -- accepted the newest login of this client, and is else logged out.
  pub Joint-Accepted :
      {first a : Agent K C} {l : Link (Session K C) ℕ} {ts : List (Try K C)}
      → IsServed first
      → first.client ≡ none
      → Joint first a (some l) ts
      → l.pending ≡ []
      → ((a.login_state ≡ LoginState.logged_in) × Accepted ts)
        ⊎ ((a.login_state ≡ LoginState.logged_out) × (Accepted ts → ⊥))
  Joint-Accepted {first} {a} {l} {ts} v idle j quiet =
      let (_, f) = Joint-Follows v idle j in
      Known-cases ts a.login_state (resting-Known (rw quiet at f))
