-- ===== src/Agent/Joint.antt =====
-- internal/agent/agent.go and internal/client/client.go together: the main loop of the agent next to
-- the goroutine of the client that it has started, which hands it its results.
pub mod Turns
pub mod Shown
pub mod Displayed
use fw_id_agent.Prelude.{ℕ, ℤ, ◌≡◌, ◌≢◌, Bool, false, true, Option, none, some, List, [], ◌∷◌, ◌++◌}
use fw_id_agent.Krbmon.{Krb}
use fw_id_agent.Handoff.{Link, begin}
use fw_id_agent.LoginClient.State.{Client}
use fw_id_agent.LoginClient.Request.{Remote, Reads}
use fw_id_agent.LoginClient.Session.{login, Session, new_session, on_timer}
use fw_id_agent.LoginClient.Sending.{sender}
use fw_id_agent.Agent.State.{Agent}
use fw_id_agent.Agent.Reach.{IsProper}
use fw_id_agent.Agent.Loop.{
  Event, tnd_result, login_result, ccache_update, krbcfg_update, dbus_request, sleep_event,
  login_closed, running, select,
}

-- An event that does not come from a client.
abbrev pub IsOther : {K : Krb} → Event K → Type 0
IsOther (login_result _ _ _) = ⊥
IsOther (login_closed _) = ⊥
IsOther e = Unit {0}

-- One login of a client: what it was when its timer fired, and what its request then met.
pub record Try (K : Krb) (C : Type 0) : Type 0 where
  pub client : Client K C
  pub remote : Remote K
  pub reads : Reads K

module _ {K : Krb} {C : Type 0} where
  -- `start` of the client that the agent has made, if it has made one.
  abbrev pub link_of : Option (Client K C) → Option (Link (Session K C) ℕ)
  link_of none = none
  link_of (some c) = some (begin sender (new_session c))

  -- The timer fires between two results of the client.
  abbrev pub fired : Link (Session K C) ℕ → Remote K → Reads K → Link (Session K C) ℕ
  fired l w reads = record l {
    state = on_timer l.state w reads;
    pending = (login l.state.client w reads).sent;
    leaving = false;
  }

  abbrev pub taken : Link (Session K C) ℕ → ℕ → List ℕ → Link (Session K C) ℕ
  taken l x xs = record l { pending = xs; received = l.received ++ (x ∷ []) }

  -- What an agent that has started, the goroutine of its client and the logins that this client has tried, newest
  -- first, can become. The agent handles other events at any time; those that end or replace the
  -- client stop it in one step, since `Stop` waits until the client is closed, and the channel to
  -- which the agent listens tells that they have done so. A result is handed over when the client
  -- has one to send.
  pub data Joint (first : Agent K C)
      : Agent K C → Option (Link (Session K C) ℕ) → List (Try K C) → Type 0 where
    started : Joint first first none []
    kept :
        {a b : Agent K C} {l : Option (Link (Session K C) ℕ)} {ts : List (Try K C)} (e : Event K)
        → Joint first a l ts
        → IsOther e
        → IsProper e
        → select a e ≡ running b
        → b.login ≡ a.login
        → Joint first b l ts
    replaced :
        {a b : Agent K C} {l : Option (Link (Session K C) ℕ)} {ts : List (Try K C)} (e : Event K)
        → Joint first a l ts
        → IsOther e
        → IsProper e
        → select a e ≡ running b
        → b.login ≢ a.login
        → Joint first b (link_of b.client) []
    tried :
        {a : Agent K C} {l : Link (Session K C) ℕ} {ts : List (Try K C)} (w : Remote K)
        (reads : Reads K)
        → Joint first a (some l) ts
        → l.pending ≡ []
        → Joint first a
            (some (fired l w reads))
            (record { client = l.state.client; remote = w; reads = reads } ∷ ts)
    told :
        {a b : Agent K C} {l : Link (Session K C) ℕ} {ts : List (Try K C)} (ch x : ℕ) (now : ℤ)
        (xs : List ℕ)
        → Joint first a (some l) ts
        → l.pending ≡ x ∷ xs
        → a.login ≡ some ch
        → select a (login_result ch x now) ≡ running b
        → Joint first b (some (taken l x xs)) ts
