-- ===== src/LoginClient/Rounds.antt =====
-- A whole life of a client: logins by the timer, and the logout when it is stopped.
use fw_id_agent.Prelude.{ℕ, ◌+◌, ◌≡◌, ◌⊎◌, refl, true, false, List, [], ◌∷◌, ◌++◌, arith}
use fw_id_agent.Config.{get_logout_timeout}
use fw_id_agent.Status.LoginState
use fw_id_agent.Krbmon.{Krb}
use fw_id_agent.LoginClient.State.{Client}
use fw_id_agent.LoginClient.Request.{Response, Remote, Reads}
use fw_id_agent.LoginClient.Session.{logout, Session, new_session, on_timer, on_done}
use fw_id_agent.LoginClient.Protocol.{Delivers, ok_service, login_reports}

-- A list of whole logins: "logging in", then "logged in" or "logged out".
abbrev pub Logins : List ℕ → Type 0
Logins [] = Unit {0}
Logins (x ∷ []) = ⊥
Logins (x ∷ y ∷ l) =
    (x ≡ LoginState.logging_in)
    × ((y ≡ LoginState.logged_in) ⊎ (y ≡ LoginState.logged_out))
    × Logins l

Logins-append : (l m : List ℕ) → Logins l → Logins m → Logins (l ++ m)
Logins-append [] m hl hm = hm
Logins-append (x ∷ []) m hl hm = absurd hl
Logins-append (x ∷ y ∷ l) m hl hm = (hl.0, hl.1, Logins-append l m hl.2 hm)

module _ {K : Krb} {C : Type 0} where
  -- The loop over the times at which the timer fires.
  unfoldable pub rounds : Session K C → List (Remote K × Reads K) → Session K C
  rounds s [] = s
  rounds s ((w, reads) ∷ ws) = rounds (on_timer s w reads) ws

  -- What every round keeps: whole logins were reported, every body is closed, and the loop goes on.
  record IsOpen (s : Session K C) : Type 0 where
    reported : Logins s.sent
    balanced : s.opened ≡ s.closed
    going : s.ended ≡ false

  on_timer-IsOpen :
      (s : Session K C) (w : Remote K) (reads : Reads K) → IsOpen s → IsOpen (on_timer s w reads)
  unfolding on_timer
  on_timer-IsOpen s w reads h =
      let (sent, _, closed) = login_reports s.client w reads in
      record {
        reported = Logins-append s.sent _ h.reported (ground arith);
        balanced = ground (arith, h.balanced);
        going = h.going;
      }

  rounds-IsOpen :
      (s : Session K C) (ws : List (Remote K × Reads K)) → IsOpen s → IsOpen (rounds s ws)
  unfolding rounds
  rounds-IsOpen s [] h = h
  rounds-IsOpen s ((w, reads) ∷ ws) h =
      rounds-IsOpen (on_timer s w reads) ws (on_timer-IsOpen s w reads h)

  started-IsOpen :
      (c : Client K C) (ws : List (Remote K × Reads K)) → IsOpen (rounds (new_session c) ws)
  started-IsOpen c ws =
      rounds-IsOpen (new_session c) ws (record { reported = tt; balanced = refl; going = refl })

  pub rounds-Logins :
      (c : Client K C) (ws : List (Remote K × Reads K)) → Logins (rounds (new_session c) ws).sent
  rounds-Logins c ws = (started-IsOpen c ws).reported

  -- A client that is started, tries to log in any number of times and is then stopped has reported
  -- whole logins, each "logging in" and then "logged in" or "logged out", then "logging out" and
  -- "logged out" and nothing more; its results channel is closed.
  pub session_reports :
      (c : Client K C) (ws : List (Remote K × Reads K)) (w : Remote K) (reads : Reads K)
      → let t = on_done (rounds (new_session c) ws) w reads in
        ((l : List ℕ) × (t.sent ≡ l ++ (LoginState.logging_out ∷ LoginState.logged_out ∷ []))
          × Logins l)
        × (t.ended ≡ true)
  unfolding on_done logout
  session_reports c ws w reads =
      (((rounds (new_session c) ws).sent, refl, rounds-Logins c ws), refl)

  -- When the logout request of such a client is delivered and answered with the status 200, one
  -- response body of all that it was given is never closed: that of the logout.
  pub logout_leaks :
      (c : Client K C) (ws : List (Remote K × Reads K)) (w : Remote K) (reads : Reads K)
      (r : Response)
      → Delivers
          (rounds (new_session c) ws).client
          w
          reads
          "/logout"
          (get_logout_timeout (rounds (new_session c) ws).client.config)
          r
      → r.status_code ≡ 200
      → let t = on_done (rounds (new_session c) ws) w reads in t.opened ≡ t.closed + 1
  unfolding on_done logout
  logout_leaks c ws w reads r d st = ground (
    arith,
    (started-IsOpen c ws).balanced,
    ok_service (rounds (new_session c) ws).client w reads "/logout" _ r d st,
  )
