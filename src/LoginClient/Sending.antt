-- ===== src/LoginClient/Sending.antt =====
-- internal/client/client.go: `sendResult`, `Start`, `Stop` and `Results`: the client's goroutine next
-- to the main loop of the agent, which receives its results.
use mathlib.Core.Path.{subst}
use fw_id_agent.Prelude.{
  ◌≢◌, ap, sym, ◌∙◌, All, All-prefix, ℕ, ◌+◌, ◌*◌, ◌≤◌, ◌≡◌, ◌⊎◌, refl, Bool, false, true, List, [],
  ◌∷◌, ◌++◌, length, arith,
}
use fw_id_agent.Status.LoginState
use fw_id_agent.Krbmon.{Krb}
use fw_id_agent.Handoff.{Sender, Link, Reach, reacts}
use fw_id_agent.Handoff.Received.{
  Place, looping, exited, took_done, complete-Taken, Reach-Taken, Reach-pending,
}
use fw_id_agent.Handoff.Stopping.{Run, stopping, Reach-Run}
use fw_id_agent.LoginClient.State.{Client}
use fw_id_agent.LoginClient.Request.{Remote, Reads}
use fw_id_agent.LoginClient.Session.{login, logout, Session, new_session, on_timer, on_done}
use fw_id_agent.LoginClient.Protocol.{login_reports}
use fw_id_agent.LoginClient.Rounds.{rounds, Logins, rounds-Logins}

-- Logins do not say "logging out".
Logins-quiet : (l : List ℕ) → Logins l → All (λ r. r ≢ LoginState.logging_out) l
Logins-quiet [] h = tt
Logins-quiet (x ∷ []) h = absurd h
Logins-quiet (x ∷ y ∷ l) (first, second, rest) = (ground arith, (ground arith, Logins-quiet l rest))

module _ {K : Krb} {C : Type 0} where
  pub sent-login-short :
      (c : Client K C) (w : Remote K) (reads : Reads K) → length (login c w reads).sent ≤ 2
  sent-login-short c w reads = let (sent, _, _) = login_reports c w reads in ground (arith, sent)

  pub sent-on_timer :
      (s : Session K C) (w : Remote K) (reads : Reads K)
      → (on_timer s w reads).sent ≡ s.sent ++ (login s.client w reads).sent
  unfolding on_timer
  sent-on_timer s w reads = refl

  pub sent-on_done :
      (s : Session K C) (w : Remote K) (reads : Reads K)
      → (on_done s w reads).sent ≡ s.sent ++ (logout s.client w reads).sent
  unfolding on_done
  sent-on_done s w reads = refl

  pub sent-logout-short :
      (c : Client K C) (w : Remote K) (reads : Reads K) → length (logout c w reads).sent ≤ 2
  unfolding logout
  sent-logout-short c w reads = omega arith

  -- The loop of `start`. An input is the firing of the timer with what the requests then meet; a
  -- login and a logout make two calls of `sendResult`.
  unfoldable pub sender : Sender (Session K C) (Remote K × Reads K) ℕ
  sender = record {
    react = λ s (w, reads). on_timer s w reads;
    outputs = λ s (w, reads). (login s.client w reads).sent;
    exits = λ s i. false;
    leave = λ s (w, reads). on_done s w reads;
    farewell = λ s (w, reads). (logout s.client w reads).sent;
    made = λ s. s.sent;
    burst = 2;
    made-react = λ s (w, reads). sent-on_timer s w reads;
    made-leave = λ s (w, reads). sent-on_done s w reads;
    short_outputs = λ s (w, reads). sent-login-short s.client w reads;
    short_farewell = λ s (w, reads). sent-logout-short s.client w reads;
  }

  reacts-sender :
      (s : Session K C) (ws : List (Remote K × Reads K)) → reacts sender s ws ≡ rounds s ws
  unfolding reacts rounds sender
  reacts-sender s [] = refl
  reacts-sender s ((w, reads) ∷ ws) = reacts-sender (on_timer s w reads) ws

  -- However a started client and the agent that receives its results take turns: what the agent has
  -- received is the beginning of whole logins, those of some firings of the timer, and never says
  -- "logging out"; and unless the agent has called `Stop`, what is missing is only what the running
  -- login has still to send.
  pub agent_receives :
      (c : Client K C) {l : Link (Session K C) ℕ}
      → Reach sender (new_session c) l
      → (ws : List (Remote K × Reads K)) × (rest : List ℕ) × ((rounds (new_session c) ws).sent
          ≡ l.received ++ rest)
        × Logins (l.received ++ rest)
        × All (λ r. r ≢ LoginState.logging_out) l.received
        × ((l.stopped ≡ true) ⊎ (rest ≡ l.pending))
  unfolding sender
  agent_receives c {l} r =
      let (ws, t) = Reach-Taken sender (new_session c) r in
      let told = ap (λ s. s.sent) (sym (reacts-sender (new_session c) ws)) ∙ t.prefix in
      let whole = subst Logins told (rounds-Logins c ws) in
      (
        ws,
        t.missing,
        told,
        whole,
        All-prefix _ l.received t.missing (Logins-quiet _ whole),
        complete-Taken sender (new_session c) t,
      )

  done_of :
      (c : Client K C) {st : Session K C} {b g : Bool} {ws : List (Remote K × Reads K)}
      → Place sender (new_session c) st b g ws
      → g ≡ true
      → (now : Remote K × Reads K) × (st ≡ on_done (reacts sender (new_session c) ws) now.0 now.1)
  unfolding sender
  done_of c (looping e) h = absurd (ground arith)
  done_of c (exited js i x e) h = absurd (ground arith)
  done_of c (took_done i e) h = (i, e)

  -- A client that is closed is as one that has tried to log in some times and has then logged out.
  pub closed_client :
      (c : Client K C) {l : Link (Session K C) ℕ}
      → Reach sender (new_session c) l
      → l.closed ≡ true
      → (ws : List (Remote K × Reads K)) × (now : Remote K × Reads K) × (l.state
          ≡ on_done (rounds (new_session c) ws) now.0 now.1)
  closed_client c r gone =
      let (ws, t) = Reach-Taken sender (new_session c) r in
      let (now, state) = done_of c t.place (t.last gone).0 in
      (ws, now, rw (reacts-sender (new_session c) ws) at state)

  -- `n` steps of the client once `Stop` has closed `done`, in which the timer fires `k` times, are at
  -- most 6 + 3 k; and then the client can go on until its results are closed, in at most six steps in
  -- which the timer does not fire, and is as a client that has tried some logins and then logged out.
  pub stop_returns :
      (c : Client K C) {l m : Link (Session K C) ℕ} {n k : ℕ} (w : Remote K) (reads : Reads K)
      → Reach sender (new_session c) l
      → l.stopped ≡ true
      → Run sender l n k m
      → (n ≤ 6 + k * 3)
        × ((j : ℕ) × (last : Link (Session K C) ℕ) × Run sender m j 0 last
            × (j ≤ 6)
            × (last.closed ≡ true)
            × ((ws : List (Remote K × Reads K)) × (now : Remote K × Reads K) × (last.state
                  ≡ on_done (rounds (new_session c) ws) now.0 now.1)))
  unfolding sender
  stop_returns c w reads r e run =
      let there = Reach-Run sender r run in
      let s =
        stopping sender (w, reads) (Reach-pending sender (new_session c) (omega arith) r)
          (Reach-pending sender (new_session c) (omega arith) there) e run in
      (
        s.few,
        (
          s.steps,
          s.last,
          s.rest,
          s.soon,
          s.closed,
          closed_client c (Reach-Run sender there s.rest) s.closed,
        ),
      )
