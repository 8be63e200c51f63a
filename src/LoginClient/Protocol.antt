-- ===== src/LoginClient/Protocol.antt =====
-- What a client tells the agent, and how long it waits.
use fw_id_agent.Prelude.{
  ℕ, ℤ, String, ◌<>◌, ◌≡◌, ◌↔◌, ◌⊎◌, inl, inr, refl, true, none, some, List, [], ◌∷◌, is_some,
  arith, Option-cases,
}
use fw_id_agent.Config.{get_login_timeout}
use fw_id_agent.Status.LoginState
use fw_id_agent.Krbmon.{Krb}
use fw_id_agent.LoginClient.State.{Client}
use fw_id_agent.LoginClient.Request.{
  Body, readable, unreadable, Response, Answer, answer, no_answer, Parsed, parsed, unparsable,
  Remote, Reads, Failure, body_unread, do_service_request,
}
use fw_id_agent.LoginClient.Session.{read_keep_alive, login}

-- The request went out with both reads set, and `r` came back.
pub record Delivers {K : Krb} {C : Type 0} (c : Client K C) (w : Remote K) (reads : Reads K)
    (api : String) (timeout : ℤ) (r : Response) : Type 0 where
  pub has_ccache : is_some reads.tested_ccache ≡ true
  pub has_conf : is_some reads.tested_conf ≡ true
  pub no_request_error : w.request_error (c.config.service_url <> api) ≡ none
  pub no_krb_error : w.krb_error reads.used_ccache reads.used_conf ≡ none
  pub answered : w.exchange (c.config.service_url <> api) timeout ≡ answer r

Answer-cases : (x : Answer) → ((r : Response) × (x ≡ answer r)) ⊎ ((e : String) × (x ≡ no_answer e))
Answer-cases (answer r) = inl (r, refl)
Answer-cases (no_answer e) = inr (e, refl)

module _ {K : Krb} {C : Type 0} (c : Client K C) (w : Remote K) (reads : Reads K) where
  module _ (api : String) (timeout : ℤ) where
    -- A request has no error if and only if it was delivered and answered with the status 200; the
    -- answer is then returned.
    service_ok :
        ((do_service_request c w reads api timeout).error ≡ none)
        → (r : Response) × ((do_service_request c w reads api timeout).response ≡ some r)
          × Delivers c w reads api timeout r
          × (r.status_code ≡ 200)
    unfolding do_service_request
    service_ok h = elim (Answer-cases (w.exchange (c.config.service_url <> api) timeout)) [
      | inl (r, e) ↦ (r, ground arith, ground arith, ground arith)
      | inr (m, e) ↦ absurd (ground arith)
    ]

    pub ok_service :
        (r : Response)
        → Delivers c w reads api timeout r
        → r.status_code ≡ 200
        → (do_service_request c w reads api timeout ≡ record { response = some r; error = none })
    unfolding do_service_request
    ok_service r d e = ground arith

  abbrev accepted : List ℕ
  accepted = LoginState.logging_in ∷ LoginState.logged_in ∷ []

  abbrev rejected : List ℕ
  rejected = LoginState.logging_in ∷ LoginState.logged_out ∷ []

  -- The service answered the login request with the status 200, and the body could be read.
  abbrev pub Accepts : Response → String → Type 0
  Accepts r b =
      Delivers c w reads "/login" (get_login_timeout c.config) r
      × (r.status_code ≡ 200)
      × (r.body ≡ readable b)

  Body-cases : (x : Body) → ((b : String) × (x ≡ readable b)) ⊎ ((e : String) × (x ≡ unreadable e))
  Body-cases (readable b) = inl (b, refl)
  Body-cases (unreadable e) = inr (e, refl)

  login_rejected_by_error :
      (e : Failure)
      → (do_service_request c w reads "/login" (get_login_timeout c.config)).error ≡ some e
      → (login c w reads).sent ≡ rejected
  unfolding login
  login_rejected_by_error e h = ground arith

  login_of_reply :
      (r : Response)
      → do_service_request c w reads "/login" (get_login_timeout c.config)
        ≡ record { response = some r; error = none }
      → r.status_code ≡ 200
      → ((b : String) × (r.body ≡ readable b) × ((login c w reads).sent ≡ accepted))
        ⊎ ((login c w reads).sent ≡ rejected)
  unfolding login
  login_of_reply r h e = elim (Body-cases r.body) [
    | inl (b, readable_body) ↦ inl (b, readable_body, ground arith)
    | inr (m, unreadable_body) ↦ inr (ground arith)
  ]

  pub login_cases :
      ((r : Response) × (b : String) × Accepts r b × ((login c w reads).sent ≡ accepted))
      ⊎ ((login c w reads).sent ≡ rejected)
  login_cases =
      let q = do_service_request c w reads "/login" (get_login_timeout c.config) in
      elim (Option-cases q.error) [
        | inl quiet ↦
            let (r, _, d, st) = service_ok "/login" (get_login_timeout c.config) quiet in
            elim (login_of_reply r (ok_service "/login" _ r d st) st) [
              | inl (b, body, sent) ↦ inl (r, b, (d, st, body), sent)
              | inr sent ↦ inr sent
            ]
        | inr (e, loud) ↦ inr (login_rejected_by_error e loud)
      ]

  -- Where the service accepts, `login` goes on to the JSON part.
  pub login_of_Accepts :
      (r : Response) (b : String)
      → Accepts r b
      → login c w reads ≡ read_keep_alive c (w.unmarshal b)
  unfolding login
  login_of_Accepts r b (d, st, body) = ground (arith, ok_service "/login" _ r d st)

  sent-read_keep_alive : (p : Parsed) → (read_keep_alive c p).sent ≡ accepted
  unfolding read_keep_alive
  sent-read_keep_alive (parsed k) = refl
  sent-read_keep_alive (unparsable e) = refl

  -- Each login reports "logging in" and then one of "logged in" and "logged out". It reports "logged
  -- in" if and only if the ccache and the Kerberos configuration are set, the request and the
  -- Kerberos client could be made, the service answered with the status 200, and the body of the
  -- answer could be read. Every response body that it is given is closed.
  pub login_reports :
      (((login c w reads).sent ≡ LoginState.logging_in ∷ LoginState.logged_in ∷ [])
        ⊎ ((login c w reads).sent ≡ LoginState.logging_in ∷ LoginState.logged_out ∷ []))
      × (((login c w reads).sent ≡ LoginState.logging_in ∷ LoginState.logged_in ∷ [])
          ↔ ((r : Response) × (b : String) × Accepts r b))
      × ((login c w reads).opened ≡ (login c w reads).closed)
  login_reports = (
    elim login_cases [ inl (r, b, h, sent) ↦ inl sent | inr sent ↦ inr sent ],
    (
      λ h. elim login_cases [ inl (r, b, k, sent) ↦ (r, b, k) | inr sent ↦ cc ],
      λ (r, b, h). rw (login_of_Accepts r b h) (sent-read_keep_alive (w.unmarshal b)),
    ),
    (unfold login in ground arith),
  )

  rejected_of_reply :
      (r : Response)
      → do_service_request c w reads "/login" (get_login_timeout c.config)
        ≡ record { response = some r; error = none }
      → r.status_code ≡ 200
      → (login c w reads).sent ≡ rejected
      → (e : Failure) × ((login c w reads).error ≡ some e) × ((login c w reads).client ≡ c)
  unfolding login read_keep_alive
  rejected_of_reply r h st k = elim (Body-cases r.body) [
    | inl (b, readable_body) ↦ absurd (ground arith)
    | inr (m, unreadable_body) ↦ (body_unread m, ground arith, ground arith)
  ]

  rejected_by_error :
      (e : Failure)
      → (do_service_request c w reads "/login" (get_login_timeout c.config)).error ≡ some e
      → ((login c w reads).error ≡ some e) × ((login c w reads).client ≡ c)
  unfolding login
  rejected_by_error e h = ground arith

  -- A login that is rejected has an error, and leaves the client as it is.
  pub rejected_fails :
      (login c w reads).sent ≡ rejected
      → (e : Failure) × ((login c w reads).error ≡ some e) × ((login c w reads).client ≡ c)
  rejected_fails h =
      let q = do_service_request c w reads "/login" (get_login_timeout c.config) in
      elim (Option-cases q.error) [
        | inl quiet ↦
            let (r, _, d, st) = service_ok "/login" (get_login_timeout c.config) quiet in
            rejected_of_reply r (ok_service "/login" _ r d st) st h
        | inr (e, loud) ↦ let (failed, same) = rejected_by_error e loud in (e, failed, same)
      ]
