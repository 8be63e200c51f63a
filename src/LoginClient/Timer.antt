-- ===== src/LoginClient/Timer.antt =====
-- internal/client/client.go: when the next login is due.
use fw_id_agent.Prelude.{
  ℕ, zero, suc, ◌*◌, ◌≤◌, ◌<◌, negsuc, is_pos, false, ltb, Bool-cases, ℤ, pos, wrap64_pos, wrap64,
  String, ◌≡◌, ◌⊎◌, inl, inr, refl, [], ◌∷◌, arith,
}
use fw_id_agent.Config.{minute, get_retry_timer}
use fw_id_agent.Config.Durations.{max_minutes}
use fw_id_agent.Status.LoginState
use fw_id_agent.Krbmon.{Krb}
use fw_id_agent.LoginClient.Request.{Response, Parsed, parsed, unparsable, Remote, Reads}
use fw_id_agent.LoginClient.Session.{read_keep_alive, login, Session, on_timer}
use fw_id_agent.LoginClient.Protocol.{Accepts, login_of_Accepts, rejected_fails, login_cases}

below : (m : ℕ) → (m ≤ max_minutes) ⊎ (max_minutes < m)
below m = elim (Bool-cases (ltb max_minutes m)) [
  | inl h ↦ inr (ground arith)
  | inr h ↦ inl (ground arith)
]

module _ {K : Krb} {C : Type 0} (s : Session K C) (w : Remote K) (reads : Reads K) where
  -- When the service accepts a login and its JSON names between 1 and 153722867 minutes, the next
  -- login is due after exactly that time, and the client keeps it as its keep-alive time.
  accepted_timer :
      (r : Response) (b : String) (m : ℕ)
      → Accepts s.client w reads r b
      → w.unmarshal b ≡ parsed (pos m)
      → 1 ≤ m
      → m ≤ max_minutes
      → ((on_timer s w reads).timer ≡ pos (m * minute))
        × ((on_timer s w reads).client.keep_alive ≡ pos (m * minute))
  unfolding on_timer read_keep_alive
  accepted_timer r b m h e lo hi =
      ground (arith, login_of_Accepts s.client w reads r b h, wrap64_pos (m * minute))

  -- When a login reports "logged out", or the JSON of an accepted login cannot be parsed, the next
  -- login is due after the configured retry time, and the client is as before.
  failed_timer :
      ((login s.client w reads).sent ≡ LoginState.logging_in ∷ LoginState.logged_out ∷ [])
        ⊎ ((r : Response) × (b : String) × (e : String) × Accepts s.client w reads r b
            × (w.unmarshal b ≡ unparsable e))
      → ((on_timer s w reads).timer ≡ get_retry_timer s.client.config)
        × ((on_timer s w reads).client ≡ s.client)
  unfolding on_timer read_keep_alive
  failed_timer (inl rejected) =
      let (e, failed, same) = rejected_fails s.client w reads rejected in
      ground (arith, failed, same)
  failed_timer (inr (r, b, e, h, bad)) = ground (arith, login_of_Accepts s.client w reads r b h)

  Parsed-cases : (p : Parsed) → ((e : String) × (p ≡ unparsable e)) ⊎ ((k : ℤ) × (p ≡ parsed k))
  Parsed-cases (unparsable e) = inl (e, refl)
  Parsed-cases (parsed k) = inr (k, refl)

  -- What an accepted login whose JSON names `k` minutes makes of the keep-alive time: those minutes, if
  -- they are positive and can be counted in int64 nanoseconds, nothing, if they are not positive, and
  -- else they wrap around.
  abbrev pub Keeps : ℤ → Type 0
  Keeps k =
      ((m : ℕ) × (k ≡ pos m)
        × (1 ≤ m)
        × (m ≤ max_minutes)
        × ((on_timer s w reads).client.keep_alive ≡ pos (m * minute)))
      ⊎ (((is_pos k ≡ false) × ((on_timer s w reads).client ≡ s.client))
          ⊎ ((m : ℕ) × (k ≡ pos m)
              × (max_minutes < m)
              × ((on_timer s w reads).client.keep_alive ≡ wrap64 (pos (m * minute)))))

  named :
      (r : Response) (b : String) (k : ℤ)
      → Accepts s.client w reads r b
      → w.unmarshal b ≡ parsed k
      → ((on_timer s w reads).timer ≡ (on_timer s w reads).client.keep_alive) × Keeps k
  unfolding on_timer read_keep_alive
  named r b (negsuc n) h e = (
    ground (arith, login_of_Accepts s.client w reads r b h),
    inr (inl (refl, ground (arith, login_of_Accepts s.client w reads r b h))),
  )
  named r b (pos zero) h e = (
    ground (arith, login_of_Accepts s.client w reads r b h),
    inr (inl (refl, ground (arith, login_of_Accepts s.client w reads r b h))),
  )
  named r b (pos (suc m)) h e = elim (below (suc m)) [
    | inl lo ↦ (
      ground (arith, login_of_Accepts s.client w reads r b h),
      inl (suc m, refl, omega arith, lo, (accepted_timer r b (suc m) h e (omega arith) lo).1),
    )
    | inr hi ↦ (
      ground (arith, login_of_Accepts s.client w reads r b h),
      inr (inr (suc m, refl, hi, ground (arith, login_of_Accepts s.client w reads r b h))),
    )
  ]

  -- When the next login is due. When a login reports "logged out", or the JSON of an accepted login
  -- cannot be parsed, after the configured retry time, and the client is as before. Else the service
  -- has accepted the login and its JSON names some minutes, and the next login is due after the
  -- client's keep-alive time: it is these minutes, where they are between 1 and 153722867, the
  -- client is as before, where they are not positive, and more minutes wrap around.
  pub next_login :
      ((((login s.client w reads).sent ≡ LoginState.logging_in ∷ LoginState.logged_out ∷ [])
          ⊎ ((r : Response) × (b : String) × (e : String) × Accepts s.client w reads r b
              × (w.unmarshal b ≡ unparsable e)))
        × ((on_timer s w reads).timer ≡ get_retry_timer s.client.config)
        × ((on_timer s w reads).client ≡ s.client))
      ⊎ ((r : Response) × (b : String) × (k : ℤ) × Accepts s.client w reads r b
          × (w.unmarshal b ≡ parsed k)
          × ((on_timer s w reads).timer ≡ (on_timer s w reads).client.keep_alive)
          × Keeps k)
  next_login = elim (login_cases s.client w reads) [
    | inr sent ↦ let (due, same) = failed_timer (inl sent) in inl (inl sent, due, same)
    | inl (r, b, h, sent) ↦ elim (Parsed-cases (w.unmarshal b)) [
      | inl (e, bad) ↦
          let why = inr (r, b, e, h, bad) in
          let (due, same) = failed_timer why in inl (why, due, same)
      | inr (k, good) ↦ let (due, kept) = named r b k h good in inr (r, b, k, h, good, due, kept)
    ]
  ]
