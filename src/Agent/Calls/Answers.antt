-- ===== src/Agent/Calls/Answers.antt =====
-- What a call of `ReLogin` returns, and why.
use fw_id_agent.Prelude.{
  ◌≡◌, ◌⊎◌, inl, inr, refl, sym, ap, Bool, true, false, none, some, List, [], ◌∷◌, ◌++◌, Bool-cases,
  All, All-append,
}
use fw_id_agent.Status.TrustedNetwork
use fw_id_agent.Krbmon.{Krb}
use fw_id_agent.Dbusapi.{Request, close}
use fw_id_agent.Dbusapi.Service.{MethodResult, completed, re_login}
use fw_id_agent.Agent.State.{Agent, Effect, reply, emit}
use fw_id_agent.Agent.Handlers.{start_client, stop_client, handle_dbus_request}
use fw_id_agent.Agent.Loop.{Event, dbus_request, Loop, running, returned, select, next, run}
use fw_id_agent.Agent.Reach.{IsProper}
use fw_id_agent.Agent.Shutdown.{run-append}
use fw_id_agent.Agent.Calls.{
  Call, offering, handled, answered, asked, Calls, called, elsewhere, take, stop_service, refuse,
  answer, abort, Handles, Answer, logged_in_again, not_connected, never_taken, given_up,
}

-- The request of the newest reply.
abbrev pub replied : List Effect → Request
replied (reply r ∷ es) = r
replied _ = asked

next-running : {K : Krb} {C : Type 0} (l : Loop K C) → next l (λ b. running b) ≡ l
next-running (running a) = refl
next-running (returned a) = refl

module _ {K : Krb} {C : Type 0} where
  -- What the agent makes of the request, and how it completes it.
  Handled : Agent K C → Request → Type 0
  Handled a r =
      ((TrustedNetwork.is_trusted a.trusted_network ≡ true)
        × (r.error ≡ none)
        × (handle_dbus_request asked a ≡ emit (reply r) (start_client (stop_client a))))
      ⊎ ((TrustedNetwork.is_trusted a.trusted_network ≡ false)
          × (r.error ≡ some "not connected to a trusted network")
          × (handle_dbus_request asked a ≡ emit (reply r) a))

  trusted-Handled :
      (a : Agent K C) (r : Request) (before : List Effect)
      → TrustedNetwork.is_trusted a.trusted_network ≡ true
      → (handle_dbus_request asked a).trace ≡ reply r ∷ before
      → Handled a r
  unfolding Handled handle_dbus_request
  trusted-Handled a r before t h =
      let same : close asked ≡ r = ap replied (rw t at h) in
      inl (
        t,
        ap (λ q. q.error) (sym same),
        rw t (ap (λ q. emit (reply q) (start_client (stop_client a))) same),
      )

  untrusted-Handled :
      (a : Agent K C) (r : Request) (before : List Effect)
      → TrustedNetwork.is_trusted a.trusted_network ≡ false
      → (handle_dbus_request asked a).trace ≡ reply r ∷ before
      → Handled a r
  unfolding Handled handle_dbus_request
  untrusted-Handled a r before u h =
      let same : close (record asked { error = some "not connected to a trusted network" }) ≡ r =
        ap replied (rw u at h) in
      inr (u, ap (λ q. q.error) (sym same), rw u (ap (λ q. emit (reply q) a) same))

  request-Handled :
      (a : Agent K C) (r : Request) (before : List Effect)
      → (handle_dbus_request asked a).trace ≡ reply r ∷ before
      → Handled a r
  request-Handled a r before h = elim (Bool-cases (TrustedNetwork.is_trusted a.trusted_network)) [
    | inl t ↦ trusted-Handled a r before t h
    | inr u ↦ untrusted-Handled a r before u h
  ]

  -- The method returns as the agent has completed the request.
  result-Handled :
      (first a : Agent K C) (r : Request) (s : Bool)
      → Handles first a r
      → Handled a r
      → Answer first (re_login (completed (λ _. r))) s
  unfolding Handled re_login
  result-Handled first a r s h (inl (t, e, made)) = rw e (logged_in_again r h t made)
  result-Handled first a r s h (inr (u, e, made)) = rw e (not_connected r h u made)

  -- What is known of the agent and the call.
  Behind : Agent K C → Call → Bool → Type 0
  Behind first offering s = Unit {0}
  Behind first (handled r) s = (a : Agent K C) × Handles first a r
  Behind first (answered m) s = Answer first m s

  Answer-stop : {first : Agent K C} {m : MethodResult} → Answer first m false → Answer first m true
  Answer-stop (logged_in_again r h t e) = logged_in_again r h t e
  Answer-stop (not_connected r h u e) = not_connected r h u e

  Behind-stop : (first : Agent K C) (c : Call) → Behind first c false → Behind first c true
  unfolding Behind
  Behind-stop first offering b = tt
  Behind-stop first (handled r) b = b
  Behind-stop first (answered m) b = Answer-stop b

  run-more :
      (first a : Agent K C) (es : List (Event K)) (e : Event K)
      → run first es ≡ running a
      → run first (es ++ (e ∷ [])) ≡ select a e
  unfolding run
  run-more first a es e ran = rw (run-append, ran) (next-running (select a e))

  Calls-Behind :
      {first : Agent K C} {l : Loop K C} {c : Call} {s : Bool}
      → Calls first l c s
      → ((es : List (Event K)) × All IsProper es × (run first es ≡ l)) × Behind first c s
  unfolding Behind run re_login
  Calls-Behind called = (([], tt, refl), tt)
  Calls-Behind {first} (elsewhere {a} e p k) =
      let ((es, proper, ran), b) = Calls-Behind k in
      ((es ++ (e ∷ []), All-append IsProper es e proper p, run-more first a es e ran), b)
  Calls-Behind {first} (take {a} {r} {before} k h) =
      let ((es, proper, ran), b) = Calls-Behind k in
      (
        (
          es ++ (dbus_request asked ∷ []),
          All-append IsProper es (dbus_request asked) proper tt,
          run-more first a es _ ran,
        ),
        (a, ((es, proper, ran), (before, h))),
      )
  Calls-Behind {first} (stop_service {a} {c} k) =
      let (history, b) = Calls-Behind k in (history, Behind-stop first c b)
  Calls-Behind (refuse k) = let (history, b) = Calls-Behind k in (history, never_taken)
  Calls-Behind {first} {s} (answer {r = r} k) =
      let (history, (a, h)) = Calls-Behind k in
      (history, result-Handled first a r s h (request-Handled a r h.1.0 h.1.1))
  Calls-Behind (abort {r = r} k) = let (history, (a, h)) = Calls-Behind k in (history, given_up r h)

  -- When the method has returned, there is a reason for what it returns: the agent has handled the
  -- request, in a trusted network by stopping its client, if it has one, and starting one, if it is
  -- ready, and in no trusted network by nothing but completing the request, and the method returns no error and the error "not connected to a
  -- trusted network" respectively; or the service is stopped, and the method returns that the call or
  -- the request was aborted.
  pub call_answered :
      {first : Agent K C} {l : Loop K C} {m : MethodResult} {s : Bool}
      → Calls first l (answered m) s
      → Answer first m s
  unfolding Behind
  call_answered k = (Calls-Behind k).1
