-- ===== src/Tracking/Relogin.antt =====
-- What the method `ReLogin` returns to a D-Bus client when the agent handles the request.
use fw_id_agent.Prelude.{◌<>◌, ◌≡◌, refl, true, false, some, List, ◌∷◌, arith, Bool-cases, inl, inr}
use fw_id_agent.Status.TrustedNetwork
use fw_id_agent.Krbmon.{Krb}
use fw_id_agent.Dbusapi.{Request, new_request, request_re_login, interface, close}
use fw_id_agent.Dbusapi.Service.{completed, succeeded, method_error, re_login}
use fw_id_agent.Agent.State.{Agent, Effect, reply}
use fw_id_agent.Agent.Handlers.{start_client, stop_client, handle_dbus_request}

module _ {K : Krb} {C : Type 0} (a : Agent K C) where
  -- The agent completes every re-login request, and the call returns: with no error in a trusted
  -- network, and else with the error "not connected to a trusted network", where completing the
  -- request is all that the agent does.
  pub relogin_answers :
      (r : Request) × (before : List Effect) × ((handle_dbus_request
          (new_request request_re_login)
          a).trace
        ≡ reply r ∷ before)
      × (r.closed ≡ true)
      × (TrustedNetwork.is_trusted a.trusted_network ≡ true
          → re_login (completed (λ _. r)) ≡ succeeded)
      × (TrustedNetwork.is_trusted a.trusted_network ≡ false
          → (re_login (completed (λ _. r))
              ≡ method_error (interface <> ".ReLoginAborted") "not connected to a trusted network")
            × (before ≡ a.trace))
  unfolding handle_dbus_request re_login
  relogin_answers = elim (Bool-cases (TrustedNetwork.is_trusted a.trusted_network)) [
    | inl t ↦ (
      close (new_request request_re_login),
      (start_client (stop_client a)).trace,
      rw t refl,
      refl,
      (λ _. refl),
      (λ u. absurd (ground arith)),
    )
    | inr u ↦ (
      close (record (new_request request_re_login) {
        error = some "not connected to a trusted network";
      }),
      a.trace,
      rw u refl,
      refl,
      (λ t. absurd (ground arith)),
      (λ _. (refl, refl)),
    )
  ]
