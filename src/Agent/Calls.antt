-- ===== src/Agent/Calls.antt =====
-- internal/dbusapi/service.go and internal/agent/agent.go: a call of the D-Bus method `ReLogin` next
-- to the main loop of the agent, which takes the request from an unbuffered channel, and to the end
-- of the service, which the agent stops when its loop has returned.
pub mod Answers
use fw_id_agent.Prelude.{
  ◌<>◌, ◌≡◌, ◌⊎◌, inl, inr, refl, sym, ◌∙◌, ap, Bool, true, false, none, some, List, [], ◌∷◌, ◌++◌,
  arith, Bool-cases, All,
}
use fw_id_agent.Status.TrustedNetwork
use fw_id_agent.Krbmon.{Krb}
use fw_id_agent.Dbusapi.{Request, new_request, request_re_login, interface, close}
use fw_id_agent.Dbusapi.Service.{
  MethodResult, succeeded, method_error, not_taken, aborted, completed, re_login,
}
use fw_id_agent.Agent.State.{Agent, Effect, reply, emit}
use fw_id_agent.Agent.Handlers.{start_client, stop_client, handle_dbus_request}
use fw_id_agent.Agent.Loop.{Event, dbus_request, Loop, running, returned, select, next, run}
use fw_id_agent.Agent.Reach.{IsProper}
use fw_id_agent.Agent.Shutdown.{run-append}

-- Where the call stands: it offers its request, the agent has completed the request, or the method
-- has returned. The agent completes a request before it takes another value.
pub data Call : Type 0 where
  offering : Call
  handled : Request → Call
  answered : MethodResult → Call

-- The request of the method.
abbrev pub asked : Request
asked = new_request request_re_login

module _ {K : Krb} {C : Type 0} where
  -- What an agent, a call and the service, which is stopped or not, can become. The monitors send no
  -- empty update.
  pub data Calls (first : Agent K C) : Loop K C → Call → Bool → Type 0 where
    called : Calls first (running first) offering false
    elsewhere :
        {a : Agent K C} {c : Call} (e : Event K)
        → IsProper e
        → Calls first (running a) c false
        → Calls first (select a e) c false
    take :
        {a : Agent K C} {r : Request} {before : List Effect}
        → Calls first (running a) offering false
        → (handle_dbus_request asked a).trace ≡ reply r ∷ before
        → Calls first (select a (dbus_request asked)) (handled r) false
    stop_service :
        {a : Agent K C} {c : Call}
        → Calls first (returned a) c false
        → Calls first (returned a) c true
    refuse :
        {l : Loop K C}
        → Calls first l offering true
        → Calls first l (answered (re_login not_taken)) true
    answer :
        {l : Loop K C} {r : Request} {s : Bool}
        → Calls first l (handled r) s
        → Calls first l (answered (re_login (completed (λ _. r)))) s
    abort :
        {l : Loop K C} {r : Request}
        → Calls first l (handled r) true
        → Calls first l (answered (re_login aborted)) true

  -- Behind some events, none with an empty update, the agent was in the state `a`, and handled the
  -- request.
  abbrev pub Handles : Agent K C → Agent K C → Request → Type 0
  Handles first a r =
      ((es : List (Event K)) × All IsProper es × (run first es ≡ running a))
      × ((before : List Effect) × ((handle_dbus_request asked a).trace ≡ reply r ∷ before))

  -- Why the method returns what it returns, with the service stopped or not.
  pub data Answer (first : Agent K C) : MethodResult → Bool → Type 0 where
    logged_in_again :
        {a : Agent K C} {s : Bool} (r : Request)
        → Handles first a r
        → TrustedNetwork.is_trusted a.trusted_network ≡ true
        → handle_dbus_request asked a ≡ emit (reply r) (start_client (stop_client a))
        → Answer first succeeded s
    not_connected :
        {a : Agent K C} {s : Bool} (r : Request)
        → Handles first a r
        → TrustedNetwork.is_trusted a.trusted_network ≡ false
        → handle_dbus_request asked a ≡ emit (reply r) a
        → Answer first
            (method_error (interface <> ".ReLoginAborted") "not connected to a trusted network")
            s
    never_taken :
        Answer first (method_error (interface <> ".ReLoginAborted") "ReLogin aborted") true
    given_up :
        {a : Agent K C} (r : Request)
        → Handles first a r
        → Answer first (method_error (interface <> ".ReLoginAborted") "Request aborted") true
