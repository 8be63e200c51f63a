-- ===== src/LoginClient/Session.antt =====
-- internal/client/client.go: `login`, `logout` and the loop of `start`.
use fw_id_agent.Prelude.{
  ℕ, ◌+◌, ◌==◌, ℤ, pos, is_pos, scale, wrap64, Bool, true, false, not, Option, none, some, List, [],
  ◌∷◌, ◌++◌, if◌then◌else◌,
}
use fw_id_agent.Config.{minute, get_login_timeout, get_logout_timeout, get_retry_timer}
use fw_id_agent.Status.LoginState
use fw_id_agent.Krbmon.{Krb}
use fw_id_agent.LoginClient.State.{Client}
use fw_id_agent.LoginClient.Request.{
  readable, unreadable, Response, Parsed, parsed, unparsable, Remote, Reads, Failure, body_unread,
  bad_json, do_service_request,
}

-- What a call of `login` or `logout` does: the client after it, the results that it passes to
-- `sendResult`, oldest first, the error that it returns, and how many response bodies it was given
-- and how many of them it closed.
pub record Attempt (K : Krb) (C : Type 0) : Type 0 where
  pub client : Client K C
  pub sent : List ℕ
  pub error : Option Failure
  pub opened : ℕ
  pub closed : ℕ

abbrev pub bodies : Option Response → ℕ
bodies none = 0
bodies (some r) = 1

module _ {K : Krb} {C : Type 0} where
  -- The JSON part of `login`.
  unfoldable pub read_keep_alive : Client K C → Parsed → Attempt K C
  read_keep_alive c (unparsable e) = record {
    client = c;
    sent = LoginState.logging_in ∷ LoginState.logged_in ∷ [];
    error = some (bad_json e);
    opened = 1;
    closed = 1;
  }
  read_keep_alive c (parsed k) = record {
    client = if is_pos k then record c { keep_alive = wrap64 (scale k minute) } else c;
    sent = LoginState.logging_in ∷ LoginState.logged_in ∷ [];
    error = none;
    opened = 1;
    closed = 1;
  }

  -- An attempt that ends in the state "logged out"; a response body is closed by the deferred call.
  logged_out_by : Client K C → Option Failure → Option Response → Attempt K C
  logged_out_by c e r = record {
    client = c;
    sent = LoginState.logging_in ∷ LoginState.logged_out ∷ [];
    error = e;
    opened = bodies r;
    closed = bodies r;
  }

  read_body : Client K C → Remote K → Response → Attempt K C
  unfolding read_keep_alive logged_out_by
  read_body c w r = elim r.body [
    | unreadable e ↦ logged_out_by c (some (body_unread e)) (some r)
    | readable b ↦ read_keep_alive c (w.unmarshal b)
  ]

  -- `err != nil || response.StatusCode != 200` with what follows. A nil response has an error.
  after_request : Client K C → Remote K → Option Failure → Option Response → Attempt K C
  unfolding read_body
  after_request c w (some e) r = logged_out_by c (some e) r
  after_request c w none none = logged_out_by c none none
  after_request c w none (some r) =
      if not (r.status_code == 200) then logged_out_by c none (some r) else read_body c w r

  -- `login`
  unfoldable pub login : Client K C → Remote K → Reads K → Attempt K C
  unfolding after_request
  login c w reads =
      let r = do_service_request c w reads "/login" (get_login_timeout c.config) in
      after_request c w r.error r.response

  -- `logout`: the response is dropped.
  unfoldable pub logout : Client K C → Remote K → Reads K → Attempt K C
  logout c w reads =
      let r = do_service_request c w reads "/logout" (get_logout_timeout c.config) in
      record {
        client = c;
        sent = LoginState.logging_out ∷ LoginState.logged_out ∷ [];
        error = r.error;
        opened = bodies r.response;
        closed = 0;
      }

-- The loop of `start` between two rounds: the client, the duration to which the timer was last set,
-- the results so far, oldest first, the response bodies opened and closed, and whether the results
-- channel is closed.
pub record Session (K : Krb) (C : Type 0) : Type 0 where
  pub client : Client K C
  pub timer : ℤ
  pub sent : List ℕ
  pub opened : ℕ
  pub closed : ℕ
  pub ended : Bool

module _ {K : Krb} {C : Type 0} where
  -- `NewClient` and the start of `start`: the timer fires at once.
  abbrev pub new_session : Client K C → Session K C
  new_session c = record {
    client = c;
    timer = pos 0;
    sent = [];
    opened = 0;
    closed = 0;
    ended = false;
  }

  -- What both cases of the `select` do with an attempt.
  record_attempt : Session K C → Attempt K C → Session K C
  record_attempt s t = record s {
    client = t.client;
    sent = s.sent ++ t.sent;
    opened = s.opened + t.opened;
    closed = s.closed + t.closed;
  }

  -- The case of the timer.
  unfoldable pub on_timer : Session K C → Remote K → Reads K → Session K C
  unfolding record_attempt
  on_timer s w reads =
      let t = login s.client w reads in
      record (record_attempt s t) {
        timer = elim t.error [
          | some e ↦ get_retry_timer t.client.config
          | none ↦ t.client.keep_alive
        ];
      }

  -- The case of `done`; the deferred calls close `results` and `closed`.
  unfoldable pub on_done : Session K C → Remote K → Reads K → Session K C
  unfolding record_attempt
  on_done s w reads = record (record_attempt s (logout s.client w reads)) { ended = true }
