-- ===== src/Tests/Login.antt =====
-- The login client at concrete answers of the service.
use fw_id_agent.Prelude.{ℤ, ◌+◌, ◌≡◌, ◌↔◌, ◌⊎◌, refl, Bool, String, none, some, [], ◌∷◌, pos}
use fw_id_agent.Config.{get_retry_timer}
use fw_id_agent.Status.LoginState
use fw_id_agent.LoginClient.State.{Client}
use fw_id_agent.LoginClient.Request.{
  readable, Response, answer, no_answer, parsed, unparsable, Remote, Reads, do_service_request,
}
use fw_id_agent.LoginClient.Session.{login, new_session, on_timer, on_done}
use fw_id_agent.LoginClient.Timer.{Keeps, next_login}
use fw_id_agent.LoginClient.Protocol.{Accepts, login_reports}
use fw_id_agent.LoginClient.Rounds.{rounds, logout_leaks}
use fw_id_agent.Tests.Data.{krb, settings}

abbrev pub client : Client krb Bool
client = record {
  config = settings;
  keep_alive = pos 300000000000;
  results = 0;
  ccache = some 40;
  krb5conf = some 1;
}

abbrev pub reads : Reads krb
reads = record {
  tested_ccache = some 40;
  tested_conf = some 1;
  used_ccache = some 40;
  used_conf = some 1;
}

abbrev pub response : Response
response = record { status_code = 200; body = readable "{keep-alive: 10}" }

-- A service that accepts and names ten minutes.
abbrev pub friendly : Remote krb
friendly = record {
  request_error = λ url. none;
  krb_error = λ c k. none;
  exchange = λ url timeout. answer response;
  unmarshal = λ b. parsed (pos 10);
}

-- A service that does not answer.
abbrev pub silent : Remote krb
silent = record {
  request_error = λ url. none;
  krb_error = λ c k. none;
  exchange = λ url timeout. no_answer "timeout";
  unmarshal = λ b. unparsable "empty";
}

friendly-Accepts : Accepts client friendly reads response "{keep-alive: 10}"
friendly-Accepts = (
  record {
    has_ccache = refl;
    has_conf = refl;
    no_request_error = refl;
    no_krb_error = refl;
    answered = refl;
  },
  refl,
  refl,
)

login_reports_example :
    (((login client silent reads).sent ≡ LoginState.logging_in ∷ LoginState.logged_in ∷ [])
      ⊎ ((login client silent reads).sent ≡ LoginState.logging_in ∷ LoginState.logged_out ∷ []))
    × (((login client silent reads).sent ≡ LoginState.logging_in ∷ LoginState.logged_in ∷ [])
        ↔ ((r : Response) × (b : String) × Accepts client silent reads r b))
    × ((login client silent reads).opened ≡ (login client silent reads).closed)
login_reports_example = login_reports client silent reads

next_login_example :
    let t = on_timer (new_session client) friendly reads in
    ((((login client friendly reads).sent ≡ LoginState.logging_in ∷ LoginState.logged_out ∷ [])
        ⊎ ((r : Response) × (b : String) × (e : String) × Accepts client friendly reads r b
            × (friendly.unmarshal b ≡ unparsable e)))
      × (t.timer ≡ get_retry_timer settings)
      × (t.client ≡ client))
    ⊎ ((r : Response) × (b : String) × (k : ℤ) × Accepts client friendly reads r b
        × (friendly.unmarshal b ≡ parsed k)
        × (t.timer ≡ t.client.keep_alive)
        × Keeps (new_session client) friendly reads k)
next_login_example = next_login (new_session client) friendly reads

logout_leaks_example :
    let t = on_done (rounds (new_session client) ((friendly, reads) ∷ [])) friendly reads in
    t.opened ≡ t.closed + 1
unfolding rounds on_timer login do_service_request
logout_leaks_example =
    logout_leaks client ((friendly, reads) ∷ []) friendly reads response
      (record {
        has_ccache = refl;
        has_conf = refl;
        no_request_error = refl;
        no_krb_error = refl;
        answered = refl;
      })
      refl
