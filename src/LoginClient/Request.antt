-- ===== src/LoginClient/Request.antt =====
-- internal/client/client.go: `doServiceRequest`. The HTTP, SPNEGO and Kerberos libraries are
-- parameters: what they answer is a value of `Remote`.
use fw_id_agent.Prelude.{ℕ, ◌==◌, ℤ, String, ◌<>◌, not, Option, none, some, if◌then◌else◌, is_some}
use fw_id_agent.Krbmon.{Krb}
use fw_id_agent.LoginClient.State.{Client}

-- What `io.ReadAll` gives of a response body.
pub data Body : Type 0 where
  readable : String → Body
  unreadable : String → Body

-- `http.Response`: what the source uses of it.
pub record Response : Type 0 where
  pub status_code : ℕ
  pub body : Body

-- What the SPNEGO client's `Do` returns.
pub data Answer : Type 0 where
  answer : Response → Answer
  no_answer : String → Answer

-- What `json.Unmarshal` makes of a login response: the integer of "keep-alive", which is 0 where
-- the field is missing, or an error.
pub data Parsed : Type 0 where
  parsed : ℤ → Parsed
  unparsable : String → Parsed

-- One request's environment: the errors of `http.NewRequest` and of `NewFromCCache`, which is
-- called on pointers, and the answers to a request within a timeout.
pub record Remote (K : Krb) : Type 0 where
  pub request_error : String → Option String
  pub krb_error : Option K.CCache → Option K.Conf → Option String
  pub exchange : String → ℤ → Answer
  pub unmarshal : String → Parsed

-- The four reads of the ccache and the Kerberos configuration during a request. The agent may set
-- them in between.
pub record Reads (K : Krb) : Type 0 where
  pub tested_ccache : Option K.CCache
  pub tested_conf : Option K.Conf
  pub used_ccache : Option K.CCache
  pub used_conf : Option K.Conf

-- The errors that the client returns, in place of their text.
pub data Failure : Type 0 where
  ccache_not_set conf_not_set : String → Failure
  request_failed : String → String → Failure
  krb_failed : String → Failure
  call_failed : String → String → Failure
  status_unread : ℕ → String → Failure
  bad_status : ℕ → String → Failure
  body_unread : String → Failure
  bad_json : String → Failure

-- The number that the text of an error begins with: `TokenError`, `CommunicationError` or
-- `BackendError`; the error of the JSON library has none.
abbrev pub error_code : Failure → Option ℕ
error_code (ccache_not_set api) = some 2
error_code (conf_not_set api) = some 2
error_code (request_failed api e) = some 2
error_code (krb_failed e) = some 2
error_code (call_failed api e) = some 100
error_code (status_unread n e) = some 100
error_code (bad_status n body) = some 100
error_code (body_unread e) = some 101
error_code (bad_json e) = none

-- The two results of `doServiceRequest`; both can be set.
pub record Reply : Type 0 where
  pub response : Option Response
  pub error : Option Failure

-- The test of the status code and what follows.
check_status : Response → Reply
check_status r =
    if not (r.status_code == 200)
    then elim r.body [
      | readable buf ↦ record { response = some r; error = some (bad_status r.status_code buf) }
      | unreadable e ↦ record { response = some r; error = some (status_unread r.status_code e) }
    ]
    else record { response = some r; error = none }

abbrev refused : Failure → Reply
refused e = record { response = none; error = some e }

module _ {K : Krb} where
  -- The part of `doServiceRequest` behind its tests for nil.
  call_service : Remote K → Reads K → String → String → ℤ → Reply
  unfolding check_status
  call_service w reads api url timeout = elim (w.request_error url) [
    | some e ↦ refused (request_failed api e)
    | none ↦ elim (w.krb_error reads.used_ccache reads.used_conf) [
      | some e ↦ refused (krb_failed e)
      | none ↦ elim (w.exchange url timeout) [
        | no_answer e ↦ refused (call_failed api e)
        | answer r ↦ check_status r
      ]
    ]
  ]

module _ {K : Krb} {C : Type 0} where
  -- `doServiceRequest`
  unfoldable pub do_service_request : Client K C → Remote K → Reads K → String → ℤ → Reply
  unfolding call_service
  do_service_request c w reads api timeout =
      if not (is_some reads.tested_ccache)
      then refused (ccache_not_set api)
      else if not (is_some reads.tested_conf)
      then refused (conf_not_set api)
      else call_service w reads api (c.config.service_url <> api) timeout
