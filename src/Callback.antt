-- ===== src/Callback.antt =====
-- internal/callback/client.go: signed callbacks to ContextMatrix. The network, url.Parse, encoding/json
-- and contextmatrix-protocol's signature are parameters; times are in seconds.
pub mod Retry
pub mod Verify
pub mod Fallback
use contextmatrix_runner.Prelude.{
  ℕ, zero, suc, ◌+◌, ◌-◌, ◌^◌, Bool, true, false, ◌&&◌, ◌||◌, Option, none, some, List, [], ◌∷◌,
  ◌++◌, Text, bytes, text_beq, is_empty, nat_beq, ltb, leb, length, take, if◌then◌else◌,
}

abbrev pub max_retries : ℕ
max_retries = 3

abbrev pub max_detail_bytes : ℕ
max_detail_bytes = 2048

-- `bearerFallbackLogInterval`
abbrev pub bearer_fallback_log_interval : ℕ
bearer_fallback_log_interval = 300

-- `Error`
pub record UpstreamError : Type 0 where
  pub url_short : Text
  pub status_code : ℕ
  pub detail : Text

-- An error: that of the context, an upstream's answer, another with its text, or the last error of all
-- attempts.
pub data CallbackError : Type 0 where
  context_canceled deadline_exceeded : CallbackError
  upstream : UpstreamError → CallbackError
  other : Text → CallbackError
  exhausted : Text → ℕ → CallbackError → CallbackError

pub record Url : Type 0 where
  pub scheme : Text
  pub host : Text
  pub path : Text
  pub request_uri : Text

-- What is sent.
pub record Request : Type 0 where
  pub method : Text
  pub url : Text
  pub body : Text
  pub signature : Option Text
  pub timestamp : Option ℕ
  pub authorization : Option Text

-- What `httpClient.Do` and the read of at most 1 MiB of the body answer.
pub data Answer : Type 0 where
  failed : CallbackError → Answer
  answered : ℕ → Text → Answer

-- url.Parse, url.PathEscape, the signature over the key, method, URI, body and time, and the
-- `autonomous` field of a card's JSON.
pub record Go : Type 0 where
  pub parse : Text → Option Url
  pub path_escape : Text → Text
  pub sign : Text → Text → Text → Text → ℕ → Text
  pub autonomous_field : Text → Option Bool

pub record Client : Type 0 where
  pub context_matrix_url : Text
  pub api_key : Text
  pub use_hmac : Bool

-- `isClientError`
unfoldable pub is_client_error : CallbackError → Bool
is_client_error context_canceled = true
is_client_error deadline_exceeded = true
is_client_error (upstream e) = leb 400 e.status_code && ltb e.status_code 500
is_client_error (other e) = false
is_client_error (exhausted label n e) = is_client_error e

-- What one call of `retryWithBackoff` did: its result, the number of attempts, the seconds that its
-- timers ran to the end, and the retries that were counted.
pub record Run : Type 0 where
  pub result : Option CallbackError
  pub tries : ℕ
  pub slept : ℕ
  pub retries_counted : ℕ

-- `attempt` gives each attempt's error, none on success; `cancelled` gives the context's error where
-- it is done before the timer after an attempt.
module _ (attempt : ℕ → Option CallbackError) (cancelled : ℕ → Option CallbackError)
    (label : Text) where
  -- The loop, with the rounds left and the attempt that is next.
  unfoldable pub retry_from : ℕ → ℕ → CallbackError → Run
  unfolding is_client_error
  retry_from zero i last = record {
    result = some (exhausted label max_retries last);
    tries = 0;
    slept = 0;
    retries_counted = 0;
  }
  retry_from (suc n) i last = elim (attempt i) [
    | none ↦ record { result = none; tries = 1; slept = 0; retries_counted = 0 }
    | some e ↦
        let rest = retry_from n (suc i) e in
        if is_client_error e
        then record { result = some e; tries = 1; slept = 0; retries_counted = 0 }
        else if nat_beq i (max_retries - 1)
        then record {
          result = some (exhausted label max_retries e);
          tries = 1;
          slept = 0;
          retries_counted = 1;
        }
        else elim (cancelled i) [
          | some c ↦ record { result = some c; tries = 1; slept = 0; retries_counted = 1 }
          | none ↦ record {
            result = rest.result;
            tries = 1 + rest.tries;
            slept = 2 ^ i + rest.slept;
            retries_counted = 1 + rest.retries_counted;
          }
        ]
  ]

  -- `retryWithBackoff`
  unfoldable pub retry_with_backoff : Run
  unfolding retry_from
  retry_with_backoff = retry_from max_retries 0 (other [])

-- `endpointLabel`
unfoldable pub endpoint_label : Text → Text
endpoint_label status =
    if text_beq status (bytes "running")
      || text_beq status (bytes "failed")
      || text_beq status (bytes "completed")
    then status
    else bytes "status"

module _ (go : Go) where
  -- `deriveURI`
  unfoldable pub derive_uri : Text → Option Text
  derive_uri raw_url = elim (go.parse raw_url) [ none ↦ none | some u ↦ some u.request_uri ]

  -- `sanitizeURLForError`
  unfoldable pub sanitize_url_for_error : Text → Text
  sanitize_url_for_error full_url = elim (go.parse full_url) [
    | none ↦ bytes "<invalid-url>"
    | some u ↦
        if is_empty u.scheme || is_empty u.host
        then bytes "<invalid-url>"
        else u.scheme ++ bytes "://" ++ u.host ++ u.path
  ]

  -- `newError`
  unfoldable pub new_error : Text → ℕ → Text → UpstreamError
  unfolding sanitize_url_for_error
  new_error full_url status_code body = record {
    url_short = sanitize_url_for_error full_url;
    status_code = status_code;
    detail = if ltb max_detail_bytes (length body) then take max_detail_bytes body else body;
  }

  -- `callbackStatusURI`
  abbrev pub status_url : Client → Text
  status_url c = c.context_matrix_url ++ bytes "/api/runner/status"

  -- `callbackSkillEngagedURI`
  abbrev pub skill_engaged_url : Client → Text
  skill_engaged_url c = c.context_matrix_url ++ bytes "/api/runner/skill-engaged"

  -- `doRequest`, `doSkillEngaged`: the request of one attempt, and its error.
  abbrev pub post_request : Client → Text → Text → Text → ℕ → Request
  post_request c url uri body ts = record {
    method = bytes "POST";
    url = url;
    body = body;
    signature = some (bytes "sha256=" ++ go.sign c.api_key (bytes "POST") uri body ts);
    timestamp = some ts;
    authorization = none;
  }

  unfoldable pub post_error : Text → Answer → Option CallbackError
  unfolding new_error
  post_error url (failed e) = some e
  post_error url (answered status body) =
      if leb 400 status then some (upstream (new_error url status body)) else none

  -- `ReportStatus`, `ReportSkillEngaged` at their URLs. Each attempt signs at its own time.
  unfoldable pub report :
      Text → Text → Text → (ℕ → Answer) → (ℕ → Option CallbackError) → Option CallbackError
  unfolding derive_uri post_error retry_with_backoff
  report url label body answers cancelled = elim (derive_uri url) [
    | none ↦ some (other (bytes "parse url"))
    | some uri ↦ (retry_with_backoff (λ i. post_error url (answers i)) cancelled label).result
  ]

  abbrev pub verify_url : Client → Text → Text → Text
  verify_url c project card_id =
      c.context_matrix_url
      ++ bytes "/api/v1/cards/"
      ++ go.path_escape project
      ++ bytes "/"
      ++ go.path_escape card_id
      ++ bytes "/autonomous"

  -- The request that `doVerifyAutonomous` sends; none is an error of `verifyAutonomousURI`.
  unfoldable pub verify_request : Client → Text → ℕ → Option Request
  unfolding derive_uri
  verify_request c url ts =
      if c.use_hmac
      then elim (derive_uri url) [
        | none ↦ none
        | some uri ↦ some (record {
          method = bytes "GET";
          url = url;
          body = [];
          signature = some (bytes "sha256=" ++ go.sign c.api_key (bytes "GET") uri [] ts);
          timestamp = some ts;
          authorization = none;
        })
      ]
      else some (record {
        method = bytes "GET";
        url = url;
        body = [];
        signature = none;
        timestamp = none;
        authorization = some (bytes "Bearer " ++ c.api_key);
      })

  -- `doVerifyAutonomous`: the flag and the error of one attempt at a time.
  unfoldable pub do_verify_autonomous : Client → Text → ℕ → Answer → Bool × Option CallbackError
  unfolding verify_request new_error
  do_verify_autonomous c url ts answer = elim (verify_request c url ts) [
    | none ↦ (false, some (other (bytes "parse url")))
    | some request ↦ elim answer [
      | failed e ↦ (false, some e)
      | answered status body ↦
          if leb 400 status
          then (false, some (upstream (new_error url status body)))
          else elim (go.autonomous_field body) [
            | none ↦ (false, some (other (bytes "parse verify-autonomous response")))
            | some autonomous ↦ (autonomous, none)
          ]
    ]
  ]

  -- `VerifyAutonomous`: the flag that the last attempt left, and the error. `times` are those of the
  -- attempts.
  unfoldable pub verify_autonomous :
      Client
      → Text
      → Text
      → (ℕ → ℕ)
      → (ℕ → Answer)
      → (ℕ → Option CallbackError)
      → Bool × Option CallbackError
  unfolding do_verify_autonomous retry_with_backoff
  verify_autonomous c project card_id times answers cancelled =
      let url = verify_url c project card_id in
      let one = λ (i : ℕ). do_verify_autonomous c url (times i) (answers i) in
      let run =
        retry_with_backoff (λ i. (one i).1) cancelled (bytes "verify-autonomous callback") in
      elim run.result [ some e ↦ (false, some e) | none ↦ ((one (run.tries - 1)).0, none) ]

-- `logBearerFallback`, from the load of the time of the last log: the time that is stored, and
-- whether this call logs. `stored` is what the compare-and-swap meets.
unfoldable pub log_bearer_fallback : ℕ → ℕ → ℕ → ℕ × Bool
log_bearer_fallback now last stored =
    if ltb (now - last) bearer_fallback_log_interval
    then (stored, false)
    else if nat_beq stored last
    then (now, true)
    else (stored, false)
