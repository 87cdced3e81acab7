-- ===== src/Tests/Callbacks.antt =====
-- internal/callback/client.go at concrete data.
use contextmatrix_runner.Prelude.{
  ℕ, ◌≡◌, refl, true, Option, none, some, bytes, nat_beq, if◌then◌else◌,
}
use contextmatrix_runner.Callback.{
  CallbackError, other, Answer, answered, failed, Go, Client, is_client_error, retry_from,
  retry_with_backoff, verify_autonomous, verify_request, derive_uri, do_verify_autonomous,
}
use contextmatrix_runner.Callback.Retry.{IsSettled, retry_with_backoff_lem}
use contextmatrix_runner.Callback.Verify.{IsVerdict, attempts_run, verify_autonomous_lem}

-- The first attempt meets a reset, the second succeeds.
abbrev attempt : ℕ → Option CallbackError
attempt i = if nat_beq i 0 then some (other (bytes "reset")) else none

second_test :
    retry_with_backoff attempt (λ i. none) (bytes "callback")
    ≡ record { result = none; tries = 2; slept = 1; retries_counted = 1 }
unfolding retry_with_backoff retry_from is_client_error
second_test = refl

retry_with_backoff_lem_example :
    IsSettled attempt
      (λ i. none)
      (bytes "callback")
      0
      (retry_with_backoff attempt (λ i. none) (bytes "callback"))
retry_with_backoff_lem_example = retry_with_backoff_lem attempt (λ i. none) (bytes "callback")

abbrev go : Go
go = record {
  parse = λ s. some (record {
    scheme = bytes "http";
    host = bytes "cm";
    path = bytes "/";
    request_uri = bytes "/";
  });
  path_escape = λ s. s;
  sign = λ key method uri body ts. bytes "sig";
  autonomous_field = λ body. some true;
}

abbrev client : Client
client = record { context_matrix_url = bytes "http://cm"; api_key = bytes "k"; use_hmac = true }

abbrev answers : ℕ → Answer
answers i = if nat_beq i 0 then failed (other (bytes "reset")) else answered 200 (bytes "{}")

abbrev verified : Option CallbackError
verified = (verify_autonomous go client (bytes "p") (bytes "A-1") (λ i. i) answers (λ i. none)).1

says_yes :
    (verify_autonomous go client (bytes "p") (bytes "A-1") (λ i. i) answers (λ i. none)).0 ≡ true
unfolding verify_autonomous retry_with_backoff retry_from is_client_error do_verify_autonomous
    verify_request derive_uri
says_yes = refl

verify_autonomous_lem_example :
    IsVerdict go client
      (bytes "p")
      (bytes "A-1")
      (λ i. i)
      answers
      (attempts_run go client (bytes "p") (bytes "A-1") (λ i. i) answers (λ i. none)).tries
      (verify_autonomous go client (bytes "p") (bytes "A-1") (λ i. i) answers (λ i. none))
verify_autonomous_lem_example =
    verify_autonomous_lem go client (bytes "p") (bytes "A-1") (λ i. i) answers (λ i. none)
