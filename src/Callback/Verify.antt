-- ===== src/Callback/Verify.antt =====
-- What `VerifyAutonomous` of internal/callback/client.go accepts.
use contextmatrix_runner.Prelude.{
  ℕ, ◌+◌, ◌-◌, Bool, false, ◌≢◌, leb, Bool-cases, ◌≤◌, ◌<◌, ◌≡◌, refl, sym, ◌∙◌, inl, inr, Option,
  none, some, Text, bytes, Option-cases, arith,
}
use contextmatrix_runner.Callback.{
  CallbackError, Run, Answer, failed, answered, Go, Client, retry_with_backoff, verify_request,
  do_verify_autonomous, verify_autonomous, verify_url,
}
use contextmatrix_runner.Callback.Retry.{final, stopped, spent, retry_with_backoff_lem}

module _ (go : Go) (c : Client) (project card_id : Text) (times : ℕ → ℕ) where
  -- The request of the attempt was made, and its answer has a status below 400 and a body that is
  -- read as the flag.
  pub record IsTold (i : ℕ) (answer : Answer) (autonomous : Bool) : Type 0 where
    pub status : ℕ
    pub body : Text
    pub made : verify_request go c (verify_url go c project card_id) (times i) ≢ none
    pub came : answer ≡ answered status body
    pub in_range : status < 400
    pub read : go.autonomous_field body ≡ some autonomous

  one_attempt :
      (i : ℕ) (answer : Answer)
      → (do_verify_autonomous go c (verify_url go c project card_id) (times i) answer).1 ≡ none
      → IsTold i answer
          (do_verify_autonomous go c (verify_url go c project card_id) (times i) answer).0
  unfolding do_verify_autonomous
  one_attempt i (failed e) k =
      elim (Option-cases (verify_request go c (verify_url go c project card_id) (times i))) [
        | inl q ↦ absurd (ground arith)
        | inr (r, q) ↦ absurd (ground arith)
      ]
  one_attempt i (answered status body) k =
      elim (Option-cases (verify_request go c (verify_url go c project card_id) (times i))) [
        | inl q ↦ absurd (ground arith)
        | inr (r, q) ↦ elim (Bool-cases (leb 400 status)) [
          | inl bad ↦ absurd (ground (arith, k, q, bad))
          | inr good ↦ elim (Option-cases (go.autonomous_field body)) [
            | inl f ↦ absurd (ground (arith, k, q, good, f))
            | inr (b, f) ↦ record {
              status = status;
              body = body;
              made = λ h. absurd (ground (arith, q, h));
              came = refl;
              in_range = ground (arith, good);
              read = ground (arith, q, good, f);
            }
          ]
        ]
      ]

  -- What `VerifyAutonomous` returns: an error, and then no; or no error, and what the answer to the
  -- last request says, which is one of at most three.
  pub data IsVerdict (answers : ℕ → Answer) (tries : ℕ) (r : Bool × Option CallbackError)
      : Type 0 where
    refused : (e : CallbackError) → r ≡ (false, some e) → IsVerdict answers tries r
    told :
        (i : ℕ) (autonomous : Bool)
        → i ≤ 2
        → tries ≡ i + 1
        → IsTold i (answers i) autonomous
        → r ≡ (autonomous, none)
        → IsVerdict answers tries r

  module _ (answers : ℕ → Answer) (cancelled : ℕ → Option CallbackError) where
    -- The attempts that `VerifyAutonomous` hands to its retry loop.
    abbrev pub attempt : ℕ → Option CallbackError
    attempt i =
        (do_verify_autonomous go c (verify_url go c project card_id) (times i) (answers i)).1

    abbrev pub attempts_run : Run
    attempts_run = retry_with_backoff attempt cancelled (bytes "verify-autonomous callback")

    -- `VerifyAutonomous` says no with every error; without an error it says what the body of the
    -- answer to the last of its at most three requests says, a request that was made and whose answer
    -- has a status below 400.
    pub verify_autonomous_lem :
        IsVerdict answers attempts_run.tries
          (verify_autonomous go c project card_id times answers cancelled)
    unfolding verify_autonomous
    verify_autonomous_lem =
        let s = retry_with_backoff_lem attempt cancelled (bytes "verify-autonomous callback") in
        elim (Option-cases attempts_run.result) [
          | inr (e, q) ↦ refused e (rw (verify_autonomous, q) refl)
          | inl q ↦
              let same : attempts_run.tries ≡ s.last + 1 = omega (arith, s.tries) in
              let before : attempts_run.tries - 1 ≡ s.last = omega (arith, s.tries) in
              elim s.ending [
                | final f r ↦
                    told s.last _ s.at_most same (one_attempt s.last (answers s.last) (sym r ∙ q))
                      (rw (verify_autonomous, q, before) refl)
                | stopped e k f w r b ↦ absurd (ground (arith, q, r))
                | spent e f r b ↦ absurd (ground (arith, q, r))
              ]
        ]
