-- ===== src/Callback/Retry.antt =====
-- How `retryWithBackoff` of internal/callback/client.go ends.
use contextmatrix_runner.Prelude.{
  ℕ, zero, suc, ◌+◌, ◌^◌, ◌≤◌, ◌<◌, ◌≡◌, refl, sym, ◌⊎◌, inl, inr, true, false, Option, none, some,
  [], Text, Bool-cases, Option-cases, nat_beq, arith,
}
use contextmatrix_runner.Callback.{
  CallbackError, other, exhausted, Run, is_client_error, retry_from, retry_with_backoff,
}

module _ (attempt : ℕ → Option CallbackError) (cancelled : ℕ → Option CallbackError)
    (label : Text) where
  -- An attempt with an error that is retried.
  abbrev pub IsRetryable : ℕ → CallbackError → Type 0
  IsRetryable i e = (attempt i ≡ some e) × (is_client_error e ≡ false)

  -- Each attempt before this one failed with such an error and was followed by its whole backoff.
  abbrev pub AreRetried : ℕ → Type 0
  AreRetried zero = Unit
  AreRetried (suc i) = ((e : CallbackError) × IsRetryable i e × (cancelled i ≡ none)) × AreRetried i

  -- An attempt that succeeds, or whose error is one of the client or the context.
  abbrev pub IsFinal : ℕ → Type 0
  IsFinal i =
      (attempt i ≡ none) ⊎ ((e : CallbackError) × (attempt i ≡ some e) × (is_client_error e ≡ true))

  -- The ways to end at an attempt.
  pub data Ending (i : ℕ) (result : Option CallbackError) : Type 0 where
    final : IsFinal i → result ≡ attempt i → Ending i result
    stopped :
        (e c : CallbackError)
        → IsRetryable i e
        → cancelled i ≡ some c
        → result ≡ some c
        → i < 2
        → Ending i result
    spent :
        (e : CallbackError)
        → IsRetryable i e
        → result ≡ some (exhausted label 3 e)
        → i ≡ 2
        → Ending i result

  nat_cases : (n : ℕ) → (n ≡ 0) ⊎ (0 < n)
  nat_cases zero = inl refl
  nat_cases (suc n) = inr (omega arith)

  data Round (n i : ℕ) (last : CallbackError) : Type 0 where
    success :
        attempt i ≡ none
        → retry_from attempt cancelled label (suc n) i last
          ≡ record { result = none; tries = 1; slept = 0; retries_counted = 0 }
        → Round n i last
    refused :
        (e : CallbackError)
        → attempt i ≡ some e
        → is_client_error e ≡ true
        → retry_from attempt cancelled label (suc n) i last
          ≡ record { result = some e; tries = 1; slept = 0; retries_counted = 0 }
        → Round n i last
    again : (e : CallbackError) → IsRetryable i e → Round n i last

  Round-cases : (n i : ℕ) (last : CallbackError) → Round n i last
  unfolding retry_from
  Round-cases n i last = elim (Option-cases (attempt i)) [
    | inl a ↦ success a (rw (a, retry_from) refl)
    | inr (e, a) ↦ elim (Bool-cases (is_client_error e)) [
      | inl c ↦ refused e a c (rw (a, retry_from, c) refl)
      | inr c ↦ again e (a, c)
    ]
  ]

  last_round :
      (n : ℕ) (e last : CallbackError)
      → IsRetryable 2 e
      → retry_from attempt cancelled label (suc n) 2 last
        ≡ record { result = some (exhausted label 3 e); tries = 1; slept = 0; retries_counted = 1 }
  unfolding retry_from
  last_round n e last f = rw (f.0, retry_from, f.1) refl

  stopped_round :
      (n i : ℕ) (e c last : CallbackError)
      → i < 2
      → IsRetryable i e
      → cancelled i ≡ some c
      → retry_from attempt cancelled label (suc n) i last
        ≡ record { result = some c; tries = 1; slept = 0; retries_counted = 1 }
  unfolding retry_from
  stopped_round n i e c last h f s =
      let early : nat_beq i 2 ≡ false = ground arith in rw (f.0, retry_from, f.1, early, s) refl

  next_round :
      (n i : ℕ) (e last : CallbackError)
      → i < 2
      → IsRetryable i e
      → cancelled i ≡ none
      → retry_from attempt cancelled label (suc n) i last ≡ (
          let rest = retry_from attempt cancelled label n (suc i) e in
          record {
            result = rest.result;
            tries = 1 + rest.tries;
            slept = 2 ^ i + rest.slept;
            retries_counted = 1 + rest.retries_counted;
          })
  unfolding retry_from
  next_round n i e last h f s =
      let early : nat_beq i 2 ≡ false = ground arith in rw (f.0, retry_from, f.1, early, s) refl

  pub record IsSettled (i : ℕ) (r : Run) : Type 0 where
    pub last : ℕ
    pub from : i ≤ last
    pub at_most : last ≤ 2
    pub retried : AreRetried i → AreRetried last
    pub ending : Ending last r.result
    pub tries : r.tries + i ≡ last + 1
    pub slept : r.slept + 2 ^ i ≡ 2 ^ last

  twice : (i : ℕ) → i < 2 → 2 ^ suc i ≡ 2 ^ i + 2 ^ i
  twice zero h = refl
  twice (suc zero) h = refl
  twice (suc (suc i)) h = absurd (omega arith)

  IsSettled-here :
      (i : ℕ) (r : Run) → i ≤ 2 → Ending i r.result → r.tries ≡ 1 → r.slept ≡ 0 → IsSettled i r
  IsSettled-here i r h e t s = record {
    last = i;
    from = omega arith;
    at_most = h;
    retried = λ a. a;
    ending = e;
    tries = omega arith;
    slept = omega (arith, s);
  }

  retry_from-IsSettled :
      (n i : ℕ) (last : CallbackError)
      → i + n ≡ 3
      → 0 < n
      → IsSettled i (retry_from attempt cancelled label n i last)
  retry_from-IsSettled zero i last e h = absurd (omega arith)
  retry_from-IsSettled (suc n) i last e h = elim (Round-cases n i last) [
    | success a q ↦ rw q (IsSettled-here i _ (omega arith) (final (inl a) (sym a)) refl refl)
    | refused err a c q ↦
        rw q (IsSettled-here i _ (omega arith) (final (inr (err, a, c)) (sym a)) refl refl)
    | again err f ↦ elim (nat_cases n) [
      | inl z ↦
          let two : i ≡ 2 = omega arith in
          rw (z, two)
            (rw (last_round 0 err last (rw (← two) f))
              (IsSettled-here 2 _ (omega arith) (spent err (rw (← two) f) refl refl) refl refl))
      | inr more ↦ elim (Option-cases (cancelled i)) [
        | inr (c, s) ↦
            rw (stopped_round n i err c last (omega arith) f s)
              (IsSettled-here i _ (omega arith) (stopped err c f s refl (omega arith)) refl refl)
        | inl s ↦
            let rest = retry_from-IsSettled n (suc i) err (omega arith) more in
            rw (next_round n i err last (omega arith) f s) record {
              last = rest.last;
              from = omega (arith, rest.from);
              at_most = rest.at_most;
              retried = λ a. rest.retried ((err, f, s), a);
              ending = rest.ending;
              tries = omega (arith, rest.tries);
              slept = omega (arith, rest.slept, twice i (omega arith));
            }
      ]
    ]
  ]

  -- `retryWithBackoff` ends after at most three attempts, at the first of these: an attempt that
  -- succeeds or fails with an error of the client or the context, and the result is that attempt's; a
  -- cancellation during the backoff after the first or the second attempt, and the result is the
  -- context's error; the third attempt, and the result is its error, wrapped. It made one attempt for
  -- each round and slept one second after the first and two after the second that it went on from.
  pub retry_with_backoff_lem : IsSettled 0 (retry_with_backoff attempt cancelled label)
  unfolding retry_with_backoff
  retry_with_backoff_lem = retry_from-IsSettled 3 0 (other []) refl (omega arith)
