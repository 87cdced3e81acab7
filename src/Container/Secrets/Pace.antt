-- ===== src/Container/Secrets/Pace.antt =====
-- How long the loop of internal/container/secrets_refresher.go sleeps.
use contextmatrix_runner.Prelude.{
  ℕ, zero, suc, ◌+◌, ◌-◌, ◌*◌, ◌^◌, ◌≤◌, ◌<◌, ◌≡◌, refl, inl, inr, none, some, List, [], ◌∷◌,
  Bool-cases, ltb, ltb_lt, ltb_ge, arith,
}
use contextmatrix_runner.Container.Secrets.{
  Outcome, failed, minted, Pacing, second, token_expiry_buffer, max_backoff, clamp_backoff_duration,
  clamp_backoff_ceiling, next_wake, next_backoff, run_round, run_rounds, run,
}

-- What a sleep after an outcome may be: between a second and five minutes after an error; an hour with
-- a token that has no expiry; until ten minutes before the expiry, where that is at least a second
-- away; and else between a second and thirty.
abbrev pub IsPaced : Outcome → ℕ → Type 0
IsPaced failed sleep = (second ≤ sleep) × (sleep ≤ max_backoff)
IsPaced (minted now none) sleep = sleep ≡ 3600 * second
IsPaced (minted now (some expires_at)) sleep =
    (now + token_expiry_buffer + second ≤ expires_at
      → now + sleep + token_expiry_buffer ≡ expires_at)
    × (expires_at < now + token_expiry_buffer + second
        → (second ≤ sleep) × (sleep ≤ clamp_backoff_ceiling))

abbrev pub ArePaced : List Outcome → List ℕ → Type 0
ArePaced [] [] = Unit
ArePaced [] (s ∷ sleeps) = ⊥
ArePaced (o ∷ l) [] = ⊥
ArePaced (o ∷ l) (s ∷ sleeps) = IsPaced o s × ArePaced l sleeps

power_pos : (n : ℕ) → 1 ≤ 2 ^ n
power_pos zero = omega arith
power_pos (suc n) = omega (arith, power_pos n)

pub clamp_backoff_duration_bounds :
    (streak : ℕ)
    → (second ≤ clamp_backoff_duration streak)
      × (clamp_backoff_duration streak ≤ clamp_backoff_ceiling)
unfolding clamp_backoff_duration
clamp_backoff_duration_bounds streak = ground (arith, power_pos (streak - 3 - 1))

round_lem :
    (o : Outcome) (p : Pacing)
    → second ≤ p.backoff
    → p.backoff ≤ max_backoff
    → IsPaced o (run_round o p).0
      × (second ≤ (run_round o p).1.backoff)
      × ((run_round o p).1.backoff ≤ max_backoff)
unfolding run_round next_wake next_backoff
round_lem failed p l h = ((l, h), ground arith, ground arith)
round_lem (minted now none) p l h = (refl, omega arith, omega arith)
round_lem (minted now (some expires_at)) p l h =
    elim (Bool-cases (ltb (expires_at - now - 600_000_000_000) second)) [
      | inl e ↦
          let near : expires_at - now - 600_000_000_000 < second = ltb_lt e in
          let b = clamp_backoff_duration_bounds (p.clamped_streak_count + 1) in
          ground (arith, near, b)
      | inr e ↦
          let far : second ≤ expires_at - now - 600_000_000_000 = ltb_ge e in ground (arith, far)
    ]

rounds_lem :
    (l : List Outcome) (p : Pacing)
    → second ≤ p.backoff
    → p.backoff ≤ max_backoff
    → ArePaced l (run_rounds l p)
unfolding run_rounds
rounds_lem [] p lo hi = tt
rounds_lem (o ∷ l) p lo hi =
    let r = round_lem o p lo hi in (r.0, rounds_lem l (run_round o p).1 r.1 r.2)

-- Over any sequence of refreshes, from the start of `Run`, each sleep is between a second and five
-- minutes after an error; is one hour with a token that has no expiry; ends exactly ten minutes before
-- the token's expiry, if that is at least a second away; and else is between a second and thirty
-- seconds. So the loop never runs hot, and no token that had over ten minutes and a second left expires
-- during the sleep that it started.
pub run-ArePaced : (outcomes : List Outcome) → ArePaced outcomes (run outcomes)
unfolding run
run-ArePaced outcomes =
    rounds_lem outcomes (record { backoff = second; clamped_streak_count = 0 }) (omega arith)
      (omega arith)
