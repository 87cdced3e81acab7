-- ===== src/Callback/Fallback.antt =====
-- The rate limit of `logBearerFallback` in internal/callback/client.go, with any calls at once.
use contextmatrix_runner.Prelude.{
  ℕ, ◌+◌, ◌-◌, ◌≤◌, ◌≡◌, refl, inl, inr, List, [], ◌∷◌, ltb, nat_beq, nat_beq_iff, Bool-cases,
  if◌then◌else◌, arith,
}
use contextmatrix_runner.Callback.{log_bearer_fallback}

-- The time that is stored, and the times of the logs, the latest first.
pub record Limiter : Type 0 where
  pub stored : ℕ
  pub logs : List ℕ

-- The end of a call at a time, which loaded `last` at any earlier time.
abbrev pub finish_call : ℕ → ℕ → Limiter → Limiter
finish_call now last s =
    let t = log_bearer_fallback now last s.stored in
    record { stored = t.0; logs = if t.1 then now ∷ s.logs else s.logs }

pub data Reach : Limiter → Type 0 where
  start : Reach (record { stored = 0; logs = [] })
  call : {s : Limiter} (now last : ℕ) → Reach s → Reach (finish_call now last s)

-- Each log is at least 300 seconds after the one before it.
abbrev pub AreSpaced : List ℕ → Type 0
AreSpaced [] = Unit
AreSpaced (t ∷ []) = Unit
AreSpaced (t ∷ u ∷ l) = (u + 300 ≤ t) × AreSpaced (u ∷ l)

abbrev IsLatest : ℕ → List ℕ → Type 0
IsLatest stored [] = Unit
IsLatest stored (t ∷ l) = stored ≡ t

cons_spaced :
    (now stored : ℕ) (l : List ℕ)
    → stored + 300 ≤ now
    → IsLatest stored l
    → AreSpaced l
    → AreSpaced (now ∷ l)
cons_spaced now stored [] h s a = tt
cons_spaced now stored (t ∷ l) h s a = (omega (arith, s), a)

call_keeps :
    (s : Limiter) (now last : ℕ)
    → IsLatest s.stored s.logs
    → AreSpaced s.logs
    → IsLatest (finish_call now last s).stored (finish_call now last s).logs
      × AreSpaced (finish_call now last s).logs
unfolding log_bearer_fallback
call_keeps s now last h a = elim (Bool-cases (ltb (now - last) 300)) [
  | inl e ↦ rw e (h, a)
  | inr e ↦ elim (Bool-cases (nat_beq s.stored last)) [
    | inl f ↦
        rw (e, f)
          (refl, cons_spaced now s.stored s.logs (ground (arith, nat_beq_iff s.stored last)) h a)
    | inr f ↦ rw (e, f) (h, a)
  ]
]

kept : {s : Limiter} → Reach s → IsLatest s.stored s.logs × AreSpaced s.logs
kept start = (tt, tt)
kept (call {s} now last r) = let k = kept r in call_keeps s now last k.0 k.1

-- However the calls of `logBearerFallback` overlap and whatever time each of them loaded: two error
-- logs are at least 300 seconds apart.
pub logs_spaced : {s : Limiter} → Reach s → AreSpaced s.logs
logs_spaced r = (kept r).1
