-- ===== src/Broadcast/Drops.antt =====
-- The accounting of dropped entries in internal/logbroadcast/broadcaster.go.
use contextmatrix_runner.Prelude.{
  ℕ, suc, ◌+◌, ◌%◌, ◌≤◌, ◌≡◌, refl, ap, inl, inr, Bool, true, false, List, [], ◌∷◌, Bool-cases,
  nat_beq, nat_beq_iff, Option, none, some, length, ltb, arith,
}
use contextmatrix_runner.Broadcast.{
  Broadcaster, LogEntry, Event, offered, dropped, observed, shut, warned, received, registered,
  shut_channel, detach, subscribe_internal, try_send, close, new_broadcaster,
}
use contextmatrix_runner.Broadcast.Moves.{
  Books, fresh_books, with_broadcaster, send_once, Move, tried, added, told, swapped, logged,
  panicked, subscribed, detached, finished, taken, stopped, Moves, here, next,
}

-- The drops that the observer was told, those that were counted, and the sum of the summary lines.
abbrev pub drops : List Event → ℕ
drops [] = 0
drops (offered a e ok ∷ l) = drops l
drops (dropped a e ∷ l) = suc (drops l)
drops (observed ∷ l) = drops l
drops (shut a ∷ l) = drops l
drops (warned n ∷ l) = drops l
drops (received a e ∷ l) = drops l

abbrev pub observations : List Event → ℕ
observations [] = 0
observations (offered a e ok ∷ l) = observations l
observations (dropped a e ∷ l) = observations l
observations (observed ∷ l) = suc (observations l)
observations (shut a ∷ l) = observations l
observations (warned n ∷ l) = observations l
observations (received a e ∷ l) = observations l

abbrev pub reported : List Event → ℕ
reported [] = 0
reported (offered a e ok ∷ l) = reported l
reported (dropped a e ∷ l) = reported l
reported (observed ∷ l) = reported l
reported (shut a ∷ l) = reported l
reported (warned n ∷ l) = n + reported l
reported (received a e ∷ l) = reported l

-- Sends that a full buffer refused.
abbrev pub refusals : List Event → ℕ
refusals [] = 0
refusals (offered a e true ∷ l) = refusals l
refusals (offered a e false ∷ l) = suc (refusals l)
refusals (dropped a e ∷ l) = refusals l
refusals (observed ∷ l) = refusals l
refusals (shut a ∷ l) = refusals l
refusals (warned n ∷ l) = refusals l
refusals (received a e ∷ l) = refusals l

abbrev pub held_count : Option ℕ → ℕ
held_count none = 0
held_count (some n) = n

pub record IsCounted (w : Books) : Type 0 where
  pub has_logger : w.broadcaster.has_logger ≡ true
  pub counted :
      (reported w.broadcaster.events + held_count w.held + w.lost + w.broadcaster.drop_count)
        % 18_446_744_073_709_551_616
      ≡ drops w.broadcaster.events % 18_446_744_073_709_551_616
  pub told :
      w.broadcaster.has_observer ≡ true
      → observations w.broadcaster.events + w.to_observe ≡ drops w.broadcaster.events
  pub refused : refusals w.broadcaster.events ≤ drops w.broadcaster.events + w.to_add

-- A broadcaster that differs in nothing that is accounted.
same-IsCounted :
    (w : Books) (b : Broadcaster)
    → b.has_logger ≡ w.broadcaster.has_logger
    → b.has_observer ≡ w.broadcaster.has_observer
    → b.drop_count ≡ w.broadcaster.drop_count
    → reported b.events ≡ reported w.broadcaster.events
    → observations b.events ≡ observations w.broadcaster.events
    → drops b.events ≡ drops w.broadcaster.events
    → refusals b.events ≡ refusals w.broadcaster.events
    → IsCounted w
    → IsCounted (with_broadcaster w b)
same-IsCounted w b l o c r n d f s = record {
  has_logger = rw l s.has_logger;
  counted = rw (r, c, d) s.counted;
  told = rw (o, n, d) s.told;
  refused = rw (f, d) s.refused;
}

send_once-IsCounted :
    (w : Books) (a : ℕ) (entry : LogEntry) → IsCounted w → IsCounted (send_once a entry w)
unfolding try_send
send_once-IsCounted w a entry s = elim (Bool-cases (w.broadcaster.heap a).closed) [
  | inl e ↦ rw e record {
    has_logger = s.has_logger;
    counted = s.counted;
    told = s.told;
    refused = omega (arith, s.refused);
  }
  | inr e ↦ elim (Bool-cases (ltb (length (w.broadcaster.heap a).buffer) 256)) [
    | inl f ↦
        rw (e, f)
          record {
            has_logger = s.has_logger;
            counted = s.counted;
            told = s.told;
            refused = s.refused;
          }
    | inr f ↦
        rw (e, f)
          record {
            has_logger = s.has_logger;
            counted = s.counted;
            told = s.told;
            refused = omega (arith, s.refused);
          }
  ]
]

Move-IsCounted : {t u : Books} → IsCounted t → Move t u → IsCounted u
unfolding close shut_channel subscribe_internal detach
Move-IsCounted s (tried w a entry) = send_once-IsCounted w a entry s
Move-IsCounted s (added w n a entry e) = record {
  has_logger = s.has_logger;
  counted = omega (arith, s.counted);
  told = λ h. omega (arith, s.told h);
  refused = omega (arith, s.refused, e);
}
Move-IsCounted s (told w n e) = elim (Bool-cases w.broadcaster.has_observer) [
  | inl o ↦ rw o record {
    has_logger = s.has_logger;
    counted = s.counted;
    told = λ h. omega (arith, s.told o, e);
    refused = s.refused;
  }
  | inr o ↦ rw o record {
    has_logger = s.has_logger;
    counted = s.counted;
    told = λ h. absurd (ground (arith, h, o));
    refused = s.refused;
  }
]
Move-IsCounted s (swapped w e) =
    let none_held : held_count w.held ≡ 0 = ap held_count e in
    record {
      has_logger = s.has_logger;
      counted = omega (arith, s.counted, none_held);
      told = s.told;
      refused = s.refused;
    }
Move-IsCounted s (logged w n e) =
    let holds : held_count w.held ≡ n = ap held_count e in
    elim (Bool-cases (nat_beq n 0)) [
      | inl z ↦
          let zero_held : n ≡ 0 = (nat_beq_iff n 0).0 z in
          rw z record {
            has_logger = s.has_logger;
            counted = omega (arith, s.counted, holds, zero_held);
            told = s.told;
            refused = s.refused;
          }
      | inr z ↦
          rw (z, s.has_logger)
            record {
              has_logger = refl;
              counted = omega (arith, s.counted, holds);
              told = s.told;
              refused = s.refused;
            }
    ]
Move-IsCounted s (panicked w n e) =
    let holds : held_count w.held ≡ n = ap held_count e in
    record {
      has_logger = s.has_logger;
      counted = omega (arith, s.counted, holds);
      told = s.told;
      refused = s.refused;
    }
Move-IsCounted s (subscribed w p i) = elim (Bool-cases w.broadcaster.closed) [
  | inl e ↦ rw e (same-IsCounted w _ refl refl refl refl refl refl refl s)
  | inr e ↦ rw e (same-IsCounted w _ refl refl refl refl refl refl refl s)
]
Move-IsCounted s (detached w a) = elim (Bool-cases (registered a w.broadcaster.subscribers)) [
  | inl e ↦ rw e (same-IsCounted w _ refl refl refl refl refl refl refl s)
  | inr e ↦ rw e s
]
Move-IsCounted s (finished w a) = same-IsCounted w _ refl refl refl refl refl refl refl s
Move-IsCounted s (taken w a entry rest) = same-IsCounted w _ refl refl refl refl refl refl refl s
Move-IsCounted s (stopped w) = same-IsCounted w _ refl refl refl refl refl refl refl s

fresh_books-IsCounted : (has_observer : Bool) → IsCounted (fresh_books has_observer)
unfolding new_broadcaster
fresh_books-IsCounted has_observer = record {
  has_logger = refl;
  counted = refl;
  told = λ h. refl;
  refused = omega arith;
}

-- In whatever order the steps run from a new broadcaster that has a logger, each atomic step by itself:
-- the counts of the summary lines written so far, the count that the reporter holds, those that a
-- panic of the logger lost, and the pending count add up to the number of drops counted, modulo 2^64;
-- an observer was told each of these but those whose goroutine is still to tell it; and of the sends
-- that a full buffer refused none is missing but those still to be added.
pub accounts_hold :
    (has_observer : Bool) {w : Books} → Moves (fresh_books has_observer) w → IsCounted w
accounts_hold has_observer here = fresh_books-IsCounted has_observer
accounts_hold has_observer (next r m) = Move-IsCounted (accounts_hold has_observer r) m
