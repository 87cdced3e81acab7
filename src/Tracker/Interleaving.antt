-- ===== src/Tracker/Interleaving.antt =====
-- The locked sections of the methods in any order: a goroutine that captured a stdin's pointer under
-- `tracker.mu` works on it at any later time, whatever others did in between.
use contextmatrix_runner.Prelude.{
  ℕ, ◌≡◌, ◌≢◌, inl, inr, Bool, false, ◌||◌, Option, some, List, [], ◌∷◌, Text, nat_beq, nat_beq_iff,
  Option-cases, arith,
}
use contextmatrix_runner.Prelude.Dict.{lookup}
use contextmatrix_runner.Tracker.{
  ContainerInfo, Effect, wrote, closed, cancelled, notified, Tracker, put_stdin, new, write_locked,
  mark_locked, close_locked, close_async, close_writer_async, set_stdin_at, detach_at,
  add_under_limit_at, cancel_at,
}

-- Whether a writer was closed.
abbrev pub was_closed : ℕ → List Effect → Bool
was_closed w [] = false
was_closed w (wrote v b ∷ l) = was_closed w l
was_closed w (closed v ∷ l) = nat_beq v w || was_closed w l
was_closed w (cancelled c ∷ l) = was_closed w l
was_closed w (notified c ∷ l) = was_closed w l

-- No write to a closed writer, and no second close of one.
abbrev pub IsClean : List Effect → Type 0
IsClean [] = Unit
IsClean (wrote w b ∷ l) = (was_closed w l ≡ false) × IsClean l
IsClean (closed w ∷ l) = (was_closed w l ≡ false) × IsClean l
IsClean (cancelled c ∷ l) = IsClean l
IsClean (notified c ∷ l) = IsClean l

-- A writer that no stdin holds and that was not closed.
pub record IsFresh (w : ℕ) (t : Tracker) : Type 0 where
  pub unheld : (a : ℕ) → (t.stdins a).writer ≢ some w
  pub unclosed : was_closed w t.calls ≡ false

-- One locked section. `a` is any pointer, so also one that was captured long ago. The writer of a
-- `SetStdin` is a connection just opened.
pub data Step : Tracker → Tracker → Type 0 where
  admit :
      (t : Tracker) (k : Text) (i : ContainerInfo) (limit : ℕ)
      → Step t (add_under_limit_at k i limit t).0
  attach :
      (t : Tracker) (k : Text) (w : ℕ) (oc : Option ℕ)
      → IsFresh w t
      → Step t (set_stdin_at k (some w) oc t)
  write : (t : Tracker) (a : ℕ) (b : Text) (r : Option ℕ) → Step t (write_locked a b r t).0
  close : (t : Tracker) (a : ℕ) (r : Option ℕ) → Step t (close_locked a r t).0
  mark : (t : Tracker) (a : ℕ) → Step t (mark_locked a t)
  detach : (t : Tracker) (k : Text) → Step t (detach_at k t)
  finish : (t : Tracker) (a : ℕ) → Step t (close_async a t)
  stop : (t : Tracker) (k : Text) → Step t (cancel_at k t).0

pub data Reach (s : Tracker) : Tracker → Type 0 where
  here : Reach s s
  next : {t u : Tracker} → Reach s t → Step t u → Reach s u

-- Each stdin's writer is open and is held by no other stdin, and the calls so far are clean.
pub record IsSafe (t : Tracker) : Type 0 where
  pub open_writers : (a w : ℕ) → (t.stdins a).writer ≡ some w → was_closed w t.calls ≡ false
  pub unshared : (a b w : ℕ) → (t.stdins a).writer ≡ some w → (t.stdins b).writer ≡ some w → a ≡ b
  pub clean : IsClean t.calls

module _ (t : Tracker) (s : IsSafe t) where
  write-IsSafe : (a : ℕ) (b : Text) (r : Option ℕ) → IsSafe (write_locked a b r t).0
  unfolding write_locked
  write-IsSafe a b r = elim (Option-cases (t.stdins a).writer) [
    | inl e ↦ rw (e, write_locked) s
    | inr (w, e) ↦
        rw (e, write_locked)
          record {
            open_writers = s.open_writers;
            unshared = s.unshared;
            clean = (s.open_writers a w e, s.clean);
          }
  ]

  mark-IsSafe : (a : ℕ) → IsSafe (mark_locked a t)
  unfolding mark_locked
  mark-IsSafe a = record {
    open_writers = λ c w h. ground (arith, s.open_writers c w);
    unshared = λ c d w h k. ground (arith, s.unshared c d w);
    clean = s.clean;
  }

  close-IsSafe : (a : ℕ) (r : Option ℕ) → IsSafe (close_locked a r t).0
  unfolding close_locked
  close-IsSafe a r = elim (Option-cases (t.stdins a).writer) [
    | inl e ↦ rw (e, close_locked) s
    | inr (w, e) ↦
        rw (e, close_locked)
          record {
            open_writers = λ c v h.
                ground
                  (arith, s.open_writers c v, s.unshared a c w, nat_beq_iff a c, nat_beq_iff w v);
            unshared = λ c d v h k. ground (arith, s.unshared c d v);
            clean = (s.open_writers a w e, s.clean);
          }
  ]

  finish-IsSafe : (a : ℕ) → IsSafe (close_async a t)
  unfolding close_async
  finish-IsSafe a = elim (Option-cases (t.stdins a).writer) [
    | inl e ↦
        rw (e, close_async)
          record {
            open_writers = λ c v h. ground (arith, s.open_writers c v);
            unshared = λ c d v h k. ground (arith, s.unshared c d v);
            clean = ground (arith, s.clean);
          }
    | inr (w, e) ↦
        rw (e, close_async)
          record {
            open_writers = λ c v h.
                ground
                  (arith, s.open_writers c v, s.unshared a c w, nat_beq_iff a c, nat_beq_iff w v);
            unshared = λ c d v h k. ground (arith, s.unshared c d v);
            clean = ground (arith, s.clean, s.open_writers a w e);
          }
  ]

  detach-IsSafe : (k : Text) → IsSafe (detach_at k t)
  unfolding detach_at
  detach-IsSafe k = record {
    open_writers = λ c v h. ground (arith, s.open_writers c v);
    unshared = λ c d v h k. ground (arith, s.unshared c d v);
    clean = ground (arith, s.clean);
  }

  stop-IsSafe : (k : Text) → IsSafe (cancel_at k t).0
  unfolding cancel_at
  stop-IsSafe k = record {
    open_writers = λ c v h. ground (arith, s.open_writers c v);
    unshared = λ c d v h k. ground (arith, s.unshared c d v);
    clean = ground (arith, s.clean);
  }

  admit-IsSafe :
      (k : Text) (i : ContainerInfo) (limit : ℕ) → IsSafe (add_under_limit_at k i limit t).0
  unfolding add_under_limit_at
  admit-IsSafe k i limit = record {
    open_writers = λ c v h. ground (arith, s.open_writers c v);
    unshared = λ c d v h k. ground (arith, s.unshared c d v);
    clean = ground (arith, s.clean);
  }

  put-IsSafe :
      (a w n : ℕ) (oc : Option ℕ) (m : List (Text × ContainerInfo))
      → IsFresh w t
      → IsSafe (record t {
        containers = m;
        stdins = put_stdin t.stdins a (record { writer = some w; on_close = oc });
        next = n;
      })
  put-IsSafe a w n oc m f = record {
    open_writers = λ c v h. ground (arith, s.open_writers c v, f.unclosed, nat_beq_iff a c);
    unshared = λ c d v h k.
        ground (arith, s.unshared c d v, f.unheld c, f.unheld d, nat_beq_iff a c, nat_beq_iff a d);
    clean = s.clean;
  }

  late-IsSafe : (w : ℕ) (oc : Option ℕ) → IsFresh w t → IsSafe (close_writer_async (some w) oc t)
  unfolding close_writer_async
  late-IsSafe w oc f = record {
    open_writers = λ c v h. ground (arith, s.open_writers c v, f.unheld c, nat_beq_iff w v);
    unshared = λ c d v h k. s.unshared c d v h k;
    clean = ground (arith, s.clean, f.unclosed);
  }

  attach-IsSafe :
      (k : Text) (w : ℕ) (oc : Option ℕ) → IsFresh w t → IsSafe (set_stdin_at k (some w) oc t)
  unfolding set_stdin_at
  attach-IsSafe k w oc f = elim (Option-cases (lookup k t.containers)) [
    | inl e ↦ rw (e, set_stdin_at) (late-IsSafe w oc f)
    | inr (info, e) ↦ elim (Option-cases info.stdin) [
      | inl n ↦ rw (e, n, set_stdin_at) (put-IsSafe t.next w _ oc _ f)
      | inr (a, n) ↦ rw (e, n, set_stdin_at) (put-IsSafe a w _ oc _ f)
    ]
  ]

Step-IsSafe : {t u : Tracker} → IsSafe t → Step t u → IsSafe u
Step-IsSafe s (admit t k i limit) = admit-IsSafe t s k i limit
Step-IsSafe s (attach t k w oc f) = attach-IsSafe t s k w oc f
Step-IsSafe s (write t a b r) = write-IsSafe t s a b r
Step-IsSafe s (close t a r) = close-IsSafe t s a r
Step-IsSafe s (mark t a) = mark-IsSafe t s a
Step-IsSafe s (detach t k) = detach-IsSafe t s k
Step-IsSafe s (finish t a) = finish-IsSafe t s a
Step-IsSafe s (stop t k) = stop-IsSafe t s k

new-IsSafe : IsSafe new
unfolding new
new-IsSafe = record {
  open_writers = λ a w h. ground arith;
  unshared = λ a b w h k. ground arith;
  clean = tt;
}

Reach-IsSafe : {t : Tracker} → Reach new t → IsSafe t
Reach-IsSafe here = new-IsSafe
Reach-IsSafe (next r s) = Step-IsSafe (Reach-IsSafe r) s

-- In whatever order the locked sections of `AddIfUnderLimit`, `SetStdin`, `WriteStdin`, `CloseStdin`,
-- `MarkStdinClosed`, `Remove`, its close goroutine and `Cancel` run from the new tracker, with
-- pointers captured at any earlier time, where each `SetStdin` is given a connection just opened:
-- no writer is written to or closed after it was closed.
pub no_use_after_close : {t : Tracker} → Reach new t → IsClean t.calls
no_use_after_close r = (Reach-IsSafe r).clean
