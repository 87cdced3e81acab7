-- ===== src/Webhook/ReplayCache/Valid.antt =====
-- The invariant of the replay cache, under each call.
use contextmatrix_runner.Prelude.{
  ℕ, ◌≤◌, ◌≡◌, refl, Bool, true, false, none, some, List, [], ◌∷◌, Text, Bool-cases, Option-cases,
  inl, inr, is_empty, arith,
}
use contextmatrix_runner.Webhook.TimedStore.{Element, empty, remove, push_back}
use contextmatrix_runner.Webhook.TimedStore.Coherent.{
  IsCoherent, empty-IsCoherent, remove-IsCoherent, push_back-IsCoherent, find, find-remove,
}
use contextmatrix_runner.Webhook.TimedStore.Loops.{evict-IsCoherent, sweep-IsCoherent}
use contextmatrix_runner.Webhook.TimedStore.Order.{
  IsOldestFirst, IsOldestFirst-mono, IsOldestFirst-unlink, IsOldestFirst-append,
  IsOldestFirst-evict, IsOldestFirst-sweep, Fits, evict-Fits, sweep-Fits,
}
use contextmatrix_runner.Webhook.ReplayCache.{
  ReplayCache, new_replay_cache, inside_window, record_new, seen, sweep_cache, Call, check, tick,
  time_of, step, run,
}

-- The list and the map agree, the list is oldest first, and the capacity holds.
pub record IsValid (now : ℕ) (r : ReplayCache) : Type 0 where
  pub coherent : IsCoherent r.store
  pub ordered : IsOldestFirst now r.store.entries
  pub fits : Fits r.capacity r.store.entries

pub new_replay_cache-IsValid : (ttl capacity : ℕ) → IsValid 0 (new_replay_cache ttl capacity)
unfolding new_replay_cache empty
new_replay_cache-IsValid ttl capacity = record {
  coherent = empty-IsCoherent;
  ordered = tt;
  fits = λ p. ground arith;
}

IsValid-mono : (then' now : ℕ) (r : ReplayCache) → IsValid then' r → then' ≤ now → IsValid now r
IsValid-mono then' now r v le = record {
  coherent = v.coherent;
  ordered = IsOldestFirst-mono then' now r.store.entries le v.ordered;
  fits = v.fits;
}

record_new-IsValid :
    (sig : Text) (now : ℕ) (r : ReplayCache)
    → IsCoherent r.store
    → find sig r.store.entries ≡ none
    → IsOldestFirst now r.store.entries
    → IsValid now (record_new sig now r)
unfolding record_new
record_new-IsValid sig now r c h o = record {
  coherent = evict-IsCoherent r.capacity _ (push_back-IsCoherent r.store sig now tt c h);
  ordered =
      IsOldestFirst-evict now r.capacity _
        (unfold push_back in IsOldestFirst-append now r.store.entries _ o refl);
  fits = evict-Fits r.capacity _;
}

-- The four ways through `Seen`, in terms of the list.
pub data Outcome (sig : Text) (now : ℕ) (r : ReplayCache) : ReplayCache × Bool → Type 0 where
  ignored : is_empty sig ≡ true → Outcome sig now r (r, false)
  replayed :
      (e : Element (Unit {0}))
      → is_empty sig ≡ false
      → find sig r.store.entries ≡ some e
      → inside_window r.ttl now e.stamp ≡ true
      → Outcome sig now r (r, true)
  fresh :
      is_empty sig ≡ false
      → find sig r.store.entries ≡ none
      → Outcome sig now r (record_new sig now r, false)
  expired :
      (e : Element (Unit {0}))
      → is_empty sig ≡ false
      → find sig r.store.entries ≡ some e
      → inside_window r.ttl now e.stamp ≡ false
      → Outcome sig now r (record_new sig now (record r { store = remove e r.store }), false)

pub seen-Outcome :
    (sig : Text) (now : ℕ) (r : ReplayCache)
    → IsCoherent r.store
    → Outcome sig now r (seen sig now r)
unfolding seen
seen-Outcome sig now r c = elim (Bool-cases (is_empty sig)) [
  | inl e ↦ rw e (ignored e)
  | inr ne ↦ rw ne (
      rw (c.agrees sig, seen)
        (elim (Option-cases (find sig r.store.entries)) [
          | inl h ↦ rw h (fresh ne h)
          | inr (e, h) ↦ rw h (elim (Bool-cases (inside_window r.ttl now e.stamp)) [
            | inl w ↦ rw w (replayed e ne h w)
            | inr w ↦ rw w (expired e ne h w)
          ])
        ]))
]

Outcome-IsValid :
    (sig : Text) (then' now : ℕ) (r : ReplayCache) (o : ReplayCache × Bool)
    → IsValid then' r
    → then' ≤ now
    → Outcome sig now r o
    → IsValid now o.0
Outcome-IsValid sig then' now r o v le (ignored x) = IsValid-mono then' now r v le
Outcome-IsValid sig then' now r o v le (replayed e x h w) = IsValid-mono then' now r v le
Outcome-IsValid sig then' now r o v le (fresh x h) =
    record_new-IsValid sig now r v.coherent h
      (IsOldestFirst-mono then' now r.store.entries le v.ordered)
Outcome-IsValid sig then' now r o v le (expired e x h w) =
    record_new-IsValid sig now (record r { store = remove e r.store })
      (remove-IsCoherent r.store sig e v.coherent h) (find-remove sig e r.store v.coherent h)
      (unfold remove in
        IsOldestFirst-unlink now e.id r.store.entries
          (IsOldestFirst-mono then' now r.store.entries le v.ordered))

-- `Seen` keeps the invariant, on each of its paths.
pub seen-IsValid :
    (sig : Text) (then' now : ℕ) (r : ReplayCache)
    → IsValid then' r
    → then' ≤ now
    → IsValid now (seen sig now r).0
seen-IsValid sig then' now r v le =
    Outcome-IsValid sig then' now r (seen sig now r) v le (seen-Outcome sig now r v.coherent)

pub sweep_cache-IsValid :
    (then' now : ℕ) (r : ReplayCache)
    → IsValid then' r
    → then' ≤ now
    → IsValid now (sweep_cache now r)
unfolding sweep_cache
sweep_cache-IsValid then' now r v le = record {
  coherent = sweep-IsCoherent r.ttl now r.store v.coherent;
  ordered =
      IsOldestFirst-sweep now r.ttl now r.store
        (IsOldestFirst-mono then' now r.store.entries le v.ordered);
  fits = sweep-Fits r.capacity r.ttl now r.store v.fits;
}

pub step-IsValid :
    (c : Call) (then' : ℕ) (r : ReplayCache)
    → IsValid then' r
    → then' ≤ time_of c
    → IsValid (time_of c) (step c r)
unfolding step
step-IsValid (check sig now) then' r v le = seen-IsValid sig then' now r v le
step-IsValid (tick now) then' r v le = sweep_cache-IsValid then' now r v le

-- The clock does not go back between two calls (Go's readings are monotonic).
abbrev pub IsTimely : ℕ → List Call → Type 0
IsTimely now [] = Unit
IsTimely now (c ∷ calls) = (now ≤ time_of c) × IsTimely (time_of c) calls

-- The time after a run that starts at `now`.
abbrev pub time_after : ℕ → List Call → ℕ
time_after now [] = now
time_after now (c ∷ calls) = time_after (time_of c) calls

-- Any checks and sweeps, at times that do not go back, keep a replay cache valid: the list and the map
-- hold the same entries, no signature twice, the list is oldest first, and the capacity holds.
pub run-IsValid :
    (calls : List Call) (now : ℕ) (r : ReplayCache)
    → IsValid now r
    → IsTimely now calls
    → IsValid (time_after now calls) (run calls r)
unfolding run
run-IsValid [] now r v t = v
run-IsValid (c ∷ calls) now r v t =
    run-IsValid calls (time_of c) (step c r) (step-IsValid c now r v t.0) t.1
