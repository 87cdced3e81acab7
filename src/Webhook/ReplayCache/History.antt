-- ===== src/Webhook/ReplayCache/History.antt =====
-- internal/webhook/replay_cache.go: what the cache knows, from the calls that it had, and what a sweep
-- makes it forget.
use mathlib.Core.Path.{subst}
use contextmatrix_runner.Prelude.{
  ℕ, ◌+◌, ◌≤◌, ◌<◌, ◌≡◌, refl, ◌⊎◌, Bool, true, false, none, some, List, [], ◌∷◌, Text, Bool-cases,
  Option-cases, inl, inr, is_empty, All, All-snoc, ltb, arith,
}
use contextmatrix_runner.Webhook.TimedStore.{Element, empty, remove, push_back}
use contextmatrix_runner.Webhook.TimedStore.Coherent.{IsCoherent, find, find-key, find-All}
use contextmatrix_runner.Webhook.TimedStore.Order.{All-unlink, All-evict, All-sweep}
use contextmatrix_runner.Webhook.TimedStore.Swept.{find-sweep}
use contextmatrix_runner.Webhook.ReplayCache.{
  ReplayCache, new_replay_cache, inside_window, record_new, seen, sweep_cache, Call, check, tick,
  step, run,
}
use contextmatrix_runner.Webhook.ReplayCache.Replays.{run_ttl}
use contextmatrix_runner.Webhook.ReplayCache.Valid.{
  IsValid, Outcome, ignored, replayed, fresh, expired, seen-Outcome, new_replay_cache-IsValid,
  step-IsValid, run-IsValid, sweep_cache-IsValid, IsTimely,
}

-- A check of the signature at the time stands among the calls.
abbrev pub WasChecked : Text → ℕ → List Call → Type 0
WasChecked sig t [] = ⊥
WasChecked sig t (check s u ∷ calls) = ((s ≡ sig) × (u ≡ t)) ⊎ WasChecked sig t calls
WasChecked sig t (tick u ∷ calls) = WasChecked sig t calls

module _ (P : Text → ℕ → Type 0) where
  abbrev Known : ReplayCache → Type 0
  Known r = All (λ e. P e.key e.stamp) r.store.entries

  record_new-Known :
      (sig : Text) (now : ℕ) (r : ReplayCache) → P sig now → Known r → Known (record_new sig now r)
  unfolding record_new
  record_new-Known sig now r p k =
      All-evict (λ e. P e.key e.stamp) r.capacity (push_back sig now tt r.store)
        (unfold push_back in All-snoc (λ e. P e.key e.stamp) _ r.store.entries k p)

  Outcome-Known :
      (sig : Text) (now : ℕ) (r : ReplayCache) (o : ReplayCache × Bool)
      → Outcome sig now r o
      → P sig now
      → Known r
      → Known o.0
  Outcome-Known sig now r o (ignored x) p k = k
  Outcome-Known sig now r o (replayed e x f i) p k = k
  Outcome-Known sig now r o (fresh x f) p k = record_new-Known sig now r p k
  Outcome-Known sig now r o (expired e x f i) p k =
      record_new-Known sig now (record r { store = remove e r.store }) p
        (unfold remove in All-unlink (λ e. P e.key e.stamp) e.id r.store.entries k)

  run-Known :
      (calls : List Call) (start : ℕ) (r : ReplayCache)
      → IsValid start r
      → IsTimely start calls
      → ((sig : Text) (t : ℕ) → WasChecked sig t calls → P sig t)
      → Known r
      → Known (run calls r)
  unfolding run step sweep_cache
  run-Known [] start r v m p k = k
  run-Known (check sig now ∷ calls) start r v m p k =
      run-Known calls now (step (check sig now) r) (step-IsValid (check sig now) start r v m.0) m.1
        (λ s t w. p s t (inr w))
        (Outcome-Known sig now r (seen sig now r) (seen-Outcome sig now r v.coherent)
          (p sig now (inl (refl, refl))) k)
  run-Known (tick now ∷ calls) start r v m p k =
      run-Known calls now (step (tick now) r) (step-IsValid (tick now) start r v m.0) m.1 p
        (All-sweep (λ e. P e.key e.stamp) r.ttl now r.store k)

-- An answer true rests on an entry inside the window.
seen-find :
    (sig : Text) (now : ℕ) (r : ReplayCache)
    → IsCoherent r.store
    → (seen sig now r).1 ≡ true
    → (e : Element (Unit {0})) × (find sig r.store.entries ≡ some e)
      × (inside_window r.ttl now e.stamp ≡ true)
seen-find sig now r c yes' = go (seen sig now r) (seen-Outcome sig now r c) yes'
  where
    go :
        (o : ReplayCache × Bool)
        → Outcome sig now r o
        → o.1 ≡ true
        → (e : Element (Unit {0})) × (find sig r.store.entries ≡ some e)
          × (inside_window r.ttl now e.stamp ≡ true)
    go o (ignored x) h = absurd (ground arith)
    go o (replayed e x f i) h = (e, f, i)
    go o (fresh x f) h = absurd (ground arith)
    go o (expired e x f i) h = absurd (ground arith)

-- From a new cache and any calls at times that do not go back: a signature that `Seen` answers true
-- for was checked before, at a time that is inside the window.
pub seen_rejects_only_replays :
    (ttl capacity : ℕ) (calls : List Call) (sig : Text) (now : ℕ)
    → IsTimely 0 calls
    → (seen sig now (run calls (new_replay_cache ttl capacity))).1 ≡ true
    → (t : ℕ) × WasChecked sig t calls × (inside_window ttl now t ≡ true)
unfolding new_replay_cache empty
seen_rejects_only_replays ttl capacity calls sig now m h =
    let start = new_replay_cache ttl capacity in
    let r = run calls start in
    let v = new_replay_cache-IsValid ttl capacity in
    let (e, found, inside) = seen-find sig now r (run-IsValid calls 0 start v m).coherent h in
    let known = run-Known (λ s t. WasChecked s t calls) calls 0 start v m (λ s t w. w) tt in
    let P = λ (x : Element (Unit {0})). WasChecked x.key x.stamp calls in
    (
      e.stamp,
      subst (λ s. WasChecked s e.stamp calls) (find-key sig r.store.entries e found)
          (find-All P sig r.store.entries e known found),
      rw (run_ttl calls start) at inside,
    )

-- The answer for a signature that is not empty, read off the list.
pub seen_answer :
    (sig : Text) (now : ℕ) (r : ReplayCache)
    → IsCoherent r.store
    → is_empty sig ≡ false
    → (seen sig now r).1
      ≡ elim (find sig r.store.entries) [ none ↦ false | some e ↦ inside_window r.ttl now e.stamp ]
unfolding seen
seen_answer sig now r c ne =
    rw (ne, c.agrees sig, seen)
      (elim (Option-cases (find sig r.store.entries)) [
        | inl n ↦ rw n
        | inr (e, f) ↦ rw f (ground arith)
      ])

-- In a valid cache with a TTL, what a sweep changes of the answers: after it `Seen` answers true for a
-- signature that is not empty exactly where the signature's entry is younger than the TTL.
pub seen-sweep_cache :
    (sig : Text) (start now : ℕ) (r : ReplayCache)
    → IsValid start r
    → start ≤ now
    → 0 < r.ttl
    → is_empty sig ≡ false
    → (seen sig now (sweep_cache now r)).1
      ≡ elim (find sig r.store.entries) [ none ↦ false | some e ↦ ltb now (e.stamp + r.ttl) ]
unfolding sweep_cache inside_window
seen-sweep_cache sig start now r v le pos ne =
    let swept = sweep_cache now r in
    rw
      (
        seen_answer sig now swept (sweep_cache-IsValid start now r v le).coherent ne,
        find-sweep sig r.ttl start now r.store pos v.coherent.distinct v.ordered,
      )
      (elim (Option-cases (find sig r.store.entries)) [
        | inl n ↦ rw n
        | inr (e, f) ↦ rw f (elim (Bool-cases (ltb now (e.stamp + r.ttl))) [
          | inl new ↦ rw new (ground arith)
          | inr old ↦ rw old
        ])
      ])
