-- ===== src/Webhook/DedupCache/Valid.antt =====
-- The invariant of the deduplication cache, under each call.
use contextmatrix_runner.Prelude.{
  ℕ, ◌≤◌, ◌≡◌, refl, true, false, none, some, List, [], ◌∷◌, Text, Bool-cases, Option-cases, inl,
  inr, arith, length-append,
}
use contextmatrix_runner.Webhook.TimedStore.{
  Element, empty, unlink, remove, renew, push_back, evict,
}
use contextmatrix_runner.Webhook.TimedStore.Coherent.{
  IsCoherent, empty-IsCoherent, remove-IsCoherent, renew-IsCoherent, push_back-IsCoherent, find,
}
use contextmatrix_runner.Webhook.TimedStore.Loops.{evict-IsCoherent, sweep-IsCoherent}
use contextmatrix_runner.Webhook.TimedStore.Order.{
  IsOldestFirst, IsOldestFirst-mono, IsOldestFirst-unlink, IsOldestFirst-append,
  IsOldestFirst-evict, IsOldestFirst-sweep, Fits, evict-Fits, sweep-Fits, length-unlink,
  length-unlink-le,
}
use contextmatrix_runner.Webhook.DedupCache.{
  CachedAck, DedupCache, new_dedup_cache, is_stale, get_by_key, put_by_key, sweep_cache, Call,
  fetch, save, tick, time_of, step, run,
}

-- The list and the map agree, the list is oldest first, and the capacity holds.
pub record IsValid (now : ℕ) (c : DedupCache) : Type 0 where
  pub coherent : IsCoherent c.store
  pub ordered : IsOldestFirst now c.store.entries
  pub fits : Fits c.capacity c.store.entries

pub new_dedup_cache-IsValid : (ttl capacity : ℕ) → IsValid 0 (new_dedup_cache ttl capacity)
unfolding new_dedup_cache empty
new_dedup_cache-IsValid ttl capacity = record {
  coherent = empty-IsCoherent;
  ordered = tt;
  fits = λ p. ground arith;
}

IsValid-mono : (then' now : ℕ) (c : DedupCache) → IsValid then' c → then' ≤ now → IsValid now c
IsValid-mono then' now c v le = record {
  coherent = v.coherent;
  ordered = IsOldestFirst-mono then' now c.store.entries le v.ordered;
  fits = v.fits;
}

-- `put` where the key is new, and where it is known.
pub put_new :
    (key : Text) (ack : CachedAck) (now : ℕ) (c : DedupCache)
    → IsCoherent c.store
    → find key c.store.entries ≡ none
    → put_by_key key ack now c
      ≡ record c { store = evict c.capacity (push_back key now ack c.store) }
unfolding put_by_key
put_new key ack now c h f = rw (h.agrees key, put_by_key) (rw f)

pub put_known :
    (key : Text) (ack : CachedAck) (now : ℕ) (c : DedupCache) (e : Element CachedAck)
    → IsCoherent c.store
    → find key c.store.entries ≡ some e
    → put_by_key key ack now c ≡ record c { store = renew e now ack c.store }
unfolding put_by_key
put_known key ack now c e h f = rw (h.agrees key, put_by_key) (rw f)

put_by_key-IsValid :
    (key : Text) (ack : CachedAck) (now : ℕ) (c : DedupCache)
    → IsValid now c
    → IsValid now (put_by_key key ack now c)
put_by_key-IsValid key ack now c v = elim (Option-cases (find key c.store.entries)) [
  | inl new ↦ rw (put_new key ack now c v.coherent new) (record {
    coherent =
        evict-IsCoherent c.capacity _ (push_back-IsCoherent c.store key now ack v.coherent new);
    ordered =
        IsOldestFirst-evict now c.capacity _
          (unfold push_back in IsOldestFirst-append now c.store.entries _ v.ordered refl);
    fits = evict-Fits c.capacity _;
  })
  | inr (e, known) ↦ rw (put_known key ack now c e v.coherent known) (record {
    coherent = renew-IsCoherent c.store key e now ack v.coherent known;
    ordered =
        unfold renew in
        IsOldestFirst-append now (unlink e.id c.store.entries) _
          (IsOldestFirst-unlink now e.id c.store.entries v.ordered) refl;
    fits = λ p.
        unfold renew in
        omega (
          arith,
          v.fits p,
          length-append (unlink e.id c.store.entries) (record e { stamp = now; value = ack } ∷ []),
          length-unlink key c.store.entries e known,
        );
  })
]

-- `get` where the key is new, where its entry is stale, and where it is served.
pub get_new :
    (key : Text) (now : ℕ) (c : DedupCache)
    → IsCoherent c.store
    → find key c.store.entries ≡ none
    → get_by_key key now c ≡ (c, none)
unfolding get_by_key
get_new key now c h f = rw (h.agrees key, get_by_key) (rw f)

pub get_stale :
    (key : Text) (now : ℕ) (c : DedupCache) (e : Element CachedAck)
    → IsCoherent c.store
    → find key c.store.entries ≡ some e
    → is_stale c.ttl now e.stamp ≡ true
    → get_by_key key now c ≡ (record c { store = remove e c.store }, none)
unfolding get_by_key
get_stale key now c e h f old = rw (h.agrees key, get_by_key) (rw f (rw old))

pub get_served :
    (key : Text) (now : ℕ) (c : DedupCache) (e : Element CachedAck)
    → IsCoherent c.store
    → find key c.store.entries ≡ some e
    → is_stale c.ttl now e.stamp ≡ false
    → get_by_key key now c ≡ (c, some e.value)
unfolding get_by_key
get_served key now c e h f young = rw (h.agrees key, get_by_key) (rw f (rw young))

get_by_key-IsValid :
    (key : Text) (now : ℕ) (c : DedupCache) → IsValid now c → IsValid now (get_by_key key now c).0
get_by_key-IsValid key now c v = elim (Option-cases (find key c.store.entries)) [
  | inl new ↦ rw (get_new key now c v.coherent new) v
  | inr (e, f) ↦ elim (Bool-cases (is_stale c.ttl now e.stamp)) [
    | inr young ↦ rw (get_served key now c e v.coherent f young) v
    | inl old ↦ rw (get_stale key now c e v.coherent f old) (record {
      coherent = remove-IsCoherent c.store key e v.coherent f;
      ordered = unfold remove in IsOldestFirst-unlink now e.id c.store.entries v.ordered;
      fits = λ p. unfold remove in omega (arith, v.fits p, length-unlink-le e.id c.store.entries);
    })
  ]
]

sweep_cache-IsValid : (now : ℕ) (c : DedupCache) → IsValid now c → IsValid now (sweep_cache now c)
unfolding sweep_cache
sweep_cache-IsValid now c v = record {
  coherent = sweep-IsCoherent c.ttl now c.store v.coherent;
  ordered = IsOldestFirst-sweep now c.ttl now c.store v.ordered;
  fits = sweep-Fits c.capacity c.ttl now c.store v.fits;
}

pub step-IsValid :
    (call : Call) (then' : ℕ) (c : DedupCache)
    → IsValid then' c
    → then' ≤ time_of call
    → IsValid (time_of call) (step call c)
unfolding step
step-IsValid (fetch key now) then' c v le =
    get_by_key-IsValid key now c (IsValid-mono then' now c v le)
step-IsValid (save key ack now) then' c v le =
    put_by_key-IsValid key ack now c (IsValid-mono then' now c v le)
step-IsValid (tick now) then' c v le = sweep_cache-IsValid now c (IsValid-mono then' now c v le)

-- The clock does not go back between two calls.
abbrev pub IsTimely : ℕ → List Call → Type 0
IsTimely now [] = Unit
IsTimely now (call ∷ calls) = (now ≤ time_of call) × IsTimely (time_of call) calls

abbrev pub time_after : ℕ → List Call → ℕ
time_after now [] = now
time_after now (call ∷ calls) = time_after (time_of call) calls

pub run-IsValid :
    (calls : List Call) (now : ℕ) (c : DedupCache)
    → IsValid now c
    → IsTimely now calls
    → IsValid (time_after now calls) (run calls c)
unfolding run
run-IsValid [] now c v t = v
run-IsValid (call ∷ calls) now c v t =
    run-IsValid calls (time_of call) (step call c) (step-IsValid call now c v t.0) t.1
