-- ===== src/Webhook/DedupCache/Acks.antt =====
-- internal/webhook/message_dedup_cache.go: a stored ack and its later fetches.
use mathlib.Core.Path.{subst}
use native.Mathlib.Nat.{add-zero}
use contextmatrix_runner.Prelude.{
  ℕ, suc, ◌+◌, ◌≤◌, ◌<◌, ◌≡◌, refl, ◌≢◌, ◌∙◌, true, false, some, List, [], ◌∷◌, ◌++◌, Text,
  text_beq, text_beq_iff, Bool-cases, Option-cases, inl, inr, ltb, arith,
}
use contextmatrix_runner.Webhook.TimedStore.{Element, unlink, remove, renew, push_back}
use contextmatrix_runner.Webhook.TimedStore.Coherent.{IsCoherent, find, find-key}
use contextmatrix_runner.Webhook.TimedStore.Held.{
  Holds, Holds-mono, Holds-unlink, Holds-evict, Holds-sweep, Holds-append, Holds-last, find-Holds,
}
use contextmatrix_runner.Webhook.DedupCache.{
  CachedAck, DedupCache, is_stale, get_by_key, put_by_key, Call, fetch, save, tick, time_of, step,
  run,
}
use contextmatrix_runner.Webhook.DedupCache.Valid.{
  IsValid, put_new, put_known, get_new, get_stale, get_served, step-IsValid, run-IsValid, IsTimely,
  time_after,
}

-- How many acks a run stores.
abbrev pub saved : List Call → ℕ
saved [] = 0
saved (fetch key now ∷ calls) = saved calls
saved (save key ack now ∷ calls) = suc (saved calls)
saved (tick now ∷ calls) = saved calls

-- No call stores another ack under the key.
abbrev pub LeavesAlone : Text → List Call → Type 0
LeavesAlone key [] = Unit
LeavesAlone key (fetch k now ∷ calls) = LeavesAlone key calls
LeavesAlone key (save k ack now ∷ calls) = (k ≢ key) × LeavesAlone key calls
LeavesAlone key (tick now ∷ calls) = LeavesAlone key calls

-- `now` is less than the TTL after `t`; there is no end without a TTL.
abbrev pub IsInside : ℕ → ℕ → ℕ → Type 0
IsInside ttl t now = 0 < ttl → now < t + ttl

abbrev pub HasRoom : ℕ → ℕ → Type 0
HasRoom capacity n = 0 < capacity → n < capacity

is_stale-IsInside : (ttl now t : ℕ) → IsInside ttl t now → is_stale ttl now t ≡ false
unfolding is_stale
is_stale-IsInside ttl now t w = elim (Bool-cases (ltb 0 ttl)) [
  | inr never ↦ rw never
  | inl some_ttl ↦ ground (arith, w (ground arith))
]

module _ (k : Text) (t : ℕ) (ack : CachedAck) where
  put-Holds_self :
      (c : DedupCache) → IsCoherent c.store → Holds k t ack 0 (put_by_key k ack t c).store.entries
  put-Holds_self c h = elim (Option-cases (find k c.store.entries)) [
    | inl new ↦ rw (put_new k ack t c h new) (
        Holds-evict k t ack 0 c.capacity (push_back k t ack c.store) (λ p. p)
          (unfold push_back in Holds-last c.store.entries _))
    | inr (e, known) ↦ rw (put_known k ack t c e h known) (
        unfold renew in
        let el : Element CachedAck = record e { stamp = t; value = ack } in
        subst (λ q. Holds q t ack 0 (unlink e.id c.store.entries ++ el ∷ []))
          (find-key k c.store.entries e known) (Holds-last (unlink e.id c.store.entries) el))
  ]

  save-Holds :
      (q : Text) (a : CachedAck) (now n : ℕ) (c : DedupCache)
      → IsCoherent c.store
      → q ≢ k
      → HasRoom c.capacity (suc n)
      → Holds k t ack n c.store.entries
      → Holds k t ack (suc n) (put_by_key q a now c).store.entries
  save-Holds q a now n c h ne room held = elim (Option-cases (find q c.store.entries)) [
    | inl new ↦ rw (put_new q a now c h new) (
        Holds-evict k t ack (suc n) c.capacity (push_back q now a c.store) room
          (unfold push_back in Holds-append k t ack n c.store.entries _ held))
    | inr (e, known) ↦ rw (put_known q a now c e h known) (
        unfold renew in
        Holds-append k t ack n (unlink e.id c.store.entries) _ (
          Holds-unlink k q t ack n c.store.entries e h.distinct known
            (ground (arith, text_beq_iff q k)) held))
  ]

  fetch-Holds :
      (q : Text) (now n : ℕ) (c : DedupCache)
      → IsCoherent c.store
      → IsInside c.ttl t now
      → Holds k t ack n c.store.entries
      → Holds k t ack n (get_by_key q now c).0.store.entries
  fetch-Holds q now n c h w held = elim (Option-cases (find q c.store.entries)) [
    | inl new ↦ rw (get_new q now c h new) held
    | inr (e, f) ↦ elim (Bool-cases (is_stale c.ttl now e.stamp)) [
      | inr young ↦ rw (get_served q now c e h f young) held
      | inl old ↦ rw (get_stale q now c e h f old) (
          unfold remove in
          Holds-unlink k q t ack n c.store.entries e h.distinct f (other e f old) held)
    ]
  ]
    where
      other :
          (e : Element CachedAck)
          → find q c.store.entries ≡ some e
          → is_stale c.ttl now e.stamp ≡ true
          → text_beq q k ≡ false
      other e f old = elim (Bool-cases (text_beq q k)) [
        | inr differs ↦ differs
        | inl same ↦
            let (e', found, stamp, value) = find-Holds k t ack n c.store.entries h.distinct held in
            ground (arith, (text_beq_iff q k).0 same, is_stale-IsInside c.ttl now t w)
      ]

pub step_settings :
    (call : Call) (c : DedupCache)
    → ((step call c).ttl ≡ c.ttl) × ((step call c).capacity ≡ c.capacity)
unfolding step
step_settings (fetch key now) c = ground arith
step_settings (save key ack now) c = ground arith
step_settings (tick now) c = (refl, refl)

run_ttl : (calls : List Call) (c : DedupCache) → (run calls c).ttl ≡ c.ttl
unfolding run
run_ttl [] c = refl
run_ttl (call ∷ calls) c = run_ttl calls (step call c) ∙ (step_settings call c).0

put_settings :
    (k : Text) (ack : CachedAck) (t : ℕ) (c : DedupCache)
    → ((put_by_key k ack t c).ttl ≡ c.ttl) × ((put_by_key k ack t c).capacity ≡ c.capacity)
unfolding step
put_settings k ack t c = step_settings (save k ack t) c

put_by_key-IsValid_at :
    (k : Text) (ack : CachedAck) (start t : ℕ) (c : DedupCache)
    → IsValid start c
    → start ≤ t
    → IsValid t (put_by_key k ack t c)
unfolding step
put_by_key-IsValid_at k ack start t c v le = step-IsValid (save k ack t) start c v le

le-time_after : (now : ℕ) (calls : List Call) → IsTimely now calls → now ≤ time_after now calls
le-time_after now [] t = omega arith
le-time_after now (c ∷ calls) t = omega (arith, t.0, le-time_after (time_of c) calls t.1)

run-Holds :
    (calls : List Call) (k : Text) (start t : ℕ) (ack : CachedAck) (n end : ℕ) (c : DedupCache)
    → IsValid start c
    → IsTimely start calls
    → LeavesAlone k calls
    → time_after start calls ≤ end
    → IsInside c.ttl t end
    → HasRoom c.capacity (saved calls + n)
    → Holds k t ack n c.store.entries
    → Holds k t ack (saved calls + n) (run calls c).store.entries
unfolding run
run-Holds [] k start t ack n end c v m a le w room h =
    Holds-mono k t ack n _ c.store.entries (omega arith) h
run-Holds (fetch q now ∷ calls) k start t ack n end c v m a le w room h =
    let (same_ttl, same_capacity) = step_settings (fetch q now) c in
    let now_le : now ≤ end = omega (arith, le-time_after now calls m.1) in
    run-Holds calls k now t ack n end (step (fetch q now) c)
      (step-IsValid (fetch q now) start c v m.0) m.1 a le (rw same_ttl w) (rw same_capacity room)
      (unfold step in fetch-Holds k t ack q now n c v.coherent (λ p. omega (arith, w p)) h)
run-Holds (save q b now ∷ calls) k start t ack n end c v m a le w room h =
    let (same_ttl, same_capacity) = step_settings (save q b now) c in
    let now_le : now ≤ end = omega (arith, le-time_after now calls m.1) in
    let sum : suc (saved calls) + n ≡ saved calls + suc n = omega arith in
    rw sum (
      run-Holds calls k now t ack (suc n) end (step (save q b now) c)
        (step-IsValid (save q b now) start c v m.0) m.1 a.1 le (rw same_ttl w)
        (rw (same_capacity, ← sum) room)
        (unfold step in
          save-Holds k t ack q b now n c v.coherent a.0 (λ p. omega (arith, room p)) h))
run-Holds (tick now ∷ calls) k start t ack n end c v m a le w room h =
    let now_le : now ≤ end = omega (arith, le-time_after now calls m.1) in
    run-Holds calls k now t ack n end (step (tick now) c) (step-IsValid (tick now) start c v m.0)
      m.1 a le (unfold step in w) (unfold step in room)
      (unfold step in Holds-sweep k t ack n c.ttl now c.store (λ p. omega (arith, w p)) h)

get-Holds :
    (k : Text) (now t : ℕ) (ack : CachedAck) (n : ℕ) (c : DedupCache)
    → IsCoherent c.store
    → IsInside c.ttl t now
    → Holds k t ack n c.store.entries
    → get_by_key k now c ≡ (c, some ack)
get-Holds k now t ack n c h w held =
    let (e, found, stamp, value) = find-Holds k t ack n c.store.entries h.distinct held in
    let young : is_stale c.ttl now e.stamp ≡ false = rw stamp (is_stale-IsInside c.ttl now t w) in
    rw (get_served k now c e h found young, value)

-- From any valid state: after an ack is stored at a time `t`, and after any further fetches, sweeps and
-- stores under other keys, at times that do not go back, a fetch of its key at a time `now` returns
-- that very ack and leaves the cache as it is, provided that `now` is less than the TTL after `t`
-- (where the TTL is positive) and that fewer acks than the capacity were stored in between (where the
-- capacity is positive).
pub get_by_key-put_by_key :
    (k : Text) (ack : CachedAck) (start t now : ℕ) (c : DedupCache) (calls : List Call)
    → IsValid start c
    → start ≤ t
    → IsTimely t calls
    → LeavesAlone k calls
    → time_after t calls ≤ now
    → IsInside c.ttl t now
    → HasRoom c.capacity (saved calls)
    → let c' = run calls (put_by_key k ack t c) in get_by_key k now c' ≡ (c', some ack)
get_by_key-put_by_key k ack start t now c calls v le m a before w room =
    let c1 = put_by_key k ack t c in
    let v1 = put_by_key-IsValid_at k ack start t c v le in
    let (same_ttl, same_capacity) = put_settings k ack t c in
    let w1 : IsInside c1.ttl t now = rw same_ttl w in
    let held =
      run-Holds calls k t t ack 0 now c1 v1 m a before w1 (rw (same_capacity, add-zero) room)
        (put-Holds_self k t ack c v.coherent) in
    get-Holds k now t ack (saved calls + 0) (run calls c1) (run-IsValid calls t c1 v1 m).coherent
      (rw (run_ttl calls c1) w1) held
