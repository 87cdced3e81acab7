-- ===== src/Container/DnsCache/Warm.antt =====
-- internal/container/dns_cache.go: how long an answer is served.
use mathlib.Core.Path.{subst}
use contextmatrix_runner.Prelude.{
  ℕ, suc, ◌+◌, ◌≤◌, ◌<◌, ◌≡◌, ◌≢◌, false, some, List, [], ◌∷◌, ◌++◌, Text, length, All, text_beq,
  text_beq_iff, Bool-cases, Option-cases, inl, inr, ltb, arith,
}
use contextmatrix_runner.Webhook.TimedStore.{Element, unlink, remove, renew, push_back}
use contextmatrix_runner.Webhook.TimedStore.Coherent.{IsCoherent, find, find-key}
use contextmatrix_runner.Webhook.TimedStore.Held.{
  Holds, Holds-mono, Holds-unlink, Holds-evict, Holds-append, Holds-last, find-Holds,
}
use contextmatrix_runner.Container.DnsCache.{DnsCache, get, put, Call, fetch, save, step, run}
use contextmatrix_runner.Container.DnsCache.Sound.{
  put_new, put_known, get_new, get_expired, get_served, put-IsCoherent, step-IsCoherent,
  run-IsCoherent, step_capacity,
}

-- The call stores no answer for the host, and comes no later than the given time if it looks the host up.
abbrev pub Spares : Text → ℕ → Call → Type 0
Spares k expires (fetch h now) = h ≡ k → now ≤ expires
Spares k expires (save h addrs now) = h ≢ k

abbrev pub HasRoom : ℕ → ℕ → Type 0
HasRoom capacity n = 0 < capacity → n < capacity

module _ (k : Text) (t : ℕ) (v : List Text) where
  -- The element of a key, renewed.
  renew-Holds :
      (e : Element (List Text)) (c : DnsCache)
      → find k c.store.entries ≡ some e
      → Holds k t v 0 (renew e t v c.store).entries
  renew-Holds e c known =
      unfold renew in
      let el : Element (List Text) = record e { stamp = t; value = v } in
      subst (λ i. Holds i t v 0 (unlink e.id c.store.entries ++ el ∷ []))
        (find-key k c.store.entries e known) (Holds-last (unlink e.id c.store.entries) el)

  -- Another key's element, renewed.
  other-Holds :
      (q : Text) (e : Element (List Text)) (s n : ℕ) (w : List Text) (c : DnsCache)
      → IsCoherent c.store
      → find q c.store.entries ≡ some e
      → text_beq q k ≡ false
      → Holds k t v n c.store.entries
      → Holds k t v (suc n) (renew e s w c.store).entries
  other-Holds q e s n w c i f ne held =
      unfold renew in
      Holds-append k t v n (unlink e.id c.store.entries) _
        (Holds-unlink k q t v n c.store.entries e i.distinct f ne held)

  found :
      (q : Text) (e : Element (List Text)) (n : ℕ) (c : DnsCache)
      → IsCoherent c.store
      → Holds k t v n c.store.entries
      → find q c.store.entries ≡ some e
      → q ≡ k
      → (e.stamp ≡ t) × (e.value ≡ v)
  found q e n c i held f same =
      let (e', own, stamp, value) = find-Holds k t v n c.store.entries i.distinct held in
      ground (arith, same, f, own, stamp, value)

  save-Holds :
      (q : Text) (a : List Text) (now n : ℕ) (c : DnsCache)
      → IsCoherent c.store
      → q ≢ k
      → HasRoom c.capacity (suc n)
      → Holds k t v n c.store.entries
      → Holds k t v (suc n) (put q a now c).store.entries
  save-Holds q a now n c i ne room held = elim (Option-cases (find q c.store.entries)) [
    | inl new ↦ rw (put_new q a now c i new) (
        Holds-evict k t v (suc n) c.capacity (push_back q (now + c.ttl) a c.store) room
          (unfold push_back in Holds-append k t v n c.store.entries _ held))
    | inr (e, known) ↦
        rw (put_known q a now c e i known)
          (other-Holds q e (now + c.ttl) n a c i known (ground (arith, text_beq_iff q k)) held)
  ]

  fetch-Holds :
      (q : Text) (now n : ℕ) (c : DnsCache)
      → IsCoherent c.store
      → (q ≡ k → now ≤ t)
      → Holds k t v n c.store.entries
      → Holds k t v (suc n) (get q now c).0.store.entries
  unfolding renew
  fetch-Holds q now n c i w held = elim (Option-cases (find q c.store.entries)) [
    | inl new ↦
        rw (get_new q now c i new) (Holds-mono k t v n (suc n) c.store.entries (omega arith) held)
    | inr (e, f) ↦ elim (Bool-cases (text_beq q k)) [
      | inl beq ↦
          let same = (text_beq_iff q k).0 beq in
          let (stamp, value) = found q e n c i held f same in
          let young : ltb e.stamp now ≡ false = ground (arith, w same, stamp) in
          rw (get_served q now c e i f young, stamp, value)
            (Holds-mono k t v 0 (suc n) _ (omega arith)
              (renew-Holds e c (subst (λ j. find j c.store.entries ≡ some e) same f)))
      | inr ne ↦ elim (Bool-cases (ltb e.stamp now)) [
        | inl old ↦ rw (get_expired q now c e i f old) (
            unfold remove in
            Holds-mono k t v n (suc n) _ (omega arith)
              (Holds-unlink k q t v n c.store.entries e i.distinct f ne held))
        | inr young ↦
            rw (get_served q now c e i f young) (other-Holds q e e.stamp n e.value c i f ne held)
      ]
    ]
  ]

  run-Holds :
      (calls : List Call) (n : ℕ) (c : DnsCache)
      → IsCoherent c.store
      → All (Spares k t) calls
      → HasRoom c.capacity (length calls + n)
      → Holds k t v n c.store.entries
      → Holds k t v (length calls + n) (run calls c).store.entries
  unfolding run step
  run-Holds [] n c i a room held = Holds-mono k t v n _ c.store.entries (omega arith) held
  run-Holds (fetch q now ∷ calls) n c i a room held =
      let sum : length calls + suc n ≡ suc (length calls) + n = omega arith in
      rw (← sum) (
        run-Holds calls (suc n) (step (fetch q now) c) (step-IsCoherent (fetch q now) c i) a.1
          (rw (step_capacity (fetch q now) c, sum) room) (fetch-Holds q now n c i a.0 held))
  run-Holds (save q b now ∷ calls) n c i a room held =
      let sum : length calls + suc n ≡ suc (length calls) + n = omega arith in
      rw (← sum) (
        run-Holds calls (suc n) (step (save q b now) c) (step-IsCoherent (save q b now) c i) a.1
          (rw (step_capacity (save q b now) c, sum) room)
          (save-Holds q b now n c i a.0 (λ p. omega (arith, room p)) held))

put-Holds :
    (k : Text) (t : ℕ) (v : List Text) (c : DnsCache)
    → IsCoherent c.store
    → Holds k (t + c.ttl) v 0 (put k v t c).store.entries
put-Holds k t v c i = elim (Option-cases (find k c.store.entries)) [
  | inl new ↦ rw (put_new k v t c i new) (
      Holds-evict k (t + c.ttl) v 0 c.capacity (push_back k (t + c.ttl) v c.store) (λ p. p)
        (unfold push_back in Holds-last c.store.entries _))
  | inr (e, known) ↦ rw (put_known k v t c e i known) (renew-Holds k (t + c.ttl) v e c known)
]

-- From any state in which the list and the map agree: after an answer is put for a host at a time `t`,
-- and after any calls, fewer than the capacity where that is positive, of which none puts another answer
-- for the host and none looks the host up more than the TTL after `t`, a lookup at most the TTL after
-- `t` returns that very answer.
pub get-put :
    (k : Text) (v : List Text) (t now : ℕ) (c : DnsCache) (calls : List Call)
    → IsCoherent c.store
    → All (Spares k (t + c.ttl)) calls
    → HasRoom c.capacity (length calls)
    → now ≤ t + c.ttl
    → (get k now (run calls (put k v t c))).1 ≡ some v
get-put k v t now c calls i a room w =
    let c1 = put k v t c in
    let i1 = put-IsCoherent k v t c i in
    let same : (put k v t c).capacity ≡ c.capacity = unfold step in step_capacity (save k v t) c in
    let held =
      run-Holds k (t + c.ttl) v calls 0 c1 i1 a (λ p. omega (arith, room (rw (← same) p), same))
        (put-Holds k t v c i) in
    let c2 = run calls c1 in
    let i2 = run-IsCoherent calls c1 i1 in
    let (e, f, stamp, value) =
      find-Holds k (t + c.ttl) v (length calls + 0) c2.store.entries i2.distinct held in
    let young : ltb e.stamp now ≡ false = ground (arith, w, stamp) in
    rw (get_served k now c2 e i2 f young) (ground (arith, value))
