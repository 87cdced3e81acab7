-- ===== src/Webhook/TimedStore/Held.antt =====
-- Where a key stands in the list: with its stamp, and with at most so many entries behind it.
use contextmatrix_runner.Prelude.{
  ℕ, zero, suc, ◌+◌, ◌-◌, ◌≤◌, ◌<◌, ◌≡◌, refl, ◌⊎◌, inl, inr, false, some, List, [], ◌∷◌, ◌++◌,
  Text, text_beq, text_beq_iff, Bool-cases, length, length-append, drop, ltb, nat_beq, arith,
}
use contextmatrix_runner.Webhook.TimedStore.{Element, Store, unlink, evict, sweep}
use contextmatrix_runner.Webhook.TimedStore.Coherent.{IsDistinct, find, find-ne}
use contextmatrix_runner.Webhook.TimedStore.Loops.{young, evict-entries, sweep-entries}
use contextmatrix_runner.Webhook.TimedStore.Order.{length-unlink-le}

module _ {V : Type 0} where
  abbrev pub Holds : Text → ℕ → V → ℕ → List (Element V) → Type 0
  Holds k t v n [] = ⊥
  Holds k t v n (e ∷ l) =
      ((e.key ≡ k) × (e.stamp ≡ t) × (e.value ≡ v) × (length l ≤ n)) ⊎ Holds k t v n l

  pub Holds-mono :
      (k : Text) (t : ℕ) (v : V) (n m : ℕ) (l : List (Element V))
      → n ≤ m
      → Holds k t v n l
      → Holds k t v m l
  Holds-mono k t v n m [] le h = h
  Holds-mono k t v n m (e ∷ l) le (inl h) = inl (h.0, h.1, h.2, omega arith)
  Holds-mono k t v n m (e ∷ l) le (inr h) = inr (Holds-mono k t v n m l le h)

  -- The removal of another key's element.
  pub Holds-unlink :
      (k q : Text) (t : ℕ) (v : V) (n : ℕ) (l : List (Element V)) (el : Element V)
      → IsDistinct l
      → find q l ≡ some el
      → text_beq q k ≡ false
      → Holds k t v n l
      → Holds k t v n (unlink el.id l)
  unfolding find unlink
  Holds-unlink k q t v n [] el d f ne h = h
  Holds-unlink k q t v n (e ∷ l) el d f ne h = ground (
    arith,
    Holds-unlink k q t v n l el d.2,
    find-ne q e.id l el d.0,
    length-unlink-le el.id l,
    text_beq_iff e.key q,
    text_beq_iff q k,
  )

  Holds-drop :
      (k : Text) (t : ℕ) (v : V) (n m : ℕ) (l : List (Element V))
      → m + n < length l
      → Holds k t v n l
      → Holds k t v n (drop m l)
  Holds-drop k t v n zero l lt h = h
  Holds-drop k t v n (suc m) [] lt h = h
  Holds-drop k t v n (suc m) (e ∷ l) lt (inl h) = absurd (omega arith)
  Holds-drop k t v n (suc m) (e ∷ l) lt (inr h) = Holds-drop k t v n m l (omega arith) h

  pub Holds-evict :
      (k : Text) (t : ℕ) (v : V) (n capacity : ℕ) (s : Store V)
      → (0 < capacity → n < capacity)
      → Holds k t v n s.entries
      → Holds k t v n (evict capacity s).entries
  Holds-evict k t v n capacity s room h =
      rw (evict-entries capacity s) (elim (Bool-cases (ltb 0 capacity)) [
        | inr free ↦ rw free h
        | inl bounded ↦ rw bounded (elim (Bool-cases (ltb capacity (length s.entries))) [
          | inl more ↦
              Holds-drop k t v n (length s.entries - capacity) s.entries
                (ground (arith, room (ground arith))) h
          | inr fits ↦
              let none_dropped : length s.entries - capacity ≡ 0 = ground arith in rw none_dropped h
        ])
      ])

  Holds-young :
      (k : Text) (t : ℕ) (v : V) (n ttl now : ℕ) (l : List (Element V))
      → now < t + ttl
      → Holds k t v n l
      → Holds k t v n (young ttl now l)
  unfolding young
  Holds-young k t v n ttl now [] lt h = h
  Holds-young k t v n ttl now (e ∷ l) lt h = ground (arith, Holds-young k t v n ttl now l lt)

  pub Holds-sweep :
      (k : Text) (t : ℕ) (v : V) (n ttl now : ℕ) (s : Store V)
      → (0 < ttl → now < t + ttl)
      → Holds k t v n s.entries
      → Holds k t v n (sweep ttl now s).entries
  Holds-sweep k t v n ttl now s w h =
      rw (sweep-entries ttl now s) (elim (Bool-cases (nat_beq ttl 0)) [
        | inl never ↦ rw never h
        | inr some_ttl ↦ rw some_ttl (Holds-young k t v n ttl now s.entries (w (ground arith)) h)
      ])

  pub Holds-append :
      (k : Text) (t : ℕ) (v : V) (n : ℕ) (l : List (Element V)) (e : Element V)
      → Holds k t v n l
      → Holds k t v (suc n) (l ++ e ∷ [])
  Holds-append k t v n (f ∷ l) e (inl h) =
      inl (h.0, h.1, h.2, omega (arith, length-append l (e ∷ [])))
  Holds-append k t v n (f ∷ l) e (inr h) = inr (Holds-append k t v n l e h)
  Holds-append k t v n [] e h = absurd h

  pub Holds-last :
      (l : List (Element V)) (e : Element V) → Holds e.key e.stamp e.value 0 (l ++ e ∷ [])
  Holds-last [] e = inl (refl, refl, refl, omega arith)
  Holds-last (f ∷ l) e = inr (Holds-last l e)

  -- A key that is held is found, at its stamp.
  pub find-Holds :
      (k : Text) (t : ℕ) (v : V) (n : ℕ) (l : List (Element V))
      → IsDistinct l
      → Holds k t v n l
      → (e : Element V) × (find k l ≡ some e) × (e.stamp ≡ t) × (e.value ≡ v)
  unfolding find
  find-Holds k t v n [] d h = absurd h
  find-Holds k t v n (e ∷ l) d (inl h) = (e, ground (arith, text_beq_iff e.key k), h.1, h.2)
  find-Holds k t v n (e ∷ l) d (inr h) =
      let (f, found, same, val) = find-Holds k t v n l d.2 h in
      (f, ground (arith, text_beq_iff e.key k), same, val)
