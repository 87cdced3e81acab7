-- ===== src/Webhook/TimedStore/Order.antt =====
-- The order of the entries by their stamps, and their number: what each operation on the list
-- keeps of the two.
use contextmatrix_runner.Prelude.{
  some, Text, ℕ, zero, suc, ◌+◌, ◌-◌, ◌≤◌, ◌<◌, ◌≡◌, Bool-cases, inl, inr, List, [], ◌∷◌, ◌++◌,
  length, length-drop, drop, All, All-snoc, ltb, nat_beq, arith,
}
use contextmatrix_runner.Webhook.TimedStore.{Element, Store, unlink, evict, sweep}
use contextmatrix_runner.Webhook.TimedStore.Coherent.{find}
use contextmatrix_runner.Webhook.TimedStore.Loops.{young, evict-entries, sweep-entries}

module _ {ℓ} {V : Type ℓ} where
  -- Oldest first, and none later than `now`.
  abbrev pub IsOldestFirst : ℕ → List (Element V) → Type 0
  IsOldestFirst now [] = Unit
  IsOldestFirst now (e ∷ l) = (e.stamp ≤ now) × All (λ f. e.stamp ≤ f.stamp) l × IsOldestFirst now l

  -- The capacity bounds a list where it is positive.
  abbrev pub Fits : ℕ → List (Element V) → Type 0
  Fits capacity l = 0 < capacity → length l ≤ capacity

  module _ {κ} (P : Element V → Type κ) where
    pub All-unlink : (i : ℕ) (l : List (Element V)) → All P l → All P (unlink i l)
    unfolding unlink
    All-unlink i [] h = tt
    All-unlink i (e ∷ l) h = ground (arith, All-unlink i l h.1)

    pub All-drop : (n : ℕ) (l : List (Element V)) → All P l → All P (drop n l)
    All-drop zero l h = h
    All-drop (suc n) [] h = tt
    All-drop (suc n) (e ∷ l) h = All-drop n l h.1

    pub All-young : (ttl now : ℕ) (l : List (Element V)) → All P l → All P (young ttl now l)
    unfolding young
    All-young ttl now [] h = tt
    All-young ttl now (e ∷ l) h = ground (arith, All-young ttl now l h.1)

    pub All-evict :
        (capacity : ℕ) (s : Store V) → All P s.entries → All P (evict capacity s).entries
    All-evict capacity s h =
        rw (evict-entries capacity s)
          (ground (arith, All-drop (length s.entries - capacity) s.entries h))

    pub All-sweep : (ttl now : ℕ) (s : Store V) → All P s.entries → All P (sweep ttl now s).entries
    All-sweep ttl now s h =
        rw (sweep-entries ttl now s) (ground (arith, All-young ttl now s.entries h))

  pub IsOldestFirst-mono :
      (a b : ℕ) (l : List (Element V)) → a ≤ b → IsOldestFirst a l → IsOldestFirst b l
  IsOldestFirst-mono a b [] h o = tt
  IsOldestFirst-mono a b (e ∷ l) h o = (omega arith, o.1, IsOldestFirst-mono a b l h o.2)

  pub IsOldestFirst-unlink :
      (now i : ℕ) (l : List (Element V)) → IsOldestFirst now l → IsOldestFirst now (unlink i l)
  unfolding unlink
  IsOldestFirst-unlink now i [] o = tt
  IsOldestFirst-unlink now i (e ∷ l) o = elim (Bool-cases (nat_beq e.id i)) [
    | inl same ↦ rw same o.2
    | inr other ↦
        rw other
          (o.0, All-unlink (λ f. e.stamp ≤ f.stamp) i l o.1, IsOldestFirst-unlink now i l o.2)
  ]

  IsOldestFirst-drop :
      (now n : ℕ) (l : List (Element V)) → IsOldestFirst now l → IsOldestFirst now (drop n l)
  IsOldestFirst-drop now zero l o = o
  IsOldestFirst-drop now (suc n) [] o = tt
  IsOldestFirst-drop now (suc n) (e ∷ l) o = IsOldestFirst-drop now n l o.2

  IsOldestFirst-young :
      (now ttl t : ℕ) (l : List (Element V))
      → IsOldestFirst now l
      → IsOldestFirst now (young ttl t l)
  unfolding young
  IsOldestFirst-young now ttl t [] o = tt
  IsOldestFirst-young now ttl t (e ∷ l) o = elim (Bool-cases (ltb t (e.stamp + ttl))) [
    | inl new ↦ rw new o
    | inr old ↦ rw old (IsOldestFirst-young now ttl t l o.2)
  ]

  pub IsOldestFirst-append :
      (now : ℕ) (l : List (Element V)) (e : Element V)
      → IsOldestFirst now l
      → e.stamp ≡ now
      → IsOldestFirst now (l ++ e ∷ [])
  IsOldestFirst-append now [] e o h = (omega arith, tt, tt)
  IsOldestFirst-append now (f ∷ l) e o h = (
    o.0,
    All-snoc (λ g. f.stamp ≤ g.stamp) e l o.1 (omega arith),
    IsOldestFirst-append now l e o.2 h,
  )

  pub IsOldestFirst-evict :
      (now capacity : ℕ) (s : Store V)
      → IsOldestFirst now s.entries
      → IsOldestFirst now (evict capacity s).entries
  IsOldestFirst-evict now capacity s o =
      rw (evict-entries capacity s) (elim (Bool-cases (ltb 0 capacity)) [
        | inl bounded ↦
            rw bounded (IsOldestFirst-drop now (length s.entries - capacity) s.entries o)
        | inr free ↦ rw free o
      ])

  pub IsOldestFirst-sweep :
      (now ttl t : ℕ) (s : Store V)
      → IsOldestFirst now s.entries
      → IsOldestFirst now (sweep ttl t s).entries
  IsOldestFirst-sweep now ttl t s o =
      rw (sweep-entries ttl t s) (elim (Bool-cases (nat_beq ttl 0)) [
        | inl never ↦ rw never o
        | inr some_ttl ↦ rw some_ttl (IsOldestFirst-young now ttl t s.entries o)
      ])

  length-young : (ttl now : ℕ) (l : List (Element V)) → length (young ttl now l) ≤ length l
  unfolding young
  length-young ttl now [] = omega arith
  length-young ttl now (e ∷ l) = ground (arith, length-young ttl now l)

  pub evict-Fits : (capacity : ℕ) (s : Store V) → Fits capacity (evict capacity s).entries
  evict-Fits capacity s pos =
      rw (evict-entries capacity s)
        (ground (arith, length-drop (length s.entries - capacity) s.entries))

  pub sweep-Fits :
      (capacity ttl now : ℕ) (s : Store V)
      → Fits capacity s.entries
      → Fits capacity (sweep ttl now s).entries
  sweep-Fits capacity ttl now s f pos =
      rw (sweep-entries ttl now s) (ground (arith, f pos, length-young ttl now s.entries))

  pub length-unlink-le : (i : ℕ) (l : List (Element V)) → length (unlink i l) ≤ length l
  unfolding unlink
  length-unlink-le i [] = omega arith
  length-unlink-le i (e ∷ l) = ground (arith, length-unlink-le i l)

  pub length-unlink :
      (k : Text) (l : List (Element V)) (el : Element V)
      → find k l ≡ some el
      → length (unlink el.id l) + 1 ≡ length l
  unfolding unlink find
  length-unlink k [] el f = absurd (cc)
  length-unlink k (e ∷ l) el f = ground (arith, length-unlink k l el)
