-- ===== src/Webhook/TimedStore/Swept.antt =====
-- What a sweep leaves to be found, of a list that is oldest first.
use contextmatrix_runner.Prelude.{
  ℕ, ◌+◌, ◌≤◌, ◌<◌, ◌≡◌, refl, Option, none, some, List, [], ◌∷◌, Text, text_beq_iff, Bool-cases,
  Option-cases, inl, inr, ltb, nat_beq, if◌then◌else◌, arith,
}
use contextmatrix_runner.Webhook.TimedStore.{Element, Store, sweep}
use contextmatrix_runner.Webhook.TimedStore.Coherent.{find-All, IsDistinct, find}
use contextmatrix_runner.Webhook.TimedStore.Loops.{young, sweep-entries}
use contextmatrix_runner.Webhook.TimedStore.Order.{IsOldestFirst}

module _ {ℓ} {V : Type ℓ} where
  -- An entry, if it is younger than the TTL.
  abbrev pub if_young : ℕ → ℕ → Option (Element V) → Option (Element V)
  if_young ttl now none = none
  if_young ttl now (some e) = if ltb now (e.stamp + ttl) then some e else none

  find-young :
      (k : Text) (ttl t now : ℕ) (l : List (Element V))
      → IsDistinct l
      → IsOldestFirst t l
      → find k (young ttl now l) ≡ if_young ttl now (find k l)
  unfolding find young
  find-young k ttl t now [] d o = refl
  find-young k ttl t now (e ∷ l) d o = elim (Bool-cases (ltb now (e.stamp + ttl))) [
    | inl new ↦ elim (Option-cases (find k l)) [
      | inl n ↦ ground arith
      | inr (g, h) ↦ ground (arith, find-All (λ f. e.stamp ≤ f.stamp) k l g o.1 h)
    ]
    | inr old ↦ ground (arith, find-young k ttl t now l d.2 o.2, d.1, text_beq_iff e.key k)
  ]

  -- With a TTL, a sweep leaves of each key the entry that is younger than the TTL, and no other.
  pub find-sweep :
      (k : Text) (ttl t now : ℕ) (s : Store V)
      → 0 < ttl
      → IsDistinct s.entries
      → IsOldestFirst t s.entries
      → find k (sweep ttl now s).entries ≡ if_young ttl now (find k s.entries)
  find-sweep k ttl t now s pos d o =
      rw (sweep-entries ttl now s) (elim (Bool-cases (nat_beq ttl 0)) [
        | inl never ↦ absurd (ground arith)
        | inr some_ttl ↦ rw some_ttl (find-young k ttl t now s.entries d o)
      ])
