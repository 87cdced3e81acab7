-- ===== src/Webhook/TimedStore.antt =====
-- The structure that both caches of package webhook keep (replay_cache.go and
-- message_dedup_cache.go): a container/list of entries, oldest first, beside a map from each key
-- to its list element. An element is a pointer: `id` tells two elements apart.
pub mod Coherent
pub mod Loops
pub mod Order
pub mod Held
pub mod Swept
use contextmatrix_runner.Prelude.{
  ℕ, zero, suc, ◌+◌, true, false, Option, none, some, List, [], ◌∷◌, ◌++◌, Text, text_beq, ltb,
  nat_beq, length, if◌then◌else◌,
}

pub record Element {ℓ} (V : Type ℓ) : Type ℓ where
  pub id : ℕ
  pub key : Text
  pub stamp : ℕ  -- `seen` or `stored`
  pub value : V

pub record Store {ℓ} (V : Type ℓ) : Type ℓ where
  pub next : ℕ  -- the next fresh pointer
  pub entries : List (Element V)
  pub index : Text → Option (Element V)

module _ {ℓ} {V : Type ℓ} where
  unfoldable pub empty : Store V
  empty = record { next = 0; entries = []; index = λ k. none }

  -- The list without the element at the pointer.
  unfoldable pub unlink : ℕ → List (Element V) → List (Element V)
  unlink i [] = []
  unlink i (e ∷ l) = let rest = unlink i l in if nat_beq e.id i then l else e ∷ rest

  -- `entries.Remove(el)` and `delete(index, key)`
  unfoldable pub remove : Element V → Store V → Store V
  remove el s = record s {
    entries = unlink el.id s.entries;
    index = λ k. if text_beq el.key k then none else s.index k;
  }

  -- `entries.PushBack(...)` and `index[key] = el`
  unfoldable pub push_back : Text → ℕ → V → Store V → Store V
  push_back key stamp value s =
      let el : Element V = record { id = s.next; key = key; stamp = stamp; value = value } in
      record {
        next = suc s.next;
        entries = s.entries ++ el ∷ [];
        index = λ k. if text_beq key k then some el else s.index k;
      }

  -- The element's fields overwritten, and `entries.MoveToBack(el)`: the map holds the same pointer.
  unfoldable pub renew : Element V → ℕ → V → Store V → Store V
  renew el stamp value s =
      let el' : Element V = record el { stamp = stamp; value = value } in
      record s {
        entries = unlink el.id s.entries ++ el' ∷ [];
        index = λ k. if text_beq el.key k then some el' else s.index k;
      }

  -- `for entries.Len() > capacity { ... }`: each round removes the front, if there is one.
  unfoldable pub evict_rounds : ℕ → ℕ → Store V → Store V
  evict_rounds zero capacity s = s
  evict_rounds (suc fuel) capacity s = elim (ltb capacity (length s.entries)) [
    | true ↦ elim s.entries [
      | [] ↦ s
      | oldest ∷ rest ↦ evict_rounds fuel capacity (remove oldest s)
    ]
    | false ↦ s
  ]

  -- The guard of the eviction: there is no bound where the capacity is not positive.
  unfoldable pub evict : ℕ → Store V → Store V
  evict capacity s = if ltb 0 capacity then evict_rounds (length s.entries) capacity s else s

  -- The loop of `sweep`: the front is removed until one is younger than the cutoff, `now - ttl`.
  unfoldable pub sweep_rounds : ℕ → ℕ → ℕ → Store V → Store V
  sweep_rounds zero ttl now s = s
  sweep_rounds (suc fuel) ttl now s = elim s.entries [
    | [] ↦ s
    | front ∷ rest ↦ elim (ltb now (front.stamp + ttl)) [
      | true ↦ s
      | false ↦ sweep_rounds fuel ttl now (remove front s)
    ]
  ]

  -- `sweep` with the guard on a TTL that is not positive.
  unfoldable pub sweep : ℕ → ℕ → Store V → Store V
  sweep ttl now s = if nat_beq ttl 0 then s else sweep_rounds (length s.entries) ttl now s
