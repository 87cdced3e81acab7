-- ===== src/Webhook/TimedStore/Loops.antt =====
-- What the two loops leave of the list, and how many rounds they take.
use contextmatrix_runner.Prelude.{
  ℕ, zero, suc, ◌+◌, ◌-◌, ◌≤◌, ◌<◌, ◌≡◌, refl, List, [], ◌∷◌, length, drop, List-cases, ltb,
  nat_beq, Bool-cases, inl, inr, if◌then◌else◌, arith,
}
use contextmatrix_runner.Webhook.TimedStore.{
  Element, Store, remove, evict_rounds, evict, sweep_rounds, sweep,
}
use contextmatrix_runner.Webhook.TimedStore.Coherent.{
  IsCoherent, remove-IsCoherent, find-front, unlink-front,
}

module _ {ℓ} {V : Type ℓ} where
  -- The entries from the first that is still inside the window.
  unfoldable pub young : ℕ → ℕ → List (Element V) → List (Element V)
  young ttl now [] = []
  young ttl now (e ∷ l) =
      let rest = young ttl now l in if ltb now (e.stamp + ttl) then e ∷ l else rest

  remove-front :
      (s : Store V) (e : Element V) (l : List (Element V))
      → s.entries ≡ e ∷ l
      → (remove e s).entries ≡ l
  unfolding remove
  remove-front s e l h = rw (h, unlink-front e l)

  remove-front_IsCoherent :
      (s : Store V) (e : Element V) (l : List (Element V))
      → IsCoherent s
      → s.entries ≡ e ∷ l
      → IsCoherent (remove e s)
  remove-front_IsCoherent s e l c h = remove-IsCoherent s e.key e c (rw h (find-front e l))

  evict_rounds-step :
      (fuel capacity : ℕ) (s : Store V) (e : Element V) (l : List (Element V))
      → s.entries ≡ e ∷ l
      → capacity < length s.entries
      → evict_rounds (suc fuel) capacity s ≡ evict_rounds fuel capacity (remove e s)
  unfolding evict_rounds
  evict_rounds-step fuel capacity s e l h lt = ground arith

  evict_rounds-stop :
      (fuel capacity : ℕ) (s : Store V)
      → length s.entries ≤ capacity
      → evict_rounds fuel capacity s ≡ s
  unfolding evict_rounds
  evict_rounds-stop zero capacity s h = refl
  evict_rounds-stop (suc fuel) capacity s h = ground arith

  sweep_rounds-step :
      (fuel ttl now : ℕ) (s : Store V) (e : Element V) (l : List (Element V))
      → s.entries ≡ e ∷ l
      → e.stamp + ttl ≤ now
      → sweep_rounds (suc fuel) ttl now s ≡ sweep_rounds fuel ttl now (remove e s)
  unfolding sweep_rounds
  sweep_rounds-step fuel ttl now s e l h old = ground arith

  sweep_rounds-stop :
      (fuel ttl now : ℕ) (s : Store V) (e : Element V) (l : List (Element V))
      → s.entries ≡ e ∷ l
      → now < e.stamp + ttl
      → sweep_rounds fuel ttl now s ≡ s
  unfolding sweep_rounds
  sweep_rounds-stop zero ttl now s e l h new = refl
  sweep_rounds-stop (suc fuel) ttl now s e l h new = ground arith

  sweep_rounds-nil :
      (fuel ttl now : ℕ) (s : Store V) → s.entries ≡ [] → sweep_rounds fuel ttl now s ≡ s
  unfolding sweep_rounds
  sweep_rounds-nil zero ttl now s h = refl
  sweep_rounds-nil (suc fuel) ttl now s h = ground arith

  -- What each removal of the front keeps, both loops keep.
  module _ {κ} (P : Store V → Type κ)
      (keep : (s : Store V) (e : Element V) (l : List (Element V))
        → s.entries ≡ e ∷ l
        → P s
        → P (remove e s)) where
    evict_rounds_inv : (fuel capacity : ℕ) (s : Store V) → P s → P (evict_rounds fuel capacity s)
    evict_rounds_inv zero capacity s p = unfold evict_rounds in p
    evict_rounds_inv (suc fuel) capacity s p = elim (List-cases s.entries) [
      | inl h ↦ rw (evict_rounds-stop (suc fuel) capacity s (rw h (omega arith))) p
      | inr (e, l, h) ↦ elim (Bool-cases (ltb capacity (length s.entries))) [
        | inl more ↦
            rw (evict_rounds-step fuel capacity s e l h (ground arith))
              (evict_rounds_inv fuel capacity (remove e s) (keep s e l h p))
        | inr fits ↦ rw (evict_rounds-stop (suc fuel) capacity s (ground arith)) p
      ]
    ]

    sweep_rounds_inv : (fuel ttl now : ℕ) (s : Store V) → P s → P (sweep_rounds fuel ttl now s)
    sweep_rounds_inv zero ttl now s p = unfold sweep_rounds in p
    sweep_rounds_inv (suc fuel) ttl now s p = elim (List-cases s.entries) [
      | inl h ↦ rw (sweep_rounds-nil (suc fuel) ttl now s h) p
      | inr (e, l, h) ↦ elim (Bool-cases (ltb now (e.stamp + ttl))) [
        | inl new ↦ rw (sweep_rounds-stop (suc fuel) ttl now s e l h (ground arith)) p
        | inr old ↦
            rw (sweep_rounds-step fuel ttl now s e l h (ground arith))
              (sweep_rounds_inv fuel ttl now (remove e s) (keep s e l h p))
      ]
    ]

    pub evict_inv : (capacity : ℕ) (s : Store V) → P s → P (evict capacity s)
    unfolding evict
    evict_inv capacity s p = elim (Bool-cases (ltb 0 capacity)) [
      | inl bounded ↦ rw bounded (evict_rounds_inv (length s.entries) capacity s p)
      | inr free ↦ rw free p
    ]

    pub sweep_inv : (ttl now : ℕ) (s : Store V) → P s → P (sweep ttl now s)
    unfolding sweep
    sweep_inv ttl now s p = elim (Bool-cases (nat_beq ttl 0)) [
      | inl never ↦ rw never p
      | inr some_ttl ↦ rw some_ttl (sweep_rounds_inv (length s.entries) ttl now s p)
    ]

  pub evict-IsCoherent : (capacity : ℕ) (s : Store V) → IsCoherent s → IsCoherent (evict capacity s)
  evict-IsCoherent = evict_inv IsCoherent (λ s e l h c. remove-front_IsCoherent s e l c h)

  pub sweep-IsCoherent : (ttl now : ℕ) (s : Store V) → IsCoherent s → IsCoherent (sweep ttl now s)
  sweep-IsCoherent = sweep_inv IsCoherent (λ s e l h c. remove-front_IsCoherent s e l c h)

  evict_rounds-entries :
      (l : List (Element V)) (capacity : ℕ) (s : Store V)
      → s.entries ≡ l
      → (evict_rounds (length l) capacity s).entries ≡ drop (length l - capacity) l
  evict_rounds-entries [] capacity s h =
      rw (evict_rounds-stop 0 capacity s (rw h (omega arith)), h) (ground arith)
  evict_rounds-entries (e ∷ l) capacity s h = elim (Bool-cases (ltb capacity (length (e ∷ l)))) [
    | inl more ↦
        rw
          (
            evict_rounds-step (length l) capacity s e l h (rw h (ground arith)),
            evict_rounds-entries l capacity (remove e s) (remove-front s e l h),
          )
          (let n : suc (length l) - capacity ≡ suc (length l - capacity) = ground arith in rw n)
    | inr fits ↦
        rw (evict_rounds-stop (length (e ∷ l)) capacity s (rw h (ground arith)), h)
          (let n : suc (length l) - capacity ≡ 0 = ground arith in rw n)
  ]

  sweep_rounds-entries :
      (l : List (Element V)) (ttl now : ℕ) (s : Store V)
      → s.entries ≡ l
      → (sweep_rounds (length l) ttl now s).entries ≡ young ttl now l
  unfolding sweep_rounds young
  sweep_rounds-entries [] ttl now s h = h
  sweep_rounds-entries (e ∷ l) ttl now s h =
      ground (arith, sweep_rounds-entries l ttl now (remove e s) (remove-front s e l h))

  -- With a bound, eviction keeps the newest entries, as many as fit; with none, it keeps all.
  pub evict-entries :
      (capacity : ℕ) (s : Store V)
      → (evict capacity s).entries
        ≡ (if ltb 0 capacity then drop (length s.entries - capacity) s.entries else s.entries)
  unfolding evict
  evict-entries capacity s = ground (arith, evict_rounds-entries s.entries capacity s refl)

  pub sweep-entries :
      (ttl now : ℕ) (s : Store V)
      → (sweep ttl now s).entries ≡ (if nat_beq ttl 0 then s.entries else young ttl now s.entries)
  unfolding sweep
  sweep-entries ttl now s = ground (arith, sweep_rounds-entries s.entries ttl now s refl)
