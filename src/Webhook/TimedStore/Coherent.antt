-- ===== src/Webhook/TimedStore/Coherent.antt =====
-- The invariant that ties the list to the map, under each operation on both.
use mathlib.Core.Path.{subst}
use contextmatrix_runner.Prelude.{
  ℕ, suc, ◌<◌, ◌≡◌, refl, ◌≢◌, Option, none, some, List, [], ◌∷◌, ◌++◌, Text, text_beq,
  text_beq_iff, text_beq_refl, nat_beq, Bool-cases, inl, inr, All, All-snoc, if◌then◌else◌, arith,
  All-map,
}
use contextmatrix_runner.Webhook.TimedStore.{
  Element, Store, empty, unlink, remove, renew, push_back,
}

module _ {ℓ} {V : Type ℓ} where
  -- The element of the list with the key.
  unfoldable pub find : Text → List (Element V) → Option (Element V)
  find k [] = none
  find k (e ∷ l) = if text_beq e.key k then some e else find k l

  -- No two elements share a pointer or a key.
  abbrev pub IsDistinct : List (Element V) → Type ℓ
  IsDistinct [] = Unit
  IsDistinct (e ∷ l) = All (λ f. f.id ≢ e.id) l × (find e.key l ≡ none) × IsDistinct l

  abbrev pub IsBelow : ℕ → List (Element V) → Type 0
  IsBelow n = All (λ e. e.id < n)

  pub record IsCoherent (s : Store V) : Type ℓ where
    pub agrees : (k : Text) → s.index k ≡ find k s.entries
    pub distinct : IsDistinct s.entries
    pub below : IsBelow s.next s.entries

  pub find-append :
      (k : Text) (l m : List (Element V))
      → find k (l ++ m) ≡ elim (find k l) [ none ↦ find k m | some e ↦ some e ]
  unfolding find
  find-append k [] m = refl
  find-append k (e ∷ l) m = ground (arith, find-append k l m)

  unlink_absent : (i : ℕ) (l : List (Element V)) → All (λ f. f.id ≢ i) l → unlink i l ≡ l
  unfolding unlink
  unlink_absent i [] h = refl
  unlink_absent i (e ∷ l) h = ground (arith, unlink_absent i l h.1)

  pub find-ne :
      (k : Text) (i : ℕ) (l : List (Element V)) (el : Element V)
      → All (λ f. f.id ≢ i) l
      → find k l ≡ some el
      → el.id ≢ i
  unfolding find
  find-ne k i [] el a h = absurd (cc)
  find-ne k i (e ∷ l) el a h = ground (arith, find-ne k i l el a.1)

  pub find-key :
      (k : Text) (l : List (Element V)) (el : Element V) → find k l ≡ some el → el.key ≡ k
  unfolding find
  find-key k [] el h = absurd (cc)
  find-key k (e ∷ l) el h = ground (arith, text_beq_iff e.key k, find-key k l el)

  pub find-All {κ} :
      (P : Element V → Type κ) (k : Text) (l : List (Element V)) (e : Element V)
      → All P l
      → find k l ≡ some e
      → P e
  unfolding find
  find-All P k [] e a h = absurd (cc)
  find-All P k (f ∷ l) e a h = elim (Bool-cases (text_beq f.key k)) [
    | inl same ↦ let first : f ≡ e = ground arith in subst P first a.0
    | inr other ↦ find-All P k l e a.1 (ground arith)
  ]

  All-unlink {κ} :
      (P : Element V → Type κ) (i : ℕ) (l : List (Element V)) → All P l → All P (unlink i l)
  unfolding unlink
  All-unlink P i [] h = tt
  All-unlink P i (e ∷ l) h = ground (arith, All-unlink P i l h.1)

  -- The element that the map gives is the one that `unlink` takes out, and no other goes.
  pub unlink-find :
      (k q : Text) (l : List (Element V)) (el : Element V)
      → IsDistinct l
      → find k l ≡ some el
      → find q (unlink el.id l) ≡ (if text_beq k q then none else find q l)
  unfolding find unlink
  unlink-find k q [] el d h = absurd (cc)
  unlink-find k q (e ∷ l) el d h = ground (
    arith,
    unlink-find k q l el d.2,
    find-ne k e.id l el d.0,
    text_beq_iff e.key k,
    text_beq_iff k q,
    text_beq_iff e.key q,
  )

  find-unlink-none :
      (k : Text) (i : ℕ) (l : List (Element V)) → find k l ≡ none → find k (unlink i l) ≡ none
  unfolding find unlink
  find-unlink-none k i [] h = refl
  find-unlink-none k i (e ∷ l) h = ground (arith, find-unlink-none k i l)

  unlink-IsDistinct : (i : ℕ) (l : List (Element V)) → IsDistinct l → IsDistinct (unlink i l)
  unfolding unlink
  unlink-IsDistinct i [] d = tt
  unlink-IsDistinct i (e ∷ l) d = elim (Bool-cases (nat_beq e.id i)) [
    | inl same ↦ rw same d.2
    | inr other ↦ rw other (
      All-unlink (λ f. f.id ≢ e.id) i l d.0,
      find-unlink-none e.key i l d.1,
      unlink-IsDistinct i l d.2,
    )
  ]

  append-IsDistinct :
      (l : List (Element V)) (e : Element V)
      → IsDistinct l
      → find e.key l ≡ none
      → All (λ f. f.id ≢ e.id) l
      → IsDistinct (l ++ e ∷ [])
  unfolding find
  append-IsDistinct [] e d h b = (tt, refl, tt)
  append-IsDistinct (f ∷ l) e d h b = (
    All-snoc (λ g. g.id ≢ f.id) e l d.0 (omega arith),
    ground (
      arith,
      d.1,
      find-append f.key l (e ∷ []),
      text_beq_iff f.key e.key,
      text_beq_iff e.key f.key,
    ),
    append-IsDistinct l e d.2 (ground arith) b.1,
  )

  unlink_ids : (i : ℕ) (l : List (Element V)) → IsDistinct l → All (λ f. f.id ≢ i) (unlink i l)
  unfolding unlink
  unlink_ids i [] d = tt
  unlink_ids i (e ∷ l) d = elim (Bool-cases (nat_beq e.id i)) [
    | inl same ↦ rw same (let eq : e.id ≡ i = ground arith in rw eq at d.0)
    | inr other ↦ rw other (ground arith, unlink_ids i l d.2)
  ]

  pub empty-IsCoherent : IsCoherent (empty {V = V})
  unfolding empty find
  empty-IsCoherent = record { agrees = λ k. refl; distinct = tt; below = tt }

  pub remove-IsCoherent :
      (s : Store V) (k : Text) (el : Element V)
      → IsCoherent s
      → find k s.entries ≡ some el
      → IsCoherent (remove el s)
  unfolding remove
  remove-IsCoherent s k el c h = record {
    agrees =
        λ q. rw (find-key k s.entries el h, c.agrees q, unlink-find k q s.entries el c.distinct h);
    distinct = unlink-IsDistinct el.id s.entries c.distinct;
    below = All-unlink (λ e. e.id < s.next) el.id s.entries c.below;
  }

  pub push_back-IsCoherent :
      (s : Store V) (k : Text) (t : ℕ) (v : V)
      → IsCoherent s
      → find k s.entries ≡ none
      → IsCoherent (push_back k t v s)
  unfolding push_back find
  push_back-IsCoherent s k t v c h =
      let el : Element V = record { id = s.next; key = k; stamp = t; value = v } in
      record {
        agrees =
            λ q. ground (arith, c.agrees q, find-append q s.entries (el ∷ []), h, text_beq_iff k q);
        distinct = append-IsDistinct s.entries el c.distinct h (
            All-map (λ e. e.id < s.next) (λ e. e.id ≢ s.next) (λ e b. omega arith) s.entries
              c.below);
        below =
            All-snoc (λ e. e.id < suc s.next) el s.entries
              (All-map (λ e. e.id < s.next) _ (λ e b. omega arith) s.entries c.below) (omega arith);
      }

  -- The front of the list is the element that the map gives for its key.
  pub find-front : (e : Element V) (l : List (Element V)) → find e.key (e ∷ l) ≡ some e
  unfolding find
  find-front e l = rw (text_beq_refl e.key)

  pub unlink-front : (e : Element V) (l : List (Element V)) → unlink e.id (e ∷ l) ≡ l
  unfolding unlink
  unlink-front e l = ground arith

  -- After the removal of the element that a key has, the key has none.
  pub find-remove :
      (k : Text) (e : Element V) (s : Store V)
      → IsCoherent s
      → find k s.entries ≡ some e
      → find k (remove e s).entries ≡ none
  unfolding remove
  find-remove k e s c h = rw (unlink-find k k s.entries e c.distinct h, text_beq_refl k)

  -- The element renewed in place and moved to the back.
  pub renew-IsCoherent :
      (s : Store V) (k : Text) (el : Element V) (t : ℕ) (v : V)
      → IsCoherent s
      → find k s.entries ≡ some el
      → IsCoherent (renew el t v s)
  unfolding renew find
  renew-IsCoherent s k el t v c h =
      let el' : Element V = record el { stamp = t; value = v } in
      let own = find-key k s.entries el h in
      let gone : find el.key (unlink el.id s.entries) ≡ none =
        rw own (rw (unlink-find k k s.entries el c.distinct h, text_beq_refl k)) in
      record {
        agrees = λ q. ground (
          arith,
          own,
          c.agrees q,
          find-append q (unlink el.id s.entries) (el' ∷ []),
          unlink-find k q s.entries el c.distinct h,
          text_beq_iff k q,
        );
        distinct =
            append-IsDistinct (unlink el.id s.entries) el'
              (unlink-IsDistinct el.id s.entries c.distinct) gone
              (unlink_ids el.id s.entries c.distinct);
        below =
            All-snoc (λ e. e.id < s.next) el' (unlink el.id s.entries)
              (All-unlink (λ e. e.id < s.next) el.id s.entries c.below)
              (find-All (λ e. e.id < s.next) k s.entries el c.below h);
      }
