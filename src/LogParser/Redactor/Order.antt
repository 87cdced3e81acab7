-- ===== src/LogParser/Redactor/Order.antt =====
-- The secrets that `NewRedactor` of internal/logparser/parser.go keeps, and their order.
use contextmatrix_runner.Prelude.{
  ℕ, suc, ◌+◌, ◌≤◌, ◌<◌, ◌≡◌, refl, ◌∙◌, inl, inr, true, not, ◌&&◌, List, [], ◌∷◌, Text, text_beq,
  text_beq_iff, text_beq_refl, leb, length, ltb, ltb_lt, ltb_ge, Bool-cases, All, if◌then◌else◌,
  arith,
}
use contextmatrix_runner.LogParser.Redactor.{
  member, filter_secrets, sift, sort_places, reverse_onto, sort_longest_first, new_redactor,
}

-- How often a text is in a list.
abbrev pub occurrences : Text → List Text → ℕ
occurrences q [] = 0
occurrences q (s ∷ l) = if text_beq s q then suc (occurrences q l) else occurrences q l

-- From the first place to the last, no secret is longer than one before it.
abbrev pub IsLongestFirst : List Text → Type 0
IsLongestFirst [] = Unit
IsLongestFirst (s ∷ l) = All (λ t. length t ≤ length s) l × IsLongestFirst l

-- The same from the last place to the first.
abbrev IsShortestFirst : List Text → Type 0
IsShortestFirst [] = Unit
IsShortestFirst (s ∷ l) = All (λ t. length s ≤ length t) l × IsShortestFirst l

occurrences-sift : (q s : Text) (l : List Text) → occurrences q (sift s l) ≡ occurrences q (s ∷ l)
unfolding sift
occurrences-sift q s [] = refl
occurrences-sift q s (b ∷ l) = ground (arith, occurrences-sift q s l)

occurrences-sort_places :
    (q : Text) (sorted l : List Text)
    → occurrences q (sort_places sorted l) ≡ occurrences q sorted + occurrences q l
unfolding sort_places
occurrences-sort_places q sorted [] = omega arith
occurrences-sort_places q sorted (s ∷ l) =
    ground (arith, occurrences-sort_places q (sift s sorted) l, occurrences-sift q s sorted)

occurrences-reverse_onto :
    (q : Text) (tail l : List Text)
    → occurrences q (reverse_onto tail l) ≡ occurrences q tail + occurrences q l
occurrences-reverse_onto q tail [] = omega arith
occurrences-reverse_onto q tail (s ∷ l) = ground (arith, occurrences-reverse_onto q (s ∷ tail) l)

occurrences-sort_longest_first :
    (q : Text) (l : List Text) → occurrences q (sort_longest_first l) ≡ occurrences q l
unfolding sort_longest_first
occurrences-sort_longest_first q l =
    omega (arith, occurrences-reverse_onto q [] (sort_places [] l), occurrences-sort_places q [] l)

sift-All :
    (n : ℕ) (s : Text) (l : List Text)
    → n ≤ length s
    → All (λ t. n ≤ length t) l
    → All (λ t. n ≤ length t) (sift s l)
unfolding sift
sift-All n s [] h a = (h, tt)
sift-All n s (b ∷ l) h a = elim (Bool-cases (ltb (length b) (length s))) [
  | inl e ↦ rw (e, sift) (a.0, sift-All n s l h a.1)
  | inr e ↦ rw (e, sift) (h, a)
]

lower-All :
    (n m : ℕ) (l : List Text) → n ≤ m → All (λ t. m ≤ length t) l → All (λ t. n ≤ length t) l
lower-All n m [] h a = tt
lower-All n m (s ∷ l) h a = (omega (arith, a.0), lower-All n m l h a.1)

sift-IsShortestFirst : (s : Text) (l : List Text) → IsShortestFirst l → IsShortestFirst (sift s l)
unfolding sift
sift-IsShortestFirst s [] o = (tt, tt)
sift-IsShortestFirst s (b ∷ l) o = elim (Bool-cases (ltb (length b) (length s))) [
  | inl e ↦
      let below : length b < length s = ltb_lt e in
      rw (e, sift) (sift-All (length b) s l (omega arith) o.0, sift-IsShortestFirst s l o.1)
  | inr e ↦
      let above : length s ≤ length b = ltb_ge e in
      rw (e, sift) ((above, lower-All (length s) (length b) l above o.0), o)
]

sort_places-IsShortestFirst :
    (sorted l : List Text) → IsShortestFirst sorted → IsShortestFirst (sort_places sorted l)
unfolding sort_places
sort_places-IsShortestFirst sorted [] o = o
sort_places-IsShortestFirst sorted (s ∷ l) o =
    sort_places-IsShortestFirst (sift s sorted) l (sift-IsShortestFirst s sorted o)

both :
    (s : Text) (tail l : List Text)
    → All (λ t. length s ≤ length t) l
    → All (λ t. All (λ u. length u ≤ length t) tail) l
    → All (λ t. All (λ u. length u ≤ length t) (s ∷ tail)) l
both s tail [] h a = tt
both s tail (t ∷ l) h a = ((h.0, a.0), both s tail l h.1 a.1)

nothing_before : (l : List Text) → All (λ (t : Text). All (λ (u : Text). length u ≤ length t) []) l
nothing_before [] = tt
nothing_before (t ∷ l) = (tt, nothing_before l)

-- A list read backwards onto one that is no longer anywhere.
reverse_onto-IsLongestFirst :
    (tail l : List Text)
    → IsLongestFirst tail
    → IsShortestFirst l
    → All (λ t. All (λ u. length u ≤ length t) tail) l
    → IsLongestFirst (reverse_onto tail l)
reverse_onto-IsLongestFirst tail [] o p a = o
reverse_onto-IsLongestFirst tail (s ∷ l) o p a =
    reverse_onto-IsLongestFirst (s ∷ tail) l (a.0, o) p.1 (both s tail l p.0 a.1)

occurrences-filter_secrets :
    (q : Text) (seen l : List Text)
    → occurrences q (filter_secrets seen l)
      ≡ (if (member q l && not (member q seen)) && leb 8 (length q) then 1 else 0)
unfolding filter_secrets member
occurrences-filter_secrets q seen [] = refl
occurrences-filter_secrets q seen (s ∷ l) = elim (Bool-cases (text_beq s q)) [
  | inl e ↦
      let same : s ≡ q = (text_beq_iff s q).0 e in
      rw same (
        ground (
          arith,
          occurrences-filter_secrets q seen l,
          occurrences-filter_secrets q (q ∷ seen) l,
          text_beq_refl q,
        ))
  | inr e ↦
      ground (arith, occurrences-filter_secrets q seen l, occurrences-filter_secrets q (s ∷ seen) l)
]

-- `NewRedactor` keeps each value of at least 8 bytes once and no other, and lists them longest first.
pub new_redactor_lem :
    (secrets : List Text) (q : Text)
    → IsLongestFirst (new_redactor secrets)
      × (occurrences q (new_redactor secrets)
          ≡ (if member q secrets && leb 8 (length q) then 1 else 0))
unfolding new_redactor member sort_longest_first
new_redactor_lem secrets q =
    let kept = filter_secrets [] secrets in
    (
      reverse_onto-IsLongestFirst [] (sort_places [] kept) tt
          (sort_places-IsShortestFirst [] kept tt) (nothing_before (sort_places [] kept)),
      occurrences-sort_longest_first q kept
          ∙ occurrences-filter_secrets q [] secrets
          ∙ ground arith,
    )

-- A text that occurs in a list is a member of it.
pub occurrences-member : (q : Text) (l : List Text) → 0 < occurrences q l → member q l ≡ true
unfolding member
occurrences-member q [] h = absurd (omega arith)
occurrences-member q (s ∷ l) h = ground (arith, occurrences-member q l)
