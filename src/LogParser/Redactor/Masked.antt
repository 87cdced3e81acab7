-- ===== src/LogParser/Redactor/Masked.antt =====
-- `Redactor.Redact` of internal/logparser/parser.go, and the literal secrets that share no part with
-- its marker.
use contextmatrix_runner.Prelude.{
  ℕ, zero, suc, ◌-◌, ◌≤◌, ◌<◌, ◌≡◌, refl, inl, inr, Bool, true, false, ◌||◌, List, [], ◌∷◌, ◌++◌,
  Text, bytes, text_beq, text_beq_iff, has_prefix, contains_byte, is_empty, length, Bool-cases,
  arith,
}
use contextmatrix_runner.LogParser.Redactor.Order.{
  occurrences, occurrences-member, new_redactor_lem,
}
use contextmatrix_runner.LogParser.Redactor.{
  Secrets, member, mask, replace_from, redact, new_redactor,
}

-- strings.Contains
abbrev pub occurs : Text → Text → Bool
occurs q [] = is_empty q
occurs q (b ∷ s) = has_prefix (b ∷ s) q || occurs q s

-- A text that shares no part with the marker that could complete it.
pub record IsPlain (q : Text) : Type 0 where
  pub nonempty : is_empty q ≡ false
  pub no_bracket : contains_byte q 91 ≡ false
  pub no_end_bracket : contains_byte q 93 ≡ false
  pub unmarked : occurs q (bytes "[REDACTED") ≡ false

-- A prefix of the output that has no bracket was copied.
copied :
    (r q s : Text)
    → contains_byte q 91 ≡ false
    → has_prefix (replace_from r zero s) q ≡ true
    → has_prefix s q ≡ true
unfolding replace_from
copied r q [] h p = p
copied r [] (b ∷ s) h p = refl
copied r (c ∷ q) (b ∷ s) h p = elim (Bool-cases (has_prefix (b ∷ s) r)) [
  | inl e ↦ absurd (ground arith)
  | inr e ↦ ground (arith, copied r q s)
]

before_end :
    (m rest q : Text)
    → contains_byte q 93 ≡ false
    → has_prefix (m ++ 93 ∷ rest) q ≡ true
    → has_prefix m q ≡ true
before_end [] rest [] h p = refl
before_end [] rest (c ∷ q) h p = absurd (ground arith)
before_end (b ∷ m) rest [] h p = refl
before_end (b ∷ m) rest (c ∷ q) h p = ground (arith, before_end m rest q)

-- What stands before an end bracket and after it has the text if the whole has.
around_end :
    (m rest q : Text)
    → is_empty q ≡ false
    → contains_byte q 93 ≡ false
    → occurs q m ≡ false
    → occurs q rest ≡ false
    → occurs q (m ++ 93 ∷ rest) ≡ false
around_end [] rest [] n h f g = absurd (ground arith)
around_end [] rest (c ∷ q) n h f g = ground arith
around_end (b ∷ m) rest q n h f g = ground (arith, around_end m rest q, before_end (b ∷ m) rest q)

-- Where a text starts, so does the secret.
abbrev IsCovered : Text → Text → Text → Type 0
IsCovered q r [] = Unit
IsCovered q r (b ∷ s) =
    (has_prefix (b ∷ s) q ≡ true → has_prefix (b ∷ s) r ≡ true) × IsCovered q r s

replace_covered :
    (r q : Text) (k : ℕ) (s : Text)
    → IsPlain q
    → IsCovered q r s
    → occurs q (replace_from r k s) ≡ false
unfolding replace_from
replace_covered r q k [] p c = p.nonempty
replace_covered r q (suc k) (b ∷ s) p c = replace_covered r q k s p c.1
replace_covered r q zero (b ∷ s) p c = elim (Bool-cases (has_prefix (b ∷ s) r)) [
  | inl e ↦
      rw (e, replace_from)
        (around_end (bytes "[REDACTED") (replace_from r (length r - 1) s) q p.nonempty
          p.no_end_bracket p.unmarked (replace_covered r q (length r - 1) s p c.1))
  | inr e ↦
      let later : occurs q (replace_from r zero s) ≡ false = replace_covered r q zero s p c.1 in
      ground (arith, later, copied r q (b ∷ s), p.no_bracket, c.0)
]

IsCovered-self : (q s : Text) → IsCovered q q s
IsCovered-self q [] = tt
IsCovered-self q (b ∷ s) = (λ h. h, IsCovered-self q s)

IsCovered-absent : (r q s : Text) → occurs q s ≡ false → IsCovered q r s
IsCovered-absent r q [] h = tt
IsCovered-absent r q (b ∷ s) h = (λ p. absurd (ground arith), IsCovered-absent r q s (ground arith))

mask_keeps :
    (l : Secrets) (q s : Text) → IsPlain q → occurs q s ≡ false → occurs q (mask l s) ≡ false
unfolding mask
mask_keeps [] q s p h = h
mask_keeps (r ∷ l) q s p h =
    mask_keeps l q (replace_from r zero s) p
      (replace_covered r q zero s p (IsCovered-absent r q s h))

mask_lem : (l : Secrets) (q s : Text) → IsPlain q → member q l ≡ true → occurs q (mask l s) ≡ false
unfolding mask member
mask_lem [] q s p h = absurd (ground arith)
mask_lem (r ∷ l) q s p h = elim (Bool-cases (text_beq r q)) [
  | inl e ↦
      let same : r ≡ q = (text_beq_iff r q).0 e in
      rw same (
        mask_keeps l q (replace_from q zero s) p
          (replace_covered q q zero s p (IsCovered-self q s)))
  | inr e ↦ mask_lem l q (replace_from r zero s) p (ground arith)
]

-- For each value of at least 8 bytes that `NewRedactor` was given, which has no bracket and is no part
-- of the marker: what `Redactor.Redact` returns does not contain it, whatever the input was, where
-- the static patterns do not bring in a text that was absent.
pub redact_masks :
    (patterns : Text → Text) (secrets : List Text) (q input : Text)
    → ((t : Text) → occurs q t ≡ false → occurs q (patterns t) ≡ false)
    → IsPlain q
    → member q secrets ≡ true
    → 8 ≤ length q
    → occurs q (redact patterns (new_redactor secrets) input) ≡ false
unfolding redact
redact_masks patterns secrets q input f p m long =
    let once : 0 < occurrences q (new_redactor secrets) =
      ground (arith, (new_redactor_lem secrets q).1, m, long) in
    f (mask (new_redactor secrets) input)
      (mask_lem (new_redactor secrets) q input p (occurrences-member q (new_redactor secrets) once))
