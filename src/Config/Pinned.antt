-- ===== src/Config/Pinned.antt =====
-- What `requireDigestPin` of internal/config/config.go accepts.
use contextmatrix_runner.Prelude.{
  ◌≡◌, refl, inl, inr, true, false, some, [], ◌∷◌, ◌++◌, Text, bytes, is_empty, has_prefix,
  nat_beq_iff, length, drop, all, Bool-cases, Option-cases, arith,
}
use contextmatrix_runner.Config.{cut_first, is_hex, require_digest_pin}

-- <name>@sha256:<64 hex digits>
pub record IsPinned (image : Text) : Type 0 where
  pub name : Text
  pub digest : Text
  pub parts : image ≡ (name ++ bytes "@sha256:" ++ digest)
  pub named : is_empty name ≡ false
  pub digits : length digest ≡ 64
  pub hex : all is_hex digest ≡ true

after_prefix : (s p : Text) → has_prefix s p ≡ true → s ≡ (p ++ drop (length p) s)
after_prefix s [] h = refl
after_prefix [] (c ∷ p) h = absurd (ground arith)
after_prefix (b ∷ s) (c ∷ p) h = ground (arith, after_prefix s p, nat_beq_iff b c)

cut_first_lem :
    (sub s before after : Text)
    → cut_first sub s ≡ some (before, after)
    → s ≡ (before ++ sub ++ after)
cut_first_lem sub [] before after h = absurd (ground (arith, h))
cut_first_lem sub (b ∷ s) before after h = elim (Bool-cases (has_prefix (b ∷ s) sub)) [
  | inl e ↦ ground (arith, h, e, after_prefix (b ∷ s) sub e)
  | inr e ↦ elim (Option-cases (cut_first sub s)) [
    | inl n ↦ absurd (ground (arith, h, e, n))
    | inr (t, n) ↦ ground (arith, h, e, n, cut_first_lem sub s t.0 t.1 n)
  ]
]

-- `requireDigestPin` accepts only a name that is not empty, then "@sha256:", then 64 hex digits.
pub require_digest_pin-IsPinned : (image : Text) → require_digest_pin image ≡ true → IsPinned image
unfolding require_digest_pin
require_digest_pin-IsPinned image h = elim (Option-cases (cut_first (bytes "@sha256:") image)) [
  | inl n ↦ absurd (ground (arith, h, n))
  | inr (t, n) ↦ record {
    name = t.0;
    digest = t.1;
    parts = cut_first_lem (bytes "@sha256:") image t.0 t.1 n;
    named = ground (arith, h, n);
    digits = ground (arith, h, n, nat_beq_iff (length t.1) 64);
    hex = ground (arith, h, n);
  }
]
