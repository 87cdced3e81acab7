-- ===== src/Prelude/Texts.antt =====
-- Go strings: sequences of bytes, with the operations that the program uses of package strings.
use Prim.Native.Nat.{ℕ}
use Prim.Native.Char.{code}
use Prim.Native.String.{String}
use mathlib.Core.Path.{◌≡◌, refl}
use mathlib.Core.Logic.{◌↔◌, ◌≢◌, inl, inr}
use mathlib.Core.Bool.{Bool, true, false, ◌&&◌, ◌||◌}
use mathlib.Core.List.{List, [], ◌∷◌, ◌++◌}
use native.Mathlib.Omega.{arith}
use contextmatrix_runner.Prelude.Tests.{nat_beq, if◌then◌else◌, Bool-cases}

abbrev pub Text : Type 0
Text = List ℕ

-- The bytes of an ASCII literal.
abbrev pub bytes : String → Text
bytes String.[] = []
bytes (String.◌∷◌ c s) = code c ∷ bytes s

unfoldable pub text_beq : Text → Text → Bool
text_beq [] [] = true
text_beq [] (b ∷ t) = false
text_beq (a ∷ s) [] = false
text_beq (a ∷ s) (b ∷ t) = nat_beq a b && text_beq s t

pub text_beq_iff : (s t : Text) → (text_beq s t ≡ true) ↔ (s ≡ t)
unfolding text_beq
text_beq_iff [] [] = ground arith
text_beq_iff [] (b ∷ t) = ground arith
text_beq_iff (a ∷ s) [] = ground arith
text_beq_iff (a ∷ s) (b ∷ t) = ground (arith, text_beq_iff s t)

pub text_beq_refl : (s : Text) → text_beq s s ≡ true
text_beq_refl s = (text_beq_iff s s).1 refl

pub text_beq_ne : (s t : Text) → s ≢ t → text_beq s t ≡ false
text_beq_ne s t h = elim (Bool-cases (text_beq s t)) [
  | inl same ↦ absurd (h ((text_beq_iff s t).0 same))
  | inr differs ↦ differs
]

-- `s == ""`
abbrev pub is_empty : Text → Bool
is_empty [] = true
is_empty (a ∷ s) = false

-- strings.HasPrefix(s, prefix)
abbrev pub has_prefix : Text → Text → Bool
has_prefix s [] = true
has_prefix [] (p ∷ ps) = false
has_prefix (a ∷ s) (p ∷ ps) = nat_beq a p && has_prefix s ps

-- A byte occurs in the text: strings.ContainsRune for an ASCII rune.
abbrev pub contains_byte : Text → ℕ → Bool
contains_byte [] b = false
contains_byte (a ∷ s) b = nat_beq a b || contains_byte s b

-- strings.TrimPrefix(s, prefix)
abbrev pub after_prefix : Text → Text → Text → Text
after_prefix whole s [] = s
after_prefix whole [] (p ∷ ps) = whole
after_prefix whole (a ∷ s) (p ∷ ps) =
    let rest = after_prefix whole s ps in if nat_beq a p then rest else whole

abbrev pub trim_prefix : Text → Text → Text
trim_prefix s p = after_prefix s s p

pub contains_byte-append :
    (s t : Text) (b : ℕ) → contains_byte (s ++ t) b ≡ (contains_byte s b || contains_byte t b)
contains_byte-append [] t b = refl
contains_byte-append (a ∷ s) t b = ground (arith, contains_byte-append s t b)

-- Where neither head has the separator, a text splits at it in one way only.
pub split_unique :
    (d : ℕ) (s s' t t' : Text)
    → contains_byte s d ≡ false
    → contains_byte s' d ≡ false
    → (s ++ d ∷ t) ≡ (s' ++ d ∷ t')
    → (s ≡ s') × (t ≡ t')
split_unique d [] [] t t' h h' e = (refl, cc)
split_unique d [] (a' ∷ s') t t' h h' e = absurd (ground arith)
split_unique d (a ∷ s) [] t t' h h' e = absurd (ground arith)
split_unique d (a ∷ s) (a' ∷ s') t t' h h' e =
    let ih = split_unique d s s' t t' (ground arith) (ground arith) (cc) in (cc (ih.0), ih.1)
