-- ===== src/Prelude/Runes.antt =====
-- Go's unicode/utf8 on texts, and cuts of a text between two runes.
use Prim.Native.Nat.{ℕ, zero, suc, ◌≤◌}
use mathlib.Core.Path.{◌≡◌, refl}
use mathlib.Core.Logic.{◌⊎◌, inl, inr}
use mathlib.Core.Bool.{Bool, true, false, not, ◌&&◌}
use mathlib.Core.List.{[], ◌∷◌, ◌++◌}
use native.Mathlib.Omega.{arith}
use contextmatrix_runner.Prelude.Tests.{nat_beq, ltb, leb, if◌then◌else◌, Bool-cases}
use contextmatrix_runner.Prelude.Lists.{take}
use contextmatrix_runner.Prelude.Texts.{Text}

-- lo <= b && b <= hi
abbrev pub between : ℕ → ℕ → ℕ → Bool
between lo hi b = leb lo b && leb b hi

-- The bounds of the first continuation byte that utf8 accepts after a given first byte.
abbrev pub second_low : ℕ → ℕ
second_low b = if nat_beq b 224 then 160 else if nat_beq b 240 then 144 else 128

abbrev pub second_high : ℕ → ℕ
second_high b = if nat_beq b 237 then 159 else if nat_beq b 244 then 143 else 191

-- utf8.ValidString, with the continuation bytes that are still due and the bounds of the next one.
unfoldable pub utf8_from : ℕ → ℕ → ℕ → Text → Bool
utf8_from zero lo hi [] = true
utf8_from (suc n) lo hi [] = false
utf8_from zero lo hi (b ∷ v) =
    let ascii = utf8_from 0 128 191 v in
    let two = utf8_from 1 128 191 v in
    let three = utf8_from 2 (second_low b) (second_high b) v in
    let four = utf8_from 3 (second_low b) (second_high b) v in
    if ltb b 128
    then ascii
    else if between 194 223 b
    then two
    else if between 224 239 b
    then three
    else if between 240 244 b
    then four
    else false
utf8_from (suc n) lo hi (b ∷ v) = between lo hi b && utf8_from n 128 191 v

unfoldable pub valid_utf8 : Text → Bool
unfolding utf8_from
valid_utf8 v = utf8_from 0 128 191 v

-- utf8.RuneStart: the byte is no continuation byte.
abbrev pub rune_start : ℕ → Bool
rune_start b = not (between 128 191 b)

-- utf8.RuneStart(s[n]); past the end there is no byte to read.
unfoldable pub starts_rune : Text → ℕ → Bool
starts_rune [] n = true
starts_rune (b ∷ s) zero = rune_start b
starts_rune (b ∷ s) (suc n) = starts_rune s n

-- `for cut > 0 && !utf8.RuneStart(s[cut]) { cut-- }`, from a given cut.
unfoldable pub rune_cut : Text → ℕ → ℕ
unfolding starts_rune
rune_cut s zero = zero
rune_cut s (suc n) = let rest = rune_cut s n in if starts_rune s (suc n) then suc n else rest

pub rune_cut_le : (s : Text) (n : ℕ) → rune_cut s n ≤ n
unfolding rune_cut
rune_cut_le s zero = omega arith
rune_cut_le s (suc n) = ground (arith, rune_cut_le s n)

pub rune_cut_starts :
    (s : Text) (n : ℕ) → (rune_cut s n ≡ 0) ⊎ (starts_rune s (rune_cut s n) ≡ true)
unfolding rune_cut
rune_cut_starts s zero = inl refl
rune_cut_starts s (suc n) = elim (Bool-cases (starts_rune s (suc n))) [
  | inl e ↦ rw (e, rune_cut) (inr e)
  | inr e ↦ rw (e, rune_cut) (rune_cut_starts s n)
]

-- A prefix that ends before a rune of the text is read as the text was.
utf8_from-take :
    (k lo hi n : ℕ) (s : Text)
    → 128 ≤ lo
    → hi ≤ 191
    → starts_rune s n ≡ true
    → utf8_from k lo hi s ≡ true
    → utf8_from k lo hi (take n s) ≡ true
unfolding utf8_from starts_rune
utf8_from-take zero lo hi zero [] l h c v = refl
utf8_from-take zero lo hi (suc n) [] l h c v = refl
utf8_from-take zero lo hi zero (b ∷ s) l h c v = refl
utf8_from-take zero lo hi (suc n) (b ∷ s) l h c v = ground (
  arith,
  utf8_from-take 0 128 191 n s,
  utf8_from-take 1 128 191 n s,
  utf8_from-take 2 (second_low b) (second_high b) n s,
  utf8_from-take 3 (second_low b) (second_high b) n s,
)
utf8_from-take (suc k) lo hi zero [] l h c v = v
utf8_from-take (suc k) lo hi (suc n) [] l h c v = v
utf8_from-take (suc k) lo hi zero (b ∷ s) l h c v = absurd (ground arith)
utf8_from-take (suc k) lo hi (suc n) (b ∷ s) l h c v = ground (arith, utf8_from-take k 128 191 n s)

-- A text that is valid stays so when it is cut where the loop stops.
pub take-rune_cut-valid :
    (n : ℕ) (s : Text) → valid_utf8 s ≡ true → valid_utf8 (take (rune_cut s n) s) ≡ true
unfolding valid_utf8
take-rune_cut-valid n s v = elim (rune_cut_starts s n) [
  | inl e ↦ rw (e, valid_utf8, utf8_from) refl
  | inr e ↦ utf8_from-take 0 128 191 (rune_cut s n) s (omega arith) (omega arith) e v
]

by_test : (c : Bool) {a b : Bool} → (a ≡ true → b ≡ true) → (c && a) ≡ true → (c && b) ≡ true
by_test true f e = f e
by_test false f e = e

by_lead :
    (c1 c2 c3 c4 : Bool) {a1 a2 a3 a4 b1 b2 b3 b4 : Bool}
    → (a1 ≡ true → b1 ≡ true)
    → (a2 ≡ true → b2 ≡ true)
    → (a3 ≡ true → b3 ≡ true)
    → (a4 ≡ true → b4 ≡ true)
    → (if c1 then a1 else if c2 then a2 else if c3 then a3 else if c4 then a4 else false) ≡ true
    → (if c1 then b1 else if c2 then b2 else if c3 then b3 else if c4 then b4 else false) ≡ true
by_lead true c2 c3 c4 f1 f2 f3 f4 e = f1 e
by_lead false true c3 c4 f1 f2 f3 f4 e = f2 e
by_lead false false true c4 f1 f2 f3 f4 e = f3 e
by_lead false false false true f1 f2 f3 f4 e = f4 e
by_lead false false false false f1 f2 f3 f4 e = e

-- A valid text followed by another is valid.
utf8_from-append :
    (k lo hi : ℕ) (s t : Text)
    → utf8_from k lo hi s ≡ true
    → valid_utf8 t ≡ true
    → utf8_from k lo hi (s ++ t) ≡ true
unfolding utf8_from valid_utf8
utf8_from-append zero lo hi [] [] v w = refl
utf8_from-append zero lo hi [] (c ∷ t) v w = w
utf8_from-append (suc k) lo hi [] t v w = absurd (ground (arith, v))
utf8_from-append (suc k) lo hi (b ∷ s) t v w =
    by_test (between lo hi b) (λ x. utf8_from-append k 128 191 s t x w) v
utf8_from-append zero lo hi (b ∷ s) t v w =
    by_lead (ltb b 128) (between 194 223 b) (between 224 239 b) (between 240 244 b)
      (λ x. utf8_from-append 0 128 191 s t x w) (λ x. utf8_from-append 1 128 191 s t x w)
      (λ x. utf8_from-append 2 (second_low b) (second_high b) s t x w)
      (λ x. utf8_from-append 3 (second_low b) (second_high b) s t x w) v

pub valid_utf8-append :
    (s t : Text) → valid_utf8 s ≡ true → valid_utf8 t ≡ true → valid_utf8 (s ++ t) ≡ true
unfolding valid_utf8
valid_utf8-append s t v w = utf8_from-append 0 128 191 s t v w
