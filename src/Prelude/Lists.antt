-- ===== src/Prelude/Lists.antt =====
-- Lists measured by native numbers, predicates on all their elements, and a Boolean test on all.
use Prim.Native.Nat.{ℕ, zero, suc, ◌+◌, ◌-◌, ◌≤◌}
use mathlib.Core.Path.{◌≡◌, refl, ap}
use mathlib.Core.Logic.{◌⊎◌, inl, inr}
use mathlib.Core.Bool.{Bool, true, ◌&&◌}
use mathlib.Core.List.{List, [], ◌∷◌, ◌++◌}
use native.Mathlib.Omega.{arith}

pub List-cases {ℓ} : {A : Type ℓ} (l : List A) → (l ≡ []) ⊎ ((x : A) × (xs : List A) × (l ≡ x ∷ xs))
List-cases [] = inl refl
List-cases (x ∷ xs) = inr (x, xs, refl)

module _ {ℓ} {A : Type ℓ} where
  abbrev pub length : List A → ℕ
  length [] = 0
  length (x ∷ xs) = suc (length xs)

  pub length-append : (xs ys : List A) → length (xs ++ ys) ≡ length xs + length ys
  length-append [] ys = omega arith
  length-append (x ∷ xs) ys = omega (arith, length-append xs ys)

  abbrev pub drop : ℕ → List A → List A
  drop zero xs = xs
  drop (suc n) [] = []
  drop (suc n) (x ∷ xs) = drop n xs

  pub length-drop : (n : ℕ) (xs : List A) → length (drop n xs) ≡ length xs - n
  length-drop zero xs = omega arith
  length-drop (suc n) [] = omega arith
  length-drop (suc n) (x ∷ xs) = omega (arith, length-drop n xs)

  abbrev pub take : ℕ → List A → List A
  take zero xs = []
  take (suc n) [] = []
  take (suc n) (x ∷ xs) = x ∷ take n xs

  pub length-take : (n : ℕ) (xs : List A) → length (take n xs) ≤ n
  length-take zero xs = omega arith
  length-take (suc n) [] = omega arith
  length-take (suc n) (x ∷ xs) = omega (arith, length-take n xs)

  pub append-take : (n : ℕ) (xs : List A) → (take n xs ++ drop n xs) ≡ xs
  append-take zero xs = refl
  append-take (suc n) [] = refl
  append-take (suc n) (x ∷ xs) = ap (λ l. x ∷ l) (append-take n xs)

  pub append_assoc : (xs ys zs : List A) → ((xs ++ ys) ++ zs) ≡ (xs ++ (ys ++ zs))
  append_assoc [] ys zs = refl
  append_assoc (x ∷ xs) ys zs = ap (λ l. x ∷ l) (append_assoc xs ys zs)

  pub append_nil : (xs : List A) → (xs ++ []) ≡ xs
  append_nil [] = refl
  append_nil (x ∷ xs) = ap (λ l. x ∷ l) (append_nil xs)

  pub take_nil : (n : ℕ) → take n [] ≡ []
  take_nil zero = refl
  take_nil (suc n) = refl

  pub take_all : (n : ℕ) (xs : List A) → length xs ≤ n → take n xs ≡ xs
  take_all n [] h = take_nil n
  take_all zero (x ∷ xs) h = absurd (omega arith)
  take_all (suc n) (x ∷ xs) h = ap (λ l. x ∷ l) (take_all n xs (omega arith))

  pub take-append-le : (n : ℕ) (xs ys : List A) → n ≤ length xs → take n (xs ++ ys) ≡ take n xs
  take-append-le zero xs ys h = refl
  take-append-le (suc n) [] ys h = absurd (omega arith)
  take-append-le (suc n) (x ∷ xs) ys h = ap (λ l. x ∷ l) (take-append-le n xs ys (omega arith))

  pub take-append-ge :
      (n m : ℕ) (xs ys : List A) → n ≡ length xs + m → take n (xs ++ ys) ≡ (xs ++ take m ys)
  take-append-ge n m [] ys h = ap (λ (k : ℕ). take k ys) (omega arith)
  take-append-ge zero m (x ∷ xs) ys h = absurd (omega arith)
  take-append-ge (suc n) m (x ∷ xs) ys h = ap (λ l. x ∷ l) (take-append-ge n m xs ys (omega arith))

  abbrev pub all : (A → Bool) → List A → Bool
  all p [] = true
  all p (x ∷ xs) = p x && all p xs

  pub all-append : (p : A → Bool) (xs ys : List A) → all p (xs ++ ys) ≡ (all p xs && all p ys)
  all-append p [] ys = refl
  all-append p (x ∷ xs) ys = ground (arith, all-append p xs ys)

module _ {ℓ κ} {A : Type ℓ} where
  -- Every element satisfies the predicate.
  abbrev pub All : (A → Type κ) → List A → Type κ
  All P [] = Unit
  All P (first ∷ rest) = P first × All P rest

  pub All-snoc :
      (P : A → Type κ) (last : A) (l : List A) → All P l → P last → All P (l ++ last ∷ [])
  All-snoc P last [] whole new = (new, tt)
  All-snoc P last (first ∷ rest) whole new = (whole.0, All-snoc P last rest whole.1 new)

  pub All-map : (P Q : A → Type κ) → ((x : A) → P x → Q x) → (l : List A) → All P l → All Q l
  All-map P Q f [] whole = tt
  All-map P Q f (first ∷ rest) whole = (f first whole.0, All-map P Q f rest whole.1)
