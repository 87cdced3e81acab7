-- ===== src/Prelude/Tests.antt =====
-- Boolean tests on the native numbers, the conditional, and case splits that keep an equation.
use Prim.Native.Nat.{ℕ, ◌<◌, ◌≤◌, compare, Ordering}
use mathlib.Core.Path.{◌≡◌, refl}
use mathlib.Core.Logic.{◌↔◌, ◌≢◌, ◌⊎◌, inl, inr}
use mathlib.Core.Bool.{Bool, true, false}
use mathlib.Core.Option.{Option, none, some}
use native.Mathlib.Omega.{arith}

abbrev pub ltb : ℕ → ℕ → Bool
ltb a b = elim (compare a b) [ Ordering.lt ↦ true | _ ↦ false ]

abbrev pub leb : ℕ → ℕ → Bool
leb a b = elim (compare a b) [ Ordering.gt ↦ false | _ ↦ true ]

abbrev pub nat_beq : ℕ → ℕ → Bool
nat_beq a b = elim (compare a b) [ Ordering.eq ↦ true | _ ↦ false ]

infix 1 if◌then◌else◌
abbrev pub if◌then◌else◌ {ℓ} : {A : Type ℓ} → Bool → A → A → A
if true then x else y = x
if false then x else y = y

pub nat_beq_iff : (a b : ℕ) → (nat_beq a b ≡ true) ↔ (a ≡ b)
nat_beq_iff a b = ground arith

pub Bool-cases : (b : Bool) → (b ≡ true) ⊎ (b ≡ false)
Bool-cases true = inl refl
Bool-cases false = inr refl

pub Option-cases {ℓ} : {A : Type ℓ} (o : Option A) → (o ≡ none) ⊎ ((a : A) × (o ≡ some a))
Option-cases none = inl refl
Option-cases (some a) = inr (a, refl)

pub ltb_lt : {a b : ℕ} → ltb a b ≡ true → a < b
ltb_lt e = ground arith

pub ltb_ge : {a b : ℕ} → ltb a b ≡ false → b ≤ a
ltb_ge e = ground arith

pub ltb_of : {a b : ℕ} → a < b → ltb a b ≡ true
ltb_of h = ground arith

-- A split on whether two numbers are equal.
pub by_index {ℓ} :
    (P : Bool → Type ℓ) (a b : ℕ) → (a ≡ b → P true) → (a ≢ b → P false) → P (nat_beq a b)
by_index P a b same differs = elim (Bool-cases (nat_beq a b)) [
  | inl e ↦ rw e (same ((nat_beq_iff a b).0 e))
  | inr e ↦ rw e (differs (ground (arith, nat_beq_iff a b)))
]

pub if_false {ℓ} : {A : Type ℓ} {c : Bool} (x y : A) → c ≡ false → (if c then x else y) ≡ y
if_false x y e = rw e refl

pub if_true {ℓ} : {A : Type ℓ} {c : Bool} (x y : A) → c ≡ true → (if c then x else y) ≡ x
if_true x y e = rw e refl
