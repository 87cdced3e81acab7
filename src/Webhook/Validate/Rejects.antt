-- ===== src/Webhook/Validate/Rejects.antt =====
-- The tests of the validators (internal/webhook/validate.go) read backwards: what no error means.
use contextmatrix_runner.Prelude.{
  ℕ, ◌≡◌, refl, ap, ◌↔◌, inl, inr, Bool, true, false, not, Option, none, some, [], ◌∷◌, ◌≤◌, Text,
  contains_byte, nat_beq, nat_beq_iff, ltb, all, Bool-cases, arith,
}
use contextmatrix_runner.Webhook.Validate.{ValidationError, or_else, reject}
use contextmatrix_runner.Webhook.Validate.Dispatch.{as_payload_error}

-- A byte that a class leaves out occurs in no text of the class.
pub class_excludes :
    (class : ℕ → Bool) (b : ℕ) (v : Text)
    → class b ≡ false
    → all class v ≡ true
    → contains_byte v b ≡ false
class_excludes class b [] out h = refl
class_excludes class b (a ∷ v) out h = elim (Bool-cases (nat_beq a b)) [
  | inl same ↦
      absurd (let e : a ≡ b = (nat_beq_iff a b).0 same in ground (arith, out, h, ap class e))
  | inr differs ↦ ground (arith, class_excludes class b v out)
]

pub not-false : (b : Bool) → not b ≡ false → b ≡ true
not-false b h = ground (arith, h)

pub ltb-false : (m n : ℕ) → ltb m n ≡ false → n ≤ m
ltb-false m n h = ground (arith, h)

pub le-ltb : (m n : ℕ) → n ≤ m → ltb m n ≡ false
le-ltb m n h = ground (arith, h)

pub reject-none :
    (test : Bool) (field reason : Text) (rest : Option ValidationError)
    → (reject test field reason rest ≡ none) ↔ ((test ≡ false) × (rest ≡ none))
reject-none false field reason rest = (λ h. (refl, h), λ h. h.1)
reject-none true field reason rest =
    (λ h. absurd (ground (arith, h)), λ h. absurd (ground (arith, h.0)))

pub as_payload_error-none : (e : Option ValidationError) → as_payload_error e ≡ none → e ≡ none
as_payload_error-none none h = refl
as_payload_error-none (some e) h = absurd (ground (arith, h))

pub or_else-none : (e f : Option ValidationError) → or_else e f ≡ none → (e ≡ none) × (f ≡ none)
or_else-none none f h = (refl, h)
or_else-none (some e) f h = absurd (ground (arith, h))
