-- ===== src/Prelude/Dict.antt =====
-- A Go map as an association list in which no key stands twice.
use Prim.Native.Nat.{◌+◌, ◌≤◌}
use mathlib.Core.Path.{◌≡◌, refl}
use mathlib.Core.Option.{Option, none, some}
use mathlib.Core.List.{List, [], ◌∷◌}
use native.Mathlib.Omega.{arith}
use contextmatrix_runner.Prelude.Tests.{if◌then◌else◌}
use contextmatrix_runner.Prelude.Lists.{length}
use contextmatrix_runner.Prelude.Texts.{Text, text_beq, text_beq_iff}

module _ {ℓ} {V : Type ℓ} where
  -- `m[k]` with its `ok`
  unfoldable pub lookup : Text → List (Text × V) → Option V
  lookup k [] = none
  lookup k ((j, v) ∷ m) = if text_beq j k then some v else lookup k m

  -- `m[k] = v`
  unfoldable pub insert : Text → V → List (Text × V) → List (Text × V)
  insert k v [] = (k, v) ∷ []
  insert k v ((j, w) ∷ m) = if text_beq j k then (k, v) ∷ m else (j, w) ∷ insert k v m

  -- `delete(m, k)`
  unfoldable pub delete : Text → List (Text × V) → List (Text × V)
  delete k [] = []
  delete k ((j, w) ∷ m) = let rest = delete k m in if text_beq j k then m else (j, w) ∷ rest

  abbrev pub IsDict : List (Text × V) → Type ℓ
  IsDict [] = Unit
  IsDict ((k, v) ∷ m) = (lookup k m ≡ none) × IsDict m

  pub lookup-insert :
      (k j : Text) (v : V) (m : List (Text × V))
      → lookup j (insert k v m) ≡ (if text_beq k j then some v else lookup j m)
  unfolding lookup insert
  lookup-insert k j v [] = refl
  lookup-insert k j v ((i, w) ∷ m) =
      ground (arith, text_beq_iff k j, text_beq_iff i k, text_beq_iff i j, lookup-insert k j v m)

  pub lookup-delete :
      (k j : Text) (m : List (Text × V))
      → IsDict m
      → lookup j (delete k m) ≡ (if text_beq k j then none else lookup j m)
  unfolding lookup delete
  lookup-delete k j [] d = ground arith
  lookup-delete k j ((i, w) ∷ m) d =
      ground (arith, text_beq_iff k j, text_beq_iff i k, text_beq_iff i j, lookup-delete k j m d.1)

  pub insert-IsDict : (k : Text) (v : V) (m : List (Text × V)) → IsDict m → IsDict (insert k v m)
  unfolding insert
  insert-IsDict k v [] d = (unfold lookup in refl, tt)
  insert-IsDict k v ((i, w) ∷ m) d =
      ground
        (arith, text_beq_iff i k, insert-IsDict k v m d.1, lookup-insert k i v m, text_beq_iff k i)

  pub delete-IsDict : (k : Text) (m : List (Text × V)) → IsDict m → IsDict (delete k m)
  unfolding delete
  delete-IsDict k [] d = tt
  delete-IsDict k ((i, w) ∷ m) d = ground (arith, delete-IsDict k m d.1, lookup-delete k i m d.1)

  -- A new key makes the map one longer, a known one leaves its size.
  pub length-insert_new :
      (k : Text) (v : V) (m : List (Text × V))
      → lookup k m ≡ none
      → length (insert k v m) ≡ length m + 1
  unfolding lookup insert
  length-insert_new k v [] h = refl
  length-insert_new k v ((i, w) ∷ m) h = ground (arith, length-insert_new k v m)

  pub length-insert_known :
      (k : Text) (v w : V) (m : List (Text × V))
      → lookup k m ≡ some w
      → length (insert k v m) ≡ length m
  unfolding lookup insert
  length-insert_known k v w [] h = absurd (cc)
  length-insert_known k v w ((i, u) ∷ m) h = ground (arith, length-insert_known k v w m)

  pub length-delete :
      (k : Text) (v : V) (m : List (Text × V))
      → lookup k m ≡ some v
      → length (delete k m) + 1 ≡ length m
  unfolding lookup delete
  length-delete k v [] h = absurd (cc)
  length-delete k v ((i, u) ∷ m) h = ground (arith, length-delete k v m)

  pub length-delete-le : (k : Text) (m : List (Text × V)) → length (delete k m) ≤ length m
  unfolding delete
  length-delete-le k [] = omega arith
  length-delete-le k ((i, u) ∷ m) = ground (arith, length-delete-le k m)
