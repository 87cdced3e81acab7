-- ===== src/Container/Secrets/Atomic.antt =====
-- `writeSecretsFileAtomic` of internal/container/secrets_refresher.go with a failure at any call.
use contextmatrix_runner.Prelude.{
  ◌≡◌, refl, ◌⊎◌, inl, inr, Bool, true, false, Option, none, some, List, [], ◌∷◌, Text, All,
}
use contextmatrix_runner.Container.Secrets.{
  Files, Fault, on_open, on_chmod, on_write, on_sync, on_close, on_rename, no_fault,
  write_secrets_file_atomic,
}

abbrev pub IsOldOrNew : Text → Files → Files → Type 0
IsOldOrNew content f s = (s.target ≡ f.target) ⊎ (s.target ≡ some content)

-- What is there at the end.
abbrev pub final_target : List Files → Option Text
final_target [] = none
final_target (s ∷ l) = s.target

abbrev pub IsAtomic : Text → Files → List Files × Bool → Type 0
IsAtomic content f r =
    All (IsOldOrNew content f) r.0
    × (final_target r.0 ≡ (elim r.1 [ true ↦ some content | false ↦ f.target ]))

-- Whichever call fails: a reader of the file sees its old content or the whole new one at every moment,
-- and at the end the old content if there was an error, the new one if there was none.
pub write_secrets_file_atomic-IsAtomic :
    (fault : Fault) (content : Text) (f : Files)
    → IsAtomic content f (write_secrets_file_atomic fault content f)
unfolding write_secrets_file_atomic
write_secrets_file_atomic-IsAtomic on_open content f = ((inl refl, tt), refl)
write_secrets_file_atomic-IsAtomic on_chmod content f =
    ((inl refl, (inl refl, (inl refl, tt))), refl)
write_secrets_file_atomic-IsAtomic (on_write part) content f =
    ((inl refl, (inl refl, (inl refl, (inl refl, tt)))), refl)
write_secrets_file_atomic-IsAtomic on_sync content f =
    ((inl refl, (inl refl, (inl refl, (inl refl, tt)))), refl)
write_secrets_file_atomic-IsAtomic on_close content f =
    ((inl refl, (inl refl, (inl refl, (inl refl, tt)))), refl)
write_secrets_file_atomic-IsAtomic on_rename content f =
    ((inl refl, (inl refl, (inl refl, (inl refl, tt)))), refl)
write_secrets_file_atomic-IsAtomic no_fault content f =
    ((inr refl, (inl refl, (inl refl, (inl refl, tt)))), refl)
