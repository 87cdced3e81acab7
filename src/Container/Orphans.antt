-- ===== src/Container/Orphans.antt =====
-- internal/container/manager.go: `CleanupOrphans` and `ForceRemoveByLabels`. Docker's list of
-- containers, and whether a stop and a remove succeed, are arguments. A container's labels are empty
-- where they are missing; the manager has a tracker.
use contextmatrix_runner.Prelude.{
  ◌⊎◌, true, Option, none, some, ℕ, suc, ◌+◌, ◌≡◌, refl, inl, inr, Bool, false, not, ◌&&◌, ◌||◌,
  List, [], ◌∷◌, Text, is_empty, length, All, Bool-cases, if◌then◌else◌, arith,
}
use contextmatrix_runner.Tracker.{Tracker}
use contextmatrix_runner.Tracker.Methods.{has, has_chat}

pub record DockerContainer : Type 0 where
  pub id : Text
  pub project : Text
  pub card_id : Text
  pub session_id : Text

-- The two conditions that skip a container.
unfoldable pub is_kept : Tracker → DockerContainer → Bool
unfolding has has_chat
is_kept t ctr =
    (not (is_empty ctr.project) && not (is_empty ctr.card_id) && has ctr.project ctr.card_id t)
    || (not (is_empty ctr.session_id) && has_chat ctr.session_id t)

-- The first loop.
unfoldable pub orphans : Tracker → List DockerContainer → List DockerContainer
unfolding is_kept
orphans t [] = []
orphans t (ctr ∷ l) = let rest = orphans t l in if is_kept t ctr then rest else ctr ∷ rest

-- The calls that reach Docker, in order.
pub data DockerCall : Type 0 where
  stop : Text → DockerCall
  force_remove : Text → DockerCall

-- What the second loop did; `remove_errors` has the containers that it left behind.
pub record Cleanup : Type 0 where
  pub calls : List DockerCall
  pub removed : ℕ
  pub stop_failures : ℕ
  pub remove_errors : List Text

module _ (stops removes : Text → Bool) where
  -- The second loop.
  unfoldable pub clean_each : List DockerContainer → Cleanup
  clean_each [] = record { calls = []; removed = 0; stop_failures = 0; remove_errors = [] }
  clean_each (ctr ∷ l) =
      let rest = clean_each l in
      record {
        calls = stop ctr.id ∷ force_remove ctr.id ∷ rest.calls;
        removed = if removes ctr.id then suc rest.removed else rest.removed;
        stop_failures = if stops ctr.id then rest.stop_failures else suc rest.stop_failures;
        remove_errors = if removes ctr.id then rest.remove_errors else ctr.id ∷ rest.remove_errors;
      }

  -- `CleanupOrphans`, where Docker gave the list.
  unfoldable pub cleanup_orphans : Tracker → List DockerContainer → Cleanup
  unfolding orphans clean_each
  cleanup_orphans t containers = clean_each (orphans t containers)

  -- The loop of `ForceRemoveByLabels` over the containers that Docker listed: how many were removed, and
  -- those left behind.
  unfoldable pub force_each : List Text → ℕ × List Text
  force_each [] = (0, [])
  force_each (i ∷ l) =
      let rest = force_each l in if removes i then (suc rest.0, rest.1) else (rest.0, i ∷ rest.1)

  -- `ForceRemoveByLabels`: none where a label is empty or Docker gave no list.
  unfoldable pub force_remove_by_labels : Text → Text → Option (List Text) → Option (ℕ × List Text)
  unfolding force_each
  force_remove_by_labels project card_id listed =
      if is_empty project || is_empty card_id
      then none
      else elim listed [ none ↦ none | some l ↦ some (force_each l) ]

  -- Every listed container is removed or left behind, and left behind only where its removal failed.
  pub force_each-accounts :
      (l : List Text)
      → ((force_each l).0 + length (force_each l).1 ≡ length l)
        × All (λ (i : Text). removes i ≡ false) (force_each l).1
  unfolding force_each
  force_each-accounts [] = (refl, tt)
  force_each-accounts (i ∷ l) =
      let rest = force_each-accounts l in
      elim (Bool-cases (removes i)) [
        | inl e ↦ rw e (omega (arith, rest.0), rest.1)
        | inr e ↦ rw e (omega (arith, rest.0), (e, rest.1))
      ]

  -- A call on a container of the list that no entry of the tracker is for.
  abbrev pub IsOnOrphan : Tracker → List DockerContainer → DockerCall → Type 0
  IsOnOrphan t [] call = ⊥
  IsOnOrphan t (ctr ∷ l) call =
      ((is_kept t ctr ≡ false) × ((call ≡ stop ctr.id) ⊎ (call ≡ force_remove ctr.id)))
      ⊎ IsOnOrphan t l call

  IsOnOrphan-later :
      (t : Tracker) (ctr : DockerContainer) (l : List DockerContainer) (calls : List DockerCall)
      → All (IsOnOrphan t l) calls
      → All (IsOnOrphan t (ctr ∷ l)) calls
  IsOnOrphan-later t ctr l [] a = tt
  IsOnOrphan-later t ctr l (call ∷ calls) a = (inr a.0, IsOnOrphan-later t ctr l calls a.1)

  -- Each listed container that no entry is for is stopped and then removed.
  abbrev pub AreCleaned : Tracker → List DockerContainer → List DockerCall → Type 0
  AreCleaned t [] calls = calls ≡ []
  AreCleaned t (ctr ∷ l) calls =
      ((is_kept t ctr ≡ true) × AreCleaned t l calls)
      ⊎ ((rest : List DockerCall) × (is_kept t ctr ≡ false)
          × (calls ≡ stop ctr.id ∷ force_remove ctr.id ∷ rest)
          × AreCleaned t l rest)

  pub record IsCleaned (t : Tracker) (l : List DockerContainer) (n : ℕ) (r : Cleanup) : Type 0 where
    pub only_orphans : All (IsOnOrphan t l) r.calls
    pub in_order : AreCleaned t l r.calls
    pub accounted : r.removed + length r.remove_errors ≡ n
    pub left_behind : All (λ (i : Text). removes i ≡ false) r.remove_errors

  -- `CleanupOrphans` calls Docker only on containers of Docker's list that the tracker has neither
  -- under their card nor under their session, and it stops and then removes each of these, in the
  -- order of the list. As many as these are were removed or are among the errors, and an error is
  -- there only for a container whose removal failed, whatever its stop did.
  pub cleanup_orphans-IsCleaned :
      (t : Tracker) (l : List DockerContainer)
      → IsCleaned t l (length (orphans t l)) (cleanup_orphans t l)
  unfolding cleanup_orphans orphans clean_each
  cleanup_orphans-IsCleaned t [] = record {
    only_orphans = tt;
    in_order = refl;
    accounted = refl;
    left_behind = tt;
  }
  cleanup_orphans-IsCleaned t (ctr ∷ l) =
      let rest = cleanup_orphans-IsCleaned t l in
      elim (Bool-cases (is_kept t ctr)) [
        | inl e ↦ rw e record {
          only_orphans = IsOnOrphan-later t ctr l (cleanup_orphans t l).calls rest.only_orphans;
          in_order = inl (e, rest.in_order);
          accounted = rest.accounted;
          left_behind = rest.left_behind;
        }
        | inr e ↦ elim (Bool-cases (removes ctr.id)) [
          | inl f ↦
              rw (e, f)
                record {
                  only_orphans = (
                    inl (e, inl refl),
                    (
                      inl (e, inr refl),
                      IsOnOrphan-later t ctr l (cleanup_orphans t l).calls rest.only_orphans,
                    ),
                  );
                  in_order = inr ((cleanup_orphans t l).calls, e, refl, rest.in_order);
                  accounted = omega (arith, rest.accounted);
                  left_behind = rest.left_behind;
                }
          | inr f ↦
              rw (e, f)
                record {
                  only_orphans = (
                    inl (e, inl refl),
                    (
                      inl (e, inr refl),
                      IsOnOrphan-later t ctr l (cleanup_orphans t l).calls rest.only_orphans,
                    ),
                  );
                  in_order = inr ((cleanup_orphans t l).calls, e, refl, rest.in_order);
                  accounted = omega (arith, rest.accounted);
                  left_behind = (f, rest.left_behind);
                }
        ]
      ]
