-- ===== src/Tracker/Methods.antt =====
-- The methods of `Tracker` by their names: for a card, for a chat, and those without a counterpart.
use contextmatrix_runner.Prelude.{
  ℕ, Bool, true, false, Option, none, some, List, [], ◌∷◌, Text, text_beq, length, if◌then◌else◌,
}
use contextmatrix_runner.Prelude.Dict.{lookup, insert}
use contextmatrix_runner.Tracker.{
  TrackerError, ContainerInfo, ContainerSnapshot, snapshot_locked, Tracker, key, chat_key, note,
  cancelled, add_at, add_under_limit_at, has_at, snapshot_at, write_stdin_at, close_stdin_at,
  mark_stdin_closed_at, set_stdin_at, remove_at, cancel_at,
}

unfoldable pub add : ContainerInfo → Tracker → Tracker × Option TrackerError
add info t = add_at (key info.project info.card_id) info t

unfoldable pub add_chat : ContainerInfo → Tracker → Tracker × Option TrackerError
add_chat info t = add_at (chat_key info.session_id) info t

unfoldable pub add_if_under_limit : ContainerInfo → ℕ → Tracker → Tracker × Option TrackerError
add_if_under_limit info limit t = add_under_limit_at (key info.project info.card_id) info limit t

unfoldable pub add_chat_if_under_limit : ContainerInfo → ℕ → Tracker → Tracker × Option TrackerError
add_chat_if_under_limit info limit t = add_under_limit_at (chat_key info.session_id) info limit t

unfoldable pub has : Text → Text → Tracker → Bool
has project card_id t = has_at (key project card_id) t

unfoldable pub has_chat : Text → Tracker → Bool
has_chat session_id t = has_at (chat_key session_id) t

unfoldable pub snapshot : Text → Text → Tracker → Option ContainerSnapshot
snapshot project card_id t = snapshot_at (key project card_id) t

unfoldable pub snapshot_chat : Text → Tracker → Option ContainerSnapshot
snapshot_chat session_id t = snapshot_at (chat_key session_id) t

unfoldable pub write_stdin : Text → Text → Text → Option ℕ → Tracker → Tracker × Option TrackerError
write_stdin project card_id b result t = write_stdin_at (key project card_id) b result t

unfoldable pub write_stdin_chat : Text → Text → Option ℕ → Tracker → Tracker × Option TrackerError
write_stdin_chat session_id b result t = write_stdin_at (chat_key session_id) b result t

unfoldable pub close_stdin : Text → Text → Option ℕ → Tracker → Tracker × Option TrackerError
close_stdin project card_id result t = close_stdin_at (key project card_id) result t

unfoldable pub close_stdin_chat : Text → Option ℕ → Tracker → Tracker × Option TrackerError
close_stdin_chat session_id result t = close_stdin_at (chat_key session_id) result t

unfoldable pub mark_stdin_closed : Text → Text → Tracker → Tracker × Option TrackerError
mark_stdin_closed project card_id t = mark_stdin_closed_at (key project card_id) t

unfoldable pub set_stdin : Text → Text → Option ℕ → Option ℕ → Tracker → Tracker
set_stdin project card_id w on_close t = set_stdin_at (key project card_id) w on_close t

unfoldable pub set_stdin_chat : Text → Option ℕ → Option ℕ → Tracker → Tracker
set_stdin_chat session_id w on_close t = set_stdin_at (chat_key session_id) w on_close t

unfoldable pub remove : Text → Text → Tracker → Tracker
remove project card_id t = remove_at (key project card_id) t

unfoldable pub remove_chat : Text → Tracker → Tracker
remove_chat session_id t = remove_at (chat_key session_id) t

unfoldable pub cancel : Text → Text → Tracker → Tracker × Bool
cancel project card_id t = cancel_at (key project card_id) t

-- `CancelWithReason`
unfoldable pub cancel_with_reason : Text → Text → Text → Tracker → Tracker × Bool
cancel_with_reason project card_id reason t = elim (lookup (key project card_id) t.containers) [
  | none ↦ (t, false)
  | some info ↦ (
    record t {
      containers = insert (key project card_id) (record info { reason = reason }) t.containers;
      calls = note cancelled info.cancel t.calls;
    },
    true,
  )
]

-- `Reason`: the empty text where there is no entry.
unfoldable pub reason : Text → Text → Tracker → Text
reason project card_id t = elim (lookup (key project card_id) t.containers) [
  | none ↦ []
  | some info ↦ info.reason
]

-- `UpdateContainerID`
unfoldable pub update_container_id : Text → Text → Text → Tracker → Tracker
update_container_id project card_id id t = elim (lookup (key project card_id) t.containers) [
  | none ↦ t
  | some info ↦ record t {
    containers = insert (key project card_id) (record info { container_id = id }) t.containers;
  }
]

-- `Count`
unfoldable pub count : Tracker → ℕ
count t = length t.containers

-- `AllSnapshots` and `ListSnapshotsByProject`, in the order of the map's list: Go's is not specified.
snapshots : List (Text × ContainerInfo) → List ContainerSnapshot
snapshots [] = []
snapshots ((k, info) ∷ m) = snapshot_locked info ∷ snapshots m

unfoldable pub all_snapshots : Tracker → List ContainerSnapshot
unfolding snapshots
all_snapshots t = snapshots t.containers

snapshots_of : Text → List (Text × ContainerInfo) → List ContainerSnapshot
snapshots_of project [] = []
snapshots_of project ((k, info) ∷ m) =
    let rest = snapshots_of project m in
    if text_beq info.project project then snapshot_locked info ∷ rest else rest

unfoldable pub list_snapshots_by_project : Text → Tracker → List ContainerSnapshot
unfolding snapshots_of
list_snapshots_by_project project t = snapshots_of project t.containers
