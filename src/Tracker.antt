-- ===== src/Tracker.antt =====
-- internal/tracker/tracker.go: the map of running containers, with the stdin of the interactive ones.
-- A method is one function from the state to the state and its result. What the tracker calls of the
-- outside (a writer, a cancel or close callback) stands for itself by a number, and each call is
-- noted in `calls`, the latest first. The result of a writer's call is an argument.
pub mod Methods
pub mod Limit
pub mod Keys
pub mod Stdin
pub mod Interleaving
use contextmatrix_runner.Prelude.{
  ℕ, suc, ◌+◌, Bool, true, false, Option, none, some, List, [], ◌∷◌, ◌++◌, Text, bytes, leb, length,
  nat_beq, text_beq, if◌then◌else◌,
}
use contextmatrix_runner.Prelude.Dict.{lookup, insert, delete}

-- The sentinels, and the error that a writer returned.
pub data TrackerError : Type 0 where
  limit_reached already_tracked not_tracked no_stdin_attached stdin_closed : TrackerError
  io_error : ℕ → TrackerError

-- `stdinState`: the writer is nil once it is closed.
pub record StdinState : Type 0 where
  pub writer : Option ℕ
  pub on_close : Option ℕ

pub record ContainerInfo : Type 0 where
  pub container_id : Text
  pub card_id : Text
  pub project : Text
  pub session_id : Text
  pub image : Text
  pub started_at : ℕ
  pub cancel : Option ℕ
  pub reason : Text
  pub stdin : Option ℕ  -- the pointer to a `stdinState`

pub record ContainerSnapshot : Type 0 where
  pub container_id : Text
  pub card_id : Text
  pub project : Text
  pub session_id : Text
  pub image : Text
  pub started_at : ℕ

abbrev pub snapshot_locked : ContainerInfo → ContainerSnapshot
snapshot_locked ci = record {
  container_id = ci.container_id;
  card_id = ci.card_id;
  project = ci.project;
  session_id = ci.session_id;
  image = ci.image;
  started_at = ci.started_at;
}

-- A call of the outside.
pub data Effect : Type 0 where
  wrote : ℕ → Text → Effect
  closed : ℕ → Effect
  cancelled : ℕ → Effect
  notified : ℕ → Effect  -- an `onClose`

pub record Tracker : Type 0 where
  pub containers : List (Text × ContainerInfo)
  pub stdins : ℕ → StdinState
  pub next : ℕ  -- the next fresh pointer
  pub calls : List Effect

abbrev pub no_stdin : StdinState
no_stdin = record { writer = none; on_close = none }

-- `New`
unfoldable pub new : Tracker
new = record { containers = []; stdins = λ a. no_stdin; next = 0; calls = [] }

-- `project + "/" + cardID`
unfoldable pub key : Text → Text → Text
key project card_id = project ++ 47 ∷ card_id

-- "\x00chat/" + sessionID
unfoldable pub chat_key : Text → Text
chat_key session_id = (0 ∷ bytes "chat/") ++ session_id

-- A callback is called if there is one.
abbrev pub note {ℓ} : {A : Type ℓ} → (A → Effect) → Option A → List Effect → List Effect
note f none calls = calls
note f (some a) calls = f a ∷ calls

-- The methods come in pairs, for a card and for a chat, with one body each. The bodies, by the key:
module _ (k : Text) where
  -- `Add`, `AddChat`
  unfoldable pub add_at : ContainerInfo → Tracker → Tracker × Option TrackerError
  add_at info t = elim (lookup k t.containers) [
    | some _ ↦ (t, some already_tracked)
    | none ↦ (record t { containers = insert k info t.containers }, none)
  ]

  -- `AddIfUnderLimit`, `AddChatIfUnderLimit`
  unfoldable pub add_under_limit_at : ContainerInfo → ℕ → Tracker → Tracker × Option TrackerError
  add_under_limit_at info limit t =
      if leb limit (length t.containers)
      then (t, some limit_reached)
      else elim (lookup k t.containers) [
        | some _ ↦ (t, some already_tracked)
        | none ↦ (record t { containers = insert k info t.containers }, none)
      ]

  -- `Has`, `HasChat`
  unfoldable pub has_at : Tracker → Bool
  has_at t = elim (lookup k t.containers) [ none ↦ false | some _ ↦ true ]

  -- `Snapshot`, `SnapshotChat`
  unfoldable pub snapshot_at : Tracker → Option ContainerSnapshot
  snapshot_at t = elim (lookup k t.containers) [
    | none ↦ none
    | some info ↦ some (snapshot_locked info)
  ]

  -- The part of the stdin methods under `tracker.mu`: the pointer is captured.
  unfoldable pub capture_at : Tracker → Option TrackerError × Option ℕ
  capture_at t = elim (lookup k t.containers) [
    | none ↦ (some not_tracked, none)
    | some info ↦ elim info.stdin [
      | none ↦ (some no_stdin_attached, none)
      | some a ↦ (none, some a)
    ]
  ]

abbrev pub put_stdin : (ℕ → StdinState) → ℕ → StdinState → ℕ → StdinState
put_stdin f a s b = if nat_beq a b then s else f b

-- The parts of the stdin methods under `stdin.mu`, at the captured pointer.
module _ (a : ℕ) where
  unfoldable pub write_locked : Text → Option ℕ → Tracker → Tracker × Option TrackerError
  write_locked b result t = elim (t.stdins a).writer [
    | none ↦ (t, some stdin_closed)
    | some w ↦ (
      record t { calls = wrote w b ∷ t.calls },
      elim result [ none ↦ none | some e ↦ some (io_error e) ],
    )
  ]

  unfoldable pub mark_locked : Tracker → Tracker
  mark_locked t = record t { stdins = put_stdin t.stdins a (record (t.stdins a) { writer = none }) }

  unfoldable pub close_locked : Option ℕ → Tracker → Tracker × Option TrackerError
  close_locked result t = elim (t.stdins a).writer [
    | none ↦ (t, some stdin_closed)
    | some w ↦ (
      record t {
        stdins = put_stdin t.stdins a (record (t.stdins a) { writer = none });
        calls = closed w ∷ t.calls;
      },
      elim result [ none ↦ none | some e ↦ some (io_error e) ],
    )
  ]

  -- The goroutine of `closeStdinAsync`. It runs to its end also where the watchdog stops waiting.
  unfoldable pub close_async : Tracker → Tracker
  close_async t = record t {
    stdins = put_stdin t.stdins a no_stdin;
    calls = note notified (t.stdins a).on_close (note closed (t.stdins a).writer t.calls);
  }

-- The goroutine of `closeWriterAsync`.
unfoldable pub close_writer_async : Option ℕ → Option ℕ → Tracker → Tracker
close_writer_async w on_close t = record t {
  calls = note notified on_close (note closed w t.calls);
}

module _ (k : Text) where
  -- `WriteStdin`, `WriteStdinChat`
  unfoldable pub write_stdin_at : Text → Option ℕ → Tracker → Tracker × Option TrackerError
  unfolding capture_at write_locked
  write_stdin_at b result t = elim (capture_at k t).1 [
    | none ↦ (t, (capture_at k t).0)
    | some a ↦ write_locked a b result t
  ]

  -- `CloseStdin`, `CloseStdinChat`
  unfoldable pub close_stdin_at : Option ℕ → Tracker → Tracker × Option TrackerError
  unfolding capture_at close_locked
  close_stdin_at result t = elim (capture_at k t).1 [
    | none ↦ (t, (capture_at k t).0)
    | some a ↦ close_locked a result t
  ]

  -- `MarkStdinClosed`
  unfoldable pub mark_stdin_closed_at : Tracker → Tracker × Option TrackerError
  unfolding capture_at mark_locked
  mark_stdin_closed_at t = elim (capture_at k t).1 [
    | none ↦ (t, (capture_at k t).0)
    | some a ↦ (mark_locked a t, none)
  ]

  -- `SetStdin`, `SetStdinChat`: a late arrival is closed at once; the pointer is allocated once.
  unfoldable pub set_stdin_at : Option ℕ → Option ℕ → Tracker → Tracker
  unfolding close_writer_async
  set_stdin_at w on_close t =
      let given : StdinState = record { writer = w; on_close = on_close } in
      elim (lookup k t.containers) [
        | none ↦ close_writer_async w on_close t
        | some info ↦ elim info.stdin [
          | none ↦ record t {
            containers = insert k (record info { stdin = some t.next }) t.containers;
            stdins = put_stdin t.stdins t.next given;
            next = suc t.next;
          }
          | some a ↦ record t { stdins = put_stdin t.stdins a given }
        ]
      ]

  -- The part of `Remove` and `RemoveChat` under `tracker.mu`, and the cancel.
  unfoldable pub detach_at : Tracker → Tracker
  detach_at t = elim (lookup k t.containers) [
    | none ↦ t
    | some info ↦ record t {
      containers = delete k t.containers;
      calls = note cancelled info.cancel t.calls;
    }
  ]

  unfoldable pub remove_at : Tracker → Tracker
  unfolding detach_at close_async capture_at
  remove_at t = elim (capture_at k t).1 [
    | none ↦ detach_at t
    | some a ↦ close_async a (detach_at t)
  ]

  -- `Cancel`
  unfoldable pub cancel_at : Tracker → Tracker × Bool
  cancel_at t = elim (lookup k t.containers) [
    | none ↦ (t, false)
    | some info ↦ (record t { calls = note cancelled info.cancel t.calls }, true)
  ]
