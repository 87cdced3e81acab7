-- ===== src/Container.antt =====
-- internal/container/manager.go, the methods that the handlers call: the parts that work on the
-- shared tracker, and the calls whose Docker side is not modelled, noted in `calls`, the latest first.
pub mod Secrets
pub mod Health
pub mod Orphans
pub mod Idle
pub mod DnsCache
pub mod Wait
use contextmatrix_runner.Prelude.{ℕ, Bool, true, false, Option, none, some, List, ◌∷◌, Text}
use contextmatrix_runner.Tracker.{Tracker}
use contextmatrix_runner.Tracker.Methods.{cancel, snapshot_chat, close_stdin_chat, set_stdin_chat}

pub record RunConfig : Type 0 where
  pub card_id : Text
  pub project : Text
  pub repo_url : Text
  pub mcp_url : Text
  pub mcp_api_key : Text
  pub base_branch : Text
  pub runner_image : Text
  pub interactive : Bool
  pub model : Text
  pub correlation_id : Text
  pub task_skills : Option (List Text)

pub data ManagerCall : Type 0 where
  started : RunConfig → ManagerCall  -- `Run`
  force_removed : Text → Text → ManagerCall  -- `ForceRemoveByLabels`
  chat_started : Text → ManagerCall  -- `StartChat`
  awaited : Text → Text → ManagerCall  -- `WaitAndCleanupChat`
  streamed : Text → Text → ManagerCall  -- `StreamChatLogs`
  cleanup_deleted : Text → ManagerCall  -- `DeleteChatCleanup`
  stopped : Text → ManagerCall  -- `Stop`
  rollback_failed : Text → ManagerCall  -- the handler's counter of failed rollbacks, after `Stop`

pub record Manager : Type 0 where
  pub tracker : Tracker
  pub calls : List ManagerCall

abbrev pub note_call : ManagerCall → Manager → Manager
note_call call m = record m { calls = call ∷ m.calls }

-- `Kill`: whether there was no error.
unfoldable pub kill : Text → Text → Manager → Manager × Bool
unfolding cancel
kill project card_id m =
    let cancelled = cancel project card_id m.tracker in
    (record m { tracker = cancelled.0 }, cancelled.1)

-- `KillChat`: whether there was no error. `stops` tells whether `Stop` succeeds for a container; an
-- error of the close is logged only.
unfoldable pub kill_chat : Option ℕ → (Text → Bool) → Text → Manager → Manager × Bool
unfolding snapshot_chat close_stdin_chat
kill_chat close_result stops session_id m = elim (snapshot_chat session_id m.tracker) [
  | none ↦ (m, false)
  | some snap ↦ (
    note_call (stopped snap.container_id)
        (record m { tracker = (close_stdin_chat session_id close_result m.tracker).0 }),
    stops snap.container_id,
  )
]

-- `AttachChatStdin`: Docker's attach returns a connection, or an error. Its `Close` is the callback.
unfoldable pub attach_chat_stdin : Option ℕ → Text → Manager → Manager × Bool
unfolding set_stdin_chat
attach_chat_stdin none session_id m = (m, false)
attach_chat_stdin (some conn) session_id m =
    (record m { tracker = set_stdin_chat session_id (some conn) (some conn) m.tracker }, true)
