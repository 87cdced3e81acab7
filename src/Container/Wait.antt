-- ===== src/Container/Wait.antt =====
-- internal/container/manager.go: `waitAndCleanup`. What the select meets is an argument, and so are
-- the texts that fmt prints of a number and of the two timeouts. The calls are listed in their order.
use contextmatrix_runner.Prelude.{
  ℕ, ◌≡◌, ◌∙◌, refl, Bool, true, false, not, ◌&&◌, some, List, [], ◌∷◌, ◌++◌, Text, bytes,
  text_beq_refl, nat_beq, if◌then◌else◌, arith,
}
use contextmatrix_runner.Prelude.Texts.{text_beq}
use contextmatrix_runner.Prelude.Dict.{lookup, insert, lookup-insert}
use contextmatrix_runner.Tracker.{Tracker, ContainerInfo, cancel_at, key}
use contextmatrix_runner.Tracker.Methods.{remove, reason, cancel, cancel_with_reason}
use contextmatrix_runner.Container.Idle.{kill_reason_idle, idle_kill}

-- What the select meets: the exit code, an error of the wait with whether its deadline had passed, or
-- the end of the context.
pub data Wait : Type 0 where
  exited : ℕ → Wait
  wait_error : Text → Bool → Wait
  context_done : Wait

pub data Action : Type 0 where
  killed drained reported_completed removed : Action
  emitted reported_failed : Text → Action

abbrev pub outcome_success : Text
outcome_success = bytes "success"

abbrev pub outcome_failure : Text
outcome_failure = bytes "failure"

abbrev pub outcome_timeout : Text
outcome_timeout = bytes "timeout"

abbrev pub outcome_killed : Text
outcome_killed = bytes "killed"

pub record Ended : Type 0 where
  pub tracker : Tracker
  pub actions : List Action
  pub outcome : Text

-- The steps that the three handlers share: an entry for the readers, and a report.
abbrev stop_and_report : Text → Text → List Action
stop_and_report entry message = killed ∷ drained ∷ emitted entry ∷ reported_failed message ∷ []

reason_of :
    (project card_id : Text) (info : ContainerInfo) (t : Tracker)
    → lookup (key project card_id) t.containers ≡ some info
    → reason project card_id t ≡ info.reason
unfolding reason
reason_of project card_id info t f = rw (reason, f) refl

idle_containers :
    (project card_id : Text) (info : ContainerInfo) (t : Tracker)
    → lookup (key project card_id) t.containers ≡ some info
    → (idle_kill project card_id t).0.containers
      ≡ insert (key project card_id) (record info { reason = kill_reason_idle }) t.containers
unfolding idle_kill cancel_with_reason
idle_containers project card_id info t f = ground (arith, f)

-- The reason after each kind of kill.
idle_reason :
    (project card_id : Text) (info : ContainerInfo) (t : Tracker)
    → lookup (key project card_id) t.containers ≡ some info
    → reason project card_id (idle_kill project card_id t).0 ≡ kill_reason_idle
idle_reason project card_id info t f =
    let k = key project card_id in
    let info' : ContainerInfo = record info { reason = kill_reason_idle } in
    let t' = (idle_kill project card_id t).0 in
    let saved : lookup k t'.containers ≡ some info' =
      rw (idle_containers project card_id info t f)
        (rw (lookup-insert k k info' t.containers, text_beq_refl k) refl) in
    reason_of project card_id info' t' saved

kept_reason :
    (project card_id : Text) (info : ContainerInfo) (t : Tracker)
    → lookup (key project card_id) t.containers ≡ some info
    → reason project card_id (cancel project card_id t).0 ≡ info.reason
unfolding cancel cancel_at reason lookup
kept_reason project card_id info t f = rw (reason, f) (rw f refl)

module _ (decimal : ℕ → Text) (timeout_text idle_text : Text) where
  unfoldable pub handle_exit : ℕ → List Action × Text
  handle_exit code =
      let message = bytes "container exited with code " ++ decimal code in
      if nat_beq code 0
      then (
        drained ∷ emitted (bytes "container completed") ∷ reported_completed ∷ [],
        outcome_success,
      )
      else (
        drained ∷ emitted (bytes "container failed: " ++ message) ∷ reported_failed message ∷ [],
        outcome_failure,
      )

  unfoldable pub handle_wait_timeout : List Action × Text
  handle_wait_timeout =
      let message = bytes "container timed out after " ++ timeout_text in
      (stop_and_report (bytes "container failed: " ++ message) message, outcome_timeout)

  unfoldable pub handle_wait_error : Text → List Action × Text
  handle_wait_error err =
      let message = bytes "wait error: " ++ err in
      (stop_and_report (bytes "container failed: " ++ message) message, outcome_failure)

  unfoldable pub handle_canceled : Text → Text → Tracker → List Action × Text
  handle_canceled project card_id t =
      if text_beq (reason project card_id t) kill_reason_idle
      then (
        stop_and_report (bytes "container canceled")
            (bytes "idle output timeout after " ++ idle_text),
        kill_reason_idle,
      )
      else (
        stop_and_report (bytes "container canceled") (bytes "killed by operator"),
        outcome_killed,
      )

  -- The select; the Boolean tells whether the run's context is canceled.
  unfoldable pub select_wait : Wait → Bool → Text → Text → Tracker → List Action × Text
  unfolding handle_exit handle_wait_timeout handle_wait_error handle_canceled
  select_wait (exited code) is_canceled project card_id t = handle_exit code
  select_wait (wait_error err deadline) is_canceled project card_id t =
      if deadline && not is_canceled
      then handle_wait_timeout
      else (if is_canceled then handle_canceled project card_id t else handle_wait_error err)
  select_wait context_done is_canceled project card_id t = handle_canceled project card_id t

  -- `waitAndCleanup`, its deferred calls last.
  unfoldable pub wait_and_cleanup : Wait → Bool → Text → Text → Tracker → Ended
  unfolding select_wait remove
  wait_and_cleanup wait is_canceled project card_id t =
      let ended = select_wait wait is_canceled project card_id t in
      record {
        tracker = remove project card_id t;
        actions = ended.0 ++ removed ∷ [];
        outcome = ended.1;
      }

  canceled_outcome :
      (project card_id err : Text) (deadline : Bool) (t : Tracker)
      → (wait_and_cleanup context_done true project card_id t).outcome
          ≡ (handle_canceled project card_id t).1
        × ((wait_and_cleanup (wait_error err deadline) true project card_id t).outcome
            ≡ (handle_canceled project card_id t).1)
  unfolding wait_and_cleanup select_wait
  canceled_outcome project card_id err true t = (refl, refl)
  canceled_outcome project card_id err false t = (refl, refl)

  canceled_idle :
      (project card_id : Text) (t : Tracker)
      → reason project card_id t ≡ kill_reason_idle
      → (handle_canceled project card_id t).1 ≡ kill_reason_idle
  unfolding handle_canceled
  canceled_idle project card_id t e = rw (e, text_beq_refl kill_reason_idle) refl

  canceled_killed :
      (project card_id : Text) (t : Tracker)
      → reason project card_id t ≡ []
      → (handle_canceled project card_id t).1 ≡ outcome_killed
  unfolding handle_canceled text_beq
  canceled_killed project card_id t e = rw e refl

  -- A container whose entry the idle watchdog canceled ends as an idle timeout, and one whose entry
  -- has no reason and that `Kill` canceled ends as killed: whether the select meets the end of the
  -- context or the error of the wait, and whether or not the deadline had passed too.
  pub kill_outcomes :
      (project card_id err : Text) (deadline : Bool) (info : ContainerInfo) (t : Tracker)
      → lookup (key project card_id) t.containers ≡ some info
      → info.reason ≡ []
      → let idle = (idle_kill project card_id t).0 in
        let stopped = (cancel project card_id t).0 in
        ((wait_and_cleanup context_done true project card_id idle).outcome ≡ kill_reason_idle)
        × ((wait_and_cleanup (wait_error err deadline) true project card_id idle).outcome
            ≡ kill_reason_idle)
        × ((wait_and_cleanup context_done true project card_id stopped).outcome ≡ outcome_killed)
        × ((wait_and_cleanup (wait_error err deadline) true project card_id stopped).outcome
            ≡ outcome_killed)
  kill_outcomes project card_id err deadline info t f r =
      let idle = (idle_kill project card_id t).0 in
      let stopped = (cancel project card_id t).0 in
      let timed = canceled_idle project card_id idle (idle_reason project card_id info t f) in
      let ended =
        canceled_killed project card_id stopped (kept_reason project card_id info t f ∙ r) in
      let (a, b) = canceled_outcome project card_id err deadline idle in
      let (c, d) = canceled_outcome project card_id err deadline stopped in
      (a ∙ timed, b ∙ timed, c ∙ ended, d ∙ ended)
