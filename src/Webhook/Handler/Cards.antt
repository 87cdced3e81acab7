-- ===== src/Webhook/Handler/Cards.antt =====
-- internal/webhook/handler.go and health.go: `handleTrigger`, `handleKill`, `handleStopAll`,
-- `handleHealth` and `handleReadyz`.
use contextmatrix_runner.Prelude.{
  ℕ, suc, Bool, true, false, not, Option, none, some, List, [], ◌∷◌, ◌++◌, Text, bytes, is_empty,
  ltb, length, if◌then◌else◌,
}
use contextmatrix_runner.Container
use contextmatrix_runner.Container.{
  Manager, RunConfig, started, force_removed, note_call, kill_chat,
}
use contextmatrix_runner.Tracker.{
  Tracker, TrackerError, limit_reached, already_tracked, not_tracked, no_stdin_attached,
  stdin_closed, io_error, ContainerInfo, ContainerSnapshot, cancelled,
}
use contextmatrix_runner.Tracker.Methods.{
  add_if_under_limit, has, count, all_snapshots, list_snapshots_by_project,
}
use contextmatrix_runner.Webhook.Payload.{
  TriggerPayload, CardPayload, StopAllPayload, Payload, trigger,
}
use contextmatrix_runner.Webhook.Validate.{Url}
use contextmatrix_runner.Webhook.Handler.{
  Handler, Reply, CardKillResult, Body, over_limit, conflict, internal, health, ready, with_tracker,
  is_draining, write_error, write_success, draining_reply, internal_reply, with_payload,
}

-- What `handleTrigger` tracks: `cancel` stands for the cancel function of the detached context.
abbrev pub info_of : TriggerPayload → ℕ → ℕ → ContainerInfo
info_of p cancel now = record {
  container_id = [];
  card_id = p.card_id;
  project = p.project;
  session_id = [];
  image = p.runner_image;
  started_at = now;
  cancel = some cancel;
  reason = [];
  stdin = none;
}

abbrev pub config_of : TriggerPayload → Text → Text → RunConfig
config_of p mcp_url correlation_id = record {
  card_id = p.card_id;
  project = p.project;
  repo_url = p.repo_url;
  mcp_url = mcp_url;
  mcp_api_key = p.mcp_api_key;
  base_branch = p.base_branch;
  runner_image = p.runner_image;
  interactive = p.interactive;
  model = p.model;
  correlation_id = correlation_id;
  task_skills = p.task_skills;
}

abbrev pub add_error_reply : TrackerError → Reply
add_error_reply limit_reached = write_error 429 over_limit (bytes "concurrency limit reached")
add_error_reply already_tracked = write_error 409 conflict (bytes "conflicting container state")
add_error_reply not_tracked = internal_reply
add_error_reply no_stdin_attached = internal_reply
add_error_reply stdin_closed = internal_reply
add_error_reply (io_error e) = internal_reply

-- The part of `handleTrigger` from the payload on.
unfoldable pub start_card : TriggerPayload → ℕ → Text → ℕ → Handler → Handler × Reply
unfolding add_if_under_limit
start_card p cancel correlation_id now h =
    let added = add_if_under_limit (info_of p cancel now) h.max_concurrent h.manager.tracker in
    elim added.1 [
      | some e ↦ (
        with_tracker (record (added.0) { calls = cancelled cancel ∷ (added.0).calls }) h,
        add_error_reply e,
      )
      | none ↦ (
        record h {
          manager =
              note_call (started (config_of p h.mcp_url correlation_id))
                (record (h.manager) { tracker = added.0 });
        },
        write_success 202 (bytes "container starting"),
      )
    ]

unfoldable pub handle_trigger :
    (Text → Option Url) → Option TriggerPayload → ℕ → Text → ℕ → Handler → Handler × Reply
unfolding is_draining start_card
handle_trigger parse decoded cancel correlation_id now h =
    if is_draining h
    then (h, draining_reply)
    else with_payload parse (λ p. trigger p) decoded h
        (λ p. start_card p cancel correlation_id now h)

-- The part of `handleKill` from the payload on. `forced` is the result of `ForceRemoveByLabels`, none
-- where it fails, `between` what other requests do to the tracker between its lookup and the kill.
unfoldable pub kill_card : CardPayload → Option ℕ → (Tracker → Tracker) → Handler → Handler × Reply
unfolding has Container.kill
kill_card p forced between h =
    if not (has p.project p.card_id h.manager.tracker)
    then (
      record h { manager = note_call (force_removed p.project p.card_id) h.manager },
      elim forced [
        | none ↦ write_error 500 internal (bytes "kill failed")
        | some removed ↦
            if ltb 0 removed
            then write_success 200 (bytes "force-removed")
            else write_success 200 (bytes "no-op (already stopped)")
      ],
    )
    else let killed =
        Container.kill p.project p.card_id
          (record (h.manager) { tracker = between h.manager.tracker }) in
      (
        record h { manager = killed.0 },
        if not killed.1
            then write_error 500 internal (bytes "kill failed")
            else write_success 200 (bytes "container killed"),
      )

unfoldable pub handle_kill :
    (Text → Option Url)
    → Option CardPayload
    → Option ℕ
    → (Tracker → Tracker)
    → Handler
    → Handler × Reply
unfolding kill_card
handle_kill parse decoded forced between h =
    with_payload parse (λ p. Payload.kill p) decoded h (λ p. kill_card p forced between h)

-- The counters and the results of the loop of `handleStopAll`.
pub record Tally : Type 0 where
  pub manager : Manager
  pub killed : ℕ
  pub failed : ℕ
  pub results : List CardKillResult

module _ (close_result : Option ℕ) (stops : Text → Bool) where
  -- One round: a chat by its session, a card by project and card id.
  unfoldable pub stop_one : ContainerSnapshot → Manager → Manager × Bool
  unfolding Container.kill kill_chat
  stop_one info m =
      if not (is_empty info.session_id)
      then kill_chat close_result stops info.session_id m
      else Container.kill info.project info.card_id m

  abbrev pub kill_error : Bool → Text
  kill_error ok = if ok then [] else bytes "kill failed"

  abbrev pub result_of : ContainerSnapshot → Bool → CardKillResult
  result_of info ok =
      if not (is_empty info.session_id)
      then record {
        session_id = info.session_id;
        card_id = [];
        project = info.project;
        ok = ok;
        error = kill_error ok;
      }
      else record {
        session_id = [];
        card_id = info.card_id;
        project = info.project;
        ok = ok;
        error = kill_error ok;
      }

  -- The loop, with the rounds so far in the tally; `results` grows at its end.
  unfoldable pub stop_each : List ContainerSnapshot → Tally → Tally
  unfolding stop_one
  stop_each [] tally = tally
  stop_each (info ∷ infos) tally =
      let done = stop_one info tally.manager in
      stop_each infos (record {
        manager = done.0;
        killed = if done.1 then suc tally.killed else tally.killed;
        failed = if done.1 then tally.failed else suc tally.failed;
        results = tally.results ++ result_of info done.1 ∷ [];
      })

  unfoldable pub stop_all_of : StopAllPayload → Handler → Handler × Reply
  unfolding all_snapshots list_snapshots_by_project stop_each
  stop_all_of p h =
      let infos =
        if not (is_empty p.project)
        then list_snapshots_by_project p.project h.manager.tracker
        else all_snapshots h.manager.tracker in
      let tally =
        stop_each infos (record { manager = h.manager; killed = 0; failed = 0; results = [] }) in
      let some_failed = ltb 0 tally.failed in
      (
        record h { manager = tally.manager },
        record {
          status = if some_failed then 207 else 200;
          body =
              Body.stop_all (not some_failed) (length infos) tally.killed tally.failed
                tally.results;
        },
      )

  unfoldable pub handle_stop_all :
      (Text → Option Url) → Option StopAllPayload → Handler → Handler × Reply
  unfolding stop_all_of
  handle_stop_all parse decoded h =
      with_payload parse (λ p. Payload.stop_all p) decoded h (λ p. stop_all_of p h)

unfoldable pub handle_health : Handler → Reply
unfolding count
handle_health h = record { status = 200; body = health (count h.manager.tracker) h.max_concurrent }

unfoldable pub handle_readyz : Handler → Reply
handle_readyz h = elim h.health [
  | none ↦ record { status = 200; body = ready true [] }
  | some s ↦
      if s.draining
      then record { status = 503; body = ready false (bytes "draining") }
      else if not s.preflight_passed
      then record { status = 503; body = ready false (bytes "preflight") }
      else record { status = 200; body = ready true [] }
]
