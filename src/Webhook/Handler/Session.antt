-- ===== src/Webhook/Handler/Session.antt =====
-- internal/webhook/handler.go: `handlePromote` and `handleEndSession`.
use contextmatrix_runner.Prelude.{
  ℕ, Bool, not, Option, none, some, [], ◌++◌, Text, bytes, if◌then◌else◌,
}
use contextmatrix_runner.Broadcast.{LogEntry}
use contextmatrix_runner.Tracker.{Tracker}
use contextmatrix_runner.Tracker.Methods.{has, write_stdin, close_stdin}
use contextmatrix_runner.Webhook.Payload.{CardPayload, promote, end_session}
use contextmatrix_runner.Webhook.Validate.{Url}
use contextmatrix_runner.Webhook.Handler.{
  Handler, Reply, forbidden, internal, with_tracker, is_draining, write_error, write_success,
  write_upstream_unavailable, draining_reply, internal_reply, not_found_reply, stdin_error_reply,
  publish, with_payload,
}
use contextmatrix_runner.Webhook.Handler.Message.{build_user_message}

abbrev pub autonomous_content : Text
autonomous_content =
    bytes "Autonomous mode has been enabled (card flag flipped). Check the card with "
    ++ bytes "`get_card` at your next gate and continue on the autonomous branch. Do "
    ++ bytes "not wait for further user input."

abbrev pub system_entry : CardPayload → Text → ℕ → LogEntry
system_entry p content now = record {
  timestamp = now;
  card_id = p.card_id;
  project = p.project;
  session_id = [];
  entry_type = bytes "system";
  content = content;
  model = [];
  usage = none;
}

-- What the rest of the world answers to one request: the card's autonomous flag as ContextMatrix
-- reports it, none on an error, json.Marshal, what other requests do to the tracker after the lookup,
-- the errors of the writer's `Write` and `Close`, and the clock.
pub record World : Type 0 where
  pub verified : Option Bool
  pub marshal : Text → Option Text
  pub between : Tracker → Tracker
  pub written : Option ℕ
  pub closed : Option ℕ
  pub now : ℕ

module _ (world : World) where
  -- The part of `handlePromote` after the verification.
  unfoldable pub switch_card : CardPayload → Handler → Handler × Reply
  unfolding build_user_message write_stdin close_stdin stdin_error_reply
  switch_card p h = elim (build_user_message world.marshal autonomous_content) [
    | none ↦ (h, internal_reply)
    | some b ↦
        let wrote =
          write_stdin p.project p.card_id b world.written (world.between h.manager.tracker) in
        elim wrote.1 [
          | some e ↦ (with_tracker (wrote.0) h, stdin_error_reply e)
          | none ↦
              let ended = close_stdin p.project p.card_id world.closed (wrote.0) in
              (
                with_tracker (ended.0)
                    (publish (system_entry p (bytes "promoted to autonomous mode") world.now) h),
                write_success 202 [],
              )
        ]
  ]

  -- The part of `handlePromote` from the payload on.
  unfoldable pub promote_card : CardPayload → Handler → Handler × Reply
  unfolding has switch_card
  promote_card p h =
      if not (has p.project p.card_id h.manager.tracker)
      then (h, not_found_reply)
      else if not h.has_cm_client
      then (h, write_error 500 internal (bytes "autonomous verification not configured"))
      else elim world.verified [
        | none ↦ (h, write_upstream_unavailable)
        | some autonomous ↦
            if not autonomous
            then (
              h,
              write_error 403 forbidden (bytes "card autonomous flag is not set on contextmatrix"),
            )
            else switch_card p h
      ]

  unfoldable pub handle_promote :
      (Text → Option Url) → Option CardPayload → Handler → Handler × Reply
  unfolding is_draining promote_card
  handle_promote parse decoded h =
      if is_draining h
      then (h, draining_reply)
      else with_payload parse (λ p. promote p) decoded h (λ p. promote_card p h)

  -- The part of `handleEndSession` from the payload on.
  unfoldable pub end_card : CardPayload → Handler → Handler × Reply
  unfolding has close_stdin stdin_error_reply
  end_card p h =
      if not (has p.project p.card_id h.manager.tracker)
      then (h, not_found_reply)
      else let ended =
          close_stdin p.project p.card_id world.closed (world.between h.manager.tracker) in
        let h1 = with_tracker (ended.0) h in
        elim ended.1 [
          | some e ↦ (h1, stdin_error_reply e)
          | none ↦ (
            publish (system_entry p (bytes "session ended (stdin closed)") world.now) h1,
            write_success 202 [],
          )
        ]

  unfoldable pub handle_end_session :
      (Text → Option Url) → Option CardPayload → Handler → Handler × Reply
  unfolding is_draining end_card
  handle_end_session parse decoded h =
      if is_draining h
      then (h, draining_reply)
      else with_payload parse (λ p. end_session p) decoded h (λ p. end_card p h)
