-- ===== src/Webhook/Handler/Chats.antt =====
-- internal/webhook/chat.go: `handleChatStart` and `handleChatEnd`. The stdin writes that prime a new
-- chat end within their timeout here.
use contextmatrix_runner.Prelude.{
  ℕ, Bool, not, Option, none, some, [], ◌∷◌, Text, bytes, is_empty, leb, if◌then◌else◌,
}
use contextmatrix_runner.Container.{
  Manager, attach_chat_stdin, note_call, chat_started, awaited, streamed, cleanup_deleted, stopped,
  rollback_failed,
}
use contextmatrix_runner.Tracker.{
  Tracker, TrackerError, limit_reached, already_tracked, not_tracked, no_stdin_attached,
  stdin_closed, io_error, ContainerInfo, cancelled,
}
use contextmatrix_runner.Tracker.Methods.{
  add_chat_if_under_limit, has_chat, count, remove_chat, snapshot_chat, close_stdin_chat,
  write_stdin_chat,
}
use contextmatrix_runner.Webhook.Payload.{ChatStartPayload, ChatEndPayload, chat_start, chat_end}
use contextmatrix_runner.Webhook.Validate.{Url}
use contextmatrix_runner.Webhook.Handler.{
  Handler, Reply, over_limit, conflict, upstream_failure, chat_ready, is_draining, write_error,
  write_success, draining_reply, internal_reply, not_found_reply, with_payload,
}
use contextmatrix_runner.Webhook.Handler.Message.{build_user_message}

-- What the rest of the world answers to one request: the container that `StartChat` created, none on
-- an error; the connection of `AttachChatStdin`, likewise; what other requests do to the tracker
-- while the container starts and between the first look at it and the close; the errors of the writes
-- and of the close; whether `Stop` succeeds for a container; whether another goroutine, that of
-- `WaitAndCleanupChat` or of a /chat/end, removes the chat from the tracker before the attach, after it,
-- after the primer and after the prompt (points 0 to 3); json.Marshal; the text of the rehydration prompt by the session; the stream's
-- cancel function, the worker image and the clock.
pub record World : Type 0 where
  pub created : Option Text
  pub connected : Option ℕ
  pub between : Tracker → Tracker
  pub written : Option ℕ
  pub closed : Option ℕ
  pub stops : Text → Bool
  pub leaves : ℕ → Bool
  pub marshal : Text → Option Text
  pub rehydration : Text → Text
  pub cancel : ℕ
  pub image : Text
  pub now : ℕ

abbrev pub chat_info : World → ChatStartPayload → Text → ContainerInfo
chat_info world p id = record {
  container_id = id;
  card_id = [];
  project = p.project;
  session_id = p.session_id;
  image = world.image;
  started_at = world.now;
  cancel = some world.cancel;
  reason = [];
  stdin = none;
}

abbrev pub over_limit_reply : Reply
over_limit_reply = write_error 429 over_limit (bytes "concurrency limit reached")

-- The reply to an error of the reservation.
abbrev pub reserve_error_reply : TrackerError → Reply
reserve_error_reply limit_reached = over_limit_reply
reserve_error_reply already_tracked = write_error 409 conflict (bytes "track failed")
reserve_error_reply not_tracked = write_error 409 conflict (bytes "track failed")
reserve_error_reply no_stdin_attached = write_error 409 conflict (bytes "track failed")
reserve_error_reply stdin_closed = write_error 409 conflict (bytes "track failed")
reserve_error_reply (io_error e) = write_error 409 conflict (bytes "track failed")

module _ (world : World) where
  -- `writeChatPrimingEnvelope`: its errors are logged only.
  unfoldable pub write_priming : Text → Text → Manager → Manager
  unfolding build_user_message write_stdin_chat
  write_priming session_id text m = elim (build_user_message world.marshal text) [
    | none ↦ m
    | some b ↦ record m { tracker = (write_stdin_chat session_id b world.written m.tracker).0 }
  ]

  -- What another goroutine does to the chat's entry at a point.
  unfoldable pub meanwhile : ℕ → Text → Manager → Manager
  unfolding remove_chat
  meanwhile n session_id m =
      if world.leaves n then record m { tracker = remove_chat session_id m.tracker } else m

  -- The primer, and then the rehydration prompt where there is a resume context.
  unfoldable pub prime : ChatStartPayload → Manager → Manager
  unfolding write_priming meanwhile
  prime p m =
      let primed = if not (is_empty p.primer) then write_priming p.session_id p.primer m else m in
      let m2 = meanwhile 2 p.session_id primed in
      meanwhile 3 p.session_id (elim p.resume [
        | none ↦ m2
        | some r ↦ write_priming p.session_id (world.rehydration p.session_id) m2
      ])

  -- `Stop` of a rollback: an error is counted and logged.
  abbrev pub roll_back : Text → Manager → Manager
  roll_back id m =
      let halted = note_call (stopped id) m in
      if world.stops id then halted else note_call (rollback_failed id) halted

  -- The part of `handleChatStart` after the attach: the manager, and whether there was no error.
  unfoldable pub finish_attach : ChatStartPayload → Text → Manager × Bool → Manager × Reply
  unfolding remove_chat prime meanwhile
  finish_attach p id attached =
      let m1 = meanwhile 1 p.session_id attached.0 in
      if not attached.1
      then (
        roll_back id (record m1 { tracker = remove_chat p.session_id m1.tracker }),
        write_error 502 upstream_failure (bytes "attach stdin failed"),
      )
      else (
        note_call (streamed p.session_id id) (prime p m1),
        record { status = 202; body = chat_ready id },
      )

  -- The part of `handleChatStart` after the reservation.
  unfoldable pub attach_chat : ChatStartPayload → Text → Manager → Manager × Reply
  unfolding attach_chat_stdin finish_attach meanwhile
  attach_chat p id m =
      let awaiting = meanwhile 0 p.session_id (note_call (awaited p.session_id id) m) in
      finish_attach p id (attach_chat_stdin world.connected p.session_id awaiting)

  -- The part of `handleChatStart` after `StartChat`.
  unfoldable pub reserve_chat : ChatStartPayload → ℕ → Text → Manager → Manager × Reply
  unfolding add_chat_if_under_limit attach_chat
  reserve_chat p limit id m =
      let added = add_chat_if_under_limit (chat_info world p id) limit m.tracker in
      elim added.1 [
        | some e ↦ (
          note_call (cleanup_deleted id) (
              roll_back id (record m {
                tracker = record (added.0) { calls = cancelled world.cancel ∷ (added.0).calls };
              })),
          reserve_error_reply e,
        )
        | none ↦ attach_chat p id (record m { tracker = added.0 })
      ]

  -- The part of `handleChatStart` from the payload on.
  unfoldable pub start_chat : ChatStartPayload → Handler → Handler × Reply
  unfolding has_chat count reserve_chat
  start_chat p h =
      if has_chat p.session_id h.manager.tracker
      then (h, write_error 409 conflict (bytes "session already has a container"))
      else if leb h.max_concurrent (count h.manager.tracker)
      then (h, over_limit_reply)
      else elim world.created [
        | none ↦ (
          record h { manager = note_call (chat_started p.session_id) h.manager },
          write_error 502 upstream_failure (bytes "start failed"),
        )
        | some id ↦
            let m =
              note_call (chat_started p.session_id)
                (record (h.manager) { tracker = world.between h.manager.tracker }) in
            let reserved = reserve_chat p h.max_concurrent id m in
            (record h { manager = reserved.0 }, reserved.1)
      ]

  unfoldable pub handle_chat_start :
      (Text → Option Url) → Option ChatStartPayload → Handler → Handler × Reply
  unfolding is_draining start_chat
  handle_chat_start parse decoded h =
      if is_draining h
      then (h, draining_reply)
      else with_payload parse (λ p. chat_start p) decoded h (λ p. start_chat p h)

  -- `handleChatEnd` after the close: the container is stopped whatever its stdin was.
  unfoldable pub stop_chat : ChatEndPayload → Text → Manager → Manager × Reply
  unfolding remove_chat
  stop_chat p id m = (
    note_call (stopped id) (record m { tracker = remove_chat p.session_id m.tracker }),
    write_success 202 [],
  )

  unfoldable pub close_chat : ChatEndPayload → Text → Manager → Manager × Reply
  unfolding close_stdin_chat stop_chat
  close_chat p id m =
      let closed = close_stdin_chat p.session_id world.closed m.tracker in
      let m1 = record m { tracker = closed.0 } in
      elim closed.1 [
        | none ↦ stop_chat p id m1
        | some not_tracked ↦ (m1, not_found_reply)
        | some no_stdin_attached ↦ stop_chat p id m1
        | some stdin_closed ↦ stop_chat p id m1
        | some limit_reached ↦ (m1, internal_reply)
        | some already_tracked ↦ (m1, internal_reply)
        | some (io_error e) ↦ (m1, internal_reply)
      ]

  -- The part of `handleChatEnd` from the payload on.
  unfoldable pub end_chat : ChatEndPayload → Handler → Handler × Reply
  unfolding snapshot_chat close_chat
  end_chat p h = elim (snapshot_chat p.session_id h.manager.tracker) [
    | none ↦ (h, not_found_reply)
    | some snap ↦
        let closed =
          close_chat p snap.container_id
            (record (h.manager) { tracker = world.between h.manager.tracker }) in
        (record h { manager = closed.0 }, closed.1)
  ]

  unfoldable pub handle_chat_end :
      (Text → Option Url) → Option ChatEndPayload → Handler → Handler × Reply
  unfolding is_draining end_chat
  handle_chat_end parse decoded h =
      if is_draining h
      then (h, draining_reply)
      else with_payload parse (λ p. chat_end p) decoded h (λ p. end_chat p h)
