-- ===== src/Webhook/Handler/Message.antt =====
-- internal/webhook/handler.go: `handleMessage`, and internal/streammsg/user.go.
use contextmatrix_runner.Prelude.{
  ℕ, Bool, not, Option, none, some, [], ◌∷◌, ◌++◌, Text, bytes, is_empty, ltb, length,
  if◌then◌else◌,
}
use contextmatrix_runner.Broadcast.{LogEntry}
use contextmatrix_runner.Tracker.{Tracker, TrackerError}
use contextmatrix_runner.Tracker.Methods.{has, has_chat, write_stdin, write_stdin_chat}
use contextmatrix_runner.Webhook.DedupCache.{CachedAck, get, get_chat, put, put_chat}
use contextmatrix_runner.Webhook.Payload.{MessagePayload, message}
use contextmatrix_runner.Webhook.Validate.{Url, max_message_content_bytes}
use contextmatrix_runner.Webhook.Validate.Dispatch.{validate_payload}
use contextmatrix_runner.Webhook.Handler.{
  Handler, Reply, acknowledged, too_large, with_tracker, is_draining, write_error, write_raw_ack,
  write_validation_error, draining_reply, invalid_json_reply, internal_reply, not_found_reply,
  stdin_error_reply, publish,
}

-- `BuildUserMessage`, from json.Marshal of the user turn with the content.
unfoldable pub build_user_message : (Text → Option Text) → Text → Option Text
build_user_message marshal content = elim (marshal content) [
  | none ↦ none
  | some b ↦ some (b ++ 10 ∷ [])
]

-- What the rest of the world answers to one request: json.Marshal of the user turn and of the ack,
-- what other requests do to the tracker between the lookup and the write, the error of the writer,
-- and the clock.
pub record World : Type 0 where
  pub marshal : Text → Option Text
  pub marshal_ack : Text → Option Text
  pub between : Tracker → Tracker
  pub written : Option ℕ
  pub now : ℕ

-- `payload.IsChat()`
abbrev pub is_chat : MessagePayload → Bool
is_chat p = not (is_empty p.session_id)

-- The cached ack of a repeated message, and the handler whose cache was asked.
unfoldable pub cached_ack : MessagePayload → ℕ → Handler → Handler × Option CachedAck
unfolding get get_chat
cached_ack p now h = if is_empty p.message_id then (h, none) else elim h.message_dedup [
  | none ↦ (h, none)
  | some c ↦
      let asked =
        if is_chat p
        then get_chat p.session_id p.message_id now c
        else get p.project p.card_id p.message_id now c in
      (record h { message_dedup = some (asked.0) }, asked.1)
]

-- `Has` or `HasChat`
unfoldable pub is_tracked : MessagePayload → Tracker → Bool
unfolding has has_chat
is_tracked p t = if is_chat p then has_chat p.session_id t else has p.project p.card_id t

-- `WriteStdin` or `WriteStdinChat`
unfoldable pub write_turn :
    MessagePayload → Text → Option ℕ → Tracker → Tracker × Option TrackerError
unfolding write_stdin write_stdin_chat
write_turn p b written t =
    if is_chat p
    then write_stdin_chat p.session_id b written t
    else write_stdin p.project p.card_id b written t

-- The entry that is published: card_id and project, or session_id.
abbrev pub user_entry : MessagePayload → ℕ → LogEntry
user_entry p now =
    if is_chat p
    then record {
      timestamp = now;
      card_id = [];
      project = [];
      session_id = p.session_id;
      entry_type = bytes "user";
      content = p.content;
      model = [];
      usage = none;
    }
    else record {
      timestamp = now;
      card_id = p.card_id;
      project = p.project;
      session_id = [];
      entry_type = bytes "user";
      content = p.content;
      model = [];
      usage = none;
    }

-- `Put` or `PutChat`, where there is a cache and a message id.
unfoldable pub store_ack : MessagePayload → CachedAck → ℕ → Handler → Handler
unfolding put put_chat
store_ack p ack now h = if is_empty p.message_id then h else elim h.message_dedup [
  | none ↦ h
  | some c ↦ record h {
    message_dedup = some (
        if is_chat p
        then put_chat p.session_id p.message_id ack now c
        else put p.project p.card_id p.message_id ack now c);
  }
]

module _ (world : World) where
  -- The ack of a message that was written, published.
  unfoldable pub acknowledge : MessagePayload → Handler → Handler × Reply
  unfolding store_ack
  acknowledge p h = elim (world.marshal_ack p.message_id) [
    | none ↦ (h, record { status = 202; body = acknowledged p.message_id })
    | some body ↦
        let ack : CachedAck = record { status = 202; body = body } in
        (store_ack p ack world.now h, write_raw_ack ack)
  ]

  -- A message that no cached ack answers: the two paths, for a card and for a chat, have one body.
  unfoldable pub deliver : MessagePayload → Handler → Handler × Reply
  unfolding is_tracked build_user_message write_turn stdin_error_reply acknowledge
  deliver p h =
      if not (is_tracked p h.manager.tracker)
      then (h, not_found_reply)
      else elim (build_user_message world.marshal p.content) [
        | none ↦ (h, internal_reply)
        | some b ↦
            let wrote = write_turn p b world.written (world.between h.manager.tracker) in
            let h1 = with_tracker (wrote.0) h in
            elim wrote.1 [
              | some e ↦ (h1, stdin_error_reply e)
              | none ↦ acknowledge p (publish (user_entry p world.now) h1)
            ]
      ]

  -- `handleMessage`, from the payload on.
  unfoldable pub serve_message : (Text → Option Url) → MessagePayload → Handler → Handler × Reply
  unfolding validate_payload cached_ack deliver
  serve_message parse p h =
      if ltb max_message_content_bytes (length p.content)
      then (h, write_error 413 too_large (bytes "content exceeds 8192 bytes"))
      else elim (validate_payload parse (message p)) [
        | some e ↦ (h, write_validation_error e)
        | none ↦
            let asked = cached_ack p world.now h in
            elim asked.1 [ some ack ↦ (asked.0, write_raw_ack ack) | none ↦ deliver p asked.0 ]
      ]

  unfoldable pub handle_message :
      (Text → Option Url) → Option MessagePayload → Handler → Handler × Reply
  unfolding is_draining serve_message
  handle_message parse decoded h =
      if is_draining h
      then (h, draining_reply)
      else elim decoded [ none ↦ (h, invalid_json_reply) | some p ↦ serve_message parse p h ]
