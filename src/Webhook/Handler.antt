-- ===== src/Webhook/Handler.antt =====
-- internal/webhook/handler.go: the handler's state, its replies, and what its methods share.
-- A method is a function from the state to the state and the reply.
pub mod Auth
pub mod Message
pub mod Cards
pub mod Session
pub mod Outcomes
pub mod Chats
use contextmatrix_runner.Prelude.{
  ℕ, Bool, true, false, Option, none, some, List, ◌∷◌, ◌++◌, Text, bytes, if◌then◌else◌,
}
use contextmatrix_runner.Broadcast.{LogEntry}
use contextmatrix_runner.Container.{Manager}
use contextmatrix_runner.Tracker.{
  Tracker, TrackerError, limit_reached, already_tracked, not_tracked, no_stdin_attached,
  stdin_closed, io_error,
}
use contextmatrix_runner.Webhook.DedupCache.{CachedAck, DedupCache}
use contextmatrix_runner.Webhook.Payload.{Payload}
use contextmatrix_runner.Webhook.ReplayCache.{ReplayCache}
use contextmatrix_runner.Webhook.Validate.{Url, PayloadError, invalid, unknown_type}
use contextmatrix_runner.Webhook.Validate.Dispatch.{validate_payload}

-- The codes of internal/webhook/codes.go; their spelling is contextmatrix-protocol's.
pub data Code : Type 0 where
  invalid_json invalid_field unauthorized not_found conflict forbidden over_limit too_large
        duplicate session_closed upstream_failure draining internal :
      Code

pub record CardKillResult : Type 0 where
  pub session_id : Text
  pub card_id : Text
  pub project : Text
  pub ok : Bool
  pub error : Text

pub data Body : Type 0 where
  success : Text → Body  -- `SuccessResponse` with its message
  acknowledged : Text → Body  -- `SuccessResponse` with its message id
  failure : Code → Text → Body  -- `ErrorResponse`
  raw : Text → Body  -- the bytes of a stored ack
  stop_all : Bool → ℕ → ℕ → ℕ → List CardKillResult → Body  -- `StopAllResponse`
  health : ℕ → ℕ → Body  -- `HealthResponse`
  ready : Bool → Text → Body  -- `readyResponse`
  chat_ready : Text → Body  -- `ChatStartResponse`

pub record Reply : Type 0 where
  pub status : ℕ
  pub body : Body

pub record HealthState : Type 0 where
  pub preflight_passed : Bool
  pub draining : Bool

-- The optional parts are none where the source's field is nil. The tracker is the manager's: main
-- hands both the same. A broadcaster is what was published to it, the latest first.
pub record Handler : Type 0 where
  pub manager : Manager
  pub broadcaster : Option (List LogEntry)
  pub has_cm_client : Bool
  pub mcp_url : Text
  pub max_concurrent : ℕ
  pub webhook_replay_skew : ℕ
  pub replay_cache : Option ReplayCache
  pub message_dedup : Option DedupCache
  pub health : Option HealthState

abbrev pub with_tracker : Tracker → Handler → Handler
with_tracker t h = record h { manager = record (h.manager) { tracker = t } }

-- `isDraining`
unfoldable pub is_draining : Handler → Bool
is_draining h = elim h.health [ none ↦ false | some s ↦ s.draining ]

abbrev pub write_error : ℕ → Code → Text → Reply
write_error status code msg = record { status = status; body = failure code msg }

abbrev pub write_success : ℕ → Text → Reply
write_success status msg = record { status = status; body = success msg }

abbrev pub write_raw_ack : CachedAck → Reply
write_raw_ack ack = record { status = ack.status; body = raw ack.body }

abbrev pub write_unauthorized : Reply
write_unauthorized = write_error 401 unauthorized (bytes "unauthorized")

abbrev pub write_upstream_unavailable : Reply
write_upstream_unavailable = write_error 502 upstream_failure (bytes "upstream verification failed")

abbrev pub write_validation_error : PayloadError → Reply
write_validation_error (invalid e) = write_error 400 invalid_field (bytes "invalid " ++ e.field)
write_validation_error unknown_type = write_error 400 invalid_field (bytes "invalid payload")

abbrev pub draining_reply : Reply
draining_reply = write_error 503 draining (bytes "runner is draining")

abbrev pub invalid_json_reply : Reply
invalid_json_reply = write_error 400 invalid_json (bytes "invalid JSON")

abbrev pub internal_reply : Reply
internal_reply = write_error 500 internal (bytes "internal error")

abbrev pub not_found_reply : Reply
not_found_reply = write_error 404 not_found (bytes "no container tracked")

-- The switch of /message, /promote and /end-session on an error of the stdin.
unfoldable pub stdin_error_reply : TrackerError → Reply
stdin_error_reply not_tracked = not_found_reply
stdin_error_reply stdin_closed = write_error 410 session_closed (bytes "session ended")
stdin_error_reply no_stdin_attached =
    write_error 409 conflict (bytes "container is not in interactive mode")
stdin_error_reply limit_reached = internal_reply
stdin_error_reply already_tracked = internal_reply
stdin_error_reply (io_error e) = internal_reply

-- `Publish`, where there is a broadcaster.
abbrev pub publish : LogEntry → Handler → Handler
publish entry h = elim h.broadcaster [
  | none ↦ h
  | some entries ↦ record h { broadcaster = some (entry ∷ entries) }
]

-- The prologue of the handlers: the body that does not decode, and the payload that is rejected.
-- `wrap` makes the decoded struct a payload.
abbrev pub with_payload {ℓ} :
    {P : Type ℓ}
    → (Text → Option Url)
    → (P → Payload)
    → Option P
    → Handler
    → (P → Handler × Reply)
    → Handler × Reply
with_payload parse wrap none h serve = (h, invalid_json_reply)
with_payload parse wrap (some p) h serve = elim (validate_payload parse (wrap p)) [
  | some e ↦ (h, write_validation_error e)
  | none ↦ serve p
]
