-- ===== src/Webhook/Payload.antt =====
-- internal/webhook/types.go: the decoded payloads, by the fields that the handlers and validators
-- read. The types are contextmatrix-protocol's.
use contextmatrix_runner.Prelude.{ℕ, Bool, Option, List, Text}

pub record TriggerPayload : Type 0 where
  pub card_id : Text
  pub project : Text
  pub repo_url : Text
  pub base_branch : Text
  pub model : Text
  pub mcp_api_key : Text
  pub runner_image : Text
  pub interactive : Bool
  pub task_skills : Option (List Text)

-- `KillPayload`, `PromotePayload` and `EndSessionPayload` have these fields.
pub record CardPayload : Type 0 where
  pub card_id : Text
  pub project : Text

pub record StopAllPayload : Type 0 where
  pub project : Text

pub record MessagePayload : Type 0 where
  pub session_id : Text
  pub card_id : Text
  pub project : Text
  pub content : Text
  pub message_id : Text

pub record ChatResumeTurn : Type 0 where
  pub seq : ℕ
  pub role : Text
  pub content : Text

pub record ChatResumeContext : Type 0 where
  pub turns : List ChatResumeTurn
  pub clipped : Bool
  pub orig_seq : ℕ

pub record ChatStartPayload : Type 0 where
  pub session_id : Text
  pub project : Text
  pub repo_url : Text
  pub model : Text
  pub mcp_api_key : Text
  pub resume : Option ChatResumeContext
  pub primer : Text

pub record ChatEndPayload : Type 0 where
  pub session_id : Text

-- What `ValidatePayload` is called with: `nil` is a nil pointer to one of the structs, `unknown` a
-- value of any other type.
pub data Payload : Type 0 where
  trigger : TriggerPayload → Payload
  kill promote end_session : CardPayload → Payload
  stop_all : StopAllPayload → Payload
  message : MessagePayload → Payload
  chat_start : ChatStartPayload → Payload
  chat_end : ChatEndPayload → Payload
  nil unknown : Payload
