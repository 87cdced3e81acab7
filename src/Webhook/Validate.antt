-- ===== src/Webhook/Validate.antt =====
-- internal/webhook/validate.go: the checks on a decoded payload. No error is `none`.
pub mod Dispatch
pub mod Rejects
pub mod Accepted
pub mod Contents
use contextmatrix_runner.Prelude.{
  valid_utf8, ℕ, suc, ◌+◌, Bool, true, false, not, ◌&&◌, ◌||◌, Option, none, some, List, [], ◌∷◌,
  ◌++◌, Text, bytes, text_beq, is_empty, has_prefix, contains_byte, ltb, length, if◌then◌else◌,
}
use contextmatrix_runner.Webhook.Payload.{
  TriggerPayload, CardPayload, StopAllPayload, MessagePayload, ChatResumeTurn, ChatResumeContext,
  ChatStartPayload, ChatEndPayload, Payload, trigger, kill, promote, end_session, stop_all, message,
  chat_start, chat_end, nil, unknown,
}
use contextmatrix_runner.Webhook.Charset.{
  ident_re, branch_re, host_re, message_id_re, task_skill_name_pattern, chat_model_pattern,
  chat_resume_role_pattern, to_lower, decimal,
}

pub record ValidationError : Type 0 where
  pub field : Text
  pub reason : Text

-- A `*ValidationError`, or the error on a type that `ValidatePayload` does not know.
pub data PayloadError : Type 0 where
  invalid : ValidationError → PayloadError
  unknown_type : PayloadError

-- if err := first; err != nil { return err }; return second
abbrev pub or_else {ℓ} : {A : Type ℓ} → Option A → Option A → Option A
or_else none second = second
or_else (some e) second = some e

-- if test { return &ValidationError{...} }
abbrev pub reject : Bool → Text → Text → Option ValidationError → Option ValidationError
reject test field reason rest =
    if test then some (record { field = field; reason = reason }) else rest

abbrev pub max_message_content_bytes : ℕ
max_message_content_bytes = 8192

abbrev pub max_mcp_api_key_bytes : ℕ
max_mcp_api_key_bytes = 1024

abbrev pub max_task_skills : ℕ
max_task_skills = 64

abbrev pub chat_resume_max_turns : ℕ
chat_resume_max_turns = 600

abbrev pub chat_resume_max_content_bytes : ℕ
chat_resume_max_content_bytes = 4096

abbrev pub chat_primer_max_bytes : ℕ
chat_primer_max_bytes = 65536

-- strings.ContainsAny(s, "\n\r\x00")
unfoldable pub contains_ctl_bytes : Text → Bool
contains_ctl_bytes s = contains_byte s 10 || contains_byte s 13 || contains_byte s 0

unfoldable pub validate_ident : Text → Text → Option ValidationError
unfolding contains_ctl_bytes ident_re
validate_ident field v = reject (is_empty v) field (bytes "required") (
    reject (contains_ctl_bytes v) field (bytes "control bytes not allowed") (
      reject (not (ident_re v)) field (bytes "must match [A-Za-z0-9_.-]{1,64}")
        (reject (has_prefix v (bytes "-")) field (bytes "must not start with '-'") none)))

unfoldable pub validate_base_branch : Text → Option ValidationError
unfolding contains_ctl_bytes branch_re
validate_base_branch v =
    if is_empty v
    then none
    else reject (contains_ctl_bytes v) (bytes "base_branch") (bytes "control bytes not allowed") (
        reject (not (branch_re v)) (bytes "base_branch") (bytes "must match [A-Za-z0-9._/-]{1,200}")
          (reject (has_prefix v (bytes "-")) (bytes "base_branch") (bytes "must not start with '-'")
            none))

-- What the program reads of a parsed URL: `Hostname()` is without the port.
pub record Url : Type 0 where
  pub scheme : Text
  pub has_user : Bool
  pub host : Text
  pub hostname : Text

abbrev pub check_url : Option Url → Option ValidationError
check_url none = some (record { field = bytes "repo_url"; reason = bytes "unparseable" })
check_url (some u) =
    let scheme = to_lower u.scheme in
    reject (not (text_beq scheme (bytes "https")) && not (text_beq scheme (bytes "ssh")))
      (bytes "repo_url") (bytes "scheme must be https or ssh")
      (reject u.has_user (bytes "repo_url") (bytes "must not contain userinfo") (
        reject (is_empty u.host) (bytes "repo_url") (bytes "host is empty") (
          reject (is_empty u.hostname) (bytes "repo_url") (bytes "host is empty") (
            reject (not (host_re u.hostname)) (bytes "repo_url")
              (bytes "host contains disallowed characters") none))))

-- `parse` is Go's url.Parse.
unfoldable pub validate_repo_url : (Text → Option Url) → Text → Option ValidationError
unfolding contains_ctl_bytes host_re
validate_repo_url parse v = reject (is_empty v) (bytes "repo_url") (bytes "required") (
    reject (contains_ctl_bytes v) (bytes "repo_url") (bytes "control bytes not allowed")
      (check_url (parse v)))

unfoldable pub validate_content : Text → Option ValidationError
unfolding valid_utf8
validate_content v = reject (is_empty v) (bytes "content") (bytes "required") (
    reject (ltb max_message_content_bytes (length v)) (bytes "content") (bytes "exceeds 8192 bytes")
      (reject (not (valid_utf8 v)) (bytes "content") (bytes "not valid UTF-8")
        (reject (contains_byte v 0) (bytes "content") (bytes "NUL byte not allowed") none)))

unfoldable pub validate_mcp_api_key : Text → Option ValidationError
unfolding valid_utf8 contains_ctl_bytes
validate_mcp_api_key v =
    if is_empty v
    then none
    else reject (ltb max_mcp_api_key_bytes (length v)) (bytes "mcp_api_key")
        (bytes "exceeds " ++ decimal max_mcp_api_key_bytes ++ bytes " bytes")
        (reject (not (valid_utf8 v)) (bytes "mcp_api_key") (bytes "not valid UTF-8") (
          reject (contains_ctl_bytes v) (bytes "mcp_api_key") (bytes "control bytes not allowed")
            none))

unfoldable pub validate_message_id : Text → Option ValidationError
unfolding contains_ctl_bytes message_id_re
validate_message_id v =
    if is_empty v
    then none
    else reject (contains_ctl_bytes v) (bytes "message_id") (bytes "control bytes not allowed") (
        reject (not (message_id_re v)) (bytes "message_id")
          (bytes "must match [A-Za-z0-9_.-]{1,128}") none)

-- The loop over the names.
abbrev pub check_skills : List Text → Option ValidationError
check_skills [] = none
check_skills (s ∷ skills) =
    reject (not (task_skill_name_pattern s)) (bytes "task_skills")
      (bytes "name must match ^[a-z0-9][a-z0-9._-]*$") (check_skills skills)

unfoldable pub validate_task_skills : List Text → Option ValidationError
unfolding task_skill_name_pattern
validate_task_skills skills =
    reject (ltb max_task_skills (length skills)) (bytes "task_skills")
      (bytes "too many entries: "
        ++ decimal (length skills)
        ++ bytes " > "
        ++ decimal max_task_skills)
      (check_skills skills)

-- if v != "" && !chatModelPattern.MatchString(v)
unfoldable pub validate_model : Text → Option ValidationError
unfolding chat_model_pattern
validate_model v =
    reject (not (is_empty v) && not (chat_model_pattern v)) (bytes "model")
      (bytes "must match ^claude-[a-z0-9.-]{1,64}$") none

-- `validateKill`, `validatePromote` and `validateEndSession`
unfoldable pub validate_card : CardPayload → Option ValidationError
unfolding validate_ident
validate_card p =
    or_else (validate_ident (bytes "card_id") p.card_id)
      (validate_ident (bytes "project") p.project)

unfoldable pub validate_trigger : (Text → Option Url) → TriggerPayload → Option ValidationError
unfolding validate_ident validate_repo_url validate_base_branch validate_model validate_mcp_api_key
    validate_task_skills
validate_trigger parse p = or_else (validate_ident (bytes "card_id") p.card_id) (
    or_else (validate_ident (bytes "project") p.project) (
      or_else (validate_repo_url parse p.repo_url) (
        or_else (validate_base_branch p.base_branch) (
          or_else (validate_model p.model) (
            or_else (validate_mcp_api_key p.mcp_api_key)
              (elim p.task_skills [ none ↦ none | some skills ↦ validate_task_skills skills ]))))))

unfoldable pub validate_stop_all : StopAllPayload → Option ValidationError
unfolding validate_ident
validate_stop_all p =
    if is_empty p.project then none else validate_ident (bytes "project") p.project

unfoldable pub validate_message : MessagePayload → Option ValidationError
unfolding validate_ident validate_content validate_message_id
validate_message p =
    let target =
      if not (is_empty p.session_id)
      then reject (not (is_empty p.card_id) || not (is_empty p.project)) (bytes "session_id")
          (bytes "must not coexist with card_id/project")
          (validate_ident (bytes "session_id") p.session_id)
      else or_else (validate_ident (bytes "card_id") p.card_id)
          (validate_ident (bytes "project") p.project) in
    or_else target (or_else (validate_content p.content) (validate_message_id p.message_id))
