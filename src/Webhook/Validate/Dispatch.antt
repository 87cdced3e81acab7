-- ===== src/Webhook/Validate/Dispatch.antt =====
-- internal/webhook/validate.go: the checks of the chat payloads, and the dispatch on the payload's type.
use contextmatrix_runner.Prelude.{
  valid_utf8, ℕ, suc, if◌then◌else◌, not, Option, none, some, List, [], ◌∷◌, ◌++◌, Text, bytes,
  is_empty, contains_byte, ltb, length,
}
use contextmatrix_runner.Webhook.Payload.{
  ChatResumeTurn, ChatResumeContext, ChatStartPayload, ChatEndPayload, Payload, trigger, kill,
  promote, end_session, stop_all, message, chat_start, chat_end, nil, unknown,
}
use contextmatrix_runner.Webhook.Charset.{chat_resume_role_pattern, decimal}
use contextmatrix_runner.Webhook.Validate.{
  ValidationError, PayloadError, invalid, unknown_type, Url, or_else, reject, chat_resume_max_turns,
  chat_resume_max_content_bytes, chat_primer_max_bytes, validate_ident, validate_repo_url,
  validate_model, validate_mcp_api_key, validate_card, validate_trigger, validate_stop_all,
  validate_message,
}

-- "resume.turns[%d]" and the name of the turn's field
abbrev pub turn_field : ℕ → Text → Text
turn_field i name = bytes "resume.turns[" ++ decimal i ++ bytes "]." ++ name

-- "too long: %d > %d bytes"
abbrev pub too_long : Text → ℕ → Text
too_long v max =
    bytes "too long: " ++ decimal (length v) ++ bytes " > " ++ decimal max ++ bytes " bytes"

-- The loop over the turns, from the index `i`.
unfoldable pub check_turns : ℕ → List ChatResumeTurn → Option ValidationError
unfolding chat_resume_role_pattern valid_utf8
check_turns i [] = none
check_turns i (t ∷ turns) =
    reject (not (chat_resume_role_pattern t.role)) (turn_field i (bytes "role"))
      (bytes "must match ^(user|assistant_text|tool_call|tool_result_summary|user_question)$")
      (reject (ltb chat_resume_max_content_bytes (length t.content))
        (turn_field i (bytes "content")) (too_long t.content chat_resume_max_content_bytes)
        (reject (not (valid_utf8 t.content)) (turn_field i (bytes "content"))
          (bytes "must be valid UTF-8")
          (reject (contains_byte t.content 0) (turn_field i (bytes "content"))
            (bytes "NUL byte not allowed") (check_turns (suc i) turns))))

unfoldable pub validate_chat_resume : ChatResumeContext → Option ValidationError
unfolding check_turns
validate_chat_resume r =
    reject (ltb chat_resume_max_turns (length r.turns)) (bytes "resume.turns")
      (bytes "too many turns: "
        ++ decimal (length r.turns)
        ++ bytes " > "
        ++ decimal chat_resume_max_turns)
      (check_turns 0 r.turns)

-- The part of `validateChatStart` on the primer.
unfoldable pub validate_primer : Text → Option ValidationError
unfolding valid_utf8
validate_primer v =
    if is_empty v
    then none
    else reject (ltb chat_primer_max_bytes (length v)) (bytes "primer")
        (too_long v chat_primer_max_bytes)
        (reject (not (valid_utf8 v)) (bytes "primer") (bytes "must be valid UTF-8")
          (reject (contains_byte v 0) (bytes "primer") (bytes "NUL byte not allowed") none))

unfoldable pub validate_chat_start : (Text → Option Url) → ChatStartPayload → Option ValidationError
unfolding validate_ident validate_repo_url validate_model validate_mcp_api_key validate_chat_resume
    validate_primer
validate_chat_start parse p = or_else (validate_ident (bytes "session_id") p.session_id) (
    or_else (if is_empty p.project then none else validate_ident (bytes "project") p.project) (
      or_else (if is_empty p.repo_url then none else validate_repo_url parse p.repo_url) (
        or_else (validate_model p.model) (
          or_else (validate_mcp_api_key p.mcp_api_key) (
            or_else (elim p.resume [ none ↦ none | some r ↦ validate_chat_resume r ])
              (validate_primer p.primer))))))

unfoldable pub validate_chat_end : ChatEndPayload → Option ValidationError
unfolding validate_ident
validate_chat_end p = validate_ident (bytes "session_id") p.session_id

abbrev pub as_payload_error : Option ValidationError → Option PayloadError
as_payload_error none = none
as_payload_error (some e) = some (invalid e)

-- `ValidatePayload`
unfoldable pub validate_payload : (Text → Option Url) → Payload → Option PayloadError
unfolding validate_trigger validate_card validate_stop_all validate_message validate_chat_start
    validate_chat_end
validate_payload parse (trigger p) = as_payload_error (validate_trigger parse p)
validate_payload parse (kill p) = as_payload_error (validate_card p)
validate_payload parse (promote p) = as_payload_error (validate_card p)
validate_payload parse (end_session p) = as_payload_error (validate_card p)
validate_payload parse (stop_all p) = as_payload_error (validate_stop_all p)
validate_payload parse (message p) = as_payload_error (validate_message p)
validate_payload parse (chat_start p) = as_payload_error (validate_chat_start parse p)
validate_payload parse (chat_end p) = as_payload_error (validate_chat_end p)
validate_payload parse nil = none
validate_payload parse unknown = some unknown_type
