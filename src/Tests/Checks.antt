-- ===== src/Tests/Checks.antt =====
-- internal/webhook/validate.go at concrete data.
use contextmatrix_runner.Prelude.Runes.{utf8_from, valid_utf8}
use contextmatrix_runner.Prelude.{
  ◌≡◌, refl, ◌≢◌, ◌≤◌, ◌↔◌, true, false, Option, none, some, List, [], ◌∷◌, Text, bytes, length,
  All, arith,
}
use contextmatrix_runner.Prelude.Texts.{text_beq}
use contextmatrix_runner.Webhook.Payload.{TriggerPayload, ChatResumeContext, trigger, unknown}
use contextmatrix_runner.Webhook.Charset.{
  ident_re, branch_re, host_re, task_skill_name_pattern, chat_model_pattern,
  chat_resume_role_pattern,
}
use contextmatrix_runner.Webhook.Validate.{
  Url, unknown_type, contains_ctl_bytes, validate_ident, validate_repo_url, validate_task_skills,
  validate_trigger,
}
use contextmatrix_runner.Webhook.Validate.Dispatch.{
  validate_payload, validate_chat_resume, check_turns,
}
use contextmatrix_runner.Webhook.Validate.Accepted.{IsIdent, validate_ident_iff}
use contextmatrix_runner.Webhook.Validate.Contents.{
  IsTurn, IsSafeName, validate_chat_resume_iff, validate_task_skills-IsSafeName,
}

-- A parser that knows one URL.
abbrev pub parse : Text → Option Url
parse v = some (record {
  scheme = bytes "https";
  has_user = false;
  host = bytes "github.com:443";
  hostname = bytes "github.com";
})

abbrev pub payload : TriggerPayload
payload = record {
  card_id = bytes "A-1";
  project = bytes "proj";
  repo_url = bytes "https://github.com:443/o/r";
  base_branch = bytes "refs/heads/main";
  model = bytes "claude-opus";
  mcp_api_key = [];
  runner_image = bytes "worker";
  interactive = true;
  task_skills = some (bytes "go-dev" ∷ []);
}

pub payload_accepted : validate_payload parse (trigger payload) ≡ none
unfolding validate_payload validate_trigger ident_re branch_re host_re task_skill_name_pattern
    chat_model_pattern contains_ctl_bytes text_beq
payload_accepted = refl

rejected_dash : validate_ident (bytes "card_id") (bytes "-rf") ≢ none
unfolding validate_ident
rejected_dash e = ground (arith, e)

unknown_rejected : validate_payload parse unknown ≡ some unknown_type
unfolding validate_payload
unknown_rejected = refl

euro_valid : valid_utf8 (226 ∷ 130 ∷ 172 ∷ []) ≡ true
unfolding valid_utf8 utf8_from
euro_valid = refl

surrogate_invalid : valid_utf8 (237 ∷ 160 ∷ 128 ∷ []) ≡ false
unfolding valid_utf8 utf8_from
surrogate_invalid = refl

validate_ident_iff_example :
    (validate_ident (bytes "project") (bytes "proj") ≡ none) ↔ IsIdent (bytes "proj")
validate_ident_iff_example = validate_ident_iff (bytes "project") (bytes "proj")

url_accepted : validate_repo_url parse payload.repo_url ≡ none
unfolding validate_repo_url text_beq
url_accepted = refl

abbrev resume : ChatResumeContext
resume = record {
  turns = record { seq = 1; role = bytes "user"; content = bytes "hello" } ∷ [];
  clipped = false;
  orig_seq = 1;
}

validate_chat_resume_iff_example :
    (validate_chat_resume resume ≡ none) ↔ ((length resume.turns ≤ 600) × All IsTurn resume.turns)
validate_chat_resume_iff_example = validate_chat_resume_iff resume

resume_accepted : validate_chat_resume resume ≡ none
unfolding validate_chat_resume check_turns chat_resume_role_pattern valid_utf8 utf8_from text_beq
resume_accepted = refl

abbrev skills : List Text
skills = bytes "go-dev" ∷ bytes "k8s.ops" ∷ []

skills_accepted : validate_task_skills skills ≡ none
unfolding validate_task_skills task_skill_name_pattern
skills_accepted = refl

validate_task_skills-IsSafeName_example : (length skills ≤ 64) × All IsSafeName skills
validate_task_skills-IsSafeName_example = validate_task_skills-IsSafeName skills skills_accepted
