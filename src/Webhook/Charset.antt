-- ===== src/Webhook/Charset.antt =====
-- The byte classes and patterns of internal/webhook/validate.go, and the functions of Go's strings
-- and strconv that it uses. A pattern that matches has ASCII bytes only, so the bounds
-- on its length are bounds on the bytes.
use contextmatrix_runner.Prelude.{
  ℕ, suc, zero, ◌+◌, ◌/◌, ◌%◌, Bool, false, ◌&&◌, ◌||◌, [], ◌∷◌, Text, bytes, nat_beq, ltb, leb,
  between, text_beq, has_prefix, drop, length, all, if◌then◌else◌,
}

abbrev pub is_digit : ℕ → Bool
is_digit b = between 48 57 b

abbrev pub is_lower : ℕ → Bool
is_lower b = between 97 122 b

abbrev pub is_alnum : ℕ → Bool
is_alnum b = between 65 90 b || is_lower b || is_digit b

-- [A-Za-z0-9.-]
abbrev pub host_byte : ℕ → Bool
host_byte b = is_alnum b || nat_beq b 46 || nat_beq b 45

-- [A-Za-z0-9_.-]
abbrev pub ident_byte : ℕ → Bool
ident_byte b = host_byte b || nat_beq b 95

-- [A-Za-z0-9._/-]
abbrev pub branch_byte : ℕ → Bool
branch_byte b = ident_byte b || nat_beq b 47

-- [a-z0-9]
abbrev pub skill_head : ℕ → Bool
skill_head b = is_lower b || is_digit b

-- [a-z0-9.-]
abbrev pub model_byte : ℕ → Bool
model_byte b = skill_head b || nat_beq b 46 || nat_beq b 45

-- [a-z0-9._-]
abbrev pub skill_byte : ℕ → Bool
skill_byte b = model_byte b || nat_beq b 95

-- ^[class]{1,max}$
abbrev pub matches_class : (ℕ → Bool) → ℕ → Text → Bool
matches_class class max v = leb 1 (length v) && leb (length v) max && all class v

-- `identRE`
unfoldable pub ident_re : Text → Bool
ident_re v = matches_class ident_byte 64 v

-- `branchRE`
unfoldable pub branch_re : Text → Bool
branch_re v = matches_class branch_byte 200 v

-- `hostRE`
unfoldable pub host_re : Text → Bool
host_re v = leb 1 (length v) && all host_byte v

-- `messageIDRE`
unfoldable pub message_id_re : Text → Bool
message_id_re v = matches_class ident_byte 128 v

-- `taskSkillNamePattern`
unfoldable pub task_skill_name_pattern : Text → Bool
task_skill_name_pattern [] = false
task_skill_name_pattern (b ∷ v) = skill_head b && all skill_byte v

-- `chatModelPattern`: claude- and [a-z0-9.-]{1,64}
unfoldable pub chat_model_pattern : Text → Bool
chat_model_pattern v = has_prefix v (bytes "claude-") && matches_class model_byte 64 (drop 7 v)

-- `chatResumeRolePattern`
unfoldable pub chat_resume_role_pattern : Text → Bool
chat_resume_role_pattern v =
    text_beq v (bytes "user")
    || text_beq v (bytes "assistant_text")
    || text_beq v (bytes "tool_call")
    || text_beq v (bytes "tool_result_summary")
    || text_beq v (bytes "user_question")

-- strings.ToLower, on ASCII text
abbrev pub to_lower : Text → Text
to_lower [] = []
to_lower (b ∷ v) = (if between 65 90 b then b + 32 else b) ∷ to_lower v

-- fmt's %d, with fuel for the digits: a number has fewer digits than its successor counts.
abbrev pub digits : ℕ → ℕ → Text → Text
digits zero n tail = tail
digits (suc fuel) n tail =
    let rest = digits fuel (n / 10) ((48 + n % 10) ∷ tail) in
    if ltb n 10 then (48 + n) ∷ tail else rest

abbrev pub decimal : ℕ → Text
decimal n = digits (suc n) n []
