-- ===== src/Webhook/Validate/Contents.antt =====
-- What accepted lists are: the turns of a resumed chat, and the names of task skills.
use contextmatrix_runner.Prelude.Runes.{valid_utf8}
use contextmatrix_runner.Prelude.{
  ℕ, suc, ◌≡◌, refl, ap, ◌↔◌, true, false, not, none, List, [], ◌∷◌, ◌≤◌, Text, bytes, has_prefix,
  contains_byte, ltb, length, All, arith,
}
use contextmatrix_runner.Webhook.Payload.{ChatResumeTurn, ChatResumeContext}
use contextmatrix_runner.Webhook.Charset.{
  skill_byte, task_skill_name_pattern, chat_resume_role_pattern,
}
use contextmatrix_runner.Webhook.Validate.{check_skills, validate_task_skills}
use contextmatrix_runner.Webhook.Validate.Dispatch.{check_turns, validate_chat_resume}
use contextmatrix_runner.Webhook.Validate.Rejects.{
  class_excludes, not-false, ltb-false, le-ltb, reject-none,
}

-- A turn of a resumed chat: one of the five roles, and a content of at most 4096 bytes of valid UTF-8
-- without NUL.
pub record IsTurn (t : ChatResumeTurn) : Type 0 where
  pub role_known : chat_resume_role_pattern t.role ≡ true
  pub content_short : length t.content ≤ 4096
  pub content_utf8 : valid_utf8 t.content ≡ true
  pub content_no_nul : contains_byte t.content 0 ≡ false

check_turns_iff :
    (i : ℕ) (turns : List ChatResumeTurn) → (check_turns i turns ≡ none) ↔ All IsTurn turns
unfolding check_turns
check_turns_iff i [] = (λ h. tt, λ h. refl)
check_turns_iff i (t ∷ turns) = (
  λ h.
      let role = (reject-none (not (chat_resume_role_pattern t.role)) _ _ _).0 h in
      let short = (reject-none (ltb 4096 (length t.content)) _ _ _).0 role.1 in
      let utf8 = (reject-none (not (valid_utf8 t.content)) _ _ _).0 short.1 in
      let nul = (reject-none (contains_byte t.content 0) _ _ _).0 utf8.1 in
      (
        record {
          role_known = not-false _ role.0;
          content_short = ltb-false _ _ short.0;
          content_utf8 = not-false _ utf8.0;
          content_no_nul = nul.0;
        },
        (check_turns_iff (suc i) turns).0 nul.1,
      ),
  λ h.
      let rest = (check_turns_iff (suc i) turns).1 h.1 in
      (reject-none (not (chat_resume_role_pattern t.role)) _ _ _).1 (
        ap not h.0.role_known,
        (reject-none (ltb 4096 (length t.content)) _ _ _).1 (
          le-ltb _ _ h.0.content_short,
          (reject-none (not (valid_utf8 t.content)) _ _ _).1 (
            ap not h.0.content_utf8,
            (reject-none (contains_byte t.content 0) _ _ _).1 (h.0.content_no_nul, rest),
          ),
        ),
      ),
)

-- `validateChatResume` accepts exactly the contexts of at most 600 turns in which each turn has one of
-- the five roles and at most 4096 bytes of valid UTF-8 without NUL.
pub validate_chat_resume_iff :
    (r : ChatResumeContext)
    → (validate_chat_resume r ≡ none) ↔ ((length r.turns ≤ 600) × All IsTurn r.turns)
unfolding validate_chat_resume
validate_chat_resume_iff r = (
  λ h. (ground (arith, h), (check_turns_iff 0 r.turns).0 (ground (arith, h))),
  λ h. ground (arith, h.0, (check_turns_iff 0 r.turns).1 h.1),
)

-- A skill's name as `taskSkillNamePattern` describes it leaves the skills' directory by no path.
pub record IsSafeName (s : Text) : Type 0 where
  pub nonempty : 1 ≤ length s
  pub no_slash : contains_byte s 47 ≡ false
  pub no_nul : contains_byte s 0 ≡ false
  pub not_hidden : has_prefix s (bytes ".") ≡ false
  pub no_dash : has_prefix s (bytes "-") ≡ false

pattern-IsSafeName : (s : Text) → task_skill_name_pattern s ≡ true → IsSafeName s
unfolding task_skill_name_pattern
pattern-IsSafeName [] h = absurd (ground (arith, h))
pattern-IsSafeName (b ∷ v) h = record {
  nonempty = omega arith;
  no_slash = ground (arith, h, class_excludes skill_byte 47 v refl);
  no_nul = ground (arith, h, class_excludes skill_byte 0 v refl);
  not_hidden = ground (arith, h);
  no_dash = ground (arith, h);
}

check_skills-IsSafeName : (skills : List Text) → check_skills skills ≡ none → All IsSafeName skills
check_skills-IsSafeName [] h = tt
check_skills-IsSafeName (s ∷ skills) h =
    (pattern-IsSafeName s (ground (arith, h)), check_skills-IsSafeName skills (ground (arith, h)))

-- Where `ValidateTaskSkills` accepts a list, it has at most 64 names, and each is nonempty, holds no
-- '/' and no NUL, and begins with neither '.' nor '-'.
pub validate_task_skills-IsSafeName :
    (skills : List Text)
    → validate_task_skills skills ≡ none
    → (length skills ≤ 64) × All IsSafeName skills
unfolding validate_task_skills
validate_task_skills-IsSafeName skills h =
    (ground (arith, h), check_skills-IsSafeName skills (ground (arith, h)))
