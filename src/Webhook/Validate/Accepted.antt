-- ===== src/Webhook/Validate/Accepted.antt =====
-- What an accepted name, URL or trigger is, and what the tracker's keys gain from it.
use contextmatrix_runner.Prelude.{
  ◌≡◌, refl, ◌↔◌, ◌⊎◌, inl, inr, true, false, not, ◌&&◌, Option, none, some, ◌≤◌, Text, bytes,
  is_empty, has_prefix, contains_byte, text_beq, text_beq_iff, length, all, Bool-cases, arith,
}
use contextmatrix_runner.Tracker.{key}
use contextmatrix_runner.Tracker.Keys.{HasNoSlash, key_injective}
use contextmatrix_runner.Webhook.Payload.{TriggerPayload, trigger}
use contextmatrix_runner.Webhook.Charset.{to_lower, host_byte, ident_byte, host_re}
use contextmatrix_runner.Webhook.Validate.{
  Url, validate_ident, contains_ctl_bytes, check_url, validate_repo_url, validate_trigger,
}
use contextmatrix_runner.Webhook.Validate.Dispatch.{validate_payload}
use contextmatrix_runner.Webhook.Validate.Rejects.{
  class_excludes, not-false, reject-none, as_payload_error-none, or_else-none,
}

-- A name as `validateIdent` describes it: 1 to 64 bytes of [A-Za-z0-9_.-], not first '-'.
pub record IsIdent (v : Text) : Type 0 where
  pub nonempty : 1 ≤ length v
  pub short : length v ≤ 64
  pub charset : all ident_byte v ≡ true
  pub no_dash : has_prefix v (bytes "-") ≡ false

-- `validateIdent` accepts exactly the names of 1 to 64 bytes of [A-Za-z0-9_.-] that do not begin
-- with '-': its separate test for control bytes rejects nothing more.
pub validate_ident_iff : (field v : Text) → (validate_ident field v ≡ none) ↔ IsIdent v
unfolding validate_ident
validate_ident_iff field v = (
  λ h. record {
    nonempty = ground (arith, h);
    short = ground (arith, h);
    charset = ground (arith, h);
    no_dash = ground (arith, h);
  },
  λ i. ground (
    arith,
    i.nonempty,
    i.short,
    i.charset,
    i.no_dash,
    class_excludes ident_byte 10 v refl i.charset,
    class_excludes ident_byte 13 v refl i.charset,
    class_excludes ident_byte 0 v refl i.charset,
  ),
)

IsIdent-HasNoSlash : (v : Text) → IsIdent v → HasNoSlash v
IsIdent-HasNoSlash v i = class_excludes ident_byte 47 v refl i.charset

-- Both names of an accepted trigger.
trigger-IsIdent :
    (parse : Text → Option Url) (p : TriggerPayload)
    → validate_payload parse (trigger p) ≡ none
    → IsIdent p.card_id × IsIdent p.project
unfolding validate_payload validate_trigger
trigger-IsIdent parse p h =
    let card =
      or_else-none (validate_ident (bytes "card_id") p.card_id) _ (as_payload_error-none _ h) in
    let project = or_else-none (validate_ident (bytes "project") p.project) _ card.1 in
    ((validate_ident_iff _ p.card_id).0 card.0, (validate_ident_iff _ p.project).0 project.0)

-- Two triggers that `ValidatePayload` accepts and that the tracker files under the same key are for
-- the same project and the same card.
pub accepted_triggers-key :
    (parse : Text → Option Url) (p q : TriggerPayload)
    → validate_payload parse (trigger p) ≡ none
    → validate_payload parse (trigger q) ≡ none
    → key p.project p.card_id ≡ key q.project q.card_id
    → (p.project ≡ q.project) × (p.card_id ≡ q.card_id)
accepted_triggers-key parse p q hp hq e =
    key_injective p.project p.card_id q.project q.card_id
      (IsIdent-HasNoSlash _ (trigger-IsIdent parse p hp).1)
      (IsIdent-HasNoSlash _ (trigger-IsIdent parse q hq).1) e

host_re_lem : (v : Text) → host_re v ≡ true → (1 ≤ length v) × (all host_byte v ≡ true)
unfolding host_re
host_re_lem v h = (ground (arith, h), ground (arith, h))

scheme_known :
    (s : Text)
    → (not (text_beq s (bytes "https")) && not (text_beq s (bytes "ssh"))) ≡ false
    → (s ≡ bytes "https") ⊎ (s ≡ bytes "ssh")
scheme_known s h = elim (Bool-cases (text_beq s (bytes "https"))) [
  | inl e ↦ inl ((text_beq_iff s (bytes "https")).0 e)
  | inr e ↦ inr ((text_beq_iff s (bytes "ssh")).0 (ground (arith, h, e)))
]

check_url_lem :
    (parsed : Option Url)
    → check_url parsed ≡ none
    → ((u : Url) × (parsed ≡ some u)
        × ((to_lower u.scheme ≡ bytes "https") ⊎ (to_lower u.scheme ≡ bytes "ssh"))
        × (u.has_user ≡ false)
        × (1 ≤ length u.hostname)
        × (all host_byte u.hostname ≡ true))
check_url_lem none h = absurd (ground (arith, h))
check_url_lem (some u) h =
    let scheme =
      (reject-none
          (not (text_beq (to_lower u.scheme) (bytes "https"))
            && not (text_beq (to_lower u.scheme) (bytes "ssh")))
          _ _ _).0
        h in
    let user = (reject-none u.has_user _ _ _).0 scheme.1 in
    let host = (reject-none (is_empty u.host) _ _ _).0 user.1 in
    let name = (reject-none (is_empty u.hostname) _ _ _).0 host.1 in
    let charset = (reject-none (not (host_re u.hostname)) _ _ _).0 name.1 in
    let matched = host_re_lem u.hostname (not-false _ charset.0) in
    (u, refl, scheme_known (to_lower u.scheme) scheme.0, user.0, matched.0, matched.1)

-- Where `validateRepoURL` accepts: the text is nonempty without newline, carriage return and NUL, and
-- it parses to an https or ssh URL without userinfo, with a nonempty host of [A-Za-z0-9.-].
pub validate_repo_url_lem :
    (parse : Text → Option Url) (v : Text)
    → validate_repo_url parse v ≡ none
    → (contains_byte v 10 ≡ false)
      × (contains_byte v 13 ≡ false)
      × (contains_byte v 0 ≡ false)
      × ((u : Url) × (parse v ≡ some u)
          × ((to_lower u.scheme ≡ bytes "https") ⊎ (to_lower u.scheme ≡ bytes "ssh"))
          × (u.has_user ≡ false)
          × (1 ≤ length u.hostname)
          × (all host_byte u.hostname ≡ true))
unfolding validate_repo_url
validate_repo_url_lem parse v h =
    let full = reject-none (is_empty v) _ _ _ in
    let ctl = (reject-none (contains_ctl_bytes v) _ _ _).0 ((full.0 h).1) in
    (
      ground (arith, ctl.0),
      ground (arith, ctl.0),
      ground (arith, ctl.0),
      check_url_lem (parse v) ctl.1,
    )
