-- ===== src/Container/Secrets.antt =====
-- internal/container/secrets_refresher.go: the file of secrets that a worker's shell reads, and the loop
-- that rewrites it before the token expires. Durations and times are in nanoseconds.
pub mod Shell
pub mod Pace
pub mod Atomic
pub mod Startup
use contextmatrix_runner.Prelude.{
  ℕ, zero, suc, ◌+◌, ◌-◌, ◌*◌, ◌^◌, Bool, true, false, not, ◌&&◌, ◌||◌, Option, none, some, List,
  [], ◌∷◌, ◌++◌, Text, bytes, is_empty, text_beq, nat_beq, ltb, leb, between, all, if◌then◌else◌,
}
use contextmatrix_runner.Config.{Config}

-- `IsValidStaticSecretByte`
abbrev pub is_valid_static_secret_byte : ℕ → Bool
is_valid_static_secret_byte b = between 32 126 b

-- `validateStaticSecretValue`: whether there is no error.
abbrev pub validate_static_secret_value : Text → Bool
validate_static_secret_value v = all is_valid_static_secret_byte v

-- [A-Za-z0-9_-]
abbrev pub is_token_byte : ℕ → Bool
is_token_byte c =
    between 65 90 c || between 97 122 c || between 48 57 c || nat_beq c 95 || nat_beq c 45

-- `shellSingleQuoteEscape`
unfoldable pub shell_single_quote_escape : Text → Text
shell_single_quote_escape [] = []
shell_single_quote_escape (b ∷ s) =
    let rest = shell_single_quote_escape s in
    if nat_beq b 39 then 39 ∷ 92 ∷ 39 ∷ 39 ∷ rest else b ∷ rest

-- The order of Go's strings.
abbrev pub text_ltb : Text → Text → Bool
text_ltb s [] = false
text_ltb [] (b ∷ t) = true
text_ltb (a ∷ s) (b ∷ t) = ltb a b || (nat_beq a b && text_ltb s t)

-- A map with its keys sorted: a new key, or a new value of a key.
unfoldable pub put_sorted : Text → Text → List (Text × Text) → List (Text × Text)
put_sorted k v [] = (k, v) ∷ []
put_sorted k v (e ∷ l) =
    let rest = put_sorted k v l in
    if text_beq k e.0 then (k, v) ∷ l else if text_ltb k e.0 then (k, v) ∷ e ∷ l else e ∷ rest

abbrev pub sort_entries : List (Text × Text) → List (Text × Text)
sort_entries [] = []
sort_entries (e ∷ l) = put_sorted e.0 e.1 (sort_entries l)

abbrev pub has_key : Text → List (Text × Text) → Bool
has_key k [] = false
has_key k (e ∷ l) = text_beq k e.0 || has_key k l

abbrev pub git_token_key : Text
git_token_key = bytes "CM_GIT_TOKEN"

-- export KEY='value'
abbrev pub export_line : Text × Text → Text → Text
export_line e rest =
    bytes "export " ++ e.0 ++ 61 ∷ 39 ∷ (shell_single_quote_escape e.1 ++ 39 ∷ 10 ∷ rest)

unfoldable pub export_lines : List (Text × Text) → Text
unfolding shell_single_quote_escape
export_lines [] = []
export_lines (e ∷ l) = export_line e (export_lines l)

-- `buildStaticAuthEnv` of internal/container/manager.go
unfoldable pub build_static_auth_env : Config → List (Text × Text)
build_static_auth_env cfg =
    if not (is_empty cfg.claude_auth_dir)
    then []
    else if not (is_empty cfg.claude_oauth_token)
    then (bytes "CLAUDE_CODE_OAUTH_TOKEN", cfg.claude_oauth_token) ∷ []
    else if not (is_empty cfg.anthropic_api_key)
    then (bytes "ANTHROPIC_API_KEY", cfg.anthropic_api_key) ∷ []
    else []

pub data RenderError : Type 0 where
  static_git_token_forbidden invalid_token_chars invalid_static_secret_chars : RenderError

pub data Rendered : Type 0 where
  refused : RenderError → Rendered
  body : Text → Rendered

-- `renderSecretsFile`. The map is the list of its entries.
unfoldable pub render_secrets_file : Text → List (Text × Text) → Rendered
unfolding export_lines put_sorted
render_secrets_file git_token static =
    if has_key git_token_key static
    then refused static_git_token_forbidden
    else if not (all is_token_byte git_token)
    then refused invalid_token_chars
    else if not (all (λ (e : Text × Text). validate_static_secret_value e.1) static)
    then refused invalid_static_secret_chars
    else body (export_lines (put_sorted git_token_key git_token (sort_entries static)))

abbrev pub second : ℕ
second = 1_000_000_000

-- `tokenExpiryBuffer`
abbrev pub token_expiry_buffer : ℕ
token_expiry_buffer = 600 * second

-- `maxBackoff`
abbrev pub max_backoff : ℕ
max_backoff = 300 * second

abbrev pub clamp_backoff_streak_threshold : ℕ
clamp_backoff_streak_threshold = 3

-- `clampBackoffFloor` and `clampBackoffCeiling`
abbrev pub clamp_backoff_floor : ℕ
clamp_backoff_floor = second

abbrev pub clamp_backoff_ceiling : ℕ
clamp_backoff_ceiling = 30 * second

-- `nextWake`: none is a token without an expiry. A negative difference is 0 here, and below a second
-- too.
unfoldable pub next_wake : ℕ → Option ℕ → ℕ × Bool
next_wake now none = (3600 * second, false)
next_wake now (some expires_at) =
    let d = expires_at - now - token_expiry_buffer in
    if ltb d second then (second, true) else (d, false)

-- `clampBackoffDuration`
unfoldable pub clamp_backoff_duration : ℕ → ℕ
clamp_backoff_duration streak =
    let excess = streak - clamp_backoff_streak_threshold in
    let d = clamp_backoff_floor * 2 ^ (excess - 1) in
    if ltb excess 1
    then clamp_backoff_floor
    else if leb 30 (excess - 1)
    then clamp_backoff_ceiling
    else if ltb clamp_backoff_ceiling d
    then clamp_backoff_ceiling
    else d

-- `nextBackoff`
unfoldable pub next_backoff : ℕ → ℕ → ℕ
next_backoff d limit = if ltb limit (d * 2) then limit else d * 2

-- The loop's variable and the refresher's count of clamped wakes.
pub record Pacing : Type 0 where
  pub backoff : ℕ
  pub clamped_streak_count : ℕ

-- What `doOneRefresh` returns: an error, or the expiry, with the time after it.
pub data Outcome : Type 0 where
  failed : Outcome
  minted : ℕ → Option ℕ → Outcome

-- One round of `Run`: how long it sleeps, and the state after the sleep.
unfoldable pub run_round : Outcome → Pacing → ℕ × Pacing
unfolding next_wake clamp_backoff_duration next_backoff
run_round failed p = (p.backoff, record p { backoff = next_backoff p.backoff max_backoff })
run_round (minted now expires_at) p =
    let w = next_wake now expires_at in
    let streak = p.clamped_streak_count + 1 in
    if w.1
    then (
      if ltb clamp_backoff_streak_threshold streak then clamp_backoff_duration streak else w.0,
      record { backoff = second; clamped_streak_count = streak },
    )
    else (w.0, record { backoff = second; clamped_streak_count = 0 })

-- The sleeps of `Run` over the outcomes of its refreshes.
unfoldable pub run_rounds : List Outcome → Pacing → List ℕ
unfolding run_round
run_rounds [] p = []
run_rounds (o ∷ l) p = let t = run_round o p in t.0 ∷ run_rounds l t.1

unfoldable pub run : List Outcome → List ℕ
unfolding run_rounds
run outcomes = run_rounds outcomes (record { backoff = second; clamped_streak_count = 0 })

-- The files that `writeSecretsFileAtomic` works on, none where there is no file.
pub record Files : Type 0 where
  pub target : Option Text
  pub tmp : Option Text

-- The call that fails, if one does; a write that fails has written some bytes.
pub data Fault : Type 0 where
  on_open on_chmod on_sync on_close on_rename no_fault : Fault
  on_write : Text → Fault

-- `writeSecretsFileAtomic`: the states that a reader may see, the last one first, and whether there is
-- no error.
unfoldable pub write_secrets_file_atomic : Fault → Text → Files → List Files × Bool
write_secrets_file_atomic on_open content f = (f ∷ [], false)
write_secrets_file_atomic on_chmod content f =
    let opened = record f { tmp = some [] } in (record f { tmp = none } ∷ opened ∷ f ∷ [], false)
write_secrets_file_atomic (on_write part) content f =
    let opened = record f { tmp = some [] } in
    (record f { tmp = none } ∷ record f { tmp = some part } ∷ opened ∷ f ∷ [], false)
write_secrets_file_atomic on_sync content f =
    let written = record f { tmp = some content } in
    (record f { tmp = none } ∷ written ∷ record f { tmp = some [] } ∷ f ∷ [], false)
write_secrets_file_atomic on_close content f =
    let written = record f { tmp = some content } in
    (record f { tmp = none } ∷ written ∷ record f { tmp = some [] } ∷ f ∷ [], false)
write_secrets_file_atomic on_rename content f =
    let written = record f { tmp = some content } in
    (record f { tmp = none } ∷ written ∷ record f { tmp = some [] } ∷ f ∷ [], false)
write_secrets_file_atomic no_fault content f =
    let written = record f { tmp = some content } in
    (
      record { target = some content; tmp = none } ∷ written ∷ record f { tmp = some [] } ∷ f ∷ [],
      true,
    )
