-- ===== src/Config.antt =====
-- internal/config/config.go: the defaults and the checks of a configuration, and internal/secretenv. Of
-- a YAML integer the sign matters, so it is a ℤ; a duration is one of nanoseconds. url.Parse,
-- time.ParseDuration, os.Stat and json.Valid are parameters.
pub mod Checks
pub mod Accepted
pub mod Pinned
use contextmatrix_runner.Prelude.{
  ℕ, zero, suc, Bool, true, false, not, ◌&&◌, ◌||◌, Option, none, some, List, [], ◌∷◌, ◌++◌, Text,
  bytes, text_beq, is_empty, has_prefix, nat_beq, ltb, leb, between, length, drop, all, map,
  if◌then◌else◌,
}

pub data ℤ : Type 0 where
  pos : ℕ → ℤ
  negsuc : ℕ → ℤ

abbrev pub is_negative : ℤ → Bool
is_negative (pos n) = false
is_negative (negsuc n) = true

abbrev pub is_zero : ℤ → Bool
is_zero (pos n) = nat_beq n 0
is_zero (negsuc n) = false

-- i > n
abbrev pub exceeds : ℕ → ℤ → Bool
exceeds n (pos i) = ltb n i
exceeds n (negsuc i) = false

-- i == j
abbrev pub same_int : ℤ → ℤ → Bool
same_int (pos i) (pos j) = nat_beq i j
same_int (pos i) (negsuc j) = false
same_int (negsuc i) (pos j) = false
same_int (negsuc i) (negsuc j) = nat_beq i j

pub record GithubConfig : Type 0 where
  pub auth_mode : Text
  pub host : Text
  pub api_base_url : Text
  pub app_id : ℤ
  pub installation_id : ℤ
  pub private_key_path : Text
  pub pat_token : Text

pub record UnpinnedImageRef : Type 0 where
  pub field : Text
  pub image : Text

-- `Config`, less the fields that neither `ApplyDefaults` nor `Validate` reads.
pub record Config : Type 0 where
  pub port : ℤ
  pub admin_port : ℤ
  pub contextmatrix_url : Text
  pub container_contextmatrix_url : Text
  pub api_key : Text
  pub base_image : Text
  pub allowed_images : List Text
  pub image_pull_policy : Text
  pub max_concurrent : ℤ
  pub container_timeout : Text
  pub container_memory_limit : ℤ
  pub container_pids_limit : ℤ
  pub claude_auth_dir : Text
  pub claude_oauth_token : Text
  pub anthropic_api_key : Text
  pub ca_cert_file : Text
  pub claude_settings : Text
  pub github : GithubConfig
  pub log_level : Text
  pub log_format : Text
  pub secrets_dir : Text
  pub webhook_replay_cache_size : ℤ
  pub webhook_replay_skew_seconds : ℤ
  pub message_dedup_cache_size : ℤ
  pub message_dedup_ttl_seconds : ℤ
  pub idle_output_timeout : ℤ
  pub idle_watchdog_interval : ℤ
  pub chat_container_timeout : ℤ
  pub worker_extra_env : List (Text × Text)
  pub maintenance_interval : ℤ
  pub deployment_profile : Text
  pub unpinned_image_refs : List UnpinnedImageRef
  pub container_timeout_duration : ℤ

-- `internal/secretenv`: `keys`
abbrev pub keys : List Text
keys =
    bytes "CLAUDE_CODE_OAUTH_TOKEN"
    ∷ bytes "ANTHROPIC_API_KEY"
    ∷ bytes "CM_MCP_API_KEY"
    ∷ bytes "CM_GIT_TOKEN"
    ∷ []

abbrev pub one_of : Text → List Text → Bool
one_of k [] = false
one_of k (j ∷ l) = text_beq j k || one_of k l

-- `secretenv.Contains`
unfoldable pub contains : Text → Bool
contains k = one_of k keys

abbrev pub default_int : ℕ → ℤ → ℤ
default_int n i = if is_zero i then pos n else i

abbrev pub default_text : Text → Text → Text
default_text d s = if is_empty s then d else s

-- What follows "://", where the text has it: strings.Index and the slice after it.
abbrev pub after_scheme : Text → Option Text
after_scheme [] = none
after_scheme (b ∷ s) =
    let later = after_scheme s in
    if has_prefix (b ∷ s) (bytes "://") then some (drop 3 (b ∷ s)) else later

-- The API's URL of `ApplyDefaults`.
unfoldable pub derive_api_base_url : GithubConfig → Text
derive_api_base_url g =
    if not (is_empty g.host) && is_empty g.api_base_url
    then bytes "https://"
      ++ (elim (after_scheme g.host) [ none ↦ g.host | some host ↦ host ])
      ++ bytes "/api/v3"
    else g.api_base_url

-- `ApplyDefaults`
unfoldable pub apply_defaults : Config → Config
unfolding derive_api_base_url
apply_defaults c = record c {
  port = default_int 9090 c.port;
  max_concurrent = default_int 3 c.max_concurrent;
  container_timeout = default_text (bytes "2h") c.container_timeout;
  container_memory_limit = default_int 8_589_934_592 c.container_memory_limit;
  container_pids_limit = default_int 512 c.container_pids_limit;
  log_level = default_text (bytes "info") c.log_level;
  log_format = default_text (bytes "text") c.log_format;
  webhook_replay_cache_size = default_int 10000 c.webhook_replay_cache_size;
  webhook_replay_skew_seconds = default_int 330 c.webhook_replay_skew_seconds;
  message_dedup_cache_size = default_int 1000 c.message_dedup_cache_size;
  message_dedup_ttl_seconds = default_int 600 c.message_dedup_ttl_seconds;
  secrets_dir = default_text (bytes "/var/run/cm-runner/secrets") c.secrets_dir;
  idle_output_timeout = default_int 1_800_000_000_000 c.idle_output_timeout;
  idle_watchdog_interval = default_int 30_000_000_000 c.idle_watchdog_interval;
  maintenance_interval = default_int 600_000_000_000 c.maintenance_interval;
  deployment_profile = default_text (bytes "production") c.deployment_profile;
  github = record (c.github) { api_base_url = derive_api_base_url c.github };
}

-- `IsDev`
abbrev pub is_dev : Config → Bool
is_dev c = text_beq c.deployment_profile (bytes "dev")

-- The parts of a text before and after the first occurrence of another that is not empty.
abbrev pub cut_first : Text → Text → Option (Text × Text)
cut_first sub [] = none
cut_first sub (b ∷ s) =
    let later = cut_first sub s in
    if has_prefix (b ∷ s) sub
    then some ([], drop (length sub) (b ∷ s))
    else elim later [ none ↦ none | some t ↦ some (b ∷ t.0, t.1) ]

-- [0-9a-f]
abbrev pub is_hex : ℕ → Bool
is_hex b = between 48 57 b || between 97 102 b

-- `requireDigestPin`: whether there is no error.
unfoldable pub require_digest_pin : Text → Bool
require_digest_pin image = elim (cut_first (bytes "@sha256:") image) [
  | none ↦ false
  | some t ↦ not (is_empty t.0) && nat_beq (length t.1) 64 && all is_hex t.1
]

-- `validatePrintableASCIISecret`: whether there is no error.
unfoldable pub validate_printable_ascii_secret : Text → Bool
validate_printable_ascii_secret value = all (λ c. not (ltb c 32 || ltb 126 c)) value

-- `validEnvKey`
abbrev pub is_key_head : ℕ → Bool
is_key_head r = nat_beq r 95 || between 65 90 r || between 97 122 r

unfoldable pub valid_env_key : Text → Bool
valid_env_key [] = false
valid_env_key (r ∷ s) = is_key_head r && all (λ b. is_key_head b || between 48 57 b) s
