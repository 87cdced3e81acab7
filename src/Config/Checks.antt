-- ===== src/Config/Checks.antt =====
-- `Validate` of internal/config/config.go. Its early returns are a list of conditions, each with the
-- field that its error names, in the order of the code; the first that holds is the error.
use contextmatrix_runner.Prelude.{
  ℕ, suc, Bool, true, false, not, ◌&&◌, ◌||◌, Option, none, some, List, [], ◌∷◌, ◌++◌, Text, bytes,
  text_beq, is_empty, ltb, between, length, all, if◌then◌else◌,
}
use contextmatrix_runner.Config.{
  ℤ, is_negative, is_zero, exceeds, same_int, GithubConfig, UnpinnedImageRef, Config, one_of,
  contains, after_scheme, is_dev, require_digest_pin, validate_printable_ascii_secret,
  valid_env_key,
}
use contextmatrix_runner.Webhook.Charset.{to_lower, decimal}

pub record Url : Type 0 where
  pub scheme : Text
  pub hostname : Text
  pub has_user : Bool

-- url.Parse, time.ParseDuration, os.Stat without an error, and json.Valid.
pub record Go : Type 0 where
  pub parse : Text → Option Url
  pub parse_duration : Text → Option ℤ
  pub exists : Text → Bool
  pub json_valid : Text → Bool

abbrev pub Check : Type 0
Check = Bool × Text

-- The field of the first condition that holds.
unfoldable pub first_rejected : List Check → Option Text
first_rejected [] = none
first_rejected (c ∷ l) = let later = first_rejected l in if c.0 then some c.1 else later

-- i < 0, i > max
abbrev pub range_checks : ℕ → ℤ → Text → List Check
range_checks max i field = (is_negative i, field) ∷ (exceeds max i, field) ∷ []

pub data Validated : Type 0 where
  rejected : Text → Validated
  accepted : Config → Validated

abbrev pub result_of : Option Text → Config → Validated
result_of (some field) c = rejected field
result_of none c = accepted c

module _ (go : Go) where
  -- `validateServiceURL`: whether there is an error.
  unfoldable pub validate_service_url : Text → Bool
  validate_service_url raw_url = elim (go.parse raw_url) [
    | none ↦ true
    | some u ↦
        not (one_of (to_lower u.scheme) (bytes "http" ∷ bytes "https" ∷ []))
        || is_empty u.hostname
        || u.has_user
  ]

  abbrev pub host_for_check : Text → Text
  host_for_check host = elim (after_scheme host) [ none ↦ bytes "https://" ++ host | some _ ↦ host ]

  abbrev pub url_checks : Config → List Check
  url_checks c =
      (validate_service_url c.contextmatrix_url, bytes "contextmatrix_url")
      ∷ (validate_service_url c.container_contextmatrix_url, bytes "container_contextmatrix_url")
      ∷ (
        not (is_empty c.github.api_base_url) && validate_service_url c.github.api_base_url,
        bytes "github.api_base_url",
      )
      ∷ (
        not (is_empty c.github.host) && validate_service_url (host_for_check c.github.host),
        bytes "github.host",
      )
      ∷ []

  abbrev pub api_key_checks : Config → List Check
  api_key_checks c =
      (is_empty c.api_key, bytes "api_key")
      ∷ (ltb (length c.api_key) 32, bytes "api_key")
      ∷ (not (all (between 33 126) c.api_key), bytes "api_key")
      ∷ []

  abbrev pub image_checks : Config → List Check
  image_checks c =
      (is_empty c.base_image, bytes "base_image")
      ∷ (not (is_dev c) && not (require_digest_pin c.base_image), bytes "base_image")
      ∷ (not (is_dev c) && not (all require_digest_pin c.allowed_images), bytes "allowed_images")
      ∷ (
        not (
            one_of c.image_pull_policy
              (bytes "always" ∷ bytes "never" ∷ bytes "if-not-present" ∷ [])),
        bytes "image_pull_policy",
      )
      ∷ []

  abbrev pub limit_checks : Config → List Check
  limit_checks c =
      (is_negative c.max_concurrent || is_zero c.max_concurrent, bytes "max_concurrent")
        ∷ (exceeds 256 c.max_concurrent, bytes "max_concurrent")
        ∷ range_checks 1_000_000 c.webhook_replay_cache_size (bytes "webhook_replay_cache_size")
      ++ range_checks 604_800 c.webhook_replay_skew_seconds (bytes "webhook_replay_skew_seconds")
      ++ range_checks 1_000_000 c.message_dedup_cache_size (bytes "message_dedup_cache_size")
      ++ range_checks 604_800 c.message_dedup_ttl_seconds (bytes "message_dedup_ttl_seconds")
      ++ range_checks 68_719_476_736 c.container_memory_limit (bytes "container_memory_limit")
      ++ range_checks 65_536 c.container_pids_limit (bytes "container_pids_limit")

  abbrev pub port_checks : Config → List Check
  port_checks c =
      (is_negative c.port || exceeds 65535 c.port, bytes "port")
      ∷ (
        not (is_zero c.admin_port) && (is_negative c.admin_port || exceeds 65535 c.admin_port),
        bytes "admin_port",
      )
      ∷ (not (is_zero c.admin_port) && same_int c.admin_port c.port, bytes "admin_port")
      ∷ []

  abbrev pub word_checks : Config → List Check
  word_checks c =
      (
        not (one_of (to_lower c.log_format) ([] ∷ bytes "text" ∷ bytes "json" ∷ [])),
        bytes "log_format",
      )
      ∷ (
        not (
            one_of (to_lower c.log_level)
              ([] ∷ bytes "debug" ∷ bytes "info" ∷ bytes "warn" ∷ bytes "error" ∷ [])),
        bytes "log_level",
      )
      ∷ (
        not (one_of c.deployment_profile ([] ∷ bytes "production" ∷ bytes "dev" ∷ [])),
        bytes "deployment_profile",
      )
      ∷ (
        (elim (go.parse_duration c.container_timeout) [ none ↦ true | some d ↦ false ]),
        bytes "container_timeout",
      )
      ∷ []

  abbrev pub duration_checks : Config → List Check
  duration_checks c =
      range_checks 86_400_000_000_000 c.idle_output_timeout (bytes "idle_output_timeout")
      ++ range_checks 3_600_000_000_000 c.idle_watchdog_interval (bytes "idle_watchdog_interval")
      ++ (is_negative c.chat_container_timeout, bytes "chat_container_timeout") ∷ []

  -- The keys that would change the worker's behaviour.
  abbrev pub unsafe_keys : List Text
  unsafe_keys =
      bytes "GIT_SSL_NO_VERIFY"
      ∷ bytes "GIT_TERMINAL_PROMPT"
      ∷ bytes "LD_PRELOAD"
      ∷ bytes "LD_LIBRARY_PATH"
      ∷ bytes "HTTP_PROXY"
      ∷ bytes "HTTPS_PROXY"
      ∷ bytes "NO_PROXY"
      ∷ bytes "NODE_OPTIONS"
      ∷ bytes "NODE_EXTRA_CA_CERTS"
      ∷ bytes "PATH"
      ∷ bytes "GOPROXY"
      ∷ bytes "GOSUMDB"
      ∷ bytes "GOFLAGS"
      ∷ bytes "PYTHONPATH"
      ∷ []

  -- The body of the loop over the worker's extra environment: whether a key is accepted.
  unfoldable pub env_key_accepted : Text × Text → Bool
  env_key_accepted e = valid_env_key e.0 && not (contains e.0) && not (one_of e.0 unsafe_keys)

  abbrev pub env_checks : Config → List Check
  env_checks c =
      (not (all env_key_accepted c.worker_extra_env), bytes "worker_extra_env")
      ∷ range_checks 86_400_000_000_000 c.maintenance_interval (bytes "maintenance_interval")

  abbrev pub auth_checks : Config → List Check
  auth_checks c =
      (
        is_empty c.claude_auth_dir && is_empty c.claude_oauth_token && is_empty c.anthropic_api_key,
        bytes "claude_auth_dir",
      )
      ∷ (
        not (is_empty c.claude_auth_dir) && not (go.exists c.claude_auth_dir),
        bytes "claude_auth_dir",
      )
      ∷ (not (is_empty c.ca_cert_file) && not (go.exists c.ca_cert_file), bytes "ca_cert_file")
      ∷ (
        not (is_empty c.claude_oauth_token)
            && not (validate_printable_ascii_secret c.claude_oauth_token),
        bytes "claude_oauth_token",
      )
      ∷ (
        not (is_empty c.anthropic_api_key)
            && not (validate_printable_ascii_secret c.anthropic_api_key),
        bytes "anthropic_api_key",
      )
      ∷ (
        not (is_empty c.claude_settings) && not (go.json_valid c.claude_settings),
        bytes "claude_settings",
      )
      ∷ []

  abbrev pub github_checks : GithubConfig → List Check
  github_checks g =
      if text_beq g.auth_mode (bytes "app")
      then (is_zero g.app_id, bytes "github.app.app_id")
        ∷ (is_zero g.installation_id, bytes "github.app.installation_id")
        ∷ (is_empty g.private_key_path, bytes "github.app.private_key_path")
        ∷ (not (go.exists g.private_key_path), bytes "github.app.private_key_path")
        ∷ (not (is_empty g.pat_token), bytes "github.pat.token")
        ∷ []
      else if text_beq g.auth_mode (bytes "pat")
      then (is_empty g.pat_token, bytes "github.pat.token")
        ∷ (
          not (is_zero g.app_id && is_zero g.installation_id && is_empty g.private_key_path),
          bytes "github.app",
        )
        ∷ []
      else (true, bytes "github.auth_mode") ∷ []

  -- The images that a dev configuration leaves unpinned: the base image, and the allowed ones from an
  -- index on.
  abbrev pub unpinned_ref : Text → Text → List UnpinnedImageRef
  unpinned_ref field image =
      if require_digest_pin image then [] else record { field = field; image = image } ∷ []

  unfoldable pub unpinned_allowed : ℕ → List Text → List UnpinnedImageRef
  unpinned_allowed i [] = []
  unpinned_allowed i (image ∷ l) =
      unpinned_ref (bytes "allowed_images[" ++ decimal i ++ bytes "]") image
      ++ unpinned_allowed (suc i) l

  -- The fields that `Validate` derives.
  unfoldable pub derived : Config → Config
  unfolding unpinned_allowed
  derived c = record c {
    unpinned_image_refs =
        unpinned_ref (bytes "base_image") c.base_image ++ unpinned_allowed 0 c.allowed_images;
    log_format = to_lower c.log_format;
    container_timeout_duration = elim (go.parse_duration c.container_timeout) [
      | none ↦ c.container_timeout_duration
      | some d ↦ d
    ];
  }

  unfoldable pub with_container_url : Config → Config
  with_container_url c =
      if is_empty c.container_contextmatrix_url
      then record c { container_contextmatrix_url = c.contextmatrix_url }
      else c

  unfoldable pub all_checks : Config → List Check
  all_checks c =
      (is_empty c.contextmatrix_url, bytes "contextmatrix_url") ∷ url_checks c
      ++ api_key_checks c
      ++ image_checks c
      ++ limit_checks c
      ++ port_checks c
      ++ word_checks c
      ++ duration_checks c
      ++ env_checks c
      ++ auth_checks c
      ++ github_checks c.github

  -- `Validate`
  unfoldable pub validate : Config → Validated
  unfolding first_rejected derived all_checks with_container_url
  validate c0 =
      let c = with_container_url c0 in result_of (first_rejected (all_checks c)) (derived c)
