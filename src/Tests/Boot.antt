-- ===== src/Tests/Boot.antt =====
-- internal/config, and the secrets and the monitor of internal/container, at concrete data.
use contextmatrix_runner.Prelude.{
  ◌≡◌, refl, true, false, some, List, [], ◌∷◌, ◌++◌, Text, bytes, All, if◌then◌else◌,
}
use contextmatrix_runner.Prelude.Texts.{text_beq}
use contextmatrix_runner.Prelude.Dict.{lookup}
use contextmatrix_runner.Config.{
  pos, Config, apply_defaults, derive_api_base_url, is_dev, require_digest_pin,
  validate_printable_ascii_secret, valid_env_key, contains,
}
use contextmatrix_runner.Config.Checks.{
  Go, accepted, first_rejected, validate_service_url, all_checks, with_container_url, derived,
  unpinned_allowed, validate, env_key_accepted,
}
use contextmatrix_runner.Config.Pinned.{IsPinned}
use contextmatrix_runner.Config.Accepted.{IsBounded, validate-IsBounded, validate-IsPinned}
use contextmatrix_runner.Container.Secrets.{
  Outcome, failed, minted, run, run_rounds, run_round, next_wake, next_backoff,
  clamp_backoff_duration, body, render_secrets_file, build_static_auth_env, export_lines,
  put_sorted, git_token_key,
}
use contextmatrix_runner.Container.Secrets.Shell.{
  AreNames, read_shell, at_start, render_secrets_file_lem,
}
use contextmatrix_runner.Container.Secrets.Pace.{ArePaced, run-ArePaced}
use contextmatrix_runner.Container.Secrets.Startup.{accepted-render_secrets_file}
use contextmatrix_runner.Container.Health.{
  Probe, healthy, failing, panicked, has_exited, monitor_dockerd, three_in_a_row,
  monitor_dockerd_iff,
}

abbrev go : Go
go = record {
  parse = λ s. some (record { scheme = bytes "https"; hostname = bytes "cm"; has_user = false });
  parse_duration = λ s. some (pos 7200);
  exists = λ s. true;
  json_valid = λ s. true;
}

abbrev image : Text
image =
    bytes "worker@sha256:"
    ++ bytes "0123456789abcdef0123456789abcdef0123456789abcdef0123456789abcdef"

abbrev config : Config
config = record {
  port = pos 0;
  admin_port = pos 9091;
  contextmatrix_url = bytes "https://cm";
  container_contextmatrix_url = [];
  api_key = bytes "0123456789abcdef0123456789abcdef";
  base_image = image;
  allowed_images = image ∷ [];
  image_pull_policy = bytes "never";
  max_concurrent = pos 0;
  container_timeout = [];
  container_memory_limit = pos 0;
  container_pids_limit = pos 0;
  claude_auth_dir = [];
  claude_oauth_token = bytes "sk-'x'";
  anthropic_api_key = [];
  ca_cert_file = [];
  claude_settings = [];
  github = record {
    auth_mode = bytes "pat";
    host = [];
    api_base_url = [];
    app_id = pos 0;
    installation_id = pos 0;
    private_key_path = [];
    pat_token = bytes "ghp_x";
  };
  log_level = [];
  log_format = [];
  secrets_dir = [];
  webhook_replay_cache_size = pos 0;
  webhook_replay_skew_seconds = pos 0;
  message_dedup_cache_size = pos 0;
  message_dedup_ttl_seconds = pos 0;
  idle_output_timeout = pos 0;
  idle_watchdog_interval = pos 0;
  chat_container_timeout = pos 0;
  worker_extra_env = (bytes "TZ", bytes "UTC") ∷ [];
  maintenance_interval = pos 0;
  deployment_profile = [];
  unpinned_image_refs = [];
  container_timeout_duration = pos 0;
}

abbrev loaded : Config
loaded = apply_defaults config

abbrev checked : Config
checked = derived go (with_container_url go loaded)

loads : validate go loaded ≡ accepted checked
unfolding validate all_checks first_rejected validate_service_url with_container_url derived
    unpinned_allowed apply_defaults derive_api_base_url require_digest_pin
    validate_printable_ascii_secret env_key_accepted valid_env_key contains text_beq
loads = refl

validate-IsBounded_example :
    IsBounded checked
    × (go.parse_duration checked.container_timeout ≡ some checked.container_timeout_duration)
validate-IsBounded_example = validate-IsBounded go loaded checked loads

in_production : is_dev checked ≡ false
unfolding with_container_url derived apply_defaults derive_api_base_url text_beq
in_production = refl

validate-IsPinned_example :
    IsPinned checked.base_image
    × All IsPinned checked.allowed_images
    × (checked.unpinned_image_refs ≡ [])
validate-IsPinned_example = validate-IsPinned go loaded checked loads in_production

accepted-render_secrets_file_example :
    AreNames (build_static_auth_env checked)
    × ((content : Text) × (render_secrets_file (bytes "ghs_Ab-1") (build_static_auth_env checked)
          ≡ body content))
accepted-render_secrets_file_example =
    accepted-render_secrets_file go loaded checked (bytes "ghs_Ab-1") loads refl

abbrev static : List (Text × Text)
static = (bytes "CLAUDE_CODE_OAUTH_TOKEN", bytes "sk-'x'") ∷ []

abbrev content : Text
content =
    export_lines
      ((bytes "CLAUDE_CODE_OAUTH_TOKEN", bytes "sk-'x'") ∷ (git_token_key, bytes "ghs_1") ∷ [])

renders : render_secrets_file (bytes "ghs_1") static ≡ body content
unfolding render_secrets_file put_sorted text_beq
renders = refl

render_secrets_file_lem_example :
    (l : List (Text × Text)) × (read_shell at_start content ≡ some l)
    × (lookup git_token_key l ≡ (
        if text_beq git_token_key git_token_key
        then some (bytes "ghs_1")
        else lookup git_token_key static))
render_secrets_file_lem_example =
    render_secrets_file_lem (bytes "ghs_1") content git_token_key static (refl, tt) renders

abbrev outcomes : List Outcome
outcomes =
    failed
    ∷ failed
    ∷ minted 0 (some 3_600_000_000_000)
    ∷ minted 3_600_000_000_000 (some 3_600_000_000_000)
    ∷ []

sleeps_test : run outcomes ≡ 1_000_000_000 ∷ 2_000_000_000 ∷ 3_000_000_000_000 ∷ 1_000_000_000 ∷ []
unfolding run run_rounds run_round next_wake next_backoff clamp_backoff_duration
sleeps_test = refl

run-ArePaced_example : ArePaced outcomes (run outcomes)
run-ArePaced_example = run-ArePaced outcomes

abbrev probes : List Probe
probes = failing ∷ failing ∷ healthy ∷ failing ∷ panicked ∷ failing ∷ []

monitor_dockerd_iff_example : has_exited (monitor_dockerd probes) ≡ three_in_a_row probes
monitor_dockerd_iff_example = monitor_dockerd_iff probes
