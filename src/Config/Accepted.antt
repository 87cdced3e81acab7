-- ===== src/Config/Accepted.antt =====
-- What a configuration that `Validate` of internal/config/config.go accepted is like.
use contextmatrix_runner.Prelude.{
  ℕ, suc, ◌≤◌, ◌≡◌, refl, sym, ap, ◌∙◌, ◌⊎◌, inl, inr, ◌≢◌, true, false, not, ◌&&◌, ◌||◌, Option,
  none, some, List, [], ◌∷◌, ◌++◌, Text, bytes, is_empty, all, All, Bool-cases, Option-cases, arith,
}
use contextmatrix_runner.Config.{
  ℤ, pos, negsuc, is_negative, is_zero, exceeds, same_int, Config, is_dev, require_digest_pin,
  validate_printable_ascii_secret,
}
use contextmatrix_runner.Config.Checks.{
  Go, Check, result_of, first_rejected, unpinned_allowed, url_checks, api_key_checks, image_checks,
  limit_checks, port_checks, word_checks, duration_checks, env_checks, auth_checks, all_checks,
  with_container_url, derived, accepted, validate, env_key_accepted,
}
use contextmatrix_runner.Config.Pinned.{IsPinned, require_digest_pin-IsPinned}

none_of_both :
    (l m : List Check)
    → first_rejected (l ++ m) ≡ none
    → (first_rejected l ≡ none) × (first_rejected m ≡ none)
unfolding first_rejected
none_of_both [] m h = (refl, h)
none_of_both (c ∷ l) m h = ground (arith, none_of_both l m)

-- An integer between two bounds.
abbrev pub IsWithin : ℕ → ℕ → ℤ → Type 0
IsWithin lo hi (pos n) = (lo ≤ n) × (n ≤ hi)
IsWithin lo hi (negsuc n) = ⊥

within : (max : ℕ) (i : ℤ) → is_negative i ≡ false → exceeds max i ≡ false → IsWithin 0 max i
within max (pos n) h e = ground arith
within max (negsuc n) h e = absurd (ground (arith, h))

positive : (i : ℤ) → (is_negative i || is_zero i) ≡ false → exceeds 256 i ≡ false → IsWithin 1 256 i
positive (pos n) h e = ground arith
positive (negsuc n) h e = absurd (ground (arith, h))

port-IsWithin : (i : ℤ) → (is_negative i || exceeds 65535 i) ≡ false → IsWithin 0 65535 i
port-IsWithin (pos n) h = ground arith
port-IsWithin (negsuc n) h = absurd (ground (arith, h))

admin_port-IsWithin :
    (i : ℤ) → (not (is_zero i) && (is_negative i || exceeds 65535 i)) ≡ false → IsWithin 0 65535 i
admin_port-IsWithin (pos n) h = ground arith
admin_port-IsWithin (negsuc n) h = absurd (ground (arith, h))

same_int_refl : (i : ℤ) → same_int i i ≡ true
same_int_refl (pos n) = ground arith
same_int_refl (negsuc n) = ground arith

admin_port_differs :
    (i j : ℤ) → (not (is_zero i) && same_int i j) ≡ false → (is_zero i ≡ true) ⊎ (i ≢ j)
admin_port_differs i j h = elim (Bool-cases (is_zero i)) [
  | inl e ↦ inl e
  | inr e ↦ inr (λ same.
      let equal : same_int i j ≡ true = rw same (same_int_refl j) in
      absurd (ground (arith, h, e, equal)))
]

result_of_accepted :
    (o : Option Text) (d c : Config) → result_of o d ≡ accepted c → (o ≡ none) × (c ≡ d)
result_of_accepted none d c h = (refl, ground (arith, h))
result_of_accepted (some field) d c h = absurd (ground (arith, h))

-- Every group of checks found nothing.
pub record Passed (go : Go) (c : Config) : Type 0 where
  pub api_key : first_rejected (api_key_checks go c) ≡ none
  pub images : first_rejected (image_checks go c) ≡ none
  pub limits : first_rejected (limit_checks go c) ≡ none
  pub ports : first_rejected (port_checks go c) ≡ none
  pub words : first_rejected (word_checks go c) ≡ none
  pub durations : first_rejected (duration_checks go c) ≡ none
  pub env : first_rejected (env_checks go c) ≡ none
  pub auth : first_rejected (auth_checks go c) ≡ none

checks-Passed : (go : Go) (c : Config) → first_rejected (all_checks go c) ≡ none → Passed go c
unfolding all_checks
checks-Passed go c h =
    let a0 =
      none_of_both ((is_empty c.contextmatrix_url, bytes "contextmatrix_url") ∷ url_checks go c) _
        h in
    let a1 = none_of_both (api_key_checks go c) _ a0.1 in
    let a2 = none_of_both (image_checks go c) _ a1.1 in
    let a3 = none_of_both (limit_checks go c) _ a2.1 in
    let a4 = none_of_both (port_checks go c) _ a3.1 in
    let a5 = none_of_both (word_checks go c) _ a4.1 in
    let a6 = none_of_both (duration_checks go c) _ a5.1 in
    let a7 = none_of_both (env_checks go c) _ a6.1 in
    let a8 = none_of_both (auth_checks go c) _ a7.1 in
    record {
      api_key = a1.0;
      images = a2.0;
      limits = a3.0;
      ports = a4.0;
      words = a5.0;
      durations = a6.0;
      env = a7.0;
      auth = a8.0;
    }

module _ (go : Go) (c0 c : Config) (ok : validate go c0 ≡ accepted c) where
  abbrev given : Config
  given = with_container_url go c0

  passed : Passed go given × (c ≡ derived go given)
  unfolding validate
  passed =
      let r = result_of_accepted (first_rejected (all_checks go given)) (derived go given) c ok in
      (checks-Passed go given r.0, r.1)

-- The tunables, each within its bounds.
pub record IsBounded (c : Config) : Type 0 where
  pub max_concurrent : IsWithin 1 256 c.max_concurrent
  pub webhook_replay_cache_size : IsWithin 0 1_000_000 c.webhook_replay_cache_size
  pub webhook_replay_skew_seconds : IsWithin 0 604_800 c.webhook_replay_skew_seconds
  pub message_dedup_cache_size : IsWithin 0 1_000_000 c.message_dedup_cache_size
  pub message_dedup_ttl_seconds : IsWithin 0 604_800 c.message_dedup_ttl_seconds
  pub container_memory_limit : IsWithin 0 68_719_476_736 c.container_memory_limit
  pub container_pids_limit : IsWithin 0 65_536 c.container_pids_limit
  pub idle_output_timeout : IsWithin 0 86_400_000_000_000 c.idle_output_timeout
  pub idle_watchdog_interval : IsWithin 0 3_600_000_000_000 c.idle_watchdog_interval
  pub chat_container_timeout : is_negative c.chat_container_timeout ≡ false
  pub maintenance_interval : IsWithin 0 86_400_000_000_000 c.maintenance_interval
  pub port : IsWithin 0 65535 c.port
  pub admin_port : IsWithin 0 65535 c.admin_port
  pub ports_differ : (is_zero c.admin_port ≡ true) ⊎ (c.admin_port ≢ c.port)

Passed-IsBounded : (go : Go) (c : Config) → Passed go c → IsBounded c
unfolding first_rejected
Passed-IsBounded go c p =
    let limits : (is_negative c.max_concurrent || is_zero c.max_concurrent ≡ false)
        × (exceeds 256 c.max_concurrent ≡ false)
        × (is_negative c.webhook_replay_cache_size ≡ false)
        × (exceeds 1_000_000 c.webhook_replay_cache_size ≡ false)
        × (is_negative c.webhook_replay_skew_seconds ≡ false)
        × (exceeds 604_800 c.webhook_replay_skew_seconds ≡ false)
        × (is_negative c.message_dedup_cache_size ≡ false)
        × (exceeds 1_000_000 c.message_dedup_cache_size ≡ false)
        × (is_negative c.message_dedup_ttl_seconds ≡ false)
        × (exceeds 604_800 c.message_dedup_ttl_seconds ≡ false)
        × (is_negative c.container_memory_limit ≡ false)
        × (exceeds 68_719_476_736 c.container_memory_limit ≡ false)
        × (is_negative c.container_pids_limit ≡ false)
        × (exceeds 65_536 c.container_pids_limit ≡ false) =
      ground (arith, p.limits) in
    let durations : (is_negative c.idle_output_timeout ≡ false)
        × (exceeds 86_400_000_000_000 c.idle_output_timeout ≡ false)
        × (is_negative c.idle_watchdog_interval ≡ false)
        × (exceeds 3_600_000_000_000 c.idle_watchdog_interval ≡ false)
        × (is_negative c.chat_container_timeout ≡ false) =
      ground (arith, p.durations) in
    let maintenance : (is_negative c.maintenance_interval ≡ false)
        × (exceeds 86_400_000_000_000 c.maintenance_interval ≡ false) =
      ground (arith, p.env) in
    let ports : (is_negative c.port || exceeds 65535 c.port ≡ false)
        × (not (is_zero c.admin_port) && (is_negative c.admin_port || exceeds 65535 c.admin_port)
            ≡ false)
        × (not (is_zero c.admin_port) && same_int c.admin_port c.port ≡ false) =
      ground (arith, p.ports) in
    record {
      max_concurrent = positive c.max_concurrent limits.0 limits.1;
      webhook_replay_cache_size = within _ _ limits.2 limits.3;
      webhook_replay_skew_seconds = within _ _ limits.4 limits.5;
      message_dedup_cache_size = within _ _ limits.6 limits.7;
      message_dedup_ttl_seconds = within _ _ limits.8 limits.9;
      container_memory_limit = within _ _ limits.10 limits.11;
      container_pids_limit = within _ _ limits.12 limits.13;
      idle_output_timeout = within _ _ durations.0 durations.1;
      idle_watchdog_interval = within _ _ durations.2 durations.3;
      chat_container_timeout = durations.4;
      maintenance_interval = within _ _ maintenance.0 maintenance.1;
      port = port-IsWithin c.port ports.0;
      admin_port = admin_port-IsWithin c.admin_port ports.1;
      ports_differ = admin_port_differs c.admin_port c.port ports.2;
    }

parsed :
    (go : Go) (c : Config)
    → Passed go c
    → go.parse_duration c.container_timeout ≡ some (derived go c).container_timeout_duration
unfolding first_rejected derived
parsed go c p = elim (Option-cases (go.parse_duration c.container_timeout)) [
  | inl e ↦ absurd (ground (arith, p.words, e))
  | inr (d, e) ↦ rw e refl
]

-- In a configuration that `Validate` accepts each tunable with bounds is within them, none of these
-- and no chat timeout is negative, at least one container may run, and the admin port, if it is not
-- 0, is another than the port; and the container timeout that it keeps is what its text parses to.
pub validate-IsBounded :
    (go : Go) (c0 c : Config)
    → validate go c0 ≡ accepted c
    → IsBounded c × (go.parse_duration c.container_timeout ≡ some c.container_timeout_duration)
unfolding derived
validate-IsBounded go c0 c ok =
    let p = passed go c0 c ok in
    let b = Passed-IsBounded go (with_container_url go c0) p.0 in
    rw p.1 (
      record {
        max_concurrent = b.max_concurrent;
        webhook_replay_cache_size = b.webhook_replay_cache_size;
        webhook_replay_skew_seconds = b.webhook_replay_skew_seconds;
        message_dedup_cache_size = b.message_dedup_cache_size;
        message_dedup_ttl_seconds = b.message_dedup_ttl_seconds;
        container_memory_limit = b.container_memory_limit;
        container_pids_limit = b.container_pids_limit;
        idle_output_timeout = b.idle_output_timeout;
        idle_watchdog_interval = b.idle_watchdog_interval;
        chat_container_timeout = b.chat_container_timeout;
        maintenance_interval = b.maintenance_interval;
        port = b.port;
        admin_port = b.admin_port;
        ports_differ = b.ports_differ;
      },
      parsed go (with_container_url go c0) p.0,
    )

all-IsPinned : (l : List Text) → all require_digest_pin l ≡ true → All IsPinned l
all-IsPinned [] h = tt
all-IsPinned (image ∷ l) h =
    (require_digest_pin-IsPinned image (ground (arith, h)), all-IsPinned l (ground (arith, h)))

none_unpinned :
    (go : Go) (i : ℕ) (l : List Text)
    → all require_digest_pin l ≡ true
    → unpinned_allowed go i l ≡ []
unfolding unpinned_allowed
none_unpinned go i [] h = refl
none_unpinned go i (image ∷ l) h = ground (arith, h, none_unpinned go (suc i) l)

-- Unless the profile is dev, `Validate` accepts a configuration only if its base image and every
-- allowed image are pinned to a SHA-256 digest, and it then lists no unpinned image.
pub validate-IsPinned :
    (go : Go) (c0 c : Config)
    → validate go c0 ≡ accepted c
    → is_dev c ≡ false
    → IsPinned c.base_image × All IsPinned c.allowed_images × (c.unpinned_image_refs ≡ [])
unfolding first_rejected derived
validate-IsPinned go c0 c ok prod =
    let p = passed go c0 c ok in
    let g = with_container_url go c0 in
    let prod' : is_dev g ≡ false = ap is_dev (sym p.1) ∙ prod in
    let base : require_digest_pin g.base_image ≡ true = ground (arith, p.0.images, prod') in
    let others : all require_digest_pin g.allowed_images ≡ true =
      ground (arith, p.0.images, prod') in
    rw p.1 (
      require_digest_pin-IsPinned g.base_image base,
      all-IsPinned g.allowed_images others,
      rw (base, none_unpinned go 0 g.allowed_images others) refl,
    )

either_empty :
    (s : Text)
    → (not (is_empty s) && not (validate_printable_ascii_secret s)) ≡ false
    → validate_printable_ascii_secret s ≡ true
unfolding validate_printable_ascii_secret
either_empty [] h = refl
either_empty (b ∷ s) h = ground (arith, h)

-- What an accepted configuration gives to a worker's environment: its secrets have printable ASCII
-- bytes only, and its extra variables have POSIX names that are no runner-managed secret's and not
-- among the unsafe ones.
pub validate-secrets :
    (go : Go) (c0 c : Config)
    → validate go c0 ≡ accepted c
    → (validate_printable_ascii_secret c.claude_oauth_token ≡ true)
      × (validate_printable_ascii_secret c.anthropic_api_key ≡ true)
      × (all (env_key_accepted go) c.worker_extra_env ≡ true)
unfolding first_rejected derived validate_printable_ascii_secret
validate-secrets go c0 c ok =
    let p = passed go c0 c ok in
    let g = with_container_url go c0 in
    rw p.1 (
      either_empty g.claude_oauth_token (ground (arith, p.0.auth)),
      either_empty g.anthropic_api_key (ground (arith, p.0.auth)),
      ground (arith, p.0.env),
    )
