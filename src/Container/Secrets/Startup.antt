-- ===== src/Container/Secrets/Startup.antt =====
-- From an accepted configuration to the file of secrets: internal/config/config.go with
-- internal/container/secrets_refresher.go.
use contextmatrix_runner.Prelude.{
  ◌≡◌, refl, sym, ◌∙◌, inl, inr, true, false, List, [], ◌∷◌, Text, is_empty, all, Bool-cases, arith,
}
use contextmatrix_runner.Prelude.Texts.{text_beq}
use contextmatrix_runner.Config.{Config, validate_printable_ascii_secret}
use contextmatrix_runner.Config.Checks.{Go, accepted, validate}
use contextmatrix_runner.Config.Accepted.{validate-secrets}
use contextmatrix_runner.Container.Secrets.{
  git_token_key, has_key, is_token_byte, validate_static_secret_value, build_static_auth_env,
  export_lines, put_sorted, sort_entries, body, render_secrets_file,
}
use contextmatrix_runner.Container.Secrets.Shell.{AreNames}

-- The two checks of a secret's bytes accept the same.
printable : (s : Text) → validate_printable_ascii_secret s ≡ validate_static_secret_value s
unfolding validate_printable_ascii_secret
printable [] = refl
printable (b ∷ s) = ground (arith, printable s)

record IsStatic (static : List (Text × Text)) : Type 0 where
  pub no_token : has_key git_token_key static ≡ false
  pub values : all (λ (e : Text × Text). validate_static_secret_value e.1) static ≡ true
  pub names : AreNames static

build_static_auth_env-IsStatic :
    (cfg : Config)
    → validate_static_secret_value cfg.claude_oauth_token ≡ true
    → validate_static_secret_value cfg.anthropic_api_key ≡ true
    → IsStatic (build_static_auth_env cfg)
unfolding build_static_auth_env text_beq
build_static_auth_env-IsStatic cfg h k = elim (Bool-cases (is_empty cfg.claude_auth_dir)) [
  | inr e ↦ rw e (record { no_token = refl; values = refl; names = tt })
  | inl e ↦ elim (Bool-cases (is_empty cfg.claude_oauth_token)) [
    | inr f ↦ rw (e, f) (record { no_token = refl; values = rw h refl; names = (refl, tt) })
    | inl f ↦ elim (Bool-cases (is_empty cfg.anthropic_api_key)) [
      | inr g ↦ rw (e, f, g) (record { no_token = refl; values = rw k refl; names = (refl, tt) })
      | inl g ↦ rw (e, f, g) (record { no_token = refl; values = refl; names = tt })
    ]
  ]
]

-- With a configuration that `Validate` accepted, and a GitHub token of the token alphabet, no refresh is
-- refused: `renderSecretsFile` renders the file, and the names of its static part are ones
-- that a shell exports.
pub accepted-render_secrets_file :
    (go : Go) (c0 c : Config) (git_token : Text)
    → validate go c0 ≡ accepted c
    → all is_token_byte git_token ≡ true
    → AreNames (build_static_auth_env c)
      × ((content : Text) × (render_secrets_file git_token (build_static_auth_env c)
            ≡ body content))
unfolding render_secrets_file
accepted-render_secrets_file go c0 c git_token ok token =
    let v = validate-secrets go c0 c ok in
    let s =
      build_static_auth_env-IsStatic c (sym (printable c.claude_oauth_token) ∙ v.0)
        (sym (printable c.anthropic_api_key) ∙ v.1) in
    (
      s.names,
      (
        export_lines (put_sorted git_token_key git_token (sort_entries (build_static_auth_env c))),
        rw (s.no_token, token, s.values) refl,
      ),
    )
