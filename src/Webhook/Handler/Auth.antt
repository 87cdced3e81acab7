-- ===== src/Webhook/Handler/Auth.antt =====
-- internal/webhook/handler.go: `hmacAuth`, the middleware before every authenticated route.
use contextmatrix_runner.Prelude.{
  ℕ, Bool, not, Option, none, some, Text, bytes, is_empty, trim_prefix, ltb, nat_beq, if◌then◌else◌,
}
use contextmatrix_runner.Webhook.ReplayCache.{seen}
use contextmatrix_runner.Webhook.Handler.{
  Handler, Reply, too_large, duplicate, write_error, write_unauthorized,
}

-- What the middleware reads of a request. An undeclared content length is 0 here; `body` is what
-- io.ReadAll returns of the limited body, none where it fails.
pub record Request : Type 0 where
  pub method : Text
  pub uri : Text
  pub content_length : ℕ
  pub signature : Text
  pub timestamp : Text
  pub body : Option Text

abbrev pub max_request_body_bytes : ℕ
max_request_body_bytes = 1048576

-- The part of the middleware from the replay check on. `now` is the replay cache's clock.
unfoldable pub check_replay :
    (Text → Handler → Handler × Reply) → Text → Text → ℕ → Handler → Handler × Reply
unfolding seen
check_replay next sig body now h = elim h.replay_cache [
  | none ↦ next body h
  | some cache ↦
      let checked = seen sig now cache in
      let h1 = record h { replay_cache = some (checked.0) } in
      if checked.1
      then (h1, write_error 409 duplicate (bytes "duplicate request"))
      else next body h1
]

-- protocol.VerifySignatureWithTimestamp, applied to the API key: method, URI, signature, timestamp,
-- body and skew; and protocol.DefaultMaxClockSkew.
module _ (verify : Text → Text → Text → Text → Text → ℕ → Bool) (default_skew : ℕ) where
  unfoldable pub hmac_auth :
      (Text → Handler → Handler × Reply) → Request → ℕ → Handler → Handler × Reply
  unfolding check_replay
  hmac_auth next r now h =
      if ltb max_request_body_bytes r.content_length
      then (h, write_error 413 too_large (bytes "request body too large"))
      else if is_empty r.signature
      then (h, write_unauthorized)
      else if is_empty r.timestamp
      then (h, write_unauthorized)
      else elim r.body [
        | none ↦ (h, write_unauthorized)
        | some body ↦
            let sig = trim_prefix r.signature (bytes "sha256=") in
            let skew =
              if nat_beq h.webhook_replay_skew 0 then default_skew else h.webhook_replay_skew in
            if not (verify r.method r.uri sig r.timestamp body skew)
            then (h, write_unauthorized)
            else check_replay next sig body now h
      ]
