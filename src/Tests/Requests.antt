-- ===== src/Tests/Requests.antt =====
-- internal/webhook/handler.go at concrete data: repeated messages and signed requests.
use contextmatrix_runner.Prelude.Runes.{valid_utf8, utf8_from}
use contextmatrix_runner.Prelude.{
  ℕ, ◌≡◌, refl, ◌⊎◌, Bool, false, none, some, List, [], ◌∷◌, Text, bytes, arith,
}
use contextmatrix_runner.Prelude.Texts.{text_beq}
use contextmatrix_runner.Prelude.Dict.{lookup}
use contextmatrix_runner.Tracker.{key, capture_at, write_stdin_at, has_at, write_locked}
use contextmatrix_runner.Tracker.Methods.{has, write_stdin}
use contextmatrix_runner.Tests.Checks.{parse}
use contextmatrix_runner.Webhook.Charset.{ident_re, message_id_re}
use contextmatrix_runner.Webhook.Validate.{
  contains_ctl_bytes, validate_ident, validate_message, validate_content, validate_message_id,
}
use contextmatrix_runner.Webhook.Validate.Dispatch.{validate_payload}
use contextmatrix_runner.Webhook.TimedStore.{empty}
use contextmatrix_runner.Webhook.ReplayCache
use contextmatrix_runner.Webhook.ReplayCache.{new_replay_cache, seen}
use contextmatrix_runner.Webhook.ReplayCache.Replays.{recorded}
use contextmatrix_runner.Webhook.ReplayCache.Valid
use contextmatrix_runner.Webhook.DedupCache.{
  DedupCache, Call, fetch, new_dedup_cache, message_dedup_key, get_by_key, run, get, put,
  put_by_key,
}
use contextmatrix_runner.Webhook.DedupCache.Valid.{new_dedup_cache-IsValid}
use contextmatrix_runner.Webhook.Handler.{
  Handler, Reply, duplicate, too_large, is_draining, draining_reply, write_error,
  write_unauthorized,
}
use contextmatrix_runner.Webhook.Handler.Auth.{Request, hmac_auth}
use contextmatrix_runner.Webhook.Handler.Message
use contextmatrix_runner.Webhook.Handler.Message.{
  handle_message, serve_message, cached_ack, deliver, is_tracked, write_turn, acknowledge,
  store_ack, build_user_message, is_chat,
}
use contextmatrix_runner.Webhook.Retries.{message_retry}
use contextmatrix_runner.Webhook.Replayed.{
  IsAuthentic, signature_of, unauthentic_refused, request_once,
}
use contextmatrix_runner.Tests.Setting.{handler, turn, ack_body, world, serves}

abbrev later : Message.World
later = record world { now = 60; written = some 4 }

abbrev first : Handler × Reply
first = handle_message world parse (some turn) handler

missed : (cached_ack turn 10 handler).1 ≡ none
unfolding cached_ack get get_by_key new_dedup_cache empty
missed = refl

first_served : first.1.status ≡ 202
unfolding handle_message serve_message is_draining validate_payload validate_message validate_ident
    validate_content validate_message_id ident_re message_id_re valid_utf8 utf8_from
    contains_ctl_bytes cached_ack get get_by_key new_dedup_cache empty deliver is_tracked has has_at
    key lookup text_beq build_user_message write_turn write_stdin write_stdin_at capture_at
    write_locked acknowledge store_ack
first_served = refl

abbrev stored : DedupCache
stored =
    put_by_key (message_dedup_key (bytes "proj") (bytes "A-1") (bytes "m1"))
      (record { status = 202; body = ack_body }) 10 (new_dedup_cache 600 100)

first_stored : first.0.message_dedup ≡ some stored
unfolding handle_message serve_message is_draining validate_payload validate_message validate_ident
    validate_content validate_message_id ident_re message_id_re valid_utf8 utf8_from
    contains_ctl_bytes cached_ack get get_by_key new_dedup_cache empty deliver is_tracked has has_at
    key lookup text_beq build_user_message write_turn write_stdin write_stdin_at capture_at
    write_locked acknowledge store_ack put put_by_key
first_stored = refl

abbrev calls : List Call
calls = fetch (bytes "k") 20 ∷ []

abbrev retried : Handler
retried = record handler { message_dedup = some (run calls stored); max_concurrent = 1 }

message_retry_example : handle_message later parse (some turn) retried ≡ (retried, first.1)
unfolding new_dedup_cache is_draining
message_retry_example =
    message_retry world later parse turn handler retried (new_dedup_cache 600 100) stored ack_body 0
      calls refl serves refl (new_dedup_cache-IsValid 600 100) (omega arith) missed refl
      first_served first_stored (omega arith, tt) tt (omega arith) (λ p. omega arith)
      (λ p. omega arith) refl refl

-- A verifier that accepts one signature.
abbrev verify : Text → Text → Text → Text → Text → ℕ → Bool
verify method uri sig timestamp body skew = text_beq sig (bytes "ab12")

abbrev request : Request
request = record {
  method = bytes "POST";
  uri = bytes "/kill";
  content_length = 2;
  signature = bytes "sha256=ab12";
  timestamp = bytes "1700000000";
  body = some (bytes "{}");
}

abbrev next : Text → Handler → Handler × Reply
next body h = (h, draining_reply)

new_signature : (seen (signature_of request) 10 (new_replay_cache 600 100)).1 ≡ false
unfolding seen new_replay_cache empty
new_signature = refl

authentic : IsAuthentic verify 300 request (bytes "{}") 300
unfolding text_beq
authentic = record { fits = refl; signed = refl; timed = refl; read = refl; verified = refl }

abbrev checked : ReplayCache.ReplayCache
checked = (seen (signature_of request) 10 (new_replay_cache 600 100)).0

abbrev at_replay : Handler
at_replay = record handler { replay_cache = some (ReplayCache.run [] checked) }

request_once_example :
    (hmac_auth verify 300 next request 10 handler
      ≡ next (bytes "{}") (record handler { replay_cache = some checked }))
    × ((hmac_auth verify 300 next request 70 at_replay).1
        ≡ write_error 409 duplicate (bytes "duplicate request"))
unfolding new_replay_cache recorded
request_once_example =
    request_once verify 300 next next request (bytes "{}") 0 10 70 handler at_replay
      (new_replay_cache 600 100) [] authentic refl refl
      (ReplayCache.Valid.new_replay_cache-IsValid 600 100) (omega arith) new_signature authentic
      refl tt (omega arith) (λ p. omega arith) (λ p. omega arith)

abbrev forged : Request
forged = record request { signature = bytes "sha256=00" }

never : (body : Text) → IsAuthentic verify 300 forged body 300 → ⊥
unfolding text_beq
never body a = ground (arith, a.verified)

unauthentic_refused_example :
    (hmac_auth verify 300 next forged 10 handler ≡ (handler, write_unauthorized))
    ⊎ (hmac_auth verify 300 next forged 10 handler
        ≡ (handler, write_error 413 too_large (bytes "request body too large")))
unauthentic_refused_example = unauthentic_refused verify 300 next forged 10 handler never
