-- ===== src/Webhook/Replayed.antt =====
-- The signed requests that the middleware lets through, and their replays.
use contextmatrix_runner.Prelude.{
  ℕ, ◌≡◌, refl, ap, ◌∙◌, ◌≤◌, ◌⊎◌, inl, inr, Bool, true, false, some, List, Text, is_empty, bytes,
  trim_prefix, ltb, nat_beq, Bool-cases, Option-cases, if◌then◌else◌,
}
use contextmatrix_runner.Webhook.ReplayCache.{ReplayCache, Call, seen, run}
use contextmatrix_runner.Webhook.ReplayCache.Valid.{IsValid, IsTimely, time_after}
use contextmatrix_runner.Webhook.ReplayCache.Replays.{
  recorded, IsInside, HasRoom, seen_replay_rejected,
}
use contextmatrix_runner.Webhook.Handler.{
  Handler, Reply, too_large, duplicate, write_error, write_unauthorized,
}
use contextmatrix_runner.Webhook.Handler.Auth.{Request, check_replay, hmac_auth}

-- The signature of a request without its scheme.
abbrev pub signature_of : Request → Text
signature_of r = trim_prefix r.signature (bytes "sha256=")

module _ (verify : Text → Text → Text → Text → Text → ℕ → Bool) (default_skew : ℕ) where
  -- A request that authenticates: a declared length of at most 1 MiB, both headers, a readable body,
  -- and a signature that verifies within the handler's skew.
  pub record IsAuthentic (r : Request) (body : Text) (skew : ℕ) : Type 0 where
    pub fits : ltb 1048576 r.content_length ≡ false
    pub signed : is_empty r.signature ≡ false
    pub timed : is_empty r.timestamp ≡ false
    pub read : r.body ≡ some body
    pub verified : verify r.method r.uri (signature_of r) r.timestamp body skew ≡ true

  abbrev pub skew_of : Handler → ℕ
  skew_of h = if nat_beq h.webhook_replay_skew 0 then default_skew else h.webhook_replay_skew

  authentic_passes :
      (next : Text → Handler → Handler × Reply) (r : Request) (body : Text) (now : ℕ) (h : Handler)
      → IsAuthentic r body (skew_of h)
      → hmac_auth verify default_skew next r now h ≡ check_replay next (signature_of r) body now h
  unfolding hmac_auth
  authentic_passes next r body now h a =
      rw (a.read, a.fits, a.signed, a.timed, a.verified, hmac_auth) refl

  -- A request that authenticates with no body: the middleware answers 413 or the one fixed 401, calls
  -- no handler, and records no signature.
  pub unauthentic_refused :
      (next : Text → Handler → Handler × Reply) (r : Request) (now : ℕ) (h : Handler)
      → ((body : Text) → IsAuthentic r body (skew_of h) → ⊥)
      → (hmac_auth verify default_skew next r now h ≡ (h, write_unauthorized))
        ⊎ (hmac_auth verify default_skew next r now h
            ≡ (h, write_error 413 too_large (bytes "request body too large")))
  unfolding hmac_auth
  unauthentic_refused next r now h never = elim (Bool-cases (ltb 1048576 r.content_length)) [
    | inl large ↦ rw (large, hmac_auth) (inr refl)
    | inr fits ↦ elim (Bool-cases (is_empty r.signature)) [
      | inl unsigned ↦ rw (fits, unsigned, hmac_auth) (inl refl)
      | inr signed ↦ elim (Bool-cases (is_empty r.timestamp)) [
        | inl untimed ↦ rw (fits, signed, untimed, hmac_auth) (inl refl)
        | inr timed ↦ elim (Option-cases r.body) [
          | inl unread ↦ rw (unread, fits, signed, timed, hmac_auth) (inl refl)
          | inr (body, read) ↦
              elim (Bool-cases
                (verify r.method r.uri (signature_of r) r.timestamp body (skew_of h))) [
                  | inl good ↦ absurd (
                      never body (record {
                        fits = fits;
                        signed = signed;
                        timed = timed;
                        read = read;
                        verified = good;
                      }))
                  | inr bad ↦ rw (read, fits, signed, timed, bad, hmac_auth) (inl refl)
                ]
        ]
      ]
    ]
  ]

  replay_refused :
      (next : Text → Handler → Handler × Reply) (sig body : Text) (now : ℕ) (h : Handler)
      (cache : ReplayCache)
      → h.replay_cache ≡ some cache
      → (seen sig now cache).1 ≡ true
      → (check_replay next sig body now h).1 ≡ write_error 409 duplicate (bytes "duplicate request")
  unfolding check_replay
  replay_refused next sig body now h cache e again = rw (e, again, check_replay) refl

  passed_on :
      (next : Text → Handler → Handler × Reply) (sig body : Text) (now : ℕ) (h : Handler)
      (cache : ReplayCache)
      → h.replay_cache ≡ some cache
      → (seen sig now cache).1 ≡ false
      → check_replay next sig body now h
        ≡ next body (record h { replay_cache = some ((seen sig now cache).0) })
  unfolding check_replay
  passed_on next sig body now h cache e new = rw (e, new, check_replay) refl

  -- An authentic request whose signature the replay cache, in any valid state, has not in its window:
  -- the middleware calls the handler with its body, once. The same request again, at a handler that
  -- has that cache after any further checks and sweeps, at times that do not go back, is answered 409
  -- whatever the handler would have answered, as long as it still authenticates, less than the TTL
  -- later (where the TTL is positive), and with fewer signatures recorded in between than the
  -- capacity (where it is positive).
  pub request_once :
      (next next2 : Text → Handler → Handler × Reply) (r : Request) (body : Text)
      (start now now2 : ℕ) (h h2 : Handler) (cache : ReplayCache) (calls : List Call)
      → IsAuthentic r body (skew_of h)
      → is_empty (signature_of r) ≡ false
      → h.replay_cache ≡ some cache
      → IsValid start cache
      → start ≤ now
      → (seen (signature_of r) now cache).1 ≡ false
      → IsAuthentic r body (skew_of h2)
      → h2.replay_cache ≡ some (run calls (seen (signature_of r) now cache).0)
      → IsTimely now calls
      → time_after now calls ≤ now2
      → IsInside cache.ttl now now2
      → HasRoom cache.capacity (recorded calls (seen (signature_of r) now cache).0)
      → (hmac_auth verify default_skew next r now h
          ≡ next body (record h { replay_cache = some ((seen (signature_of r) now cache).0) }))
        × ((hmac_auth verify default_skew next2 r now2 h2).1
            ≡ write_error 409 duplicate (bytes "duplicate request"))
  request_once next next2 r body start now now2 h h2 cache calls a ne e v le new a2 e2 timely before
        inside room =
      let again =
        seen_replay_rejected (signature_of r) start now now2 cache calls ne v le new timely before
          inside room in
      (
        authentic_passes next r body now h a
            ∙ passed_on next (signature_of r) body now h cache e new,
        ap (λ o. o.1) (authentic_passes next2 r body now2 h2 a2)
            ∙ replay_refused next2 (signature_of r) body now2 h2 _ e2 again,
      )
