-- ===== src/Webhook/Handler/Outcomes.antt =====
-- The branches of `deliver` (internal/webhook/handler.go), each with what led there, and the prologue
-- that the handlers share.
use contextmatrix_runner.Prelude.{
  ◌≡◌, refl, ◌≢◌, inl, inr, false, Option, none, some, Text, Bool-cases, Option-cases, arith,
}
use contextmatrix_runner.Tracker.{TrackerError}
use contextmatrix_runner.Webhook.Payload.{MessagePayload, Payload}
use contextmatrix_runner.Webhook.Validate.{Url}
use contextmatrix_runner.Webhook.Validate.Dispatch.{validate_payload}
use contextmatrix_runner.Webhook.Handler.{
  Handler, Reply, with_tracker, internal_reply, not_found_reply, stdin_error_reply, publish,
  with_payload,
}
use contextmatrix_runner.Webhook.Handler.Message.{
  World, build_user_message, is_tracked, write_turn, user_entry, acknowledge, deliver,
}

pub data Delivery (world : World) (p : MessagePayload) (h : Handler) : Type 0 where
  untracked :
      is_tracked p h.manager.tracker ≡ false
      → deliver world p h ≡ (h, not_found_reply)
      → Delivery world p h
  unbuilt :
      build_user_message world.marshal p.content ≡ none
      → deliver world p h ≡ (h, internal_reply)
      → Delivery world p h
  refused :
      (b : Text) (e : TrackerError)
      → build_user_message world.marshal p.content ≡ some b
      → (write_turn p b world.written (world.between h.manager.tracker)).1 ≡ some e
      → deliver world p h ≡ (
        with_tracker ((write_turn p b world.written (world.between h.manager.tracker)).0) h,
        stdin_error_reply e,
      )
      → Delivery world p h
  delivered :
      (b : Text)
      → build_user_message world.marshal p.content ≡ some b
      → (write_turn p b world.written (world.between h.manager.tracker)).1 ≡ none
      → deliver world p h
        ≡ acknowledge world p (
            publish
              (user_entry p world.now)
              (with_tracker ((write_turn p b world.written (world.between h.manager.tracker)).0) h))
      → Delivery world p h

pub deliver_cases : (world : World) (p : MessagePayload) (h : Handler) → Delivery world p h
unfolding deliver
deliver_cases world p h = elim (Bool-cases (is_tracked p h.manager.tracker)) [
  | inr absent ↦ untracked absent (rw (absent, deliver) refl)
  | inl present ↦ elim (Option-cases (build_user_message world.marshal p.content)) [
    | inl bad ↦ unbuilt bad (rw (present, bad, deliver) refl)
    | inr (b, built) ↦
        elim (Option-cases (write_turn p b world.written (world.between h.manager.tracker)).1) [
          | inl ok ↦ delivered b built ok (rw (present, built, ok, deliver) refl)
          | inr (e, bad) ↦ refused b e built bad (rw (present, built, bad, deliver) refl)
        ]
  ]
]

pub error_status : (e : TrackerError) → (stdin_error_reply e).status ≢ 202
unfolding stdin_error_reply
error_status e h = ground arith

module _ {ℓ} {P : Type ℓ} (parse : Text → Option Url) (wrap : P → Payload) (p : P) where
  pub with_payload_valid :
      (h : Handler) (serve : P → Handler × Reply)
      → validate_payload parse (wrap p) ≡ none
      → with_payload parse wrap (some p) h serve ≡ serve p
  with_payload_valid h serve valid = rw (valid, with_payload) refl
