-- ===== src/Webhook/Endings.antt =====
-- What a message meets after /promote or /end-session answered 202.
use contextmatrix_runner.Prelude.{
  ℕ, ◌≡◌, refl, sym, ap, ◌∙◌, ◌⊎◌, inl, inr, true, false, Option, some, Text, Bool-cases,
  Option-cases, arith,
}
use contextmatrix_runner.Broadcast.{LogEntry}
use contextmatrix_runner.Tracker.{Tracker, stdin_closed, key, has_at, write_stdin_at}
use contextmatrix_runner.Tracker.Methods.{has, write_stdin, close_stdin}
use contextmatrix_runner.Webhook.Payload.{
  CardPayload, MessagePayload, Payload, promote, end_session,
}
use contextmatrix_runner.Webhook.Validate.{Url, invalid, unknown_type}
use contextmatrix_runner.Webhook.Validate.Dispatch.{validate_payload}
use contextmatrix_runner.Webhook.Handler.{
  Handler, Reply, is_draining, stdin_error_reply, publish, with_payload,
}
use contextmatrix_runner.Webhook.Handler.Message.{is_chat, build_user_message, deliver}
use contextmatrix_runner.Webhook.Handler.Message
use contextmatrix_runner.Webhook.Handler.Outcomes.{error_status}
use contextmatrix_runner.Webhook.Handler.Session.{
  World, autonomous_content, switch_card, promote_card, handle_promote, end_card,
  handle_end_session,
}
use contextmatrix_runner.Webhook.Sessions.{close_write, write_close_write, deliver_closed}

-- The stdin of a card is closed: whatever is written to it.
abbrev IsOver : CardPayload → Tracker → Type 0
IsOver p t =
    (b : Text) (r : Option ℕ)
    → (has_at (key p.project p.card_id) t ≡ true)
      × (write_stdin_at (key p.project p.card_id) b r t ≡ (t, some stdin_closed))

publish_tracker : (entry : LogEntry) (h : Handler) → (publish entry h).manager ≡ h.manager
publish_tracker entry h = ground arith

served_payload :
    {P : Type 0} (parse : Text → Option Url) (wrap : P → Payload) (p : P) (h : Handler)
    (serve : P → Handler × Reply)
    → (with_payload parse wrap (some p) h serve).1.status ≡ 202
    → with_payload parse wrap (some p) h serve ≡ serve p
served_payload parse wrap p h serve ok = elim (Option-cases (validate_payload parse (wrap p))) [
  | inl valid ↦ rw (valid, with_payload) refl
  | inr (invalid e, bad) ↦ absurd (ground (arith, ok, bad))
  | inr (unknown_type, bad) ↦ absurd (ground (arith, ok, bad))
]

module _ (world : World) (p : CardPayload) (h : Handler) where
  end_card-IsOver :
      (end_card world p h).1.status ≡ 202 → IsOver p (end_card world p h).0.manager.tracker
  unfolding end_card close_stdin
  end_card-IsOver ok b r = elim (Bool-cases (has p.project p.card_id h.manager.tracker)) [
    | inr absent ↦ absurd (ground (arith, ok, absent))
    | inl present ↦
        elim (Option-cases
          (close_stdin p.project p.card_id world.closed (world.between h.manager.tracker)).1) [
            | inr (e, bad) ↦ absurd (error_status e (sym (rw (present, bad, end_card) refl) ∙ ok))
            | inl closed ↦
                rw (present, closed, end_card)
                  (rw (publish_tracker _ _) (
                    close_write (key p.project p.card_id) b b world.closed r r
                      (world.between h.manager.tracker) closed))
          ]
  ]

  switch_card-IsOver :
      (switch_card world p h).1.status ≡ 202 → IsOver p (switch_card world p h).0.manager.tracker
  unfolding switch_card write_stdin close_stdin
  switch_card-IsOver ok b r =
      elim (Option-cases (build_user_message world.marshal autonomous_content)) [
        | inl bad ↦ absurd (ground (arith, ok, bad))
        | inr (turn, built) ↦
            elim (Option-cases
              (write_stdin p.project p.card_id turn world.written
                (world.between h.manager.tracker)).1) [
                  | inr (e, bad) ↦
                      absurd (error_status e (sym (rw (built, bad, switch_card) refl) ∙ ok))
                  | inl wrote ↦
                      rw (built, wrote, switch_card)
                        (write_close_write (key p.project p.card_id) turn b world.written
                          world.closed r (world.between h.manager.tracker) wrote)
                ]
      ]

  promote_card-IsOver :
      (promote_card world p h).1.status ≡ 202 → IsOver p (promote_card world p h).0.manager.tracker
  unfolding promote_card
  promote_card-IsOver ok = elim (Bool-cases (has p.project p.card_id h.manager.tracker)) [
    | inr absent ↦ absurd (ground (arith, ok, absent))
    | inl present ↦ elim (Bool-cases h.has_cm_client) [
      | inr unwired ↦ absurd (ground (arith, ok, present, unwired))
      | inl wired ↦ elim (Option-cases world.verified) [
        | inl unknown ↦ absurd (ground (arith, ok, present, wired, unknown))
        | inr (false, manual) ↦ absurd (ground (arith, ok, present, wired, manual))
        | inr (true, autonomous) ↦
            let same : promote_card world p h ≡ switch_card world p h =
              ground (arith, present, wired, autonomous) in
            rw same (switch_card-IsOver (sym (ap (λ o. o.1.status) same) ∙ ok))
      ]
    ]
  ]

module _ (world : World) (parse : Text → Option Url) (p : CardPayload) (h h1 : Handler) where
  end_session-IsOver :
      (handle_end_session world parse (some p) h).1.status ≡ 202
      → (handle_end_session world parse (some p) h).0 ≡ h1
      → IsOver p h1.manager.tracker
  unfolding handle_end_session
  end_session-IsOver ok e = elim (Bool-cases (is_draining h)) [
    | inl drains ↦ absurd (ground (arith, ok, drains))
    | inr serves ↦
        let entered : handle_end_session world parse (some p) h
            ≡ with_payload parse (λ q. end_session q) (some p) h (λ q. end_card world q h) =
          rw (serves, handle_end_session) refl in
        let inner =
          served_payload parse (λ q. end_session q) p h (λ q. end_card world q h)
            (sym (ap (λ o. o.1.status) entered) ∙ ok) in
        let same : handle_end_session world parse (some p) h ≡ end_card world p h =
          entered ∙ inner in
        let over = end_card-IsOver world p h (sym (ap (λ o. o.1.status) same) ∙ ok) in
        rw (sym e ∙ ap (λ o. o.0) same) over
  ]

  promote-IsOver :
      (handle_promote world parse (some p) h).1.status ≡ 202
      → (handle_promote world parse (some p) h).0 ≡ h1
      → IsOver p h1.manager.tracker
  unfolding handle_promote
  promote-IsOver ok e = elim (Bool-cases (is_draining h)) [
    | inl drains ↦ absurd (ground (arith, ok, drains))
    | inr serves ↦
        let entered : handle_promote world parse (some p) h
            ≡ with_payload parse (λ q. promote q) (some p) h (λ q. promote_card world q h) =
          rw (serves, handle_promote) refl in
        let inner =
          served_payload parse (λ q. promote q) p h (λ q. promote_card world q h)
            (sym (ap (λ o. o.1.status) entered) ∙ ok) in
        let same : handle_promote world parse (some p) h ≡ promote_card world p h =
          entered ∙ inner in
        let over = promote_card-IsOver world p h (sym (ap (λ o. o.1.status) same) ∙ ok) in
        rw (sym e ∙ ap (λ o. o.0) same) over
  ]

-- After /end-session or /promote was answered 202 for a card, whatever the other requests did to the
-- tracker before the close, and whatever the close returned to /promote: a message to that card
-- that is to be delivered next is answered 410 and changes nothing.
pub session_over :
    (world : World) (messages : Message.World) (parse : Text → Option Url) (p : CardPayload)
    (q : MessagePayload) (b : Text) (h h1 : Handler)
    → (((handle_end_session world parse (some p) h).1.status ≡ 202)
        × ((handle_end_session world parse (some p) h).0 ≡ h1))
      ⊎ (((handle_promote world parse (some p) h).1.status ≡ 202)
          × ((handle_promote world parse (some p) h).0 ≡ h1))
    → is_chat q ≡ false
    → (q.project ≡ p.project) × (q.card_id ≡ p.card_id)
    → build_user_message messages.marshal q.content ≡ some b
    → messages.between h1.manager.tracker ≡ h1.manager.tracker
    → deliver messages q h1 ≡ (h1, stdin_error_reply stdin_closed)
session_over world messages parse p q b h h1 served card (same_project, same_card) built still =
    let over : IsOver p h1.manager.tracker = elim served [
      | inl (ok, e) ↦ end_session-IsOver world parse p h h1 ok e
      | inr (ok, e) ↦ promote-IsOver world parse p h h1 ok e
    ] in
    deliver_closed messages q b h1 card built still
      (rw (same_project, same_card) (over b messages.written))
