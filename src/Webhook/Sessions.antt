-- ===== src/Webhook/Sessions.antt =====
-- /promote and /end-session: when the agent's stdin is written, and what a message meets afterwards;
-- and the refusals while the handler drains.
use contextmatrix_runner.Prelude.{
  ℕ, ◌≡◌, refl, sym, ap, ◌∙◌, ◌≢◌, ◌⊎◌, inl, inr, true, false, Option, none, some, Text, Bool-cases,
  Option-cases, arith,
}
use contextmatrix_runner.Tracker.{
  Tracker, stdin_closed, key, has_at, write_stdin_at, close_stdin_at,
}
use contextmatrix_runner.Tracker.Methods.{has, write_stdin}
use contextmatrix_runner.Webhook.Payload.{
  TriggerPayload, CardPayload, MessagePayload, Payload, promote,
}
use contextmatrix_runner.Webhook.Validate.{Url, invalid, unknown_type}
use contextmatrix_runner.Webhook.Validate.Dispatch.{validate_payload}
use contextmatrix_runner.Webhook.Handler.{
  Handler, Reply, is_draining, draining_reply, stdin_error_reply, with_tracker, with_payload,
}
use contextmatrix_runner.Webhook.Handler.Cards.{handle_trigger}
use contextmatrix_runner.Webhook.Handler.Message.{
  is_chat, build_user_message, is_tracked, write_turn, deliver, handle_message,
}
use contextmatrix_runner.Webhook.Handler.Message
use contextmatrix_runner.Webhook.Handler.Outcomes.{
  Delivery, untracked, unbuilt, refused, delivered, deliver_cases,
}
use contextmatrix_runner.Webhook.Handler.Session.{
  World, promote_card, handle_promote, handle_end_session,
}

-- While the handler drains, /trigger, /message, /promote and /end-session answer 503 to every request
-- and change nothing.
pub draining_refuses :
    (parse : Text → Option Url) (h : Handler)
    → is_draining h ≡ true
    → ((p : Option TriggerPayload) (cancel now : ℕ) (id : Text)
        → handle_trigger parse p cancel id now h ≡ (h, draining_reply))
      × ((world : Message.World) (p : Option MessagePayload)
          → handle_message world parse p h ≡ (h, draining_reply))
      × ((world : World) (p : Option CardPayload)
          → (handle_promote world parse p h ≡ (h, draining_reply))
            × (handle_end_session world parse p h ≡ (h, draining_reply)))
unfolding handle_trigger handle_message handle_promote handle_end_session
draining_refuses parse h d = (
  λ p cancel now id. rw (d, handle_trigger) refl,
  λ world p. rw (d, handle_message) refl,
  λ world p. (rw (d, handle_promote) refl, rw (d, handle_end_session) refl),
)

-- Unchanged, and not served.
abbrev IsRefusal : Handler → Handler × Reply → Type 0
IsRefusal h o = (o.0 ≡ h) × (o.1.status ≢ 202)

module _ {P : Type 0} (parse : Text → Option Url) (h : Handler) (serve : P → Handler × Reply) where
  with_payload-IsRefusal :
      (wrap : P → Payload) (decoded : Option P)
      → ((p : P) → IsRefusal h (serve p))
      → IsRefusal h (with_payload parse wrap decoded h serve)
  with_payload-IsRefusal wrap none f = (refl, λ e. ground arith)
  with_payload-IsRefusal wrap (some p) f = elim (Option-cases (validate_payload parse (wrap p))) [
    | inl valid ↦ rw (valid, with_payload) (f p)
    | inr (invalid e, bad) ↦ rw (bad, with_payload) (refl, λ e. ground arith)
    | inr (unknown_type, bad) ↦ rw (bad, with_payload) (refl, λ e. ground arith)
  ]

promote_card-IsRefusal :
    (world : World) (p : CardPayload) (h : Handler)
    → (world.verified ≢ some true) ⊎ (h.has_cm_client ≡ false)
    → IsRefusal h (promote_card world p h)
unfolding promote_card
promote_card-IsRefusal world p h closed =
    elim (Bool-cases (has p.project p.card_id h.manager.tracker)) [
      | inr absent ↦ rw (absent, promote_card) (refl, λ e. ground arith)
      | inl present ↦ elim (Bool-cases h.has_cm_client) [
        | inr unwired ↦ (ground (arith, present, unwired), λ e. ground (arith, present, unwired, e))
        | inl wired ↦ elim (Option-cases world.verified) [
          | inl unknown ↦ (
            ground (arith, present, wired, unknown),
            λ e. ground (arith, present, wired, unknown, e),
          )
          | inr (false, manual) ↦ (
            ground (arith, present, wired, manual),
            λ e. ground (arith, present, wired, manual, e),
          )
          | inr (true, autonomous) ↦ elim closed [
            | inl f ↦ absurd (f autonomous)
            | inr f ↦ absurd (ground (arith, wired, f))
          ]
        ]
      ]
    ]

-- /promote fails closed: where ContextMatrix did not confirm that the card is autonomous (an error
-- included), or no client is configured, every request is refused, with a status other than 202, and
-- nothing changes: the stdin is neither written nor closed, and nothing is published.
pub promote_fails_closed :
    (world : World) (parse : Text → Option Url) (decoded : Option CardPayload) (h : Handler)
    → (world.verified ≢ some true) ⊎ (h.has_cm_client ≡ false)
    → ((handle_promote world parse decoded h).0 ≡ h)
      × ((handle_promote world parse decoded h).1.status ≢ 202)
unfolding handle_promote
promote_fails_closed world parse decoded h closed = elim (Bool-cases (is_draining h)) [
  | inl drains ↦ rw (drains, handle_promote) (refl, λ e. ground arith)
  | inr serves ↦
      rw (serves, handle_promote)
        (with_payload-IsRefusal parse h (λ p. promote_card world p h) (λ p. promote p) decoded
          (λ p. promote_card-IsRefusal world p h closed))
]

-- After a close that reported no error, and after a write that reported none and any close: a write
-- meets a closed stdin.
module _ (k b b' : Text) (r r' r'' : Option ℕ) (t : Tracker) where
  pub close_write :
      (close_stdin_at k r t).1 ≡ none
      → let t1 = (close_stdin_at k r t).0 in
        (has_at k t1 ≡ true) × (write_stdin_at k b r' t1 ≡ (t1, some stdin_closed))
  unfolding close_stdin_at write_stdin_at has_at
  close_write ok = (ground (arith, ok), ground (arith, ok))

  pub write_close_write :
      (write_stdin_at k b r t).1 ≡ none
      → let t1 = (close_stdin_at k r' (write_stdin_at k b r t).0).0 in
        (has_at k t1 ≡ true) × (write_stdin_at k b' r'' t1 ≡ (t1, some stdin_closed))
  unfolding close_stdin_at write_stdin_at has_at
  write_close_write ok = (ground (arith, ok), ground (arith, ok))

-- A message of card mode, delivered to a tracker in which the card is tracked and its stdin closed.
pub deliver_closed :
    (world : Message.World) (q : MessagePayload) (b : Text) (h : Handler)
    → is_chat q ≡ false
    → build_user_message world.marshal q.content ≡ some b
    → world.between h.manager.tracker ≡ h.manager.tracker
    → (has_at (key q.project q.card_id) h.manager.tracker ≡ true)
      × (write_stdin_at (key q.project q.card_id) b world.written h.manager.tracker
          ≡ (h.manager.tracker, some stdin_closed))
    → deliver world q h ≡ (h, stdin_error_reply stdin_closed)
unfolding is_tracked write_turn has write_stdin
deliver_closed world q b h card built still (tracked, closed) = go (deliver_cases world q h)
  where
    at_write :
        write_turn q b world.written (world.between h.manager.tracker)
        ≡ (h.manager.tracker, some stdin_closed)
    at_write = rw (still, write_turn) (rw (card, write_turn) closed)

    go : Delivery world q h → deliver world q h ≡ (h, stdin_error_reply stdin_closed)
    go (untracked a d) = absurd (ground (arith, a, card, tracked))
    go (unbuilt a d) = absurd (ground (arith, a, built))
    go (refused c e a w d) =
        let same : c ≡ b = ground (arith, a, built) in
        let at : write_turn q c world.written (world.between h.manager.tracker)
            ≡ (h.manager.tracker, some stdin_closed) =
          rw same at_write in
        let same_e : some e ≡ some stdin_closed = sym w ∙ ap (λ o. o.1) at in
        let error : e ≡ stdin_closed = cc in
        d
        ∙ ap (λ o. (with_tracker (o.0) h, stdin_error_reply e)) at
        ∙ ap (λ f. (h, stdin_error_reply f)) error
    go (delivered c a w d) =
        let same : c ≡ b = ground (arith, a, built) in
        let at : (write_turn q b world.written (world.between h.manager.tracker)).1 ≡ none =
          rw (← same) w in
        absurd (ground (arith, at, ap (λ o. o.1) at_write))
