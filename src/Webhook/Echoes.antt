-- ===== src/Webhook/Echoes.antt =====
-- /message: what is published, and what is written.
use contextmatrix_runner.Prelude.{
  ℕ, ◌≡◌, refl, sym, ap, ◌∙◌, ◌⊎◌, inl, inr, ltb, length, is_empty, Option, none, some, ◌∷◌, Text,
  Bool-cases, Option-cases, arith,
}
use contextmatrix_runner.Broadcast.{LogEntry}
use contextmatrix_runner.Tracker.{
  Tracker, key, chat_key, wrote, capture_at, write_locked, write_stdin_at,
}
use contextmatrix_runner.Tracker.Methods.{write_stdin, write_stdin_chat}
use contextmatrix_runner.Webhook.DedupCache.{CachedAck}
use contextmatrix_runner.Webhook.Payload.{MessagePayload, message}
use contextmatrix_runner.Webhook.Validate.{Url}
use contextmatrix_runner.Webhook.Validate.Dispatch.{validate_payload}
use contextmatrix_runner.Webhook.Handler.{Handler, is_draining, publish, with_tracker}
use contextmatrix_runner.Webhook.Handler.Message.{
  World, build_user_message, cached_ack, write_turn, user_entry, store_ack, acknowledge, deliver,
  serve_message, handle_message,
}
use contextmatrix_runner.Webhook.Retries.{served_miss}
use contextmatrix_runner.Webhook.Handler.Outcomes.{
  Delivery, untracked, unbuilt, refused, delivered, deliver_cases,
}

-- A write that reports no error reached a writer with its bytes.
write_reached :
    (k b : Text) (r : Option ℕ) (t : Tracker)
    → (write_stdin_at k b r t).1 ≡ none
    → (w : ℕ) × ((write_stdin_at k b r t).0.calls ≡ wrote w b ∷ t.calls)
unfolding write_stdin_at capture_at write_locked
write_reached k b r t ok = elim (Option-cases (capture_at k t).1) [
  | inl absent ↦ absurd (ground (arith, ok, absent))
  | inr (a, found) ↦ elim (Option-cases (t.stdins a).writer) [
    | inl closed ↦ absurd (ground (arith, ok, found, closed))
    | inr (w, open_writer) ↦ (w, rw (found, open_writer, write_stdin_at, write_locked) refl)
  ]
]

turn_reached :
    (p : MessagePayload) (b : Text) (r : Option ℕ) (t : Tracker)
    → (write_turn p b r t).1 ≡ none
    → (w : ℕ) × ((write_turn p b r t).0.calls ≡ wrote w b ∷ t.calls)
unfolding write_turn write_stdin write_stdin_chat
turn_reached p b r t ok = elim (Bool-cases (is_empty p.session_id)) [
  | inr card ↦
      let same : write_turn p b r t ≡ write_stdin_at (chat_key p.session_id) b r t =
        rw (card, write_turn) refl in
      let (w, e) = write_reached (chat_key p.session_id) b r t (sym (ap (λ o. o.1) same) ∙ ok) in
      (w, ap (λ o. o.0.calls) same ∙ e)
  | inl chat ↦
      let same : write_turn p b r t ≡ write_stdin_at (key p.project p.card_id) b r t =
        rw (chat, write_turn) refl in
      let (w, e) = write_reached (key p.project p.card_id) b r t (sym (ap (λ o. o.1) same) ∙ ok) in
      (w, ap (λ o. o.0.calls) same ∙ e)
]

-- The same but for the cached acks.
abbrev Alike : Handler → Handler → Type 0
Alike g h = (g.manager ≡ h.manager) × (g.broadcaster ≡ h.broadcaster)

store_ack-Alike :
    (p : MessagePayload) (ack : CachedAck) (now : ℕ) (h : Handler) → Alike (store_ack p ack now h) h
unfolding store_ack
store_ack-Alike p ack now h = elim (Bool-cases (is_empty p.message_id)) [
  | inl anonymous ↦ rw (anonymous, store_ack) (refl, refl)
  | inr named ↦ elim (Option-cases h.message_dedup) [
    | inl off ↦ (ground (arith, named, off), ground (arith, named, off))
    | inr (c, on) ↦ (ground (arith, named, on), ground (arith, named, on))
  ]
]

cached_ack-Alike : (p : MessagePayload) (now : ℕ) (h : Handler) → Alike (cached_ack p now h).0 h
unfolding cached_ack
cached_ack-Alike p now h = elim (Bool-cases (is_empty p.message_id)) [
  | inl anonymous ↦ rw (anonymous, cached_ack) (refl, refl)
  | inr named ↦ elim (Option-cases h.message_dedup) [
    | inl off ↦ (ground (arith, named, off), ground (arith, named, off))
    | inr (c, on) ↦ (ground (arith, named, on), ground (arith, named, on))
  ]
]

acknowledge-Alike :
    (world : World) (p : MessagePayload) (h : Handler) → Alike (acknowledge world p h).0 h
unfolding acknowledge
acknowledge-Alike world p h = elim (Option-cases (world.marshal_ack p.message_id)) [
  | inl bad ↦ rw (bad, acknowledge) (refl, refl)
  | inr (body, good) ↦ rw (good, acknowledge) (store_ack-Alike p _ world.now h)
]

publish_manager : (entry : LogEntry) (h : Handler) → (publish entry h).manager ≡ h.manager
publish_manager entry h = ground arith

publish_broadcaster :
    (entry : LogEntry) (g h : Handler)
    → g.broadcaster ≡ h.broadcaster
    → (publish entry g).broadcaster ≡ (publish entry h).broadcaster
publish_broadcaster entry g h e = elim (Option-cases h.broadcaster) [
  | inl off ↦ ground (arith, e, off)
  | inr (entries, on) ↦ ground (arith, e, on)
]

-- The broadcaster as it was, or one entry more that a write accounts for.
abbrev pub IsEchoed : World → MessagePayload → Handler → Handler → Type 0
IsEchoed world p h g =
    (g.broadcaster ≡ h.broadcaster)
    ⊎ ((b : Text) × (w : ℕ) × (build_user_message world.marshal p.content ≡ some b)
        × (g.manager.tracker.calls ≡ wrote w b ∷ (world.between h.manager.tracker).calls)
        × (g.broadcaster ≡ (publish (user_entry p world.now) h).broadcaster))

deliver-IsEchoed :
    (world : World) (p : MessagePayload) (h : Handler) → IsEchoed world p h (deliver world p h).0
deliver-IsEchoed world p h = go (deliver_cases world p h)
  where
    go : Delivery world p h → IsEchoed world p h (deliver world p h).0
    go (untracked a d) = inl (ap (λ o. o.0.broadcaster) d)
    go (unbuilt a d) = inl (ap (λ o. o.0.broadcaster) d)
    go (refused b e a c d) = inl (ap (λ o. o.0.broadcaster) d)
    go (delivered b a ok d) =
        let t = world.between h.manager.tracker in
        let h1 = with_tracker ((write_turn p b world.written t).0) h in
        let h2 = publish (user_entry p world.now) h1 in
        let (same_manager, same_broadcaster) = acknowledge-Alike world p h2 in
        let (w, e) = turn_reached p b world.written t ok in
        inr (
          b,
          w,
          a,
          ap (λ o. o.0.manager.tracker.calls) d
              ∙ ap (λ m. m.tracker.calls) same_manager
              ∙ ap (λ m. m.tracker.calls) (publish_manager (user_entry p world.now) h1)
              ∙ e,
          ap (λ o. o.0.broadcaster) d
              ∙ same_broadcaster
              ∙ publish_broadcaster (user_entry p world.now) h1 h refl,
        )

IsEchoed-Alike :
    (world : World) (p : MessagePayload) (h h0 g : Handler)
    → Alike h0 h
    → IsEchoed world p h0 g
    → IsEchoed world p h g
IsEchoed-Alike world p h h0 g (same_manager, same_broadcaster) (inl e) = inl (e ∙ same_broadcaster)
IsEchoed-Alike world p h h0 g (same_manager, same_broadcaster)
      (inr (b, w, built, calls, published)) =
    inr (
      b,
      w,
      built,
      calls ∙ ap (λ m. wrote w b ∷ (world.between m.tracker).calls) same_manager,
      published ∙ publish_broadcaster (user_entry p world.now) h0 h same_broadcaster,
    )

-- /message publishes nothing that was not written. Whatever a request with a decoded payload is
-- answered: the broadcaster is as it was; or the message's frame was written to a writer, as the
-- last call after what other requests did before, and one entry with its content was published, if
-- there is a broadcaster.
pub handle_message-IsEchoed :
    (world : World) (parse : Text → Option Url) (p : MessagePayload) (h : Handler)
    → IsEchoed world p h (handle_message world parse (some p) h).0
unfolding handle_message serve_message
handle_message-IsEchoed world parse p h = elim (Bool-cases (is_draining h)) [
  | inl drains ↦ inl (ground (arith, drains))
  | inr serves ↦ elim (Bool-cases (ltb 8192 (length p.content))) [
    | inl large ↦ inl (ground (arith, serves, large))
    | inr fits ↦ elim (Option-cases (validate_payload parse (message p))) [
      | inr (e, bad) ↦ inl (ground (arith, serves, fits, bad))
      | inl valid ↦ elim (Option-cases (cached_ack p world.now h).1) [
        | inr (ack, hit) ↦
            rw (serves, valid, hit, fits, handle_message, serve_message)
              (inl (cached_ack-Alike p world.now h).1)
        | inl miss ↦ rw (served_miss world parse p h serves fits valid miss) (
            IsEchoed-Alike world p h (cached_ack p world.now h).0
              (deliver world p (cached_ack p world.now h).0).0 (cached_ack-Alike p world.now h)
              (deliver-IsEchoed world p (cached_ack p world.now h).0))
      ]
    ]
  ]
]
