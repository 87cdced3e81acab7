-- ===== src/Webhook/Retries.antt =====
-- Repeated requests: a message that was served, and a signed request that was let through.
use contextmatrix_runner.Prelude.{
  ℕ, ◌≡◌, refl, sym, ap, ◌∙◌, ◌≤◌, inl, inr, false, Option, none, some, List, Text, is_empty, ltb,
  length, Bool-cases, Option-cases, if◌then◌else◌, arith,
}
use contextmatrix_runner.Broadcast.{LogEntry}
use contextmatrix_runner.Webhook.DedupCache.{
  CachedAck, DedupCache, Call, fetch, message_dedup_key, chat_dedup_key, get_by_key, put_by_key,
  get, get_chat, put, put_chat, run, step,
}
use contextmatrix_runner.Webhook.DedupCache.Valid.{IsValid, IsTimely, time_after, step-IsValid}
use contextmatrix_runner.Webhook.DedupCache.Acks.{
  saved, LeavesAlone, step_settings, IsInside, HasRoom, get_by_key-put_by_key,
}
use contextmatrix_runner.Webhook.Payload.{MessagePayload, message}
use contextmatrix_runner.Webhook.Validate.{Url, invalid, unknown_type}
use contextmatrix_runner.Webhook.Validate.Dispatch.{validate_payload}
use contextmatrix_runner.Webhook.Handler.{
  Handler, with_tracker, publish, is_draining, write_raw_ack,
}
use contextmatrix_runner.Webhook.Handler.Outcomes.{
  Delivery, untracked, unbuilt, refused, delivered, deliver_cases, error_status,
}
use contextmatrix_runner.Webhook.Handler.Message.{
  World, is_chat, cached_ack, store_ack, acknowledge, deliver, serve_message, handle_message,
}

-- The key of a message's ack.
abbrev pub dedup_key : MessagePayload → Text
dedup_key p =
    if is_chat p
    then chat_dedup_key p.session_id p.message_id
    else message_dedup_key p.project p.card_id p.message_id

module _ (p : MessagePayload) (id : is_empty p.message_id ≡ false) where
  cached_ack_lem :
      (now : ℕ) (h : Handler) (c : DedupCache)
      → h.message_dedup ≡ some c
      → cached_ack p now h ≡ (
        record h { message_dedup = some ((get_by_key (dedup_key p) now c).0) },
        (get_by_key (dedup_key p) now c).1,
      )
  unfolding cached_ack get get_chat
  cached_ack_lem now h c e = elim (Bool-cases (is_empty p.session_id)) [
    | inl card ↦ rw (id, e, card, cached_ack, id) refl
    | inr chat ↦ rw (id, e, chat, cached_ack, id) refl
  ]

  store_ack_lem :
      (ack : CachedAck) (now : ℕ) (h : Handler) (c : DedupCache)
      → h.message_dedup ≡ some c
      → store_ack p ack now h
        ≡ record h { message_dedup = some (put_by_key (dedup_key p) ack now c) }
  unfolding store_ack put put_chat
  store_ack_lem ack now h c e = elim (Bool-cases (is_empty p.session_id)) [
    | inl card ↦ rw (id, e, card, store_ack, id) refl
    | inr chat ↦ rw (id, e, chat, store_ack, id) refl
  ]

acknowledge_served :
    (world : World) (p : MessagePayload) (h : Handler) (c : DedupCache) (body : Text)
    → is_empty p.message_id ≡ false
    → h.message_dedup ≡ some c
    → world.marshal_ack p.message_id ≡ some body
    → let ack : CachedAck = record { status = 202; body = body } in
      ((acknowledge world p h).1 ≡ write_raw_ack ack)
      × ((acknowledge world p h).0.message_dedup ≡ some (put_by_key (dedup_key p) ack world.now c))
unfolding acknowledge
acknowledge_served world p h c body id e m =
    rw (m, acknowledge) (refl, ap (λ k. k.message_dedup) (store_ack_lem p id _ world.now h c e))

publish_dedup : (entry : LogEntry) (h : Handler) → (publish entry h).message_dedup ≡ h.message_dedup
publish_dedup entry h = ground arith

-- What a message that is delivered and acknowledged leaves: its ack in the cache.
deliver_served :
    (world : World) (p : MessagePayload) (h : Handler) (c : DedupCache) (body : Text)
    → is_empty p.message_id ≡ false
    → h.message_dedup ≡ some c
    → world.marshal_ack p.message_id ≡ some body
    → (deliver world p h).1.status ≡ 202
    → let ack : CachedAck = record { status = 202; body = body } in
      ((deliver world p h).1 ≡ write_raw_ack ack)
      × ((deliver world p h).0.message_dedup ≡ some (put_by_key (dedup_key p) ack world.now c))
deliver_served world p h c body id e m ok = go (deliver_cases world p h)
  where
    Wanted : Type 0
    Wanted =
        let ack : CachedAck = record { status = 202; body = body } in
        ((deliver world p h).1 ≡ write_raw_ack ack)
        × ((deliver world p h).0.message_dedup ≡ some (put_by_key (dedup_key p) ack world.now c))

    go : Delivery world p h → Wanted
    go (untracked a d) = absurd (ground (arith, ok, d))
    go (unbuilt a d) = absurd (ground (arith, ok, d))
    go (refused b f a w d) = absurd (error_status f (sym (ap (λ o. o.1.status) d) ∙ ok))
    go (delivered b a w d) =
        rw d (acknowledge_served world p _ c body id (publish_dedup _ (with_tracker _ h) ∙ e) m)

-- A reply with status 202 means that the handler did not drain, and that the payload was accepted.
served_accepted :
    (world : World) (parse : Text → Option Url) (p : MessagePayload) (h : Handler)
    → (handle_message world parse (some p) h).1.status ≡ 202
    → (ltb 8192 (length p.content) ≡ false) × (validate_payload parse (message p) ≡ none)
unfolding handle_message serve_message
served_accepted world parse p h ok = elim (Bool-cases (is_draining h)) [
  | inl drains ↦ absurd (ground (arith, ok, drains))
  | inr serves ↦ elim (Bool-cases (ltb 8192 (length p.content))) [
    | inl large ↦ absurd (ground (arith, ok, serves, large))
    | inr fits ↦ elim (Option-cases (validate_payload parse (message p))) [
      | inl valid ↦ (fits, valid)
      | inr (invalid e, bad) ↦ absurd (ground (arith, ok, serves, fits, bad))
      | inr (unknown_type, bad) ↦ absurd (ground (arith, ok, serves, fits, bad))
    ]
  ]
]

module _ (world : World) (parse : Text → Option Url) (p : MessagePayload) (h : Handler) where
  pub served_miss :
      is_draining h ≡ false
      → ltb 8192 (length p.content) ≡ false
      → validate_payload parse (message p) ≡ none
      → (cached_ack p world.now h).1 ≡ none
      → handle_message world parse (some p) h ≡ deliver world p (cached_ack p world.now h).0
  unfolding handle_message serve_message
  served_miss serves fits valid miss =
      rw (serves, valid, miss, fits, handle_message, serve_message) refl

  served_hit :
      (ack : CachedAck)
      → is_draining h ≡ false
      → ltb 8192 (length p.content) ≡ false
      → validate_payload parse (message p) ≡ none
      → cached_ack p world.now h ≡ (h, some ack)
      → handle_message world parse (some p) h ≡ (h, write_raw_ack ack)
  unfolding handle_message serve_message
  served_hit ack serves fits valid hit =
      let answer : (cached_ack p world.now h).1 ≡ some ack = ap (λ o. o.1) hit in
      rw (serves, valid, answer, fits, handle_message, serve_message)
        (ap (λ o. (o.0, write_raw_ack ack)) hit)

cached_ack_hit :
    (p : MessagePayload) (now : ℕ) (h : Handler) (c : DedupCache) (ack : CachedAck)
    → is_empty p.message_id ≡ false
    → h.message_dedup ≡ some c
    → get_by_key (dedup_key p) now c ≡ (c, some ack)
    → cached_ack p now h ≡ (h, some ack)
cached_ack_hit p now h c ack id e got =
    cached_ack_lem p id now h c e
    ∙ ap (λ g. (record h { message_dedup = some (g.0) }, g.1)) got
    ∙ ap (λ d. (record h { message_dedup = d }, some ack)) (sym e)

fetched_again :
    (k : Text) (ack : CachedAck) (start t now : ℕ) (c c1 : DedupCache) (calls : List Call)
    → IsValid start c
    → start ≤ t
    → IsTimely t calls
    → LeavesAlone k calls
    → time_after t calls ≤ now
    → IsInside c.ttl t now
    → HasRoom c.capacity (saved calls)
    → some (put_by_key k ack t (get_by_key k t c).0) ≡ some c1
    → get_by_key k now (run calls c1) ≡ (run calls c1, some ack)
unfolding step
fetched_again k ack start t now c c1 calls v le timely alone before inside room same =
    let c0 = (get_by_key k t c).0 in
    let (same_ttl, same_capacity) = step_settings (fetch k t) c in
    let again =
      get_by_key-put_by_key k ack t t now c0 calls (step-IsValid (fetch k t) start c v le)
        (omega arith) timely alone before (rw same_ttl inside) (rw same_capacity room) in
    let same1 : put_by_key k ack t c0 ≡ c1 = cc in rw (← same1) again

-- A message with an id that was delivered and answered 202 at a time when its ack was not cached:
-- the same message again, with any later world and whatever state the rest of the handler is in,
-- gets the same reply and changes nothing: nothing is written and nothing is published. In between
-- the cache may have served any fetches, sweeps and stores under other keys, at times that do not go
-- back; the retry is less than the TTL later (where the TTL is positive), fewer acks than the
-- capacity were stored (where it is positive), and the handler does not drain.
pub message_retry :
    (world world2 : World) (parse : Text → Option Url) (p : MessagePayload) (h h2 : Handler)
    (c c1 : DedupCache) (body : Text) (start : ℕ) (calls : List Call)
    → is_empty p.message_id ≡ false
    → is_draining h ≡ false
    → h.message_dedup ≡ some c
    → IsValid start c
    → start ≤ world.now
    → (cached_ack p world.now h).1 ≡ none
    → world.marshal_ack p.message_id ≡ some body
    → (handle_message world parse (some p) h).1.status ≡ 202
    → (handle_message world parse (some p) h).0.message_dedup ≡ some c1
    → IsTimely world.now calls
    → LeavesAlone (dedup_key p) calls
    → time_after world.now calls ≤ world2.now
    → IsInside c.ttl world.now world2.now
    → HasRoom c.capacity (saved calls)
    → is_draining h2 ≡ false
    → h2.message_dedup ≡ some (run calls c1)
    → handle_message world2 parse (some p) h2 ≡ (h2, (handle_message world parse (some p) h).1)
message_retry world world2 parse p h h2 c c1 body start calls id serves e v le miss m ok held timely
      alone before inside room serves2 e2 =
    let (fits, valid) = served_accepted world parse p h ok in
    let first = served_miss world parse p h serves fits valid miss in
    let k = dedup_key p in
    let c0 = (get_by_key k world.now c).0 in
    let ack : CachedAck = record { status = 202; body = body } in
    let h0 = (cached_ack p world.now h).0 in
    let e0 : h0.message_dedup ≡ some c0 =
      ap (λ o. o.0.message_dedup) (cached_ack_lem p id world.now h c e) in
    let served =
      deliver_served world p h0 c0 body id e0 m (sym (ap (λ o. o.1.status) first) ∙ ok) in
    let same : some (put_by_key k ack world.now c0) ≡ some c1 =
      sym served.1 ∙ sym (ap (λ o. o.0.message_dedup) first) ∙ held in
    let fetched =
      fetched_again k ack start world.now world2.now c c1 calls v le timely alone before inside room
        same in
    let hit : cached_ack p world2.now h2 ≡ (h2, some ack) =
      cached_ack_hit p world2.now h2 (run calls c1) ack id e2 fetched in
    served_hit world2 parse p h2 ack serves2 fits valid hit
    ∙ ap (λ r. (h2, r)) (sym served.0 ∙ sym (ap (λ o. o.1) first))
