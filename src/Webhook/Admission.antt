-- ===== src/Webhook/Admission.antt =====
-- /trigger: what it tracks and starts, and how its replies follow from the tracker.
use contextmatrix_runner.Prelude.{
  ℕ, suc, ◌≡◌, refl, ap, ◌≤◌, ◌<◌, ◌⊎◌, inl, inr, true, false, Option, none, some, ◌∷◌, Text, bytes,
  length, text_beq_refl, leb, Bool-cases, Option-cases, arith,
}
use contextmatrix_runner.Prelude.Dict.{lookup, insert, lookup-insert, length-insert_new}
use contextmatrix_runner.Container.{started, note_call}
use contextmatrix_runner.Tracker.{
  Tracker, TrackerError, ContainerInfo, cancelled, limit_reached, already_tracked, key,
  add_under_limit_at, has_at,
}
use contextmatrix_runner.Tracker.Methods.{add_if_under_limit, count, has}
use contextmatrix_runner.Webhook.Payload.{TriggerPayload, trigger}
use contextmatrix_runner.Webhook.Validate.{Url}
use contextmatrix_runner.Webhook.Validate.Dispatch.{validate_payload}
use contextmatrix_runner.Webhook.Handler.{Handler, is_draining, with_tracker, write_success}
use contextmatrix_runner.Webhook.Handler.Outcomes.{with_payload_valid}
use contextmatrix_runner.Webhook.Handler.Cards.{
  add_error_reply, config_of, info_of, start_card, handle_trigger,
}

module _ (info : ContainerInfo) (limit : ℕ) (t : Tracker) where
  add_full :
      leb limit (length t.containers) ≡ true
      → add_if_under_limit info limit t ≡ (t, some limit_reached)
  unfolding add_if_under_limit add_under_limit_at
  add_full full = rw (full, add_if_under_limit) refl

  add_known :
      (i : ContainerInfo)
      → leb limit (length t.containers) ≡ false
      → lookup (key info.project info.card_id) t.containers ≡ some i
      → add_if_under_limit info limit t ≡ (t, some already_tracked)
  unfolding add_if_under_limit add_under_limit_at
  add_known i room f = rw (room, f, add_if_under_limit) refl

  add_new :
      leb limit (length t.containers) ≡ false
      → lookup (key info.project info.card_id) t.containers ≡ none
      → add_if_under_limit info limit t
        ≡ (record t { containers = insert (key info.project info.card_id) info t.containers }, none)
  unfolding add_if_under_limit add_under_limit_at insert
  add_new room new = rw (room, new, add_if_under_limit) refl

module _ (p : TriggerPayload) (cancel now : ℕ) (id : Text) (h : Handler) where
  start_card_error :
      (e : TrackerError)
      → add_if_under_limit (info_of p cancel now) h.max_concurrent h.manager.tracker
        ≡ (h.manager.tracker, some e)
      → start_card p cancel id now h ≡ (
        with_tracker
            (record (h.manager.tracker) { calls = cancelled cancel ∷ h.manager.tracker.calls })
            h,
        add_error_reply e,
      )
  unfolding start_card
  start_card_error e a =
      let failed = ap (λ o. o.1) a in
      rw (failed, start_card)
        (ap
          (λ o. (
            with_tracker (record (o.0) { calls = cancelled cancel ∷ (o.0).calls }) h,
            add_error_reply e,
          ))
          a)

  start_card_ok :
      (t : Tracker)
      → add_if_under_limit (info_of p cancel now) h.max_concurrent h.manager.tracker ≡ (t, none)
      → start_card p cancel id now h ≡ (
        record h {
          manager =
              note_call (started (config_of p h.mcp_url id)) (record (h.manager) { tracker = t });
        },
        write_success 202 (bytes "container starting"),
      )
  unfolding start_card
  start_card_ok t a =
      let done = ap (λ o. o.1) a in
      rw (done, start_card)
        (ap
          (λ o. (
            record h {
              manager =
                  note_call (started (config_of p h.mcp_url id))
                    (record (h.manager) { tracker = o.0 });
            },
            write_success 202 (bytes "container starting"),
          ))
          a)

start_card_lem :
    (p : TriggerPayload) (cancel now : ℕ) (id : Text) (h : Handler)
    → let o = start_card p cancel id now h in
      let t = h.manager.tracker in
      let t1 = o.0.manager.tracker in
      ((o.1.status ≡ 429)
        × (h.max_concurrent ≤ count t)
        × (t1.containers ≡ t.containers)
        × (o.0.manager.calls ≡ h.manager.calls))
      ⊎ ((o.1.status ≡ 409)
          × (count t < h.max_concurrent)
          × (has p.project p.card_id t ≡ true)
          × (t1.containers ≡ t.containers)
          × (o.0.manager.calls ≡ h.manager.calls))
      ⊎ ((o.1.status ≡ 202)
          × (has p.project p.card_id t ≡ false)
          × (has p.project p.card_id t1 ≡ true)
          × (count t1 ≡ suc (count t))
          × (count t1 ≤ h.max_concurrent)
          × (o.0.manager.calls ≡ started (config_of p h.mcp_url id) ∷ h.manager.calls))
unfolding count has has_at
start_card_lem p cancel now id h =
    let k = key p.project p.card_id in
    let t = h.manager.tracker in
    let info = info_of p cancel now in
    elim (Bool-cases (leb h.max_concurrent (length t.containers))) [
      | inl full ↦
          rw
            (start_card_error p cancel now id h limit_reached
              (add_full info h.max_concurrent t full))
            (inl (refl, ground arith, refl, refl))
      | inr room ↦ elim (Option-cases (lookup k t.containers)) [
        | inr (i, f) ↦
            rw
              (start_card_error p cancel now id h already_tracked
                (add_known info h.max_concurrent t i room f))
              (inr (inl (refl, ground arith, ground arith, refl, refl)))
        | inl new ↦
            let grown = length-insert_new k info t.containers new in
            rw (start_card_ok p cancel now id h _ (add_new info h.max_concurrent t room new)) (
              inr (
                inr (
                  refl,
                  ground arith,
                  ground (arith, lookup-insert k k info t.containers, text_beq_refl k),
                  omega (arith, grown),
                  ground (arith, grown, room),
                  refl,
                )))
      ]
    ]

served_trigger :
    (parse : Text → Option Url) (p : TriggerPayload) (cancel now : ℕ) (id : Text) (h : Handler)
    → is_draining h ≡ false
    → validate_payload parse (trigger p) ≡ none
    → handle_trigger parse (some p) cancel id now h ≡ start_card p cancel id now h
unfolding handle_trigger
served_trigger parse p cancel now id h serves valid =
    rw (serves, handle_trigger)
      (with_payload_valid parse (λ q. trigger q) p h (λ q. start_card q cancel id now h) valid)

-- `handleTrigger` on a payload that is accepted, while the handler does not drain. The reply is 429
-- where the limit of containers is reached, else 409 where the card is tracked, else 202. With 202
-- the card is tracked, one container more is counted, at most as many as the limit, and `Run` was
-- called once, with the payload's configuration; otherwise nothing was run and the tracked
-- containers are as they were.
pub handle_trigger_lem :
    (parse : Text → Option Url) (p : TriggerPayload) (cancel now : ℕ) (id : Text) (h : Handler)
    → is_draining h ≡ false
    → validate_payload parse (trigger p) ≡ none
    → let o = handle_trigger parse (some p) cancel id now h in
      let t = h.manager.tracker in
      let t1 = o.0.manager.tracker in
      ((o.1.status ≡ 429)
        × (h.max_concurrent ≤ count t)
        × (t1.containers ≡ t.containers)
        × (o.0.manager.calls ≡ h.manager.calls))
      ⊎ ((o.1.status ≡ 409)
          × (count t < h.max_concurrent)
          × (has p.project p.card_id t ≡ true)
          × (t1.containers ≡ t.containers)
          × (o.0.manager.calls ≡ h.manager.calls))
      ⊎ ((o.1.status ≡ 202)
          × (has p.project p.card_id t ≡ false)
          × (has p.project p.card_id t1 ≡ true)
          × (count t1 ≡ suc (count t))
          × (count t1 ≤ h.max_concurrent)
          × (o.0.manager.calls ≡ started (config_of p h.mcp_url id) ∷ h.manager.calls))
handle_trigger_lem parse p cancel now id h serves valid =
    rw (served_trigger parse p cancel now id h serves valid) (start_card_lem p cancel now id h)
