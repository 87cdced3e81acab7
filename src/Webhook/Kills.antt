-- ===== src/Webhook/Kills.antt =====
-- /kill: what is cancelled, and what is left to Docker.
use contextmatrix_runner.Prelude.{
  ℕ, ◌≡◌, refl, ap, ◌∙◌, ◌⊎◌, inl, inr, true, false, Option, none, some, ◌∷◌, Text, bytes,
  Option-cases, arith,
}
use contextmatrix_runner.Prelude.Dict.{lookup}
use contextmatrix_runner.Container
use contextmatrix_runner.Container.{Manager, force_removed, note_call}
use contextmatrix_runner.Tracker.{Tracker, ContainerInfo, key, has_at, cancel_at, note, cancelled}
use contextmatrix_runner.Tracker.Methods.{has, cancel}
use contextmatrix_runner.Webhook.Payload.{CardPayload, Payload}
use contextmatrix_runner.Webhook.Validate.{Url}
use contextmatrix_runner.Webhook.Validate.Dispatch.{validate_payload}
use contextmatrix_runner.Webhook.Handler.{Handler, with_tracker, write_success}
use contextmatrix_runner.Webhook.Handler.Cards.{kill_card, handle_kill}
use contextmatrix_runner.Webhook.Handler.Outcomes.{with_payload_valid}

module _ (p : CardPayload) (forced : Option ℕ) (between : Tracker → Tracker) (h : Handler) where
  kill_untracked :
      has p.project p.card_id h.manager.tracker ≡ false
      → (kill_card p forced between h).0
          ≡ record h { manager = note_call (force_removed p.project p.card_id) h.manager }
        × ((kill_card p forced between h).1.status ≡ elim forced [ none ↦ 500 | some n ↦ 200 ])
  unfolding kill_card
  kill_untracked absent = elim (Option-cases forced) [
    | inl failed ↦ rw (absent, failed, kill_card) (refl, refl)
    | inr (n, removed) ↦ rw (absent, removed, kill_card) (refl, ground arith)
  ]

  kill_tracked :
      (info : ContainerInfo)
      → has p.project p.card_id h.manager.tracker ≡ true
      → lookup (key p.project p.card_id) (between h.manager.tracker).containers ≡ some info
      → kill_card p forced between h ≡ (
        with_tracker
            (record (between h.manager.tracker) {
              calls = note cancelled info.cancel (between h.manager.tracker).calls;
            })
            h,
        write_success 200 (bytes "container killed"),
      )
  unfolding kill_card Container.kill cancel cancel_at
  kill_tracked info present found =
      rw (present, found, kill_card, Container.kill, cancel, cancel_at) refl

served_kill :
    (parse : Text → Option Url) (p : CardPayload) (forced : Option ℕ) (between : Tracker → Tracker)
    (h : Handler)
    → validate_payload parse (Payload.kill p) ≡ none
    → handle_kill parse (some p) forced between h ≡ kill_card p forced between h
unfolding handle_kill
served_kill parse p forced between h valid =
    with_payload_valid parse (λ q. Payload.kill q) p h (λ q. kill_card q forced between h) valid

-- /kill on a payload that is accepted, where no other request changes the tracker meanwhile. For a
-- card that is not tracked the tracker stays as it was, the containers with the card's labels are
-- removed, and the reply is 500 where that fails, else 200, also if there was none. For a tracked
-- card the reply is 200, and the one change is that its cancel function was called: the entry stays
-- until the container is cleaned up.
pub handle_kill_lem :
    (parse : Text → Option Url) (p : CardPayload) (forced : Option ℕ) (h : Handler)
    → validate_payload parse (Payload.kill p) ≡ none
    → let o = handle_kill parse (some p) forced (λ t. t) h in
      let t = h.manager.tracker in
      ((lookup (key p.project p.card_id) t.containers ≡ none)
        × (o.0.manager.tracker ≡ t)
        × (o.0.manager.calls ≡ force_removed p.project p.card_id ∷ h.manager.calls)
        × (o.1.status ≡ elim forced [ none ↦ 500 | some n ↦ 200 ]))
      ⊎ ((info : ContainerInfo) × (lookup (key p.project p.card_id) t.containers ≡ some info)
          × (o.0.manager.tracker ≡ record t { calls = note cancelled info.cancel t.calls })
          × (o.0.manager.calls ≡ h.manager.calls)
          × (o.1.status ≡ 200))
unfolding has has_at
handle_kill_lem parse p forced h valid =
    elim (Option-cases (lookup (key p.project p.card_id) h.manager.tracker.containers)) [
      | inl new ↦
          let killed = kill_untracked p forced (λ t. t) h (ground (arith, new)) in
          inl (
            new,
            ap (λ o. o.0.manager.tracker) served ∙ ap (λ k. k.manager.tracker) killed.0,
            ap (λ o. o.0.manager.calls) served ∙ ap (λ k. k.manager.calls) killed.0,
            ap (λ o. o.1.status) served ∙ killed.1,
          )
      | inr (info, found) ↦
          let killed =
            served ∙ kill_tracked p forced (λ t. t) h info (ground (arith, found)) found in
          inr (
            info,
            found,
            ap (λ o. o.0.manager.tracker) killed,
            ap (λ o. o.0.manager.calls) killed,
            ap (λ o. o.1.status) killed,
          )
    ]
  where
    served : handle_kill parse (some p) forced (λ t. t) h ≡ kill_card p forced (λ t. t) h
    served = served_kill parse p forced (λ t. t) h valid
