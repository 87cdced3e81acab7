-- ===== src/Webhook/Rollback.antt =====
-- /chat/start after the container was created: what is tracked, and what is rolled back.
pub mod Steps
use contextmatrix_runner.Prelude.{
  is_empty, if◌then◌else◌, Bool, false, not, ◌&&◌, text_beq, ℕ, ◌≤◌, ◌≡◌, refl, sym, ap, ◌∙◌, ◌≢◌,
  ◌⊎◌, inl, inr, true, Option, none, some, List, [], ◌∷◌, ◌++◌, Text, text_beq_iff, text_beq_refl,
  leb, length, Bool-cases, Option-cases, arith,
}
use contextmatrix_runner.Prelude.Dict.{
  lookup, insert, IsDict, lookup-insert, insert-IsDict, length-insert_new, length-insert_known,
}
use contextmatrix_runner.Container.{
  Manager, ManagerCall, stopped, awaited, rollback_failed, cleanup_deleted, attach_chat_stdin,
}
use contextmatrix_runner.Tracker.{
  Tracker, TrackerError, ContainerInfo, limit_reached, already_tracked, chat_key,
  add_under_limit_at, has_at, set_stdin_at, write_stdin_at, remove_at, close_writer_async,
}
use mathlib.Core.Path.{subst}
use contextmatrix_runner.Tracker.Limit.{remove-IsBounded}
use contextmatrix_runner.Tracker.Keys.{lookup-remove_at}
use contextmatrix_runner.Tracker.Methods.{
  add_chat_if_under_limit, has_chat, count, write_stdin_chat, remove_chat, set_stdin_chat,
}
use contextmatrix_runner.Webhook.Payload.{ChatStartPayload}
use contextmatrix_runner.Webhook.Handler.{Reply}
use contextmatrix_runner.Webhook.Handler.Message.{build_user_message}
use contextmatrix_runner.Webhook.Rollback.Steps.{
  inserted_elsewhere, Held, Held-remove, Held-set_stdin, Held-meanwhile, Held-prime,
}
use contextmatrix_runner.Webhook.Handler.Chats.{
  World, chat_info, reserve_error_reply, write_priming, meanwhile, roll_back, prime, finish_attach,
  attach_chat, reserve_chat,
}

-- A call was noted.
abbrev pub IsNoted : ManagerCall → List ManagerCall → Type 0
IsNoted call calls =
    (later : List ManagerCall) × (earlier : List ManagerCall) × (calls ≡ later ++ call ∷ earlier)

-- `Stop` was called for a container, and if it failed this was counted.
abbrev pub IsStopped : (Text → Bool) → Text → List ManagerCall → Type 0
IsStopped stops id calls =
    IsNoted (stopped id) calls × ((stops id ≡ true) ⊎ IsNoted (rollback_failed id) calls)

reserve_error_status : (e : TrackerError) → (reserve_error_reply e).status ≢ 202
reserve_error_status e h = ground arith

rolled_back :
    (world : World) (id : Text) (m : Manager)
    → IsStopped world.stops id (roll_back world id m).calls
rolled_back world id m = elim (Bool-cases (world.stops id)) [
  | inl e ↦ rw e (([], m.calls, refl), inl refl)
  | inr e ↦ rw e ((rollback_failed id ∷ [], m.calls, refl), inr ([], stopped id ∷ m.calls, refl))
]

-- Another call, noted later, takes nothing away.
noted_later :
    (stops : Text → Bool) (id : Text) (call : ManagerCall) (calls : List ManagerCall)
    → IsStopped stops id calls
    → IsStopped stops id (call ∷ calls)
noted_later stops id call calls ((l, e, f), inl ok) = ((call ∷ l, e, ap (λ c. call ∷ c) f), inl ok)
noted_later stops id call calls ((l, e, f), inr (l', e', f')) =
    ((call ∷ l, e, ap (λ c. call ∷ c) f), inr (call ∷ l', e', ap (λ c. call ∷ c) f'))

roll_back_tracker :
    (world : World) (id : Text) (m : Manager) → (roll_back world id m).tracker ≡ m.tracker
roll_back_tracker world id m = ground arith

-- Whether no other goroutine removes the chat.
abbrev pub stays : World → Bool
stays world =
    ((not (world.leaves 0) && not (world.leaves 1)) && not (world.leaves 2)) && not (world.leaves 3)

module _ (world : World) (p : ChatStartPayload) (limit : ℕ) (id : Text) (m : Manager) where
  abbrev own : Text
  own = chat_key p.session_id

  -- The reservation failed.
  reserve_error :
      (e : TrackerError)
      → add_chat_if_under_limit (chat_info world p id) limit m.tracker ≡ (m.tracker, some e)
      → ((reserve_chat world p limit id m).1 ≡ reserve_error_reply e)
        × IsStopped world.stops id (reserve_chat world p limit id m).0.calls
        × ((reserve_chat world p limit id m).0.tracker.containers ≡ m.tracker.containers)
  unfolding reserve_chat
  reserve_error e a =
      let failed = ap (λ o. o.1) a in
      let same = ap (λ o. o.0.containers) a in
      rw (failed, reserve_chat)
        (
          refl,
          noted_later world.stops id (cleanup_deleted id) _ (rolled_back world id _),
          ap (λ t. t.containers) (roll_back_tracker world id _) ∙ same,
        )

  -- The reservation succeeded: the tracker holds the entry, within the limit.
  abbrev Reserved : Tracker → Type 0
  Reserved t = Held limit own m.tracker.containers true t × (lookup own m.tracker.containers ≡ none)

  reserve_cases :
      IsDict m.tracker.containers
      → ((e : TrackerError) × (add_chat_if_under_limit (chat_info world p id) limit m.tracker
            ≡ (m.tracker, some e)))
        ⊎ ((t : Tracker) × (add_chat_if_under_limit (chat_info world p id) limit m.tracker
              ≡ (t, none))
            × Reserved t)
  unfolding add_chat_if_under_limit add_under_limit_at has_at
  reserve_cases d =
      let info = chat_info world p id in
      let t = m.tracker in
      elim (Bool-cases (leb limit (length t.containers))) [
        | inl full ↦ inl (limit_reached, rw (full, add_under_limit_at) refl)
        | inr room ↦ elim (Option-cases (lookup own t.containers)) [
          | inr (i, f) ↦ inl (already_tracked, rw (room, f, add_under_limit_at) refl)
          | inl new ↦ inr (
            record t { containers = insert own info t.containers },
            rw (room, new, add_under_limit_at) refl,
            (
              record {
                within = ground (arith, room, length-insert_new own info t.containers new);
                dict = insert-IsDict own info t.containers d;
                others = λ q ne. inserted_elsewhere own info t q ne;
                tracked =
                    ground (arith, lookup-insert own own info t.containers, text_beq_refl own);
              },
              new,
            ),
          )
        ]
      ]

  reserve_ok :
      (t : Tracker)
      → add_chat_if_under_limit (chat_info world p id) limit m.tracker ≡ (t, none)
      → reserve_chat world p limit id m ≡ attach_chat world p id (record m { tracker = t })
  unfolding reserve_chat
  reserve_ok t a =
      let done = ap (λ o. o.1) a in
      rw (done, reserve_chat) (ap (λ o. attach_chat world p id (record m { tracker = o.0 })) a)

  -- What /chat/start leaves behind.
  abbrev pub IsSettled : Manager × Reply → Type 0
  IsSettled o =
      ((o.1.status ≡ 202)
        × (has_chat p.session_id o.0.tracker ≡ stays world)
        × (count o.0.tracker ≤ limit)
        × ((q : Text)
            → (if text_beq own q then none else lookup q o.0.tracker.containers)
              ≡ lookup q m.tracker.containers))
      ⊎ ((o.1.status ≢ 202)
          × IsStopped world.stops id o.0.calls
          × ((q : Text) → lookup q o.0.tracker.containers ≡ lookup q m.tracker.containers))

  but_own :
      (b : Bool) (t : Tracker)
      → lookup own m.tracker.containers ≡ none
      → Held limit own m.tracker.containers b t
      → (q : Text)
      → (if text_beq own q then none else lookup q t.containers) ≡ lookup q m.tracker.containers
  but_own b t new h q = elim (Bool-cases (text_beq own q)) [
    | inl e ↦
        let same : own ≡ q = (text_beq_iff own q).0 e in
        rw e (sym (subst (λ j. lookup j m.tracker.containers ≡ none) same new))
    | inr e ↦ rw e (h.others q e)
  ]

  all_as_before :
      (t : Tracker)
      → lookup own m.tracker.containers ≡ none
      → Held limit own m.tracker.containers false t
      → (q : Text) → lookup q t.containers ≡ lookup q m.tracker.containers
  unfolding has_at
  all_as_before t new h q = elim (Bool-cases (text_beq own q)) [
    | inl e ↦
        let same : own ≡ q = (text_beq_iff own q).0 e in
        let gone : lookup own t.containers ≡ none = ground (arith, h.tracked) in
        subst (λ j. lookup j t.containers ≡ lookup j m.tracker.containers) same (gone ∙ sym new)
    | inr e ↦ h.others q e
  ]

  finish-IsSettled :
      (b : Bool) (attached : Manager × Bool)
      → lookup own m.tracker.containers ≡ none
      → Held limit own m.tracker.containers b (attached.0).tracker
      → ((b && not (world.leaves 1)) && not (world.leaves 2)) && not (world.leaves 3) ≡ stays world
      → IsSettled (finish_attach world p id attached)
  unfolding finish_attach remove_chat has_chat count
  finish-IsSettled b attached new held rest =
      let s = p.session_id in
      let old = m.tracker.containers in
      let m1 = meanwhile world 1 s attached.0 in
      let h1 = Held-meanwhile world limit s old 1 b attached.0 held in
      elim (Bool-cases attached.1) [
        | inr bad ↦
            let removed = Held-remove limit own old _ m1.tracker h1 in
            let left : Manager = record m1 { tracker = remove_at own m1.tracker } in
            rw bad (
              inr (
                λ e. ground arith,
                rolled_back world id left,
                λ q.
                    ap (λ u. lookup q u.containers) (roll_back_tracker world id left)
                    ∙ all_as_before left.tracker new removed q,
              ))
        | inl good ↦
            let h3 = Held-prime world limit old p _ m1 h1 in
            rw good (
              inl (
                refl,
                h3.tracked ∙ rest,
                h3.within,
                λ q. but_own _ (prime world p m1).tracker new h3 q,
              ))
      ]

  attach_IsSettled :
      (t : Tracker) → Reserved t → IsSettled (attach_chat world p id (record m { tracker = t }))
  unfolding attach_chat attach_chat_stdin set_stdin_chat
  attach_IsSettled t (held, new) =
      let s = p.session_id in
      let old = m.tracker.containers in
      let m0 : Manager = record m { tracker = t; calls = awaited s id ∷ m.calls } in
      let waited = Held-meanwhile world limit s old 0 true m0 held in
      let a0 = meanwhile world 0 s m0 in
      elim (Option-cases world.connected) [
        | inl bad ↦
            subst (λ c. IsSettled (finish_attach world p id (attach_chat_stdin c s a0))) (sym bad)
              (finish-IsSettled _ (a0, false) new waited refl)
        | inr (conn, good) ↦
            let set : Manager = record a0 {
              tracker = set_stdin_at own (some conn) (some conn) a0.tracker;
            } in
            let h0 = Held-set_stdin limit own old _ (some conn) (some conn) a0.tracker waited in
            subst (λ c. IsSettled (finish_attach world p id (attach_chat_stdin c s a0))) (sym good)
              (finish-IsSettled _ (set, true) new h0 refl)
      ]

-- After `StartChat` created a container, from any tracker without doubled keys, whatever the container's
-- own end or a /chat/end removes meanwhile: /chat/start answers 202, and then the chat is tracked
-- unless another goroutine removed it, the tracker is within the limit of containers, and every other
-- lookup is what it was; or it answers something else, and then `Stop` was called for the
-- container, a `Stop` that failed was counted, and every lookup of the tracker is what it was.
pub reserve_chat-IsSettled :
    (world : World) (p : ChatStartPayload) (limit : ℕ) (id : Text) (m : Manager)
    → IsDict m.tracker.containers
    → IsSettled world p limit id m (reserve_chat world p limit id m)
reserve_chat-IsSettled world p limit id m d = elim (reserve_cases world p limit id m d) [
  | inr (t, a, r) ↦ rw (reserve_ok world p limit id m t a) (attach_IsSettled world p limit id m t r)
  | inl (e, a) ↦
      let (reply, halted, same) = reserve_error world p limit id m e a in
      inr (
        λ s. reserve_error_status e (sym (ap (λ r. r.status) reply) ∙ s),
        halted,
        λ q. ap (lookup q) same,
      )
]
