-- ===== src/Webhook/Rollback/Steps.antt =====
-- What the steps of /chat/start after the reservation do to the tracker.
use contextmatrix_runner.Prelude.{
  is_empty, if◌then◌else◌, Bool, false, not, ◌&&◌, text_beq, ℕ, ◌≤◌, ◌≡◌, refl, ◌∙◌, inl, inr,
  Option, some, List, Text, text_beq_refl, length, Bool-cases, Option-cases, arith,
}
use contextmatrix_runner.Prelude.Dict.{
  lookup, insert, IsDict, lookup-insert, insert-IsDict, length-insert_known,
}
use contextmatrix_runner.Container.{Manager}
use contextmatrix_runner.Tracker.{
  Tracker, ContainerInfo, chat_key, has_at, set_stdin_at, write_stdin_at, remove_at,
  close_writer_async,
}
use mathlib.Core.Path.{subst}
use contextmatrix_runner.Tracker.Limit.{remove-IsBounded}
use contextmatrix_runner.Tracker.Keys.{lookup-remove_at}
use contextmatrix_runner.Tracker.Methods.{write_stdin_chat, remove_chat}
use contextmatrix_runner.Webhook.Payload.{ChatStartPayload}
use contextmatrix_runner.Webhook.Handler.Message.{build_user_message}
use contextmatrix_runner.Webhook.Handler.Chats.{World, write_priming, meanwhile, prime}

-- A write changes no entry.
write_containers :
    (k b : Text) (r : Option ℕ) (t : Tracker) → (write_stdin_at k b r t).0.containers ≡ t.containers
unfolding write_stdin_at
write_containers k b r t = ground arith

-- A chat that was added and removed again leaves every other lookup as it was.
pub inserted_elsewhere :
    (k : Text) (info : ContainerInfo) (t : Tracker) (q : Text)
    → text_beq k q ≡ false
    → lookup q (insert k info t.containers) ≡ lookup q t.containers
inserted_elsewhere k info t q ne = rw (lookup-insert k q info t.containers, ne) refl

-- A tracker within the limit, in which the key is present as told and every other is as in the map.
pub record Held (limit : ℕ) (k : Text) (old : List (Text × ContainerInfo)) (b : Bool) (t : Tracker)
    : Type 0 where
  pub within : length t.containers ≤ limit
  pub dict : IsDict t.containers
  pub others : (q : Text) → text_beq k q ≡ false → lookup q t.containers ≡ lookup q old
  pub tracked : has_at k t ≡ b

module _ (limit : ℕ) (k : Text) (old : List (Text × ContainerInfo)) where
  Held-same :
      (b : Bool) (t u : Tracker)
      → u.containers ≡ t.containers
      → Held limit k old b t
      → Held limit k old b u
  unfolding has_at
  Held-same b t u e h = record {
    within = rw e h.within;
    dict = rw e h.dict;
    others = λ q ne. rw e (h.others q ne);
    tracked = ground (arith, e, h.tracked);
  }

  pub Held-remove :
      (b : Bool) (t : Tracker) → Held limit k old b t → Held limit k old false (remove_at k t)
  unfolding has_at
  Held-remove b t h =
      let kept = remove-IsBounded limit k t (record { within = h.within; dict = h.dict }) in
      record {
        within = kept.within;
        dict = kept.dict;
        others = λ q ne. rw (lookup-remove_at k q t h.dict, ne) (h.others q ne);
        tracked = ground (arith, lookup-remove_at k k t h.dict, text_beq_refl k);
      }

  Held-insert :
      (b : Bool) (i j : ContainerInfo) (t u : Tracker)
      → lookup k t.containers ≡ some i
      → u.containers ≡ insert k j t.containers
      → Held limit k old b t
      → Held limit k old b u
  unfolding has_at
  Held-insert b i j t u f e h = record {
    within = rw (e, length-insert_known k j i t.containers f) h.within;
    dict = rw e (insert-IsDict k j t.containers h.dict);
    others = λ q ne. rw e (inserted_elsewhere k j t q ne ∙ h.others q ne);
    tracked = ground (arith, e, f, h.tracked, lookup-insert k k j t.containers, text_beq_refl k);
  }

  pub Held-set_stdin :
      (b : Bool) (w oc : Option ℕ) (t : Tracker)
      → Held limit k old b t
      → Held limit k old b (set_stdin_at k w oc t)
  unfolding set_stdin_at close_writer_async
  Held-set_stdin b w oc t h = elim (Option-cases (lookup k t.containers)) [
    | inl absent ↦ Held-same b t (set_stdin_at k w oc t) (ground (arith, absent)) h
    | inr (info, f) ↦ elim (Option-cases info.stdin) [
      | inl none_yet ↦
          Held-insert b info (record info { stdin = some t.next }) t (set_stdin_at k w oc t) f
            (ground (arith, f, none_yet)) h
      | inr (a, known) ↦ Held-same b t (set_stdin_at k w oc t) (ground (arith, f, known)) h
    ]
  ]

module _ (world : World) (limit : ℕ) (s : Text) (old : List (Text × ContainerInfo)) where
  Held-write_priming :
      (text : Text) (b : Bool) (m : Manager)
      → Held limit (chat_key s) old b m.tracker
      → Held limit (chat_key s) old b (write_priming world s text m).tracker
  unfolding write_priming write_stdin_chat
  Held-write_priming text b m h = elim (Option-cases (build_user_message world.marshal text)) [
    | inl bad ↦ rw (bad, write_priming) h
    | inr (bs, built) ↦
        rw (built, write_priming)
          (Held-same limit (chat_key s) old b m.tracker _
            (write_containers (chat_key s) bs world.written m.tracker) h)
  ]

  pub Held-meanwhile :
      (n : ℕ) (b : Bool) (m : Manager)
      → Held limit (chat_key s) old b m.tracker
      → Held limit (chat_key s) old (b && not (world.leaves n)) (meanwhile world n s m).tracker
  unfolding meanwhile remove_chat
  Held-meanwhile n b m h = elim (Bool-cases (world.leaves n)) [
    | inl e ↦
        let gone : false ≡ (b && not (world.leaves n)) = ground (arith, e) in
        subst (λ (c : Bool). Held limit (chat_key s) old c (meanwhile world n s m).tracker) gone
          (rw e (Held-remove limit (chat_key s) old b m.tracker h))
    | inr e ↦
        let kept : b ≡ (b && not (world.leaves n)) = ground (arith, e) in
        subst (λ (c : Bool). Held limit (chat_key s) old c (meanwhile world n s m).tracker) kept
          (rw e h)
  ]

pub Held-prime :
    (world : World) (limit : ℕ) (old : List (Text × ContainerInfo)) (p : ChatStartPayload)
    (b : Bool) (m : Manager)
    → Held limit (chat_key p.session_id) old b m.tracker
    → Held limit
        (chat_key p.session_id)
        old
        ((b && not (world.leaves 2)) && not (world.leaves 3))
        (prime world p m).tracker
unfolding prime
Held-prime world limit old p b m h =
    let s = p.session_id in
    let primed = if not (is_empty p.primer) then write_priming world s p.primer m else m in
    let first : Held limit (chat_key s) old b primed.tracker =
      elim (Bool-cases (is_empty p.primer)) [
        | inl e ↦ rw e h
        | inr e ↦ rw e (Held-write_priming world limit s old p.primer b m h)
      ] in
    let m2 = meanwhile world 2 s primed in
    let second = Held-meanwhile world limit s old 2 b primed first in
    elim (Option-cases p.resume) [
      | inl e ↦ rw (prime, e) (Held-meanwhile world limit s old 3 _ m2 second)
      | inr (r, e) ↦
          rw (prime, e)
            (Held-meanwhile world limit s old 3 _ _
              (Held-write_priming world limit s old (world.rehydration s) _ m2 second))
    ]
