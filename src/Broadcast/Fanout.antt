-- ===== src/Broadcast/Fanout.antt =====
-- What one call of `Publish` in internal/logbroadcast/broadcaster.go does to every subscriber.
use contextmatrix_runner.Prelude.{
  ℕ, ◌≤◌, ◌≡◌, refl, sym, ap, if_false, if_true, ◌∙◌, inl, inr, Bool, true, false, not, ◌&&◌, List,
  [], ◌∷◌, ◌++◌, length, Bool-cases, by_index, ltb, nat_beq, nat_beq_iff, if◌then◌else◌, arith,
}
use contextmatrix_runner.Broadcast.{
  Broadcaster, Subscriber, LogEntry, registered, matches, truncate_entry, send_one, count_drop,
  send_each, publish, note, offered, put,
}
use contextmatrix_runner.Broadcast.Rounds.{skipped, missed, full, taken, send_one_cases}
use contextmatrix_runner.Broadcast.Steps.{count}

-- Whether a subscriber's channel takes an entry.
abbrev pub takes : Subscriber → LogEntry → Bool
takes s entry = matches s entry && (not s.closed && ltb (length s.buffer) 256)

unfoldable pub offer : Bool → LogEntry → Subscriber → Subscriber
offer reached entry s =
    if reached && takes s entry then record s { buffer = s.buffer ++ entry ∷ [] } else s

offer_none : (entry : LogEntry) (s : Subscriber) → offer false entry s ≡ s
unfolding offer
offer_none entry s = refl

count_drop-heap :
    (a : ℕ) (entry : LogEntry) (b : Broadcaster) → (count_drop a entry b).heap ≡ b.heap
unfolding count_drop
count_drop-heap a entry b = elim (Bool-cases b.has_observer) [
  | inl e ↦ rw e refl
  | inr e ↦ rw e refl
]

-- An offer that is not taken leaves the heap alone.
put_same : (heap : ℕ → Subscriber) (x a : ℕ) (s : Subscriber) → s ≡ heap x → put heap x s a ≡ heap a
put_same heap x a s e =
    by_index (λ t. (if t then s else heap a) ≡ heap a) a x (λ same. rw same e) (λ differs. refl)

send_one-heap :
    (x : ℕ) (entry : LogEntry) (b : Broadcaster) (a : ℕ)
    → (send_one x entry b).heap a ≡ put b.heap x (offer true entry (b.heap x)) a
unfolding offer
send_one-heap x entry b a = elim (send_one_cases x entry b) [
  | skipped e m ↦ rw e (sym (put_same b.heap x a _ (ground arith)))
  | missed e m c ↦ rw (e, count_drop-heap x entry b) (sym (put_same b.heap x a _ (ground arith)))
  | full e m c f ↦
      rw (e, count_drop-heap x entry (note (offered x entry false) b))
        (sym (put_same b.heap x a _ (ground arith)))
  | taken e m c f ↦ rw e (ground arith)
]

count-registered : (a : ℕ) (l : List ℕ) → count a l ≡ 0 → registered a l ≡ false
count-registered a [] h = refl
count-registered a (b ∷ l) h = ground (arith, count-registered a l)

send_each-heap :
    (snap : List ℕ) (entry : LogEntry) (b : Broadcaster) (a : ℕ)
    → count a snap ≤ 1
    → (send_each snap entry b).heap a ≡ offer (registered a snap) entry (b.heap a)
unfolding send_each
send_each-heap [] entry b a h = sym (offer_none entry (b.heap a))
send_each-heap (x ∷ snap) entry b a h =
    let ih = send_each-heap snap entry (send_one x entry b) a (ground arith) in
    elim (Bool-cases (nat_beq a x)) [
      | inl e ↦
          let same : a ≡ x = (nat_beq_iff a x).0 e in
          let gone : registered a snap ≡ false = count-registered a snap (ground arith) in
          ih
          ∙ rw (gone, e)
              (offer_none entry _ ∙ send_one-heap x entry b a ∙ if_true _ _ e ∙ rw same refl)
      | inr e ↦
          let moved : (send_one x entry b).heap a ≡ b.heap a =
            send_one-heap x entry b a ∙ if_false _ _ e in
          ih ∙ rw e (ap (λ s. offer (registered a snap) entry s) moved)
    ]

-- On a broadcaster that is open and has each subscriber once, one call of `Publish` appends the
-- truncated entry to the buffer of each registered subscriber whose filter it matches, whose channel
-- is open and whose buffer holds fewer than 256 entries, and leaves every other subscriber alone.
pub publish_lem :
    (entry : LogEntry) (b : Broadcaster) (a : ℕ)
    → b.closed ≡ false
    → count a b.subscribers ≤ 1
    → (publish entry b).heap a
      ≡ offer (registered a b.subscribers) (truncate_entry entry) (b.heap a)
unfolding publish
publish_lem entry b a up h =
    ap (λ (v : Broadcaster). v.heap a) (if_false _ _ up)
    ∙ send_each-heap b.subscribers (truncate_entry entry) b a h
