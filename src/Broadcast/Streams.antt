-- ===== src/Broadcast/Streams.antt =====
-- internal/logbroadcast/broadcaster.go: what a subscriber's channel takes and what its reader gets, over
-- the sections in any order.
use contextmatrix_runner.Prelude.{
  ℕ, ◌+◌, ◌≤◌, ◌<◌, ◌≡◌, refl, sym, ap, ◌∙◌, inl, inr, Bool, true, false, List, [], ◌∷◌, ◌++◌, Text,
  append_assoc, length, length-append, nat_beq, nat_beq_iff, if◌then◌else◌, Bool-cases, by_index,
  All, All-snoc, arith,
}
use contextmatrix_runner.Broadcast.{
  Broadcaster, Subscriber, LogEntry, Event, offered, dropped, observed, shut, warned, received,
  shut_channel, detach, subscribe_internal, truncate_entry, send_one, try_send, count_drop,
  flush_drops, close, new_broadcaster, matches, put, note, registered,
}
use contextmatrix_runner.Broadcast.Rounds.{skipped, missed, full, taken, send_one_cases}
use contextmatrix_runner.Broadcast.Truncation.{truncate_lem}
use contextmatrix_runner.Broadcast.Steps.{
  World, Step, subscribe, detached, finished, send, receive, flush, stop, Reach, Reach-inv, start,
}

-- The entries that a subscriber's channel took, and those that its reader got, the earliest first.
abbrev pub sent_to : ℕ → List Event → List LogEntry
sent_to a [] = []
sent_to a (offered b e true ∷ l) = if nat_beq a b then sent_to a l ++ e ∷ [] else sent_to a l
sent_to a (offered b e false ∷ l) = sent_to a l
sent_to a (dropped b e ∷ l) = sent_to a l
sent_to a (observed ∷ l) = sent_to a l
sent_to a (shut b ∷ l) = sent_to a l
sent_to a (warned n ∷ l) = sent_to a l
sent_to a (received b e ∷ l) = sent_to a l

abbrev pub received_by : ℕ → List Event → List LogEntry
received_by a [] = []
received_by a (offered b e ok ∷ l) = received_by a l
received_by a (dropped b e ∷ l) = received_by a l
received_by a (observed ∷ l) = received_by a l
received_by a (shut b ∷ l) = received_by a l
received_by a (warned n ∷ l) = received_by a l
received_by a (received b e ∷ l) =
    if nat_beq a b then received_by a l ++ e ∷ [] else received_by a l

-- What a subscriber may be sent.
abbrev pub IsFor : Subscriber → LogEntry → Type 0
IsFor s entry = (matches s entry ≡ true) × (length entry.content ≤ 65536)

pub record IsStream (s : Subscriber) (sent got : List LogEntry) : Type 0 where
  pub in_order : sent ≡ (got ++ s.buffer)
  pub bounded : length s.buffer ≤ 256
  pub fits : All (IsFor s) sent

pub record IsStreaming (heap : ℕ → Subscriber) (next : ℕ) (events : List Event) : Type 0 where
  pub streams : (a : ℕ) → a < next → IsStream (heap a) (sent_to a events) (received_by a events)
  pub fresh : (a : ℕ) → next ≤ a → (sent_to a events ≡ []) × (received_by a events ≡ [])

abbrev IsOrdered : Broadcaster → Type 0
IsOrdered b = IsStreaming b.heap b.next b.events

-- A stream does not depend on the closed flag.
IsStream-shut :
    (s : Subscriber) (sent got : List LogEntry)
    → IsStream s sent got
    → IsStream (record s { closed = true }) sent got
unfolding matches
IsStream-shut s sent got t = record { in_order = t.in_order; bounded = t.bounded; fits = t.fits }

IsStream-snoc :
    (s : Subscriber) (entry : LogEntry) (sent got : List LogEntry)
    → length s.buffer < 256
    → IsFor s entry
    → IsStream s sent got
    → IsStream (record s { buffer = s.buffer ++ entry ∷ [] }) (sent ++ entry ∷ []) got
unfolding matches
IsStream-snoc s entry sent got h f t = record {
  in_order = ap (λ l. l ++ entry ∷ []) t.in_order ∙ append_assoc got s.buffer (entry ∷ []);
  bounded = rw (length-append s.buffer (entry ∷ [])) (omega arith);
  fits = All-snoc (IsFor s) entry sent t.fits f;
}

IsStream-receive :
    (s : Subscriber) (entry : LogEntry) (rest sent got : List LogEntry)
    → s.buffer ≡ entry ∷ rest
    → IsStream s sent got
    → IsStream (record s { buffer = rest }) sent (got ++ entry ∷ [])
unfolding matches
IsStream-receive s entry rest sent got e t = record {
  in_order = t.in_order ∙ ap (λ l. got ++ l) e ∙ sym (append_assoc got (entry ∷ []) rest);
  bounded = ground (arith, t.bounded, ap length e);
  fits = t.fits;
}

module _ (heap : ℕ → Subscriber) (next : ℕ) (events : List Event)
    (s : IsStreaming heap next events) where
  -- An event that is neither a send that was taken nor a receipt.
  quiet-IsStreaming :
      (e : Event)
      → ((a : ℕ) → sent_to a (e ∷ events) ≡ sent_to a events)
      → ((a : ℕ) → received_by a (e ∷ events) ≡ received_by a events)
      → IsStreaming heap next (e ∷ events)
  quiet-IsStreaming e f g = record {
    streams = λ c h. rw (f c, g c) (s.streams c h);
    fresh = λ c h. rw (f c, g c) (s.fresh c h);
  }

  shut-IsStreaming :
      (a : ℕ)
      → a < next
      → IsStreaming (put heap a (record (heap a) { closed = true })) next (shut a ∷ events)
  shut-IsStreaming a l = record {
    streams = λ c h.
        let there = record (heap a) { closed = true } in
        by_index
          (λ t. IsStream (if t then there else heap c) (sent_to c events) (received_by c events)) c
          a (λ same. rw same (IsStream-shut (heap a) _ _ (s.streams a l)))
          (λ differs. s.streams c h);
    fresh = s.fresh;
  }

  sent-IsStreaming :
      (a : ℕ) (entry : LogEntry)
      → a < next
      → IsFor (heap a) entry
      → length (heap a).buffer < 256
      → IsStreaming
          (put heap a (record (heap a) { buffer = (heap a).buffer ++ entry ∷ [] }))
          next
          (offered a entry true ∷ events)
  sent-IsStreaming a entry h f room = record {
    streams = λ c k.
        let there = record (heap a) { buffer = (heap a).buffer ++ entry ∷ [] } in
        by_index
          (λ t.
            IsStream (if t then there else heap c)
              (if t then sent_to c events ++ entry ∷ [] else sent_to c events)
              (received_by c events))
          c a (λ same. rw same (IsStream-snoc (heap a) entry _ _ room f (s.streams a h)))
          (λ differs. s.streams c k);
    fresh = λ c k. ground (arith, s.fresh c k, nat_beq_iff c a);
  }

  receive-IsStreaming :
      (a : ℕ) (entry : LogEntry) (rest : List LogEntry)
      → (heap a).buffer ≡ entry ∷ rest
      → a < next
      → IsStreaming
          (put heap a (record (heap a) { buffer = rest }))
          next
          (received a entry ∷ events)
  receive-IsStreaming a entry rest q h = record {
    streams = λ c k.
        let there = record (heap a) { buffer = rest } in
        by_index
          (λ t.
            IsStream (if t then there else heap c) (sent_to c events)
              (if t then received_by c events ++ entry ∷ [] else received_by c events))
          c a (λ same. rw same (IsStream-receive (heap a) entry rest _ _ q (s.streams a h)))
          (λ differs. s.streams c k);
    fresh = λ c k. ground (arith, s.fresh c k, nat_beq_iff c a);
  }

  made-IsStreaming :
      (made : Subscriber) → made.buffer ≡ [] → IsStreaming (put heap next made) (next + 1) events
  made-IsStreaming made e = record {
    streams = λ c k.
        by_index
          (λ t. IsStream (if t then made else heap c) (sent_to c events) (received_by c events)) c
          next
          (λ same.
            rw (same, (s.fresh next (omega arith)).0, (s.fresh next (omega arith)).1)
              (record { in_order = sym e; bounded = rw e (omega arith); fits = tt }))
          (λ differs. s.streams c (ground (arith, differs)));
    fresh = λ c k. s.fresh c (omega arith);
  }

count_drop-IsOrdered :
    (b : Broadcaster) → IsOrdered b → (a : ℕ) (entry : LogEntry) → IsOrdered (count_drop a entry b)
unfolding count_drop
count_drop-IsOrdered b s a entry =
    let one = quiet-IsStreaming _ _ _ s (dropped a entry) (λ c. refl) (λ c. refl) in
    elim (Bool-cases b.has_observer) [
      | inl e ↦ rw e (quiet-IsStreaming _ _ _ one observed (λ c. refl) (λ c. refl))
      | inr e ↦ rw e one
    ]

module _ (b : Broadcaster) (s : IsOrdered b) where
  send-IsOrdered :
      (a : ℕ) (entry : LogEntry)
      → a < b.next
      → length entry.content ≤ 65536
      → IsOrdered (send_one a entry b)
  unfolding send_one try_send
  send-IsOrdered a entry h small = elim (send_one_cases a entry b) [
    | skipped e m ↦ rw e s
    | missed e m c ↦ rw e (count_drop-IsOrdered b s a entry)
    | full e m c f ↦
        let tried = quiet-IsStreaming _ _ _ s (offered a entry false) (λ c. refl) (λ c. refl) in
        rw e (count_drop-IsOrdered (note (offered a entry false) b) tried a entry)
    | taken e m c f ↦ rw e (sent-IsStreaming _ _ _ s a entry h (m, small) f)
  ]

  subscribe-IsOrdered :
      (project session_id : Text) → IsOrdered (subscribe_internal project session_id b).0
  unfolding subscribe_internal shut_channel
  subscribe-IsOrdered project session_id =
      let made : Subscriber = record {
        buffer = [];
        project = project;
        session_id = session_id;
        closed = false;
      } in
      let one = made-IsStreaming _ _ _ s made refl in
      elim (Bool-cases b.closed) [
        | inl e ↦ rw e (shut-IsStreaming _ _ _ one b.next (omega arith))
        | inr e ↦ rw e one
      ]

  detach-IsOrdered : (a : ℕ) → IsOrdered (detach a b).0
  unfolding detach
  detach-IsOrdered a = elim (Bool-cases (registered a b.subscribers)) [
    | inl e ↦ rw e s
    | inr e ↦ rw e s
  ]

  flush-IsOrdered : IsOrdered (flush_drops b)
  unfolding flush_drops
  flush-IsOrdered =
      let one = λ (n : ℕ). quiet-IsStreaming _ _ _ s (warned n) (λ c. refl) (λ c. refl) in
      elim (Bool-cases (nat_beq b.drop_count 0)) [
        | inl e ↦ rw e s
        | inr e ↦ elim (Bool-cases b.has_logger) [
          | inl f ↦ rw (e, f) (one b.drop_count)
          | inr f ↦ rw (e, f) s
        ]
      ]

Step-IsOrdered : (t u : World) → IsOrdered t.broadcaster → Step t u → IsOrdered u.broadcaster
unfolding close shut_channel
Step-IsOrdered t u s (subscribe w p i) = subscribe-IsOrdered w.broadcaster s p i
Step-IsOrdered t u s (detached w a) = detach-IsOrdered w.broadcaster s a
Step-IsOrdered t u s (finished w a h l) = shut-IsStreaming _ _ _ s a l
Step-IsOrdered t u s (send w a e h) =
    send-IsOrdered w.broadcaster s a (truncate_entry e) h (truncate_lem e.content).0
Step-IsOrdered t u s (receive w a e rest q h) = receive-IsStreaming _ _ _ s a e rest q h
Step-IsOrdered t u s (flush w) = flush-IsOrdered w.broadcaster s
Step-IsOrdered t u s (stop w) = s

start-IsOrdered :
    (has_logger has_observer : Bool) → IsOrdered (start has_logger has_observer).broadcaster
unfolding new_broadcaster
start-IsOrdered has_logger has_observer = record {
  streams = λ a h. absurd (ground arith);
  fresh = λ a h. (refl, refl);
}

-- In whatever order the sections of `Subscribe`, the unsubscribe functions, `Publish`, `flushDrops` and
-- `Close` and the receipts of the readers run from a new broadcaster, for each subscriber: what its
-- channel took so far is what its reader got, then what its buffer holds, in this order; the buffer
-- holds at most 256 entries; and each entry that it took matches the subscriber's filter and has at
-- most 65536 bytes of content.
pub read_in_order :
    (has_logger has_observer : Bool) (a : ℕ) {w : World}
    → Reach (start has_logger has_observer) w
    → a < w.broadcaster.next
    → IsStream
        (w.broadcaster.heap a)
        (sent_to a w.broadcaster.events)
        (received_by a w.broadcaster.events)
read_in_order has_logger has_observer a r h =
    (Reach-inv (λ (w : World). IsOrdered w.broadcaster) (start-IsOrdered has_logger has_observer)
        Step-IsOrdered r).streams
      a h
