-- ===== src/Broadcast/Once.antt =====
-- internal/logbroadcast/broadcaster.go: the sends on a subscriber's channel and its close, over the
-- sections in any order.
use contextmatrix_runner.Prelude.{
  ℕ, suc, ◌+◌, ◌≤◌, ◌<◌, ◌≡◌, refl, Bool, true, false, List, [], ◌∷◌, Text, nat_beq, nat_beq_iff,
  if◌then◌else◌, arith,
}
use contextmatrix_runner.Broadcast.{
  Broadcaster, LogEntry, Event, offered, dropped, observed, shut, warned, received, registered,
  forget, shut_channel, detach, subscribe_internal, truncate_entry, send_one, try_send, count_drop,
  flush_drops, close, new_broadcaster,
}
use contextmatrix_runner.Broadcast.Steps.{
  World, Step, subscribe, detached, finished, send, receive, flush, stop, Reach, Reach-inv, start,
  count, drop_first, leave, with_broadcaster,
}

-- How often a subscriber's channel was closed.
abbrev pub shuts : ℕ → List Event → ℕ
shuts a [] = 0
shuts a (offered b e taken ∷ l) = shuts a l
shuts a (dropped b e ∷ l) = shuts a l
shuts a (observed ∷ l) = shuts a l
shuts a (shut b ∷ l) = if nat_beq a b then suc (shuts a l) else shuts a l
shuts a (warned n ∷ l) = shuts a l
shuts a (received b e ∷ l) = shuts a l

-- No send on a closed channel, and no close of one: in Go both panic.
abbrev pub IsClean : List Event → Type 0
IsClean [] = Unit
IsClean (offered a e taken ∷ l) = (shuts a l ≡ 0) × IsClean l
IsClean (dropped a e ∷ l) = IsClean l
IsClean (observed ∷ l) = IsClean l
IsClean (shut a ∷ l) = (shuts a l ≡ 0) × IsClean l
IsClean (warned n ∷ l) = IsClean l
IsClean (received a e ∷ l) = IsClean l

abbrev pub one_if : Bool → ℕ
one_if true = 1
one_if false = 0

-- A subscriber is registered, or one goroutine is closing it, or it is closed; its flag tells the last.
pub record IsOnce (w : World) : Type 0 where
  pub once :
      (a : ℕ)
      → one_if (registered a w.broadcaster.subscribers)
          + count a w.leaving
          + shuts a w.broadcaster.events
        ≤ 1
  pub flag :
      (a : ℕ)
      → a < w.broadcaster.next
      → shuts a w.broadcaster.events ≡ one_if (w.broadcaster.heap a).closed
  pub fresh :
      (a : ℕ)
      → w.broadcaster.next ≤ a
      → (registered a w.broadcaster.subscribers ≡ false)
        × (count a w.leaving ≡ 0)
        × (shuts a w.broadcaster.events ≡ 0)
  pub clean : IsClean w.broadcaster.events

registered-forget :
    (a b : ℕ) (l : List ℕ)
    → registered b (forget a l) ≡ (if nat_beq a b then false else registered b l)
registered-forget a b [] = ground arith
registered-forget a b (c ∷ l) =
    ground (arith, registered-forget a b l, nat_beq_iff a b, nat_beq_iff a c, nat_beq_iff b c)

count-drop_first :
    (a b : ℕ) (l : List ℕ)
    → 0 < count a l
    → count b l ≡ count b (drop_first a l) + (if nat_beq a b then 1 else 0)
count-drop_first a b [] h = absurd (omega arith)
count-drop_first a b (c ∷ l) h =
    ground (arith, count-drop_first a b l, nat_beq_iff a b, nat_beq_iff a c, nat_beq_iff b c)

module _ (w : World) (s : IsOnce w) where
  abbrev b : Broadcaster
  b = w.broadcaster

  leave-IsOnce : (a : ℕ) → IsOnce (leave a w)
  unfolding detach
  leave-IsOnce a = record {
    once = λ c. ground (arith, s.once c, registered-forget a c b.subscribers, nat_beq_iff c a);
    flag = λ c h. ground (arith, s.flag c);
    fresh = λ c h. ground (arith, s.fresh c, registered-forget a c b.subscribers, nat_beq_iff c a);
    clean = ground (arith, s.clean);
  }

  finish-IsOnce :
      (a : ℕ)
      → 0 < count a w.leaving
      → IsOnce (record { broadcaster = shut_channel a b; leaving = drop_first a w.leaving })
  unfolding shut_channel
  finish-IsOnce a h = record {
    once = λ c. ground (arith, s.once c, count-drop_first a c w.leaving, nat_beq_iff c a);
    flag = λ c k. ground (arith, s.flag c, s.once c, nat_beq_iff c a, nat_beq_iff a c);
    fresh = λ c k. ground (arith, s.fresh c, count-drop_first a c w.leaving, nat_beq_iff c a);
    clean = (ground (arith, s.once a), s.clean);
  }

  subscribe-IsOnce :
      (project session_id : Text)
      → IsOnce (with_broadcaster w (subscribe_internal project session_id b).0)
  unfolding subscribe_internal shut_channel
  subscribe-IsOnce project session_id = record {
    once = λ c. ground (arith, s.once c, s.fresh b.next, nat_beq_iff c b.next);
    flag =
        λ c h. ground (arith, s.flag c, s.fresh b.next, nat_beq_iff c b.next, nat_beq_iff b.next c);
    fresh = λ c h. ground (arith, s.fresh c, nat_beq_iff c b.next);
    clean = ground (arith, s.clean, s.fresh b.next);
  }

  send-IsOnce :
      (a : ℕ) (entry : LogEntry) → a < b.next → IsOnce (with_broadcaster w (send_one a entry b))
  unfolding send_one try_send count_drop
  send-IsOnce a entry h = record {
    once = λ c. ground (arith, s.once c);
    flag = λ c k. ground (arith, s.flag c, nat_beq_iff a c);
    fresh = λ c k. ground (arith, s.fresh c);
    clean = ground (arith, s.clean, s.flag a);
  }

Step-IsOnce : (t u : World) → IsOnce t → Step t u → IsOnce u
unfolding flush_drops close
Step-IsOnce t u s (subscribe w p i) = subscribe-IsOnce w s p i
Step-IsOnce t u s (detached w a) = leave-IsOnce w s a
Step-IsOnce t u s (finished w a h l) = finish-IsOnce w s a h
Step-IsOnce t u s (send w a e h) = send-IsOnce w s a (truncate_entry e) h
Step-IsOnce t u s (receive w a e rest q h) = record {
  once = λ c. s.once c;
  flag = λ c k. ground (arith, s.flag c, nat_beq_iff a c);
  fresh = λ c k. s.fresh c k;
  clean = s.clean;
}
Step-IsOnce t u s (flush w) = record {
  once = λ c. ground (arith, s.once c);
  flag = λ c k. ground (arith, s.flag c);
  fresh = λ c k. ground (arith, s.fresh c);
  clean = ground (arith, s.clean);
}
Step-IsOnce t u s (stop w) = record {
  once = s.once;
  flag = s.flag;
  fresh = s.fresh;
  clean = s.clean;
}

start-IsOnce : (has_logger has_observer : Bool) → IsOnce (start has_logger has_observer)
unfolding new_broadcaster
start-IsOnce has_logger has_observer = record {
  once = λ a. ground arith;
  flag = λ a h. absurd (ground arith);
  fresh = λ a h. (refl, refl, refl);
  clean = tt;
}

-- In whatever order the sections of `Subscribe`, the unsubscribe functions (each called any number of
-- times), `Publish` (with a snapshot of any age), `flushDrops` and `Close` run from a new broadcaster:
-- no channel is sent to after it was closed, and none is closed twice.
pub no_send_on_closed :
    (has_logger has_observer : Bool) {w : World}
    → Reach (start has_logger has_observer) w
    → IsClean w.broadcaster.events
no_send_on_closed has_logger has_observer r =
    (Reach-inv IsOnce (start-IsOnce has_logger has_observer) Step-IsOnce r).clean
