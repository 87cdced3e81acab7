-- ===== src/Tests/Broadcasting.antt =====
-- internal/logbroadcast/broadcaster.go at concrete data.
use contextmatrix_runner.Prelude.{
  ℕ, zero, suc, ◌≤◌, ◌<◌, ◌≡◌, refl, true, false, none, some, [], ◌∷◌, ◌++◌, Text, bytes, length,
  take, valid_utf8, arith,
}
use contextmatrix_runner.Prelude.Texts.{text_beq}
use contextmatrix_runner.Prelude.Runes.{starts_rune, rune_cut}
use contextmatrix_runner.Broadcast.{
  Broadcaster, LogEntry, truncated_marker, truncate_to, truncate, truncate_entry,
  subscribe_internal, send_one, shut_channel, detach, matches, try_send, count_drop, publish,
  flush_drops, swap_drops, add_drop, warn_drops, new_broadcaster, pending_drop_count, registered,
}
use contextmatrix_runner.Broadcast.Truncation.{truncate_lem}
use contextmatrix_runner.Broadcast.Fanout.{offer, publish_lem}
use contextmatrix_runner.Broadcast.Steps.{
  count, World, subscribe, detached, finished, send, flush, Reach, here, next, start, leave,
  with_broadcaster, drop_first,
}
use contextmatrix_runner.Broadcast.Once.{IsClean, no_send_on_closed}
use contextmatrix_runner.Broadcast.Streams.{IsStream, sent_to, received_by, read_in_order}
use contextmatrix_runner.Broadcast.Drops.{IsCounted, accounts_hold}
use contextmatrix_runner.Broadcast.Moves
use contextmatrix_runner.Broadcast.Moves.{
  Books, fresh_books, send_once, Moves, subscribed, tried, swapped, added, logged,
}

-- The cut backs off from the middle of a rune of three bytes.
cut_test :
    truncate_to 19 (bytes "abcd" ++ 226 ∷ 130 ∷ 172 ∷ bytes "efghijklmnopqrstu")
    ≡ (bytes "abcd" ++ truncated_marker)
unfolding truncate_to rune_cut starts_rune
cut_test = refl

abbrev fill : ℕ → Text
fill zero = []
fill (suc n) = 97 ∷ fill n

truncate_lem_example :
    (length (truncate (fill 70000)) ≤ 65536)
    × (length (fill 70000) ≤ 65536 → truncate (fill 70000) ≡ fill 70000)
    × (65536 < length (fill 70000)
        → (n : ℕ) × (n ≤ 65522)
          × (truncate (fill 70000) ≡ (take n (fill 70000) ++ truncated_marker)))
    × (valid_utf8 (fill 70000) ≡ true → valid_utf8 (truncate (fill 70000)) ≡ true)
truncate_lem_example = truncate_lem (fill 70000)

abbrev pub entry : LogEntry
entry = record {
  timestamp = 5;
  card_id = bytes "A-1";
  project = bytes "proj";
  session_id = [];
  entry_type = bytes "text";
  content = bytes "hi";
  model = [];
  usage = none;
}

abbrev w1 : World
w1 =
    with_broadcaster (start true true)
      (subscribe_internal (bytes "proj") [] (start true true).broadcaster).0

abbrev w2 : World
w2 = with_broadcaster w1 (send_one 0 (truncate_entry entry) w1.broadcaster)

abbrev w3 : World
w3 = leave 0 w2

abbrev w4 : World
w4 = record { broadcaster = shut_channel 0 w3.broadcaster; leaving = drop_first 0 w3.leaving }

abbrev w5 : World
w5 = with_broadcaster w4 (send_one 0 (truncate_entry entry) w4.broadcaster)

abbrev w6 : World
w6 = with_broadcaster w5 (flush_drops w5.broadcaster)

-- A subscriber that leaves while a `Publish` still has it in its snapshot.
late : Reach (start true true) w6
unfolding send_one matches try_send count_drop shut_channel detach subscribe_internal
    new_broadcaster truncate truncate_to text_beq
late =
    next
      (next
        (next
          (next
            (next (next here (subscribe (start true true) (bytes "proj") []))
              (send w1 0 entry (omega arith)))
            (detached w2 0))
          (finished w3 0 (omega arith) (omega arith)))
        (send w4 0 entry (omega arith)))
      (flush w5)

no_send_on_closed_example : IsClean w6.broadcaster.events
no_send_on_closed_example = no_send_on_closed true true late

has_subscriber : 0 < w6.broadcaster.next
unfolding send_one matches try_send count_drop shut_channel detach subscribe_internal flush_drops
    new_broadcaster truncate truncate_to text_beq
has_subscriber = omega arith

read_in_order_example :
    IsStream
      (w6.broadcaster.heap 0)
      (sent_to 0 w6.broadcaster.events)
      (received_by 0 w6.broadcaster.events)
read_in_order_example = read_in_order true true 0 late has_subscriber

-- A failed send is added to the count after the reporter swapped it, and before it logs.
abbrev m0 : Books
m0 = fresh_books true

abbrev m1 : Books
m1 = Moves.with_broadcaster m0 (subscribe_internal (bytes "proj") [] m0.broadcaster).0

abbrev m2 : Books
m2 = Moves.with_broadcaster m1 (shut_channel 0 m1.broadcaster)

abbrev m3 : Books
m3 = send_once 0 entry m2

abbrev m4 : Books
m4 = record m3 { broadcaster = (swap_drops m3.broadcaster).0; held = some 0 }

abbrev m5 : Books
m5 = record m4 { broadcaster = add_drop 0 entry m4.broadcaster; to_add = 0; to_observe = 1 }

abbrev m6 : Books
m6 = record m5 { broadcaster = warn_drops 0 m5.broadcaster; held = none }

interleaved : Moves m0 m6
unfolding subscribe_internal shut_channel try_send new_broadcaster
interleaved =
    Moves.next
      (Moves.next
        (Moves.next
          (Moves.next
            (Moves.next (Moves.next Moves.here (subscribed m0 (bytes "proj") []))
              (Moves.finished m1 0))
            (tried m2 0 entry))
          (swapped m3 refl))
        (added m4 0 0 entry refl))
      (logged m5 0 refl)

accounts_hold_example : IsCounted m6
accounts_hold_example = accounts_hold true interleaved

-- The late entry was dropped, and the flush took the count.
late_test :
    (sent_to 0 w6.broadcaster.events ≡ truncate_entry entry ∷ [])
    × (pending_drop_count w5.broadcaster ≡ 1)
    × (pending_drop_count w6.broadcaster ≡ 0)
unfolding send_one matches try_send count_drop shut_channel detach subscribe_internal flush_drops
    new_broadcaster truncate truncate_to text_beq pending_drop_count
late_test = (refl, refl, refl)

abbrev up : Broadcaster
up = w1.broadcaster

opened : up.closed ≡ false
unfolding subscribe_internal new_broadcaster
opened = refl

once : count 0 up.subscribers ≤ 1
unfolding subscribe_internal new_broadcaster
once = omega arith

publish_lem_example :
    (publish entry up).heap 0
    ≡ offer (registered 0 up.subscribers) (truncate_entry entry) (up.heap 0)
publish_lem_example = publish_lem entry up 0 opened once
