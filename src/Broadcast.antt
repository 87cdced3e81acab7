-- ===== src/Broadcast.antt =====
-- internal/logbroadcast/broadcaster.go: log entries fanned out to subscribers, each with a buffered
-- channel. A subscriber stands for its pointer; the map of subscribers is the list of its keys, in the
-- order of their registration (the map's own order is no part of a property). What happens is noted in
-- `events`, the latest first. Each function is one section under a lock, one atomic operation, or a
-- sequence of these.
pub mod Truncation
pub mod Rounds
pub mod Fanout
pub mod Steps
pub mod Once
pub mod Streams
pub mod Moves
pub mod Drops
use contextmatrix_runner.Prelude.{
  ℕ, ◌+◌, ◌-◌, ◌%◌, Bool, true, false, ◌||◌, ◌&&◌, Option, none, List, [], ◌∷◌, ◌++◌, Text, bytes,
  ltb, nat_beq, text_beq, is_empty, length, take, rune_cut, if◌then◌else◌,
}

-- contextmatrix-protocol's wire shapes.
pub record TokenUsage : Type 0 where
  pub input_tokens : ℕ
  pub output_tokens : ℕ
  pub cache_read_tokens : ℕ
  pub cache_create_tokens : ℕ

pub record LogEntry : Type 0 where
  pub timestamp : ℕ
  pub card_id : Text
  pub project : Text
  pub session_id : Text
  pub entry_type : Text
  pub content : Text
  pub model : Text
  pub usage : Option TokenUsage

abbrev pub subscriber_buffer_size : ℕ
subscriber_buffer_size = 256

abbrev pub max_log_entry_content_bytes : ℕ
max_log_entry_content_bytes = 65536

-- `truncatedMarker`: an ellipsis in UTF-8 and an ASCII text.
abbrev pub truncated_marker : Text
truncated_marker = 226 ∷ 128 ∷ 166 ∷ bytes "[truncated]"

-- The buffer holds the entries sent and not received yet, the earliest first.
pub record Subscriber : Type 0 where
  pub buffer : List LogEntry
  pub project : Text
  pub session_id : Text
  pub closed : Bool

-- `matches`
unfoldable pub matches : Subscriber → LogEntry → Bool
matches s entry =
    if is_empty s.session_id
    then is_empty s.project || text_beq s.project entry.project
    else text_beq entry.session_id s.session_id

pub data Event : Type 0 where
  offered : ℕ → LogEntry → Bool → Event  -- a non-blocking send, and whether it was taken
  dropped : ℕ → LogEntry → Event  -- a drop that was counted
  observed : Event  -- `ObserveDrop`
  shut : ℕ → Event  -- the close of a subscriber's channel
  warned : ℕ → Event  -- the summary line, with its count
  received : ℕ → LogEntry → Event  -- by the reader of the channel

-- The logger and the observer are optional; `closed` tells whether the channel of that name is closed.
pub record Broadcaster : Type 0 where
  pub subscribers : List ℕ
  pub heap : ℕ → Subscriber
  pub next : ℕ
  pub has_logger : Bool
  pub has_observer : Bool
  pub drop_count : ℕ
  pub closed : Bool
  pub events : List Event

-- `NewBroadcaster`, and the other constructors
unfoldable pub new_broadcaster : Bool → Bool → Broadcaster
new_broadcaster has_logger has_observer = record {
  subscribers = [];
  heap = λ a. record { buffer = []; project = []; session_id = []; closed = false };
  next = 0;
  has_logger = has_logger;
  has_observer = has_observer;
  drop_count = 0;
  closed = false;
  events = [];
}

abbrev pub put : (ℕ → Subscriber) → ℕ → Subscriber → ℕ → Subscriber
put heap a s b = if nat_beq b a then s else heap b

-- `_, ok := b.subscribers[sub]`
abbrev pub registered : ℕ → List ℕ → Bool
registered a [] = false
registered a (b ∷ l) = nat_beq a b || registered a l

-- `delete(b.subscribers, sub)`
abbrev pub forget : ℕ → List ℕ → List ℕ
forget a [] = []
forget a (b ∷ l) = let rest = forget a l in if nat_beq a b then rest else b ∷ rest

abbrev pub note : Event → Broadcaster → Broadcaster
note event b = record b { events = event ∷ b.events }

-- The section of the unsubscribe function under the subscriber's `closeMu`.
unfoldable pub shut_channel : ℕ → Broadcaster → Broadcaster
shut_channel a b = record b {
  heap = put b.heap a (record (b.heap a) { closed = true });
  events = shut a ∷ b.events;
}

-- The section of the unsubscribe function under `b.mu`: whether it goes on.
unfoldable pub detach : ℕ → Broadcaster → Broadcaster × Bool
detach a b =
    if registered a b.subscribers
    then (record b { subscribers = forget a b.subscribers }, true)
    else (b, false)

-- The function that `Subscribe` returns. It finds no subscriber of a rejected subscription.
unfoldable pub unsubscribe : ℕ → Broadcaster → Broadcaster
unfolding detach shut_channel
unsubscribe a b = let t = detach a b in if t.1 then shut_channel a t.0 else t.0

-- `subscribeInternal`, to the state and the subscriber. A subscription to a closed broadcaster is
-- rejected: its channel is closed, and it is not registered.
unfoldable pub subscribe_internal : Text → Text → Broadcaster → Broadcaster × ℕ
unfolding shut_channel
subscribe_internal project session_id b =
    let made = record b {
      heap =
          put b.heap b.next
            (record { buffer = []; project = project; session_id = session_id; closed = false });
      next = b.next + 1;
    } in
    if b.closed
    then (shut_channel b.next made, b.next)
    else (record made { subscribers = b.next ∷ b.subscribers }, b.next)

-- `Subscribe`
abbrev pub subscribe : Text → Broadcaster → Broadcaster × ℕ
subscribe project b = subscribe_internal project [] b

-- `SubscribeWithSessionID`
abbrev pub subscribe_with_session_id : Text → Broadcaster → Broadcaster × ℕ
subscribe_with_session_id session_id b = subscribe_internal [] session_id b

-- The truncation of `Publish`, to a given bound.
unfoldable pub truncate_to : ℕ → Text → Text
unfolding rune_cut
truncate_to bound content =
    let head = bound - length truncated_marker in
    if ltb bound (length content)
    then if ltb 0 head && ltb head (length content)
      then take (rune_cut content head) content ++ truncated_marker
      else truncated_marker
    else content

unfoldable pub truncate : Text → Text
unfolding truncate_to
truncate content = truncate_to max_log_entry_content_bytes content

abbrev pub truncate_entry : LogEntry → LogEntry
truncate_entry entry = record entry { content = truncate entry.content }

-- `trySend`
unfoldable pub try_send : ℕ → LogEntry → Broadcaster → Broadcaster × Bool
try_send a entry b =
    let sub = b.heap a in
    if sub.closed
    then (b, false)
    else if ltb (length sub.buffer) subscriber_buffer_size
    then (
      note (offered a entry true)
          (record b { heap = put b.heap a (record sub { buffer = sub.buffer ++ entry ∷ [] }) }),
      true,
    )
    else (note (offered a entry false) b, false)

-- `b.dropCount.Add(1)`, on a uint64.
abbrev pub add_drop : ℕ → LogEntry → Broadcaster → Broadcaster
add_drop a entry b =
    note (dropped a entry)
      (record b { drop_count = (b.drop_count + 1) % 18_446_744_073_709_551_616 })

-- `b.dropObs.ObserveDrop()`, where there is an observer.
abbrev pub observe_drop : Broadcaster → Broadcaster
observe_drop b = if b.has_observer then note observed b else b

-- The two, where no other goroutine runs in between.
unfoldable pub count_drop : ℕ → LogEntry → Broadcaster → Broadcaster
count_drop a entry b = observe_drop (add_drop a entry b)

-- The body of the loop of `Publish`.
unfoldable pub send_one : ℕ → LogEntry → Broadcaster → Broadcaster
unfolding try_send count_drop matches
send_one a entry b =
    if matches (b.heap a) entry
    then (let t = try_send a entry b in if t.1 then t.0 else count_drop a entry t.0)
    else b

-- The loop of `Publish` over its snapshot.
unfoldable pub send_each : List ℕ → LogEntry → Broadcaster → Broadcaster
unfolding send_one
send_each [] entry b = b
send_each (a ∷ snap) entry b = send_each snap entry (send_one a entry b)

-- `Publish`
unfoldable pub publish : LogEntry → Broadcaster → Broadcaster
unfolding send_each truncate
publish entry b = if b.closed then b else send_each b.subscribers (truncate_entry entry) b

-- `b.dropCount.Swap(0)`: the state and the count.
abbrev pub swap_drops : Broadcaster → Broadcaster × ℕ
swap_drops b = (record b { drop_count = 0 }, b.drop_count)

-- The rest of `flushDrops`, with the count that the swap gave.
abbrev pub warn_drops : ℕ → Broadcaster → Broadcaster
warn_drops n b = if nat_beq n 0 then b else if b.has_logger then note (warned n) b else b

-- `flushDrops`, where no other goroutine runs between its two steps.
unfoldable pub flush_drops : Broadcaster → Broadcaster
flush_drops b = let swapped = swap_drops b in warn_drops swapped.1 swapped.0

-- The signal of `Close`, which the reporter answers by a last flush.
unfoldable pub close : Broadcaster → Broadcaster
close b = record b { closed = true }

-- `SubscriberCount`
unfoldable pub subscriber_count : Broadcaster → ℕ
subscriber_count b = length b.subscribers

-- `PendingDropCount`
unfoldable pub pending_drop_count : Broadcaster → ℕ
pending_drop_count b = b.drop_count
