-- ===== src/Broadcast/Moves.antt =====
-- internal/logbroadcast/broadcaster.go, one atomic step at a time: a send, the two steps that count a
-- failed one, the two of `flushDrops`, and the sections under the locks.
use contextmatrix_runner.Prelude.{
  ℕ, suc, ◌+◌, ◌≡◌, Bool, true, List, Text, Option, none, some, if◌then◌else◌,
}
use contextmatrix_runner.Broadcast.{
  Broadcaster, LogEntry, shut_channel, detach, subscribe_internal, try_send, add_drop, observe_drop,
  swap_drops, warn_drops, close, new_broadcaster,
}
use contextmatrix_runner.Broadcast.Steps.{take_entry}

-- The broadcaster; how many failed sends are not added to the count yet, and how many added ones the
-- observer is still to be told; what the reporter holds between the swap and the log line; and the
-- sum of the counts that a panic of the logger lost.
pub record Books : Type 0 where
  pub broadcaster : Broadcaster
  pub to_add : ℕ
  pub to_observe : ℕ
  pub held : Option ℕ
  pub lost : ℕ

abbrev pub fresh_books : Bool → Books
fresh_books has_observer = record {
  broadcaster = new_broadcaster true has_observer;
  to_add = 0;
  to_observe = 0;
  held = none;
  lost = 0;
}

abbrev pub with_broadcaster : Books → Broadcaster → Books
with_broadcaster w b = record w { broadcaster = b }

abbrev pub send_once : ℕ → LogEntry → Books → Books
send_once a entry w =
    let sent = try_send a entry w.broadcaster in
    record w { broadcaster = sent.0; to_add = if sent.1 then w.to_add else suc w.to_add }

-- One step of any goroutine. The reporter is one goroutine: it swaps only when it holds no count. It
-- recovers from a panic of the logger, and the count that it held is gone.
pub data Move : Books → Books → Type 0 where
  tried : (w : Books) (a : ℕ) (entry : LogEntry) → Move w (send_once a entry w)
  added :
      (w : Books) (n a : ℕ) (entry : LogEntry)
      → w.to_add ≡ suc n
      → Move w (record w {
        broadcaster = add_drop a entry w.broadcaster;
        to_add = n;
        to_observe = suc w.to_observe;
      })
  told :
      (w : Books) (n : ℕ)
      → w.to_observe ≡ suc n
      → Move w (record w { broadcaster = observe_drop w.broadcaster; to_observe = n })
  swapped :
      (w : Books)
      → w.held ≡ none
      → Move w (record w {
        broadcaster = (swap_drops w.broadcaster).0;
        held = some (swap_drops w.broadcaster).1;
      })
  logged :
      (w : Books) (n : ℕ)
      → w.held ≡ some n
      → Move w (record w { broadcaster = warn_drops n w.broadcaster; held = none })
  panicked :
      (w : Books) (n : ℕ) → w.held ≡ some n → Move w (record w { held = none; lost = n + w.lost })
  subscribed :
      (w : Books) (project session_id : Text)
      → Move w (with_broadcaster w (subscribe_internal project session_id w.broadcaster).0)
  detached : (w : Books) (a : ℕ) → Move w (with_broadcaster w (detach a w.broadcaster).0)
  finished : (w : Books) (a : ℕ) → Move w (with_broadcaster w (shut_channel a w.broadcaster))
  taken :
      (w : Books) (a : ℕ) (entry : LogEntry) (rest : List LogEntry)
      → Move w (with_broadcaster w (take_entry a entry rest w.broadcaster))
  stopped : (w : Books) → Move w (with_broadcaster w (close w.broadcaster))

pub data Moves (s : Books) : Books → Type 0 where
  here : Moves s s
  next : {t u : Books} → Moves s t → Move t u → Moves s u
