-- ===== src/Broadcast/Steps.antt =====
-- The sections under the locks of internal/logbroadcast/broadcaster.go in any order. `leaving` counts
-- the goroutines between the two sections of an unsubscribe function, by their subscriber. The steps
-- that count drops run along with `send` and `flush` here, as they touch no channel; Moves has each of
-- them by itself.
use contextmatrix_runner.Prelude.{
  ℕ, suc, ◌<◌, Bool, List, [], ◌∷◌, ◌≡◌, Text, nat_beq, if◌then◌else◌,
}
use contextmatrix_runner.Broadcast.{
  Broadcaster, LogEntry, received, new_broadcaster, note, put, shut_channel, detach,
  subscribe_internal, truncate_entry, send_one, flush_drops, close,
}

-- How often a subscriber is in a list.
abbrev pub count : ℕ → List ℕ → ℕ
count a [] = 0
count a (b ∷ l) = if nat_beq a b then suc (count a l) else count a l

abbrev pub drop_first : ℕ → List ℕ → List ℕ
drop_first a [] = []
drop_first a (b ∷ l) = let rest = drop_first a l in if nat_beq a b then l else b ∷ rest

pub record World : Type 0 where
  pub broadcaster : Broadcaster
  pub leaving : List ℕ

-- The first section of an unsubscribe, by any caller, any number of times.
abbrev pub leave : ℕ → World → World
leave a w =
    let t = detach a w.broadcaster in
    record { broadcaster = t.0; leaving = if t.1 then a ∷ w.leaving else w.leaving }

-- The reader takes the earliest entry of the buffer.
abbrev pub take_entry : ℕ → LogEntry → List LogEntry → Broadcaster → Broadcaster
take_entry a entry rest b =
    note (received a entry) (record b { heap = put b.heap a (record (b.heap a) { buffer = rest }) })

abbrev pub with_broadcaster : World → Broadcaster → World
with_broadcaster w b = record w { broadcaster = b }

-- One section. `send` is a round of a `Publish` whose snapshot, taken at any earlier time, had the
-- subscriber.
pub data Step : World → World → Type 0 where
  subscribe :
      (w : World) (project session_id : Text)
      → Step w (with_broadcaster w (subscribe_internal project session_id w.broadcaster).0)
  detached : (w : World) (a : ℕ) → Step w (leave a w)
  finished :
      (w : World) (a : ℕ)
      → 0 < count a w.leaving
      → a < w.broadcaster.next
      → Step w
          (record { broadcaster = shut_channel a w.broadcaster; leaving = drop_first a w.leaving })
  send :
      (w : World) (a : ℕ) (entry : LogEntry)
      → a < w.broadcaster.next
      → Step w (with_broadcaster w (send_one a (truncate_entry entry) w.broadcaster))
  receive :
      (w : World) (a : ℕ) (entry : LogEntry) (rest : List LogEntry)
      → (w.broadcaster.heap a).buffer ≡ entry ∷ rest
      → a < w.broadcaster.next
      → Step w (with_broadcaster w (take_entry a entry rest w.broadcaster))
  flush : (w : World) → Step w (with_broadcaster w (flush_drops w.broadcaster))
  stop : (w : World) → Step w (with_broadcaster w (close w.broadcaster))

abbrev pub start : Bool → Bool → World
start has_logger has_observer = record {
  broadcaster = new_broadcaster has_logger has_observer;
  leaving = [];
}

pub data Reach (s : World) : World → Type 0 where
  here : Reach s s
  next : {t u : World} → Reach s t → Step t u → Reach s u

-- A property of the broadcaster that the start has and every step keeps.
pub Reach-inv {ℓ} :
    (P : World → Type ℓ) {s : World}
    → P s
    → ((t u : World) → P t → Step t u → P u)
    → {t : World} → Reach s t
    → P t
Reach-inv P base keep here = base
Reach-inv P base keep (next {t} {u} r step) = keep t u (Reach-inv P base keep r) step
