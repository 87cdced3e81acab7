-- ===== src/Tests/Tracking.antt =====
-- internal/tracker/tracker.go at concrete data.
use contextmatrix_runner.Prelude.{
  ◌+◌, ◌≡◌, refl, none, some, List, [], ◌∷◌, Text, bytes, length, arith,
}
use contextmatrix_runner.Prelude.Texts.{text_beq}
use contextmatrix_runner.Prelude.Dict.{lookup, insert, IsDict}
use contextmatrix_runner.Tracker.{
  Tracker, ContainerInfo, stdin_closed, new, no_stdin, capture_at, add_under_limit_at, set_stdin_at,
  write_stdin_at, close_stdin_at, put_stdin, write_locked, close_locked,
}
use contextmatrix_runner.Tracker.Limit.{
  Method, add, adds, admit, attach, detach, IsBounded, run, run-IsBounded,
}
use contextmatrix_runner.Tracker.Interleaving.{
  IsFresh, IsClean, Step, Reach, here, next, no_use_after_close,
}

abbrev pub card : ContainerInfo
card = record {
  container_id = bytes "c1";
  card_id = bytes "A-1";
  project = bytes "proj";
  session_id = [];
  image = bytes "worker";
  started_at = 3;
  cancel = some 8;
  reason = [];
  stdin = none;
}

abbrev pub chat : ContainerInfo
chat = record card { card_id = []; session_id = bytes "s1"; container_id = bytes "c2" }

abbrev card_key : Text
card_key = bytes "proj/A-1"

abbrev pub two : Tracker
two = record {
  containers = (card_key, record card { stdin = some 0 }) ∷ (0 ∷ bytes "chat/s1", chat) ∷ [];
  stdins = put_stdin (λ a. no_stdin) 0 (record { writer = some 5; on_close = some 6 });
  next = 1;
  calls = [];
}

pub two-IsDict : IsDict two.containers
unfolding lookup text_beq
two-IsDict = (refl, (refl, tt))

abbrev after_close : Tracker
after_close = (close_stdin_at card_key none two).0

closed_test : (write_stdin_at card_key (bytes "hi") none after_close).1 ≡ some stdin_closed
unfolding close_stdin_at write_stdin_at capture_at lookup text_beq
closed_test = refl

captured : capture_at card_key two ≡ (none, some 0)
unfolding capture_at lookup text_beq
captured = refl

abbrev attached : Tracker
attached = set_stdin_at (0 ∷ bytes "chat/s1") (some 9) none two

found : lookup (0 ∷ bytes "chat/s1") two.containers ≡ some chat
unfolding lookup text_beq
found = refl

abbrev methods : List Method
methods =
    add (bytes "proj/A-0") card
    ∷ admit card_key card
    ∷ admit (bytes "proj/A-2") card
    ∷ attach card_key (some 1) none
    ∷ detach card_key
    ∷ []

run-IsBounded_example : IsBounded (1 + adds methods) (run 1 methods new)
run-IsBounded_example = run-IsBounded 1 methods

-- A writer that was set, then closed through one pointer and written through a stale one.
abbrev t1 : Tracker
t1 = (add_under_limit_at card_key card 2 new).0

abbrev t2 : Tracker
t2 = set_stdin_at card_key (some 5) none t1

abbrev t3 : Tracker
t3 = (write_locked 0 (bytes "hi") none t2).0

abbrev t4 : Tracker
t4 = (close_locked 0 none t3).0

abbrev t5 : Tracker
t5 = (write_locked 0 (bytes "late") none t4).0

fresh : IsFresh 5 t1
unfolding add_under_limit_at new lookup text_beq
fresh = record { unheld = λ a e. ground arith; unclosed = refl }

history : Reach new t5
history =
    next
      (next
        (next
          (next (next here (Step.admit new card_key card 2)) (Step.attach t1 card_key 5 none fresh))
          (Step.write t2 0 (bytes "hi") none))
        (Step.close t3 0 none))
      (Step.write t4 0 (bytes "late") none)

no_use_after_close_example : IsClean t5.calls
no_use_after_close_example = no_use_after_close history

two_admitted : length (add_under_limit_at (bytes "proj/A-2") card 3 two).0.containers ≡ 3
unfolding add_under_limit_at lookup insert text_beq
two_admitted = refl
