-- ===== src/Tracker/Stdin.antt =====
-- The protocol of one stdin, and the interleavings of the locked sections.
use contextmatrix_runner.Prelude.{ℕ, ◌≡◌, Option, none, some, ◌∷◌, Text, text_beq_refl, arith}
use contextmatrix_runner.Prelude.Dict.{lookup, lookup-insert}
use contextmatrix_runner.Tracker.{
  stdin_closed, io_error, ContainerInfo, wrote, Tracker, capture_at, write_stdin_at, close_stdin_at,
  mark_stdin_closed_at, set_stdin_at,
}

-- After `CloseStdin` on an interactive container, whatever the writer's `Close` returned, and after
-- `MarkStdinClosed`: a write and a close report `ErrStdinClosed`, and reach no writer.
pub closed_is_final :
    (k b : Text) (a : ℕ) (r r' r'' : Option ℕ) (t : Tracker)
    → capture_at k t ≡ (none, some a)
    → let t1 = (close_stdin_at k r t).0 in
      let t2 = (mark_stdin_closed_at k t).0 in
      (write_stdin_at k b r' t1 ≡ (t1, some stdin_closed))
      × (close_stdin_at k r'' t1 ≡ (t1, some stdin_closed))
      × (write_stdin_at k b r' t2 ≡ (t2, some stdin_closed))
      × (close_stdin_at k r'' t2 ≡ (t2, some stdin_closed))
unfolding close_stdin_at write_stdin_at mark_stdin_closed_at
closed_is_final k b a r r' r'' t c = (ground arith, ground arith, ground arith, ground arith)

-- After `SetStdin` on a tracked container a write reaches the writer that was set, and reports what
-- the writer reports.
pub write-set_stdin :
    (k b : Text) (w : ℕ) (on_close r : Option ℕ) (info : ContainerInfo) (t : Tracker)
    → lookup k t.containers ≡ some info
    → let t1 = set_stdin_at k (some w) on_close t in
      write_stdin_at k b r t1 ≡ (
        record t1 { calls = wrote w b ∷ t1.calls },
        elim r [ none ↦ none | some e ↦ some (io_error e) ],
      )
unfolding set_stdin_at write_stdin_at
write-set_stdin k b w on_close r info t f =
    ground
      (arith, lookup-insert k k (record info { stdin = some t.next }) t.containers, text_beq_refl k)
