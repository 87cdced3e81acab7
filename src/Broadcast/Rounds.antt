-- ===== src/Broadcast/Rounds.antt =====
-- The cases of one round of the loop of `Publish` in internal/logbroadcast/broadcaster.go.
use contextmatrix_runner.Prelude.{
  ℕ, ◌≤◌, ◌<◌, ◌≡◌, inl, inr, true, false, [], ◌∷◌, ◌++◌, length, Bool-cases, ltb, ltb_lt, ltb_ge,
  arith,
}
use contextmatrix_runner.Broadcast.{
  Broadcaster, LogEntry, offered, put, note, send_one, try_send, count_drop, matches,
}

-- The state after the subscriber's channel took the entry.
abbrev pub with_sent : ℕ → LogEntry → Broadcaster → Broadcaster
with_sent a entry b = note (offered a entry true) (record b {
  heap = put b.heap a (record (b.heap a) { buffer = (b.heap a).buffer ++ entry ∷ [] });
})

pub data Round (a : ℕ) (entry : LogEntry) (b : Broadcaster) : Type 0 where
  skipped : send_one a entry b ≡ b → matches (b.heap a) entry ≡ false → Round a entry b
  missed :
      send_one a entry b ≡ count_drop a entry b
      → matches (b.heap a) entry ≡ true
      → (b.heap a).closed ≡ true
      → Round a entry b
  full :
      send_one a entry b ≡ count_drop a entry (note (offered a entry false) b)
      → matches (b.heap a) entry ≡ true
      → (b.heap a).closed ≡ false
      → 256 ≤ length (b.heap a).buffer
      → Round a entry b
  taken :
      send_one a entry b ≡ with_sent a entry b
      → matches (b.heap a) entry ≡ true
      → (b.heap a).closed ≡ false
      → length (b.heap a).buffer < 256
      → Round a entry b

pub send_one_cases : (a : ℕ) (entry : LogEntry) (b : Broadcaster) → Round a entry b
unfolding send_one try_send
send_one_cases a entry b = elim (Bool-cases (matches (b.heap a) entry)) [
  | inr e ↦ skipped (ground arith) e
  | inl e ↦ elim (Bool-cases (b.heap a).closed) [
    | inl f ↦ missed (ground arith) e f
    | inr f ↦ elim (Bool-cases (ltb (length (b.heap a).buffer) 256)) [
      | inl g ↦ taken (ground arith) e f (ltb_lt g)
      | inr g ↦ full (ground arith) e f (ltb_ge g)
    ]
  ]
]
