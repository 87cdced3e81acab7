-- ===== src/Webhook/ReplayCache/Replays.antt =====
-- internal/webhook/replay_cache.go: an accepted signature and its later checks.
use native.Mathlib.Nat.{add-zero}
use contextmatrix_runner.Prelude.{
  ◌∙◌, ℕ, suc, ◌+◌, ◌≤◌, ◌<◌, ◌≡◌, refl, Bool, true, false, some, List, [], ◌∷◌, Text, text_beq,
  text_beq_iff, Bool-cases, inl, inr, is_empty, nat_beq, if◌then◌else◌, arith,
}
use contextmatrix_runner.Webhook.TimedStore.{Element, remove, push_back}
use contextmatrix_runner.Webhook.TimedStore.Coherent.{IsCoherent, find}
use contextmatrix_runner.Webhook.TimedStore.Held.{
  Holds, Holds-mono, Holds-unlink, Holds-evict, Holds-sweep, Holds-append, Holds-last, find-Holds,
}
use contextmatrix_runner.Webhook.ReplayCache.{
  ReplayCache, inside_window, record_new, seen, sweep_cache, Call, check, tick, time_of, step, run,
}
use contextmatrix_runner.Webhook.ReplayCache.Valid.{
  IsValid, Outcome, ignored, replayed, fresh, expired, seen-Outcome, step-IsValid, seen-IsValid,
  run-IsValid, IsTimely, time_after,
}

-- How many checks of a run were answered false: each records at most one signature.
unfoldable pub recorded : List Call → ReplayCache → ℕ
recorded [] r = 0
recorded (check sig now ∷ calls) r =
    let rest = recorded calls (step (check sig now) r) in
    if (seen sig now r).1 then rest else suc rest
recorded (tick now ∷ calls) r = recorded calls (step (tick now) r)

-- `now` is inside the window of a signature of time `t`, strictly; there is no end without a TTL.
abbrev pub IsInside : ℕ → ℕ → ℕ → Type 0
IsInside ttl t now = 0 < ttl → now < t + ttl

-- So many entries are not enough to push one out.
abbrev pub HasRoom : ℕ → ℕ → Type 0
HasRoom capacity n = 0 < capacity → n < capacity

record_new-Holds :
    (sig k : Text) (now t n : ℕ) (r : ReplayCache)
    → HasRoom r.capacity (suc n)
    → Holds k t tt n r.store.entries
    → Holds k t tt (suc n) (record_new sig now r).store.entries
unfolding record_new
record_new-Holds sig k now t n r room h =
    Holds-evict k t tt (suc n) r.capacity (push_back sig now tt r.store) room
      (unfold push_back in Holds-append k t tt n r.store.entries _ h)

record_new-Holds_self :
    (sig : Text) (now : ℕ) (r : ReplayCache)
    → Holds sig now tt 0 (record_new sig now r).store.entries
unfolding record_new
record_new-Holds_self sig now r =
    Holds-evict sig now tt 0 r.capacity (push_back sig now tt r.store) (λ p. p)
      (unfold push_back in Holds-last r.store.entries _)

-- An entry that is inside the window is not expired.
inside_window-IsInside : (ttl now t : ℕ) → IsInside ttl t now → inside_window ttl now t ≡ true
unfolding inside_window
inside_window-IsInside ttl now t w = elim (Bool-cases (nat_beq ttl 0)) [
  | inl never ↦ rw never
  | inr some_ttl ↦ ground (arith, w (ground arith))
]

-- An entry that is dropped as expired has another key than one inside the window.
expired-ne :
    (sig k : Text) (now t n : ℕ) (r : ReplayCache) (e : Element (Unit {0}))
    → IsCoherent r.store
    → IsInside r.ttl t now
    → find sig r.store.entries ≡ some e
    → inside_window r.ttl now e.stamp ≡ false
    → Holds k t tt n r.store.entries
    → text_beq sig k ≡ false
expired-ne sig k now t n r e c w f i h = elim (Bool-cases (text_beq sig k)) [
  | inr other ↦ other
  | inl same ↦
      let (e', found, stamp, value) = find-Holds k t tt n r.store.entries c.distinct h in
      ground (arith, (text_beq_iff sig k).0 same, inside_window-IsInside r.ttl now t w)
]

Outcome-Holds :
    (sig k : Text) (now t n : ℕ) (r : ReplayCache) (o : ReplayCache × Bool)
    → IsCoherent r.store
    → IsInside r.ttl t now
    → HasRoom r.capacity (if o.1 then n else suc n)
    → Outcome sig now r o
    → Holds k t tt n r.store.entries
    → Holds k t tt (if o.1 then n else suc n) o.0.store.entries
Outcome-Holds sig k now t n r o c w room (ignored x) h =
    Holds-mono k t tt n (suc n) r.store.entries (omega arith) h
Outcome-Holds sig k now t n r o c w room (replayed e x f i) h = h
Outcome-Holds sig k now t n r o c w room (fresh x f) h = record_new-Holds sig k now t n r room h
Outcome-Holds sig k now t n r o c w room (expired e x f i) h =
    record_new-Holds sig k now t n (record r { store = remove e r.store }) room
      (unfold remove in
        Holds-unlink k sig t tt n r.store.entries e c.distinct f
          (expired-ne sig k now t n r e c w f i h) h)

-- The TTL and the capacity never change.
step_settings :
    (c : Call) (r : ReplayCache) → ((step c r).ttl ≡ r.ttl) × ((step c r).capacity ≡ r.capacity)
unfolding step record_new
step_settings (check sig now) r = ground arith
step_settings (tick now) r = (refl, refl)

seen_settings :
    (sig : Text) (now : ℕ) (r : ReplayCache)
    → ((seen sig now r).0.ttl ≡ r.ttl) × ((seen sig now r).0.capacity ≡ r.capacity)
unfolding step
seen_settings sig now r = step_settings (check sig now) r

pub run_ttl : (calls : List Call) (r : ReplayCache) → (run calls r).ttl ≡ r.ttl
unfolding run
run_ttl [] r = refl
run_ttl (c ∷ calls) r = run_ttl calls (step c r) ∙ (step_settings c r).0

le-time_after : (now : ℕ) (calls : List Call) → IsTimely now calls → now ≤ time_after now calls
le-time_after now [] t = omega arith
le-time_after now (c ∷ calls) t = omega (arith, t.0, le-time_after (time_of c) calls t.1)

count_once : (b : Bool) (m n : ℕ) → (if b then m else suc m) + n ≡ m + (if b then n else suc n)
count_once b m n = ground arith

run-Holds :
    (calls : List Call) (k : Text) (start t n end : ℕ) (r : ReplayCache)
    → IsValid start r
    → IsTimely start calls
    → time_after start calls ≤ end
    → IsInside r.ttl t end
    → HasRoom r.capacity (recorded calls r + n)
    → Holds k t tt n r.store.entries
    → Holds k t tt (recorded calls r + n) (run calls r).store.entries
unfolding run recorded step sweep_cache
run-Holds [] k start t n end r v m le w room h =
    Holds-mono k t tt n _ r.store.entries (omega arith) h
run-Holds (check sig now ∷ calls) k start t n end r v m le w room h =
    let b = (seen sig now r).1 in
    let n' = if b then n else suc n in
    let r' = step (check sig now) r in
    let (same_ttl, same_capacity) = step_settings (check sig now) r in
    let now_le : now ≤ end = omega (arith, le-time_after now calls m.1) in
    let sum = count_once b (recorded calls r') n in
    rw sum (
      run-Holds calls k now t n' end r' (step-IsValid (check sig now) start r v m.0) m.1 le
        (rw same_ttl w) (rw (same_capacity, ← sum) room)
        (Outcome-Holds sig k now t n r (seen sig now r) v.coherent (λ p. omega (arith, w p))
          (λ p. omega (arith, sum, room p)) (seen-Outcome sig now r v.coherent) h))
run-Holds (tick now ∷ calls) k start t n end r v m le w room h =
    let now_le : now ≤ end = omega (arith, le-time_after now calls m.1) in
    run-Holds calls k now t n end (step (tick now) r) (step-IsValid (tick now) start r v m.0) m.1 le
      w room (Holds-sweep k t tt n r.ttl now r.store (λ p. omega (arith, w p)) h)

-- What `Seen` answers for a signature that the list holds inside the window.
seen-Holds :
    (sig : Text) (now t n : ℕ) (r : ReplayCache)
    → IsCoherent r.store
    → is_empty sig ≡ false
    → IsInside r.ttl t now
    → Holds sig t tt n r.store.entries
    → (seen sig now r).1 ≡ true
unfolding seen
seen-Holds sig now t n r c ne w h =
    let (e, found, stamp, value) = find-Holds sig t tt n r.store.entries c.distinct h in
    ground (arith, c.agrees sig, inside_window-IsInside r.ttl now t w)

-- A signature that is recorded stands at the back of the list with the time of the call.
seen-Holds_self :
    (sig : Text) (now : ℕ) (r : ReplayCache)
    → IsCoherent r.store
    → is_empty sig ≡ false
    → (seen sig now r).1 ≡ false
    → Holds sig now tt 0 (seen sig now r).0.store.entries
seen-Holds_self sig now r c ne new = go (seen sig now r) (seen-Outcome sig now r c) new
  where
    go :
        (o : ReplayCache × Bool)
        → Outcome sig now r o
        → o.1 ≡ false
        → Holds sig now tt 0 o.0.store.entries
    go o (ignored x) e = absurd (ground arith)
    go o (replayed el x f i) e = absurd (ground arith)
    go o (fresh x f) e = record_new-Holds_self sig now r
    go o (expired el x f i) e =
        record_new-Holds_self sig now (record r { store = remove el r.store })

-- From any valid state: if `Seen` accepts a signature that is not empty at time `t`, then after any
-- further checks and sweeps, at times that do not go back, a second `Seen` of that signature at a
-- time `now` answers true, provided that `now` is less than the TTL after `t` (where the TTL is
-- positive) and that fewer checks than the capacity were accepted in between (where the capacity is
-- positive).
pub seen_replay_rejected :
    (sig : Text) (start t now : ℕ) (r : ReplayCache) (calls : List Call)
    → is_empty sig ≡ false
    → IsValid start r
    → start ≤ t
    → (seen sig t r).1 ≡ false
    → IsTimely t calls
    → time_after t calls ≤ now
    → IsInside r.ttl t now
    → HasRoom r.capacity (recorded calls (seen sig t r).0)
    → (seen sig now (run calls (seen sig t r).0)).1 ≡ true
seen_replay_rejected sig start t now r calls ne v le new m before w room =
    let r' = (seen sig t r).0 in
    let v' = seen-IsValid sig start t r v le in
    let (same_ttl, same_capacity) = seen_settings sig t r in
    let w' : IsInside r'.ttl t now = rw same_ttl w in
    let held =
      run-Holds calls sig t t 0 now r' v' m before w' (rw (same_capacity, add-zero) room)
        (seen-Holds_self sig t r v.coherent ne new) in
    seen-Holds sig now t (recorded calls r' + 0) (run calls r')
      (run-IsValid calls t r' v' m).coherent ne (rw (run_ttl calls r') w') held
