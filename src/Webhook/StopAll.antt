-- ===== src/Webhook/StopAll.antt =====
-- /stop-all: the response against the kills.
use contextmatrix_runner.Prelude.{
  ◌∙◌, sym, append_nil, append_assoc, Option-cases, none, some, true, ℕ, suc, ◌+◌, ◌<◌, ◌≡◌, refl,
  ◌↔◌, inl, inr, Bool, false, not, Option, List, [], ◌∷◌, ◌++◌, Text, is_empty, ltb, length,
  length-append, Bool-cases, if◌then◌else◌, arith,
}
use mathlib.Core.Path.{subst}
use contextmatrix_runner.Prelude.Dict.{lookup}
use contextmatrix_runner.Container.{Manager, stopped, kill, kill_chat}
use contextmatrix_runner.Tracker.{
  ContainerInfo, ContainerSnapshot, key, chat_key, cancelled, note, cancel_at, snapshot_at,
  close_stdin_at,
}
use contextmatrix_runner.Tracker.Methods.{
  cancel, snapshot_chat, close_stdin_chat, all_snapshots, list_snapshots_by_project,
}
use contextmatrix_runner.Webhook.Payload.{StopAllPayload}
use contextmatrix_runner.Webhook.Handler.{Handler, CardKillResult, Body}
use contextmatrix_runner.Webhook.Handler.Cards.{Tally, stop_one, result_of, stop_each, stop_all_of}

-- The results that report a failure.
abbrev pub failures : List CardKillResult → ℕ
failures [] = 0
failures (r ∷ results) = (if r.ok then 0 else 1) + failures results

failures-append : (xs ys : List CardKillResult) → failures (xs ++ ys) ≡ failures xs + failures ys
failures-append [] ys = omega arith
failures-append (x ∷ xs) ys = omega (arith, failures-append xs ys)

-- The entries that a request is for.
abbrev pub selected : StopAllPayload → Handler → List ContainerSnapshot
selected p h =
    if not (is_empty p.project)
    then list_snapshots_by_project p.project h.manager.tracker
    else all_snapshots h.manager.tracker

-- What the counters of a tally owe to its results.
abbrev IsCounted : Tally → Type 0
IsCounted t = (t.killed + t.failed ≡ length t.results) × (t.failed ≡ failures t.results)

-- The map's key of an entry.
abbrev pub key_of : ContainerSnapshot → Text
key_of info =
    if is_empty info.session_id then key info.project info.card_id else chat_key info.session_id

-- The result names the entry: a chat by its session, a card by its id.
pub record Names (info : ContainerSnapshot) (r : CardKillResult) : Type 0 where
  pub session : r.session_id ≡ info.session_id
  pub project : r.project ≡ info.project
  pub card : r.card_id ≡ (if is_empty info.session_id then info.card_id else [])

nil_of : (s : Text) → is_empty s ≡ true → [] ≡ s
nil_of [] h = refl
nil_of (b ∷ s) h = absurd (ground arith)

module _ (close_result : Option ℕ) (stops : Text → Bool) where
  -- One entry, from the manager before to the manager after: it is tracked no more, and fails; a
  -- card's run is cancelled; a chat's stdin is closed and its container stopped.
  pub data IsStopped (info : ContainerSnapshot) (m : Manager) (r : CardKillResult) (m' : Manager)
      : Type 0 where
    absent :
        lookup (key_of info) m.tracker.containers ≡ none
        → r.ok ≡ false
        → m' ≡ m
        → IsStopped info m r m'
    card_cancelled :
        (i : ContainerInfo)
        → is_empty info.session_id ≡ true
        → lookup (key_of info) m.tracker.containers ≡ some i
        → r.ok ≡ true
        → m' ≡ record m {
          tracker = record (m.tracker) { calls = note cancelled i.cancel m.tracker.calls };
        }
        → IsStopped info m r m'
    chat_stopped :
        (i : ContainerInfo)
        → is_empty info.session_id ≡ false
        → lookup (key_of info) m.tracker.containers ≡ some i
        → r.ok ≡ stops i.container_id
        → m'.calls ≡ stopped i.container_id ∷ m.calls
        → m'.tracker ≡ (close_stdin_at (key_of info) close_result m.tracker).0
        → IsStopped info m r m'

  -- The results are those of the entries, in their order, each from the manager that the one before
  -- left.
  abbrev pub AreStopped : List ContainerSnapshot → Manager → List CardKillResult → Manager → Type 0
  AreStopped [] m [] m' = m' ≡ m
  AreStopped [] m (r ∷ rs) m' = ⊥
  AreStopped (info ∷ l) m [] m' = ⊥
  AreStopped (info ∷ l) m (r ∷ rs) m' =
      (mid : Manager) × Names info r × IsStopped info m r mid × AreStopped l mid rs m'

  result_of-Names :
      (info : ContainerSnapshot) (ok : Bool) → Names info (result_of close_result stops info ok)
  result_of-Names info ok = elim (Bool-cases (is_empty info.session_id)) [
    | inl e ↦ rw e record { session = nil_of info.session_id e; project = refl; card = rw e refl }
    | inr e ↦ rw e record { session = refl; project = refl; card = rw e refl }
  ]

  result_of_ok :
      (info : ContainerSnapshot) (ok : Bool) → (result_of close_result stops info ok).ok ≡ ok
  result_of_ok info ok = elim (Bool-cases (is_empty info.session_id)) [
    | inl card ↦ rw (card, result_of) refl
    | inr chat ↦ rw (chat, result_of) refl
  ]

  stop_one-IsStopped :
      (info : ContainerSnapshot) (m : Manager)
      → let done = stop_one close_result stops info m in
        IsStopped info m (result_of close_result stops info done.1) done.0
  unfolding stop_one kill kill_chat cancel cancel_at snapshot_chat snapshot_at close_stdin_chat
  stop_one-IsStopped info m = elim (Bool-cases (is_empty info.session_id)) [
    | inl e ↦ elim (Option-cases (lookup (key info.project info.card_id) m.tracker.containers)) [
      | inl f ↦ absent (rw e f) (result_of_ok info _ ∙ ground (arith, e, f)) (ground (arith, e, f))
      | inr (i, f) ↦
          card_cancelled i e (rw e f) (result_of_ok info _ ∙ ground (arith, e, f))
            (ground (arith, e, f))
    ]
    | inr e ↦ elim (Option-cases (lookup (chat_key info.session_id) m.tracker.containers)) [
      | inl f ↦ absent (rw e f) (result_of_ok info _ ∙ ground (arith, e, f)) (ground (arith, e, f))
      | inr (i, f) ↦
          chat_stopped i e (rw e f) (result_of_ok info _ ∙ ground (arith, e, f))
            (ground (arith, e, f)) (ground (arith, e, f))
    ]
  ]

  stop_each-AreStopped :
      (infos : List ContainerSnapshot) (t : Tally)
      → let done = stop_each close_result stops infos t in
        (rs : List CardKillResult) × (done.results ≡ t.results ++ rs)
        × AreStopped infos t.manager rs done.manager
  unfolding stop_each
  stop_each-AreStopped [] t = ([], sym (append_nil t.results), refl)
  stop_each-AreStopped (info ∷ infos) t =
      let done = stop_one close_result stops info t.manager in
      let added = result_of close_result stops info done.1 in
      let rest = stop_each-AreStopped infos (record {
        manager = done.0;
        killed = if done.1 then suc t.killed else t.killed;
        failed = if done.1 then t.failed else suc t.failed;
        results = t.results ++ added ∷ [];
      }) in
      (
        added ∷ rest.0,
        rest.1 ∙ append_assoc t.results (added ∷ []) rest.0,
        (done.0, result_of-Names info done.1, stop_one-IsStopped info t.manager, rest.2),
      )

  stop_each-IsCounted :
      (infos : List ContainerSnapshot) (t : Tally)
      → IsCounted t
      → IsCounted (stop_each close_result stops infos t)
        × (length (stop_each close_result stops infos t).results ≡ length t.results + length infos)
  unfolding stop_each
  stop_each-IsCounted [] t c = (c, omega arith)
  stop_each-IsCounted (info ∷ infos) t (total, failed) =
      let done = stop_one close_result stops info t.manager in
      let added = result_of close_result stops info done.1 in
      let longer = length-append t.results (added ∷ []) in
      let more = failures-append t.results (added ∷ []) in
      let added_ok : added.ok ≡ done.1 = result_of_ok info done.1 in
      let rest =
        stop_each-IsCounted infos
          (record {
            manager = done.0;
            killed = if done.1 then suc t.killed else t.killed;
            failed = if done.1 then t.failed else suc t.failed;
            results = t.results ++ added ∷ [];
          })
          (ground (arith, total, longer), ground (arith, failed, more, added_ok)) in
      (rest.0, omega (arith, rest.1, longer))

  -- /stop-all handles each entry that it is for, in turn: it cancels a card's run, or closes a chat's
  -- stdin and stops its container, and the entry's one result names it and tells whether it was still
  -- tracked and, for a chat, whether the stop succeeded. The counters of killed and
  -- failed entries add up to their number, the latter counts the results that report a failure, and
  -- the status is 207, with `ok` false, exactly if there is one; it is 200 otherwise.
  pub stop_all_of_lem :
      (p : StopAllPayload) (h : Handler)
      → ((killed : ℕ) × (failed : ℕ) × (results : List CardKillResult) × (ok : Bool) × ((stop_all_of
              close_result stops p h).1.body
            ≡ Body.stop_all ok (length (selected p h)) killed failed results)
          × AreStopped
              (selected p h)
              h.manager
              results
              (stop_all_of close_result stops p h).0.manager
          × (length results ≡ length (selected p h))
          × (killed + failed ≡ length (selected p h))
          × (failed ≡ failures results)
          × ((ok ≡ false) ↔ (0 < failed))
          × ((stop_all_of close_result stops p h).1.status ≡ (if ok then 200 else 207)))
  unfolding stop_all_of
  stop_all_of_lem p h =
      let start : Tally = record { manager = h.manager; killed = 0; failed = 0; results = [] } in
      let tally = stop_each close_result stops (selected p h) start in
      let handled = stop_each-AreStopped (selected p h) start in
      let counted = stop_each-IsCounted (selected p h) start (refl, refl) in
      (
        tally.killed,
        tally.failed,
        tally.results,
        not (ltb 0 tally.failed),
        refl,
        subst (λ rs. AreStopped (selected p h) h.manager rs tally.manager) (sym handled.1)
            handled.2,
        omega (arith, counted.1),
        omega (arith, counted.0.0, counted.1),
        counted.0.1,
        ground arith,
        ground arith,
      )
