-- ===== src/Tracker/Limit.antt =====
-- The concurrency limit, the identity of the entries, and what each method leaves alone.
use contextmatrix_runner.Prelude.{
  ℕ, suc, ◌+◌, ◌≤◌, ◌<◌, ◌≡◌, refl, ◌⊎◌, ◌↔◌, inl, inr, Option, none, some, List, [], ◌∷◌, Text,
  text_beq, Bool-cases, Option-cases, length, leb, if◌then◌else◌, arith,
}
use contextmatrix_runner.Prelude.Dict.{
  lookup, insert, delete, IsDict, lookup-insert, insert-IsDict, delete-IsDict, length-insert_new,
  length-insert_known, length-delete-le,
}
use contextmatrix_runner.Tracker.{
  limit_reached, ContainerInfo, Tracker, new, key, add_at, add_under_limit_at, set_stdin_at,
  remove_at, detach_at, cancel_at, write_stdin_at, close_stdin_at, mark_stdin_closed_at,
  write_locked, close_locked, mark_locked, close_async,
}
use contextmatrix_runner.Tracker.Methods.{cancel_with_reason, update_container_id}

-- `AddIfUnderLimit` and `AddChatIfUnderLimit` on every branch: the entry is admitted exactly if fewer
-- than `limit` containers are tracked and its key is new; the limit is reported first. On success the
-- map gains this entry and no other changes; on an error the tracker is as it was.
pub add_under_limit_at_lem :
    (k : Text) (info : ContainerInfo) (limit : ℕ) (t : Tracker)
    → let o = add_under_limit_at k info limit t in
      ((o.1 ≡ none) ↔ ((length t.containers < limit) × (lookup k t.containers ≡ none)))
      × ((o.1 ≡ some limit_reached) ↔ (limit ≤ length t.containers))
      × ((o.0 ≡ t) ⊎ (o.1 ≡ none))
      × ((q : Text)
          → lookup q o.0.containers ≡ elim o.1 [
            | none ↦ if text_beq k q then some info else lookup q t.containers
            | some _ ↦ lookup q t.containers
          ])
      × (length o.0.containers
          ≡ elim o.1 [ none ↦ length t.containers + 1 | some _ ↦ length t.containers ])
unfolding add_under_limit_at
add_under_limit_at_lem k info limit t = elim (Bool-cases (leb limit (length t.containers))) [
  | inl full ↦ rw full (ground arith, ground arith, inl refl, λ q. refl, refl)
  | inr room ↦ rw room (elim (Option-cases (lookup k t.containers)) [
    | inr (i, f) ↦
        rw (f, add_under_limit_at) (ground arith, ground arith, inl refl, λ q. refl, refl)
    | inl new_key ↦
        rw (new_key, add_under_limit_at)
          (
            ground arith,
            ground arith,
            inr refl,
            λ q. lookup-insert k q info t.containers,
            length-insert_new k info t.containers new_key,
          )
  ])
]

-- The methods that change the tracker, by the key that they work on: `add` is `Add` and `AddChat`,
-- which check no limit, `admit` the two that do.
pub data Method : Type 0 where
  add : Text → ContainerInfo → Method
  admit : Text → ContainerInfo → Method
  attach : Text → Option ℕ → Option ℕ → Method
  write : Text → Text → Option ℕ → Method
  close : Text → Option ℕ → Method
  mark : Text → Method
  detach : Text → Method
  stop : Text → Method
  stop_with_reason : Text → Text → Text → Method
  rename : Text → Text → Text → Method

unfoldable pub apply : ℕ → Method → Tracker → Tracker
apply limit (add k info) t = (add_at k info t).0
apply limit (admit k info) t = (add_under_limit_at k info limit t).0
apply limit (attach k w on_close) t = set_stdin_at k w on_close t
apply limit (write k b result) t = (write_stdin_at k b result t).0
apply limit (close k result) t = (close_stdin_at k result t).0
apply limit (mark k) t = (mark_stdin_closed_at k t).0
apply limit (detach k) t = remove_at k t
apply limit (stop k) t = (cancel_at k t).0
apply limit (stop_with_reason project card_id reason) t =
    (cancel_with_reason project card_id reason t).0
apply limit (rename project card_id id) t = update_container_id project card_id id t

unfoldable pub run : ℕ → List Method → Tracker → Tracker
run limit [] t = t
run limit (m ∷ ms) t = run limit ms (apply limit m t)

-- At most `limit` entries, and no key twice.
pub record IsBounded (limit : ℕ) (t : Tracker) : Type 0 where
  pub within : length t.containers ≤ limit
  pub dict : IsDict t.containers

-- Where the map is as it was, or one entry of it was overwritten or deleted.
module _ (limit : ℕ) (t u : Tracker) (b : IsBounded limit t) where
  same-IsBounded : u.containers ≡ t.containers → IsBounded limit u
  same-IsBounded e = record { within = rw e b.within; dict = rw e b.dict }

  insert-IsBounded :
      (k : Text) (i j : ContainerInfo)
      → lookup k t.containers ≡ some i
      → u.containers ≡ insert k j t.containers
      → IsBounded limit u
  insert-IsBounded k i j f e = record {
    within = rw (e, length-insert_known k j i t.containers f) b.within;
    dict = rw e (insert-IsDict k j t.containers b.dict);
  }

  delete-IsBounded : (k : Text) → u.containers ≡ delete k t.containers → IsBounded limit u
  delete-IsBounded k e = record {
    within = rw e (omega (arith, length-delete-le k t.containers, b.within));
    dict = rw e (delete-IsDict k t.containers b.dict);
  }

set_stdin-IsBounded :
    (limit : ℕ) (k : Text) (w on_close : Option ℕ) (t : Tracker)
    → IsBounded limit t
    → IsBounded limit (set_stdin_at k w on_close t)
unfolding set_stdin_at
set_stdin-IsBounded limit k w on_close t b = elim (Option-cases (lookup k t.containers)) [
  | inl n ↦ rw (n, set_stdin_at) (same-IsBounded limit t _ b refl)
  | inr (i, f) ↦
      rw (f, set_stdin_at)
        (let j : ContainerInfo = record i { stdin = some t.next } in
          record {
            within = ground (arith, length-insert_known k j i t.containers f);
            dict = ground (arith, insert-IsDict k j t.containers b.dict);
          })
]

pub remove-IsBounded :
    (limit : ℕ) (k : Text) (t : Tracker) → IsBounded limit t → IsBounded limit (remove_at k t)
unfolding remove_at detach_at close_async
remove-IsBounded limit k t b = record {
  within = ground (arith, length-delete-le k t.containers);
  dict = ground (arith, delete-IsDict k t.containers b.dict);
}

admit-IsBounded :
    (limit bound : ℕ) (k : Text) (info : ContainerInfo) (t : Tracker)
    → limit ≤ bound
    → IsBounded bound t
    → IsBounded bound (add_under_limit_at k info limit t).0
unfolding add_under_limit_at
admit-IsBounded limit bound k info t le b = record {
  within = ground (arith, length-insert_new k info t.containers);
  dict = ground (arith, insert-IsDict k info t.containers b.dict);
}

add-IsBounded :
    (bound : ℕ) (k : Text) (info : ContainerInfo) (t : Tracker)
    → IsBounded bound t
    → IsBounded (suc bound) (add_at k info t).0
unfolding add_at
add-IsBounded bound k info t b = record {
  within = ground (arith, length-insert_new k info t.containers);
  dict = ground (arith, insert-IsDict k info t.containers b.dict);
}

-- The methods on one stdin leave the map as it is.
stdin_containers :
    (k b : Text) (result : Option ℕ) (t : Tracker)
    → ((write_stdin_at k b result t).0.containers ≡ t.containers)
      × ((close_stdin_at k result t).0.containers ≡ t.containers)
      × ((mark_stdin_closed_at k t).0.containers ≡ t.containers)
unfolding write_stdin_at write_locked close_stdin_at close_locked mark_stdin_closed_at mark_locked
stdin_containers k b result t = (ground arith, ground arith, ground arith)

cancel_with_reason-IsBounded :
    (limit : ℕ) (project card_id reason : Text) (t : Tracker)
    → IsBounded limit t
    → IsBounded limit (cancel_with_reason project card_id reason t).0
unfolding cancel_with_reason
cancel_with_reason-IsBounded limit project card_id reason t b =
    elim (Option-cases (lookup (key project card_id) t.containers)) [
      | inl n ↦ rw (n, cancel_with_reason) b
      | inr (i, f) ↦
          insert-IsBounded limit t _ b (key project card_id) i (record i { reason = reason }) f
            (ground arith)
    ]

update_container_id-IsBounded :
    (limit : ℕ) (project card_id id : Text) (t : Tracker)
    → IsBounded limit t
    → IsBounded limit (update_container_id project card_id id t)
unfolding update_container_id
update_container_id-IsBounded limit project card_id id t b =
    elim (Option-cases (lookup (key project card_id) t.containers)) [
      | inl n ↦ rw (n, update_container_id) b
      | inr (i, f) ↦
          insert-IsBounded limit t _ b (key project card_id) i (record i { container_id = id }) f
            (ground arith)
    ]

-- How many times a method without the check is called.
abbrev pub adds : List Method → ℕ
adds [] = 0
adds (add k info ∷ ms) = suc (adds ms)
adds (admit k info ∷ ms) = adds ms
adds (attach k w on_close ∷ ms) = adds ms
adds (write k bs result ∷ ms) = adds ms
adds (close k result ∷ ms) = adds ms
adds (mark k ∷ ms) = adds ms
adds (detach k ∷ ms) = adds ms
adds (stop k ∷ ms) = adds ms
adds (stop_with_reason project card_id reason ∷ ms) = adds ms
adds (rename project card_id id ∷ ms) = adds ms

run_from-IsBounded :
    (limit bound : ℕ) (ms : List Method) (t : Tracker)
    → limit ≤ bound
    → IsBounded bound t
    → IsBounded (bound + adds ms) (run limit ms t)
unfolding run apply
run_from-IsBounded limit n [] t le b = record { within = omega (arith, b.within); dict = b.dict }
run_from-IsBounded limit n (add k info ∷ ms) t le b =
    let sum : suc n + adds ms ≡ n + suc (adds ms) = omega arith in
    rw (← sum) (run_from-IsBounded limit (suc n) ms _ (omega arith) (add-IsBounded n k info t b))
run_from-IsBounded limit n (admit k info ∷ ms) t le b =
    run_from-IsBounded limit n ms _ le (admit-IsBounded limit n k info t le b)
run_from-IsBounded limit n (attach k w on_close ∷ ms) t le b =
    run_from-IsBounded limit n ms _ le (set_stdin-IsBounded n k w on_close t b)
run_from-IsBounded limit n (write k bs result ∷ ms) t le b =
    run_from-IsBounded limit n ms _ le (same-IsBounded n t _ b (stdin_containers k bs result t).0)
run_from-IsBounded limit n (close k result ∷ ms) t le b =
    run_from-IsBounded limit n ms _ le (same-IsBounded n t _ b (stdin_containers k [] result t).1)
run_from-IsBounded limit n (mark k ∷ ms) t le b =
    run_from-IsBounded limit n ms _ le (same-IsBounded n t _ b (stdin_containers k [] none t).2)
run_from-IsBounded limit n (detach k ∷ ms) t le b =
    run_from-IsBounded limit n ms _ le (remove-IsBounded n k t b)
run_from-IsBounded limit n (stop k ∷ ms) t le b =
    run_from-IsBounded limit n ms _ le
      (same-IsBounded n t (cancel_at k t).0 b (unfold cancel_at in ground arith))
run_from-IsBounded limit n (stop_with_reason project card_id reason ∷ ms) t le b =
    run_from-IsBounded limit n ms _ le (cancel_with_reason-IsBounded n project card_id reason t b)
run_from-IsBounded limit n (rename project card_id id ∷ ms) t le b =
    run_from-IsBounded limit n ms _ le (update_container_id-IsBounded n project card_id id t b)

-- However the methods are called, from an empty tracker and with one limit: there are never more
-- entries than the limit and the calls of `Add` and `AddChat`, which check none, together; with no
-- such call there are never more than the limit. No key has two entries.
pub run-IsBounded : (limit : ℕ) (ms : List Method) → IsBounded (limit + adds ms) (run limit ms new)
unfolding new
run-IsBounded limit ms =
    run_from-IsBounded limit limit ms _ (omega arith) (record { within = omega arith; dict = tt })
