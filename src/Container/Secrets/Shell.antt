-- ===== src/Container/Secrets/Shell.antt =====
-- What a shell reads in the file that `renderSecretsFile` of internal/container/secrets_refresher.go
-- renders.
use contextmatrix_runner.Prelude.{
  ℕ, between, Bool, true, ◌||◌, ◌&&◌, all, ◌≡◌, refl, ap, ◌∙◌, inl, inr, false, Option, none, some,
  List, [], ◌∷◌, ◌++◌, append_assoc, append_nil, Text, bytes, text_beq_iff, contains_byte, nat_beq,
  nat_beq_iff, Bool-cases, if◌then◌else◌, arith,
}
use mathlib.Core.Path.{subst, sym}
use contextmatrix_runner.Prelude.Dict.{lookup}
use contextmatrix_runner.Prelude.Texts.{text_beq}
use contextmatrix_runner.Container.Secrets.{
  shell_single_quote_escape, put_sorted, sort_entries, git_token_key, text_ltb, export_line,
  export_lines, body, render_secrets_file,
}

-- Where a POSIX shell stands in a file of `export` commands: in the keyword, in the name, or in the
-- value, where it is outside quotes, after a backslash, or inside single quotes.
pub data Mode : Type 0 where
  keyword : Text → Mode
  name : Text → Mode
  word : Text → Text → Mode
  escaped : Text → Text → Mode
  quoted : Text → Text → Mode

abbrev pub add_entry : Text → Text → Option (List (Text × Text)) → Option (List (Text × Text))
add_entry k v none = none
add_entry k v (some l) = some ((k, v) ∷ l)

-- What a POSIX shell takes for a name.
abbrev pub is_letter : ℕ → Bool
is_letter b = nat_beq b 95 || between 65 90 b || between 97 122 b

abbrev pub is_name : Text → Bool
is_name [] = false
is_name (b ∷ s) = is_letter b && all (λ c. is_letter c || between 48 57 c) s

abbrev pub at_start : Mode
at_start = keyword (bytes "export ")

-- The exported names and values; none for a file of another
-- form, and where a name is none that a shell exports. Between single quotes each byte
-- stands for itself, a newline too; outside them only an escaped byte and the end of the line are
-- read.
unfoldable pub read_shell : Mode → Text → Option (List (Text × Text))
read_shell (keyword left) [] = if text_beq left (bytes "export ") then some [] else none
read_shell (name k) [] = none
read_shell (word k v) [] = none
read_shell (escaped k v) [] = none
read_shell (quoted k v) [] = none
read_shell (keyword []) (b ∷ s) = none
read_shell (keyword (c ∷ [])) (b ∷ s) = if nat_beq b c then read_shell (name []) s else none
read_shell (keyword (c ∷ d ∷ left)) (b ∷ s) =
    if nat_beq b c then read_shell (keyword (d ∷ left)) s else none
read_shell (name k) (b ∷ s) =
    if nat_beq b 61
    then if is_name k then read_shell (word k []) s else none
    else read_shell (name (k ++ b ∷ [])) s
read_shell (word k v) (b ∷ s) =
    if nat_beq b 10
    then add_entry k v (read_shell at_start s)
    else if nat_beq b 39
    then read_shell (quoted k v) s
    else if nat_beq b 92
    then read_shell (escaped k v) s
    else none
read_shell (escaped k v) (b ∷ s) = read_shell (word k (v ++ b ∷ [])) s
read_shell (quoted k v) (b ∷ s) =
    if nat_beq b 39 then read_shell (word k v) s else read_shell (quoted k (v ++ b ∷ [])) s

-- The names are ones that a shell exports.
abbrev pub AreNames : List (Text × Text) → Type 0
AreNames [] = Unit
AreNames (e ∷ l) = (is_name e.0 ≡ true) × AreNames l

read_quoted :
    (k v u rest : Text)
    → read_shell (quoted k v) (shell_single_quote_escape u ++ 39 ∷ 10 ∷ rest)
      ≡ add_entry k (v ++ u) (read_shell at_start rest)
unfolding shell_single_quote_escape read_shell
read_quoted k v [] rest = rw (append_nil v) refl
read_quoted k v (b ∷ u) rest = elim (Bool-cases (nat_beq b 39)) [
  | inl e ↦
      let same : b ≡ 39 = (nat_beq_iff b 39).0 e in
      rw same (
        read_quoted k (v ++ 39 ∷ []) u rest
        ∙ ap (λ w. add_entry k w (read_shell at_start rest)) (append_assoc v (39 ∷ []) u))
  | inr e ↦
      rw (e, read_shell, e)
        (read_quoted k (v ++ b ∷ []) u rest
          ∙ ap (λ w. add_entry k w (read_shell at_start rest)) (append_assoc v (b ∷ []) u))
]

read_name :
    (k n rest : Text)
    → contains_byte n 61 ≡ false
    → is_name (k ++ n) ≡ true
    → read_shell (name k) (n ++ 61 ∷ 39 ∷ rest) ≡ read_shell (quoted (k ++ n) []) rest
unfolding read_shell
read_name k [] rest h v =
    let named : is_name k ≡ true = subst (λ q. is_name q ≡ true) (append_nil k) v in
    rw (append_nil k, named) refl
read_name k (b ∷ n) rest h v =
    let other : nat_beq b 61 ≡ false = ground arith in
    rw (other, read_shell)
      (read_name (k ++ b ∷ []) n rest (ground arith)
          (subst (λ q. is_name q ≡ true) (sym (append_assoc k (b ∷ []) n)) v)
        ∙ ap (λ w. read_shell (quoted w []) rest) (append_assoc k (b ∷ []) n))

no_equals :
    (s : Text) → all (λ c. is_letter c || between 48 57 c) s ≡ true → contains_byte s 61 ≡ false
no_equals [] h = refl
no_equals (b ∷ s) h = ground (arith, no_equals s)

name-no_equals : (s : Text) → is_name s ≡ true → contains_byte s 61 ≡ false
name-no_equals [] h = refl
name-no_equals (b ∷ s) h = ground (arith, no_equals s)

read_line :
    (e : Text × Text) (rest : Text)
    → is_name e.0 ≡ true
    → read_shell at_start (export_line e rest) ≡ add_entry e.0 e.1 (read_shell at_start rest)
unfolding read_shell
read_line e rest h = read_name [] e.0 _ (name-no_equals e.0 h) h ∙ read_quoted e.0 [] e.1 rest

read_lines : (l : List (Text × Text)) → AreNames l → read_shell at_start (export_lines l) ≡ some l
unfolding read_shell export_lines text_beq
read_lines [] h = refl
read_lines (e ∷ l) h =
    read_line e (export_lines l) h.0 ∙ ap (λ o. add_entry e.0 e.1 o) (read_lines l h.1)

put_sorted-AreNames :
    (k v : Text) (l : List (Text × Text))
    → is_name k ≡ true
    → AreNames l
    → AreNames (put_sorted k v l)
unfolding put_sorted
put_sorted-AreNames k v [] h n = (h, tt)
put_sorted-AreNames k v (e ∷ l) h n = elim (Bool-cases (text_beq k e.0)) [
  | inl a ↦ rw (a, put_sorted) (h, n.1)
  | inr a ↦ elim (Bool-cases (text_ltb k e.0)) [
    | inl b ↦ rw (a, put_sorted, b) (h, n)
    | inr b ↦ rw (a, put_sorted, b) (n.0, put_sorted-AreNames k v l h n.1)
  ]
]

sort_entries-AreNames : (l : List (Text × Text)) → AreNames l → AreNames (sort_entries l)
sort_entries-AreNames [] n = tt
sort_entries-AreNames (e ∷ l) n =
    put_sorted-AreNames e.0 e.1 (sort_entries l) n.0 (sort_entries-AreNames l n.1)

lookup-put_sorted :
    (q k v : Text) (l : List (Text × Text))
    → lookup q (put_sorted k v l) ≡ (if text_beq k q then some v else lookup q l)
unfolding lookup put_sorted
lookup-put_sorted q k v [] = refl
lookup-put_sorted q k v (e ∷ l) =
    ground
      (arith, lookup-put_sorted q k v l, text_beq_iff k e.0, text_beq_iff k q, text_beq_iff e.0 q)

lookup-sort_entries : (q : Text) (l : List (Text × Text)) → lookup q (sort_entries l) ≡ lookup q l
unfolding lookup
lookup-sort_entries q [] = refl
lookup-sort_entries q (e ∷ l) =
    lookup-put_sorted q e.0 e.1 (sort_entries l) ∙ rw (lookup-sort_entries q l) refl

-- A file that `renderSecretsFile` renders is read by a shell to its end, and exports the token under
-- CM_GIT_TOKEN, every other name of the map with its value, and no other name, where each name of
-- the map is one that a shell exports: a letter or underscore, and then letters, digits and those.
pub render_secrets_file_lem :
    (git_token content q : Text) (static : List (Text × Text))
    → AreNames static
    → render_secrets_file git_token static ≡ body content
    → (l : List (Text × Text)) × (read_shell at_start content ≡ some l)
      × (lookup q l ≡ (if text_beq git_token_key q then some git_token else lookup q static))
unfolding render_secrets_file
render_secrets_file_lem git_token content q static n h =
    let l = put_sorted git_token_key git_token (sort_entries static) in
    let rendered : export_lines l ≡ content = ground (arith, h) in
    (
      l,
      rw (← rendered) (
          read_lines l (
            put_sorted-AreNames git_token_key git_token (sort_entries static) refl
              (sort_entries-AreNames static n))),
      lookup-put_sorted q git_token_key git_token (sort_entries static)
          ∙ rw (lookup-sort_entries q static) refl,
    )
