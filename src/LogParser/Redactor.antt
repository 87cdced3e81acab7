-- ===== src/LogParser/Redactor.antt =====
-- internal/logparser/parser.go: `Redactor`, which masks the literal secrets of one container. The
-- static patterns of the function `Redact` are regular expressions, and a parameter here.
pub mod Order
pub mod Masked
use contextmatrix_runner.Prelude.{
  ℕ, zero, suc, ◌-◌, Bool, true, false, ◌||◌, List, [], ◌∷◌, ◌++◌, Text, bytes, text_beq,
  has_prefix, length, ltb, if◌then◌else◌,
}

abbrev pub marker : Text
marker = bytes "[REDACTED]"

abbrev pub min_secret_len : ℕ
min_secret_len = 8

-- The `secrets` of a `Redactor`.
abbrev pub Secrets : Type 0
Secrets = List Text

-- `_, ok := seen[s]`
unfoldable pub member : Text → List Text → Bool
member q [] = false
member q (s ∷ l) = text_beq s q || member q l

-- The loop of `NewRedactor`, with the secrets seen so far.
unfoldable pub filter_secrets : List Text → List Text → List Text
unfolding member
filter_secrets seen [] = []
filter_secrets seen (s ∷ l) =
    let next = filter_secrets seen l in
    let kept = s ∷ filter_secrets (s ∷ seen) l in
    if ltb (length s) min_secret_len then next else if member s seen then next else kept

-- The inner loop of `sortLongestFirst`: the secret moves left past the shorter ones. The sorted part
-- is listed from its last place to its first.
unfoldable pub sift : Text → List Text → List Text
sift s [] = s ∷ []
sift s (before ∷ l) =
    let moved = before ∷ sift s l in
    if ltb (length before) (length s) then moved else s ∷ before ∷ l

-- The outer loop.
unfoldable pub sort_places : List Text → List Text → List Text
unfolding sift
sort_places sorted [] = sorted
sort_places sorted (s ∷ l) = sort_places (sift s sorted) l

abbrev pub reverse_onto : List Text → List Text → List Text
reverse_onto tail [] = tail
reverse_onto tail (s ∷ l) = reverse_onto (s ∷ tail) l

-- `sortLongestFirst`
unfoldable pub sort_longest_first : List Text → List Text
unfolding sort_places
sort_longest_first l = reverse_onto [] (sort_places [] l)

-- `NewRedactor`
unfoldable pub new_redactor : List Text → Secrets
unfolding filter_secrets sort_longest_first
new_redactor secrets = sort_longest_first (filter_secrets [] secrets)

-- strings.ReplaceAll(input, secret, marker) for a secret that is not empty: what a match covers is
-- skipped.
unfoldable pub replace_from : Text → ℕ → Text → Text
replace_from secret k [] = []
replace_from secret (suc k) (b ∷ input) = replace_from secret k input
replace_from secret zero (b ∷ input) =
    let masked = marker ++ replace_from secret (length secret - 1) input in
    let copied = b ∷ replace_from secret zero input in
    if has_prefix (b ∷ input) secret then masked else copied

-- The loop of `Redactor.Redact` over the literal secrets.
unfoldable pub mask : Secrets → Text → Text
unfolding replace_from
mask [] input = input
mask (secret ∷ l) input = mask l (replace_from secret zero input)

-- `Redactor.Redact`
unfoldable pub redact : (Text → Text) → Secrets → Text → Text
unfolding mask
redact patterns secrets input = patterns (mask secrets input)
