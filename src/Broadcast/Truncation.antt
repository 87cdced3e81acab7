-- ===== src/Broadcast/Truncation.antt =====
-- The truncation of `Publish` in internal/logbroadcast/broadcaster.go.
use contextmatrix_runner.Prelude.{
  ℕ, ◌-◌, ◌≤◌, ◌<◌, ◌≡◌, refl, ◌⊎◌, inl, inr, true, Text, ◌++◌, length, length-append, take,
  length-take, rune_cut, rune_cut_le, take-rune_cut-valid, valid_utf8, valid_utf8-append,
  Bool-cases, ltb, ltb_lt, ltb_ge, ltb_of, arith,
}
use contextmatrix_runner.Broadcast.{truncate_to, truncate, truncated_marker}

marker : valid_utf8 truncated_marker ≡ true
unfolding valid_utf8
marker = refl

truncate_to_cases :
    (bound : ℕ) (content : Text)
    → 14 < bound
    → ((length content ≤ bound) × (truncate_to bound content ≡ content))
      ⊎ ((bound < length content)
          × (truncate_to bound content
              ≡ (take (rune_cut content (bound - 14)) content ++ truncated_marker)))
unfolding truncate_to
truncate_to_cases bound content m = elim (Bool-cases (ltb bound (length content))) [
  | inl e ↦
      let long : bound < length content = ltb_lt e in
      let f : ltb (bound - 14) (length content) ≡ true = ltb_of (omega arith) in
      let g : ltb 0 (bound - 14) ≡ true = ltb_of (omega arith) in
      inr (long, rw (e, truncate_to, f, g) refl)
  | inr e ↦ inl (ltb_ge e, rw (e, truncate_to) refl)
]

-- For any bound that leaves room for the marker.
truncate_to_lem :
    (bound : ℕ) (content : Text)
    → 14 < bound
    → (length (truncate_to bound content) ≤ bound)
      × (length content ≤ bound → truncate_to bound content ≡ content)
      × (bound < length content
          → (n : ℕ) × (n ≤ bound - 14)
            × (truncate_to bound content ≡ (take n content ++ truncated_marker)))
      × (valid_utf8 content ≡ true → valid_utf8 (truncate_to bound content) ≡ true)
truncate_to_lem bound content m = elim (truncate_to_cases bound content m) [
  | inl (short, e) ↦ (rw e short, λ h. e, λ h. absurd (omega arith), λ v. rw e v)
  | inr (long, e) ↦ (
    rw (e, length-append (take (rune_cut content (bound - 14)) content) truncated_marker)
        (omega (
          arith,
          length-take (rune_cut content (bound - 14)) content,
          rune_cut_le content (bound - 14),
        )),
    λ h. absurd (omega arith),
    λ h. (rune_cut content (bound - 14), rune_cut_le content (bound - 14), e),
    λ v.
        rw e (
          valid_utf8-append _ truncated_marker (take-rune_cut-valid (bound - 14) content v) marker),
  )
]

-- An entry's content is left alone up to 65536 bytes. A longer one becomes a prefix of at most 65522
-- bytes and the marker, so that no published content has more than 65536 bytes; and where the
-- content was valid UTF-8, what is published is, since the cut splits no rune.
pub truncate_lem :
    (content : Text)
    → (length (truncate content) ≤ 65536)
      × (length content ≤ 65536 → truncate content ≡ content)
      × (65536 < length content
          → (n : ℕ) × (n ≤ 65522) × (truncate content ≡ (take n content ++ truncated_marker)))
      × (valid_utf8 content ≡ true → valid_utf8 (truncate content) ≡ true)
unfolding truncate
truncate_lem content = truncate_to_lem 65536 content (omega arith)
