-- ===== src/LogParser/Line/Reference.antt =====
-- `ReadBoundedLine` against a description of a line that knows no chunks: the bytes before the first
-- newline, cut to the bound.
use contextmatrix_runner.Prelude.{
  ℕ, zero, suc, ◌+◌, ◌-◌, ◌≤◌, ◌<◌, ◌≡◌, refl, ap, sym, ◌∙◌, inl, inr, Bool, true, false, not, ◌||◌,
  [], ◌∷◌, ◌++◌, Text, length, length-append, append_assoc, append_nil, length-take, take_nil,
  take_all, take-append-le, take-append-ge, ltb, ltb_lt, ltb_of, ltb_ge, nat_beq, take,
  contains_byte, Bool-cases, if◌then◌else◌, if_true, arith,
}
use mathlib.Core.Path.{subst}
use contextmatrix_runner.LogParser.Line.{
  delimited, buffer_full, failed, read_slice, Line, content_len, accumulate, one_round,
  ends_in_newline, read_chunks, read_bounded_line,
}

-- The bytes before the first newline, and those after it.
abbrev pub first_line : Text → Text
first_line [] = []
first_line (b ∷ input) = let more = first_line input in if nat_beq b 10 then [] else b ∷ more

abbrev pub after_line : Text → Text
after_line [] = []
after_line (b ∷ input) = let more = after_line input in if nat_beq b 10 then input else more

-- The rest of a line after the bytes that were read of it.
abbrev pub bounded : ℕ → Text → Bool → Text → Line
bounded max_bytes line cut input = record {
  line = if cut then line else line ++ take (max_bytes - length line) (first_line input);
  truncated = cut || ltb (max_bytes - length line) (length (first_line input));
  failed = not (contains_byte input 10);
  rest = after_line input;
}

pub data SliceOf (size : ℕ) (input : Text) : Type 0 where
  whole :
      read_slice size input
        ≡ record { chunk = first_line input ++ 10 ∷ []; error = delimited; rest = after_line input }
      → contains_byte input 10 ≡ true
      → SliceOf size input
  part :
      (chunk rest : Text)
      → read_slice size input ≡ record { chunk = chunk; error = buffer_full; rest = rest }
      → length chunk ≡ size
      → length rest + size ≡ length input
      → first_line input ≡ (chunk ++ first_line rest)
      → after_line input ≡ after_line rest
      → contains_byte input 10 ≡ contains_byte rest 10
      → SliceOf size input
  last :
      read_slice size input ≡ record { chunk = input; error = failed; rest = [] }
      → first_line input ≡ input
      → after_line input ≡ []
      → contains_byte input 10 ≡ false
      → SliceOf size input

read_slice_cases : (size : ℕ) (input : Text) → SliceOf size input
unfolding read_slice
read_slice_cases zero input = part [] input refl refl (omega arith) refl refl refl
read_slice_cases (suc size) [] = last refl refl refl refl
read_slice_cases (suc size) (b ∷ input) = elim (Bool-cases (nat_beq b 10)) [
  | inl e ↦ whole (ground arith) (ground arith)
  | inr e ↦ elim (read_slice_cases size input) [
    | whole s c ↦ whole (rw (e, read_slice, s) refl) (rw (e, c) refl)
    | part chunk rest s n m f a c ↦
        part (b ∷ chunk) rest (rw (e, read_slice, s) refl) (omega (arith, n)) (omega (arith, m))
          (rw (e, f) refl) (rw (e, a) refl) (rw (e, c) refl)
    | last s f a c ↦
        last (rw (e, read_slice, s) refl) (rw (e, f) refl) (rw (e, a) refl) (rw (e, c) refl)
  ]
]

-- Adding a chunk's content and then the rest is adding both at once.
pub record IsAdded (max_bytes : ℕ) (line c more : Text) (cut : Bool) (a : Text × Bool)
    : Type 0 where
  pub same_line :
      (if a.1 then a.0 else a.0 ++ take (max_bytes - length a.0) more)
      ≡ (if cut then line else line ++ take (max_bytes - length line) (c ++ more))
  pub same_cut :
      (a.1 || ltb (max_bytes - length a.0) (length more))
      ≡ (cut || ltb (max_bytes - length line) (length (c ++ more)))
  pub room : length a.0 ≤ max_bytes

accumulate_lem :
    (max_bytes : ℕ) (line c tail more : Text) (cut : Bool)
    → length line ≤ max_bytes
    → IsAdded max_bytes line c more cut (accumulate max_bytes (c ++ tail) (length c) line cut)
unfolding accumulate
accumulate_lem max_bytes line c tail more true h = record {
  same_line = refl;
  same_cut = refl;
  room = h;
}
accumulate_lem max_bytes line c tail more false h =
    let avail = max_bytes - length line in
    let all_c : take (length c) (c ++ tail) ≡ c =
      take-append-le (length c) c tail (omega arith) ∙ take_all (length c) c (omega arith) in
    elim (Bool-cases (ltb avail (length c))) [
      | inl e ↦
          let short : avail < length c = ltb_lt e in
          let longer : (true ≡ ltb avail (length (c ++ more))) =
            sym (ltb_of (omega (arith, length-append c more))) in
          elim (Bool-cases (ltb 0 avail)) [
            | inl f ↦
                rw (e, f)
                  record {
                    same_line =
                        ap (λ l. line ++ l)
                          (take-append-le avail c tail (omega arith)
                            ∙ sym (take-append-le avail c more (omega arith)));
                    same_cut = longer;
                    room = omega (
                      arith,
                      length-append line (take avail (c ++ tail)),
                      length-take avail (c ++ tail),
                    );
                  }
            | inr f ↦
                let none_left : avail ≡ 0 = omega (arith, ltb_ge f) in
                rw (e, f)
                  record {
                    same_line = rw none_left (sym (append_nil line));
                    same_cut = longer;
                    room = h;
                  }
          ]
      | inr e ↦
          let fits : length c ≤ avail = ltb_ge e in
          rw (e, all_c)
            record {
              same_line =
                  append_assoc line c _
                  ∙ ap (λ l. line ++ l)
                      (sym (
                        take-append-ge avail (max_bytes - length (line ++ c)) c more
                          (omega (arith, length-append line c))));
              same_cut = ground (arith, length-append line c, length-append c more);
              room = omega (arith, length-append line c);
            }
    ]

no_more : (t : Bool) (l : Text) (n : ℕ) → l ≡ (if t then l else l ++ take n [])
no_more true l n = refl
no_more false l n = rw (take_nil n, append_nil l) refl

no_more_cut : (t : Bool) (n : ℕ) → t ≡ (t || ltb n 0)
no_more_cut true n = refl
no_more_cut false n = ground arith

ends-snoc : (s : Text) → ends_in_newline (s ++ 10 ∷ []) ≡ true
ends-snoc [] = refl
ends-snoc (b ∷ []) = refl
ends-snoc (b ∷ c ∷ s) = ends-snoc (c ∷ s)

-- A last chunk: nothing of the line follows it.
accumulate_last :
    (max_bytes : ℕ) (line c tail : Text) (cut : Bool)
    → length line ≤ max_bytes
    → accumulate max_bytes (c ++ tail) (length c) line cut ≡ (
      if cut then line else line ++ take (max_bytes - length line) c,
      cut || ltb (max_bytes - length line) (length c),
    )
accumulate_last max_bytes line c tail cut h =
    let a = accumulate max_bytes (c ++ tail) (length c) line cut in
    let s = accumulate_lem max_bytes line c tail [] cut h in
    let e1 : a.0 ≡ (if cut then line else line ++ take (max_bytes - length line) c) =
      no_more a.1 a.0 _ ∙ s.same_line ∙ rw (append_nil c) refl in
    let e2 : a.1 ≡ (cut || ltb (max_bytes - length line) (length c)) =
      no_more_cut a.1 _ ∙ s.same_cut ∙ rw (append_nil c) refl in
    cc

abbrev ended : Bool → Text → Text × Bool → Line
ended stopped rest a = record { line = a.0; truncated = a.1; failed = stopped; rest = rest }

abbrev added : ℕ → Text → Bool → Text → Text × Bool
added max_bytes line cut c = (
  if cut then line else line ++ take (max_bytes - length line) c,
  cut || ltb (max_bytes - length line) (length c),
)

module _ (max_bytes : ℕ) (line : Text) (cut : Bool) (go_on : Text → Bool → Text → Line) where
  round_whole :
      (c rest : Text)
      → length line ≤ max_bytes
      → one_round max_bytes line cut go_on
          (record { chunk = c ++ 10 ∷ []; error = delimited; rest = rest })
        ≡ ended false rest (added max_bytes line cut c)
  unfolding one_round content_len
  round_whole c rest h =
      let n : content_len (record { chunk = c ++ 10 ∷ []; error = delimited; rest = rest })
          ≡ length c =
        if_true _ _ (ends-snoc c) ∙ omega (arith, length-append c (10 ∷ [])) in
      ap (λ k. ended false rest (accumulate max_bytes (c ++ 10 ∷ []) k line cut)) n
      ∙ ap (λ a. ended false rest a) (accumulate_last max_bytes line c (10 ∷ []) cut h)

  round_last :
      (c : Text)
      → length line ≤ max_bytes
      → one_round max_bytes line cut go_on (record { chunk = c; error = failed; rest = [] })
        ≡ ended true [] (added max_bytes line cut c)
  unfolding one_round content_len
  round_last c h =
      ap (λ k. ended true [] (accumulate max_bytes k (length c) line cut)) (sym (append_nil c))
      ∙ ap (λ a. ended true [] a) (accumulate_last max_bytes line c [] cut h)

  round_part :
      (c rest : Text)
      → length line ≤ max_bytes
      → let a = accumulate max_bytes c (length c) line cut in
        (one_round max_bytes line cut go_on (record { chunk = c; error = buffer_full; rest = rest })
          ≡ go_on a.0 a.1 rest)
        × IsAdded max_bytes line c (first_line rest) cut a
  unfolding one_round content_len
  round_part c rest h =
      let s = accumulate_lem max_bytes line c [] (first_line rest) cut h in
      (
        refl,
        subst
            (λ k.
              IsAdded max_bytes line c (first_line rest) cut
                (accumulate max_bytes k (length c) line cut))
            (append_nil c) s,
      )

bounded_eq :
    {l l' rest : Text} {t t' stopped : Bool}
    → l ≡ l'
    → t ≡ t'
    → ended stopped rest (l, t) ≡ ended stopped rest (l', t')
bounded_eq e f = rw (e, f) refl

read_chunks_lem :
    (fuel size max_bytes : ℕ) (line input : Text) (cut : Bool)
    → length input < fuel
    → 0 < size
    → length line ≤ max_bytes
    → read_chunks fuel size max_bytes line cut input ≡ bounded max_bytes line cut input
unfolding read_chunks
read_chunks_lem zero size max_bytes line input cut f p h = absurd (omega arith)
read_chunks_lem (suc fuel) size max_bytes line input cut f p h =
    let go_on : Text → Bool → Text → Line = λ l t i. read_chunks fuel size max_bytes l t i in
    elim (read_slice_cases size input) [
      | whole s c ↦
          ap (λ v. one_round max_bytes line cut go_on v) s
          ∙ round_whole max_bytes line cut go_on (first_line input) (after_line input) h
          ∙ rw c refl
      | last s l a c ↦
          ap (λ v. one_round max_bytes line cut go_on v) s
          ∙ round_last max_bytes line cut go_on input h
          ∙ rw (l, a, c) refl
      | part chunk rest s n m l a c ↦
          let r = round_part max_bytes line cut go_on chunk rest h in
          ap (λ v. one_round max_bytes line cut go_on v) s
          ∙ r.0
          ∙ read_chunks_lem fuel size max_bytes _ rest _ (omega arith) p r.1.room
          ∙ rw (l, a, c) (bounded_eq r.1.same_line r.1.same_cut)
    ]

-- `ReadBoundedLine`, with a buffer of at least one byte, returns the bytes before the first newline,
-- cut to `max_bytes` of them; it tells that it cut exactly if there were more, and an error exactly
-- if there is no newline; and it leaves the bytes after that newline for the next call. So the loop
-- ends, and the line does not depend on the size of the reader's buffer.
pub read_bounded_line_lem :
    (size max_bytes : ℕ) (input : Text)
    → 0 < size
    → read_bounded_line size max_bytes input ≡ record {
      line = take max_bytes (first_line input);
      truncated = ltb max_bytes (length (first_line input));
      failed = not (contains_byte input 10);
      rest = after_line input;
    }
unfolding read_bounded_line
read_bounded_line_lem size max_bytes input p =
    let no_bytes : max_bytes - 0 ≡ max_bytes = omega arith in
    read_chunks_lem (suc (length input)) size max_bytes [] input false (omega arith) p (omega arith)
    ∙ ap
        (λ n.
          ended (not (contains_byte input 10)) (after_line input)
            (take n (first_line input), ltb n (length (first_line input))))
        no_bytes
