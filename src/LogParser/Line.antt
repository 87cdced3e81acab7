-- ===== src/LogParser/Line.antt =====
-- internal/logparser/boundedline.go: `ReadBoundedLine`, over the chunks that bufio's ReadSlice gives.
-- A bufio.Reader is the bytes still to come and the size of its buffer: ReadSlice('\n') returns the
-- bytes up to and with the newline if they fit in the buffer, a full buffer with ErrBufferFull if no
-- newline is in it, and else what is left with the reader's error.
pub mod Reference
use contextmatrix_runner.Prelude.{
  ℕ, zero, suc, ◌+◌, ◌-◌, Bool, true, false, not, ◌&&◌, List, [], ◌∷◌, ◌++◌, Text, length, ltb, leb,
  nat_beq, take, drop, if◌then◌else◌,
}

-- What ReadSlice says of a chunk: the delimiter was found, the buffer is full, or the reader's error.
pub data SliceError : Type 0 where
  delimited buffer_full failed : SliceError

pub record Slice : Type 0 where
  pub chunk : Text
  pub error : SliceError
  pub rest : Text

-- bufio.Reader.ReadSlice('\n'), with a buffer of `size` bytes still free.
unfoldable pub read_slice : ℕ → Text → Slice
read_slice zero input = record { chunk = []; error = buffer_full; rest = input }
read_slice (suc size) [] = record { chunk = []; error = failed; rest = [] }
read_slice (suc size) (b ∷ input) =
    let more = read_slice size input in
    if nat_beq b 10
    then record { chunk = b ∷ []; error = delimited; rest = input }
    else record { chunk = b ∷ more.chunk; error = more.error; rest = more.rest }

pub record Line : Type 0 where
  pub line : Text
  pub truncated : Bool
  pub failed : Bool  -- a non-nil error
  pub rest : Text

abbrev pub ends_in_newline : Text → Bool
ends_in_newline [] = false
ends_in_newline (b ∷ []) = nat_beq b 10
ends_in_newline (b ∷ c ∷ s) = ends_in_newline (c ∷ s)

-- `contentLen`
unfoldable pub content_len : Slice → ℕ
content_len s = elim s.error [
  | delimited ↦ if ends_in_newline s.chunk then length s.chunk - 1 else length s.chunk
  | buffer_full ↦ length s.chunk
  | failed ↦ length s.chunk
]

-- What a chunk adds to the line, and whether the line is too long by now.
unfoldable pub accumulate : ℕ → Text → ℕ → Text → Bool → Text × Bool
accumulate max_bytes chunk len line true = (line, true)
accumulate max_bytes chunk len line false =
    let avail = max_bytes - length line in
    if ltb avail len
    then (if ltb 0 avail then line ++ take avail chunk else line, true)
    else (line ++ take len chunk, false)

-- One round of the loop, with what goes on from there.
unfoldable pub one_round : ℕ → Text → Bool → (Text → Bool → Text → Line) → Slice → Line
unfolding content_len accumulate
one_round max_bytes line truncated go_on s =
    let a = accumulate max_bytes s.chunk (content_len s) line truncated in
    elim s.error [
      | delimited ↦ record { line = a.0; truncated = a.1; failed = false; rest = s.rest }
      | buffer_full ↦ go_on a.0 a.1 s.rest
      | failed ↦ record { line = a.0; truncated = a.1; failed = true; rest = s.rest }
    ]

-- The loop of `ReadBoundedLine`, on fuel.
unfoldable pub read_chunks : ℕ → ℕ → ℕ → Text → Bool → Text → Line
unfolding read_slice one_round
read_chunks zero size max_bytes line truncated input = record {
  line = line;
  truncated = truncated;
  failed = true;
  rest = input;
}
read_chunks (suc fuel) size max_bytes line truncated input =
    one_round max_bytes line truncated (λ l t i. read_chunks fuel size max_bytes l t i)
      (read_slice size input)

-- `ReadBoundedLine`: each round but the last reads a byte at least.
unfoldable pub read_bounded_line : ℕ → ℕ → Text → Line
unfolding read_chunks
read_bounded_line size max_bytes input =
    read_chunks (suc (length input)) size max_bytes [] false input
