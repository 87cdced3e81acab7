-- ===== src/LogParser/Stream/Lines.antt =====
-- The loop of `ProcessStreamWithRedactor` in internal/logparser/parser.go, and the lines of its input.
use contextmatrix_runner.Prelude.{
  ℕ, zero, suc, ◌<◌, ◌≡◌, refl, ap, ◌∙◌, true, false, Option, List, [], ◌∷◌, ◌++◌, Text,
  contains_byte, length, length-append, take, ltb, if◌then◌else◌, arith,
}
use contextmatrix_runner.LogParser.Line.{Line, read_bounded_line}
use contextmatrix_runner.LogParser.Line.Reference.{first_line, after_line, read_bounded_line_lem}
use contextmatrix_runner.LogParser.ToolCall.{Go}
use contextmatrix_runner.LogParser.Stream.{
  Output, Sinks, handle_line, stream_end, stream_lines, process_stream,
}

-- The lines, each with its newline, and what follows the last newline.
abbrev pub joined : List Text → Text → Text
joined [] last = last
joined (l ∷ ls) last = l ++ 10 ∷ joined ls last

-- No newline in any of the lines.
abbrev pub AreLines : List Text → Type 0
AreLines [] = Unit
AreLines (l ∷ ls) = (contains_byte l 10 ≡ false) × AreLines ls

line_split :
    (l rest : Text)
    → contains_byte l 10 ≡ false
    → (first_line (l ++ 10 ∷ rest) ≡ l)
      × (after_line (l ++ 10 ∷ rest) ≡ rest)
      × (contains_byte (l ++ 10 ∷ rest) 10 ≡ true)
line_split [] rest h = (refl, refl, refl)
line_split (b ∷ l) rest h = ground (arith, line_split l rest)

no_split : (l : Text) → contains_byte l 10 ≡ false → (first_line l ≡ l) × (after_line l ≡ [])
no_split [] h = (refl, refl)
no_split (b ∷ l) h = ground (arith, no_split l)

module _ (go : Go) (sinks : Sinks) (redact : Text → Text) (size max_bytes : ℕ)
    (error : Option Text) where
  -- What becomes of one line: it is dropped with a notice if it is too long.
  abbrev pub line_output : Text → List Output
  line_output l = handle_line go sinks redact (ltb max_bytes (length l)) (take max_bytes l)

  abbrev pub outputs : List Text → Text → List Output
  outputs [] last = line_output last ++ stream_end go sinks redact error
  outputs (l ∷ ls) last = line_output l ++ outputs ls last

  -- One round of the loop, after the read.
  abbrev round : ℕ → Line → List Output
  round fuel l =
      handle_line go sinks redact l.truncated l.line
      ++ (if l.failed
          then stream_end go sinks redact error
          else stream_lines go sinks redact fuel size max_bytes error l.rest)

  read_last :
      (l : Text)
      → 0 < size
      → contains_byte l 10 ≡ false
      → read_bounded_line size max_bytes l ≡ record {
        line = take max_bytes l;
        truncated = ltb max_bytes (length l);
        failed = true;
        rest = [];
      }
  read_last l p h =
      let split = no_split l h in
      read_bounded_line_lem size max_bytes l p ∙ rw (split.0, split.1, h) refl

  read_next :
      (l rest : Text)
      → 0 < size
      → contains_byte l 10 ≡ false
      → read_bounded_line size max_bytes (l ++ 10 ∷ rest) ≡ record {
        line = take max_bytes l;
        truncated = ltb max_bytes (length l);
        failed = false;
        rest = rest;
      }
  read_next l rest p h =
      let split = line_split l rest h in
      read_bounded_line_lem size max_bytes (l ++ 10 ∷ rest) p ∙ rw (split.0, split.1, split.2) refl

  stream_lines_lem :
      (fuel : ℕ) (ls : List Text) (last : Text)
      → 0 < size
      → AreLines ls
      → contains_byte last 10 ≡ false
      → length (joined ls last) < fuel
      → stream_lines go sinks redact fuel size max_bytes error (joined ls last) ≡ outputs ls last
  unfolding stream_lines
  stream_lines_lem zero ls last p n h f = absurd (omega arith)
  stream_lines_lem (suc fuel) [] last p n h f = ap (λ l. round fuel l) (read_last last p h)
  stream_lines_lem (suc fuel) (l ∷ ls) last p n h f =
      ap (λ t. round fuel t) (read_next l (joined ls last) p n.0)
      ∙ ap (λ m. line_output l ++ m)
          (stream_lines_lem fuel ls last p n.1 h
            (omega (arith, length-append l (10 ∷ joined ls last))))

  -- For any split of the input into lines, each ended by a newline, and a last part without one, and a
  -- buffer of at least one byte: `ProcessStreamWithRedactor` returns, having handled each line once, in
  -- order and by itself (a line above the bound by the notice only), then the last part, then the
  -- end of the stream.
  pub process_stream_lem :
      (ls : List Text) (last : Text)
      → 0 < size
      → AreLines ls
      → contains_byte last 10 ≡ false
      → process_stream go sinks redact size max_bytes error (joined ls last) ≡ outputs ls last
  unfolding process_stream
  process_stream_lem ls last p n h =
      stream_lines_lem (suc (length (joined ls last))) ls last p n h (omega arith)
