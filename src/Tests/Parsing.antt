-- ===== src/Tests/Parsing.antt =====
-- internal/logparser at concrete data.
use contextmatrix_runner.Prelude.{
  ◌≡◌, refl, true, false, not, none, some, List, [], ◌∷◌, ◌++◌, Text, bytes, length, take, ltb,
  contains_byte, all, arith,
}
use contextmatrix_runner.Prelude.Texts.{text_beq}
use contextmatrix_runner.LogParser.Line.{
  read_slice, content_len, accumulate, one_round, read_chunks, read_bounded_line,
}
use contextmatrix_runner.LogParser.Line.Reference.{first_line, after_line, read_bounded_line_lem}
use contextmatrix_runner.LogParser.Redactor.{
  member, filter_secrets, sift, sort_places, sort_longest_first, new_redactor, replace_from, mask,
  redact,
}
use contextmatrix_runner.LogParser.Redactor.Masked.{IsPlain}
use contextmatrix_runner.LogParser.ToolCall.{Go, collapse_whitespace, collapse_from}
use contextmatrix_runner.LogParser.Stream.{Sinks, process_line, process_stream}
use contextmatrix_runner.LogParser.Stream.Secrecy.{hides, model_of, process_line_masks}
use contextmatrix_runner.LogParser.Stream.Lines.{joined, outputs, process_stream_lem}

abbrev input : Text
input = bytes "abcdefgh" ++ 10 ∷ bytes "ij" ++ 10 ∷ []

-- A buffer of three bytes, and a bound of five: the line is cut, and the next call starts after it.
cut_line_test : read_bounded_line 3 5 input ≡ record {
  line = bytes "abcde";
  truncated = true;
  failed = false;
  rest = bytes "ij" ++ 10 ∷ [];
}
unfolding read_slice content_len accumulate one_round read_chunks read_bounded_line
cut_line_test = refl

read_bounded_line_lem_example : read_bounded_line 3 5 input ≡ record {
  line = take 5 (first_line input);
  truncated = ltb 5 (length (first_line input));
  failed = not (contains_byte input 10);
  rest = after_line input;
}
read_bounded_line_lem_example = read_bounded_line_lem 3 5 input (omega arith)

abbrev token : Text
token = bytes "token-0123456789"

abbrev secrets : List Text
secrets = bytes "short" ∷ bytes "token-01" ∷ token ∷ bytes "token-01" ∷ []

kept_test : new_redactor secrets ≡ token ∷ bytes "token-01" ∷ []
unfolding new_redactor filter_secrets member text_beq sort_longest_first sort_places sift
kept_test = refl

masked_test :
    redact (λ t. t) (new_redactor secrets) (bytes "a token-0123456789 b token-01")
    ≡ bytes "a [REDACTED] b [REDACTED]"
unfolding new_redactor filter_secrets member text_beq sort_longest_first sort_places sift redact
    mask replace_from
masked_test = refl

spaces_test : collapse_whitespace (bytes "a  b" ++ 13 ∷ 10 ∷ bytes "c") ≡ bytes "a b c"
unfolding collapse_whitespace collapse_from
spaces_test = refl

token-IsPlain : IsPlain token
token-IsPlain = record {
  nonempty = refl;
  no_bracket = refl;
  no_end_bracket = refl;
  unmarked = refl;
}

token-member : member token secrets ≡ true
unfolding member text_beq
token-member = refl

-- JSON of one assistant's message with the line as its text.
abbrev go : Go
go = record {
  unmarshal_event = λ line. some (record {
    event_type = bytes "assistant";
    message = record {
      model = bytes "m";
      content =
          record {
            block_type = bytes "text";
            id = [];
            text = line;
            thinking = [];
            name = [];
            input = [];
          }
          ∷ [];
      usage = none;
    };
  });
  unmarshal_fields = λ keys raw. none;
  unmarshal_todos = λ raw. none;
  compact = λ raw. none;
  rune_count = λ s. length s;
  rune_prefix = λ n s. take n s;
  trim_space = λ s. s;
  decimal = λ n. [];
}

abbrev sinks : Sinks
sinks = record { emit = true; on_skill_engaged = true }

process_line_masks_example :
    all (hides token (model_of go (bytes "say token-0123456789"))) (
      process_line go sinks (redact (λ t. t) (new_redactor secrets)) (bytes "say token-0123456789"))
    ≡ true
process_line_masks_example =
    process_line_masks go sinks (λ t. t) secrets token (bytes "say token-0123456789") (λ t h. h)
      token-IsPlain token-member (omega arith)

abbrev lines : List Text
lines = bytes "one" ∷ bytes "second" ∷ []

process_stream_lem_example :
    process_stream go sinks (λ t. t) 4 5 (some (bytes "reset")) (joined lines (bytes "end"))
    ≡ outputs go sinks (λ t. t) 4 5 (some (bytes "reset")) lines (bytes "end")
process_stream_lem_example =
    process_stream_lem go sinks (λ t. t) 4 5 (some (bytes "reset")) lines (bytes "end")
      (omega arith) (refl, (refl, tt)) refl
