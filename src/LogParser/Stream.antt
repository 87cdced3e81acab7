-- ===== src/LogParser/Stream.antt =====
-- internal/logparser/parser.go: from the lines of a stream to log entries.
pub mod Secrecy
pub mod Lines
use contextmatrix_runner.Prelude.{
  ℕ, zero, suc, Bool, true, false, not, ◌&&◌, ◌||◌, Option, none, some, List, [], ◌∷◌, ◌++◌, Text,
  bytes, text_beq, is_empty, has_prefix, nat_beq, ltb, leb, length, if◌then◌else◌,
}
use contextmatrix_runner.Broadcast.{LogEntry, TokenUsage}
use contextmatrix_runner.LogParser.Line.{Line, read_bounded_line}
use contextmatrix_runner.LogParser.ToolCall.{
  Go, ContentBlock, Message, StreamEvent, format_tool_call,
}

-- What is passed on: an entry to `emit`, a skill's name to `onSkillEngaged`, or a log line only.
pub data Output : Type 0 where
  emitted : LogEntry → Output
  engaged : Text → Output
  logged : Text → Output

-- An entry of a type and a content; the other fields are left zero.
abbrev pub entry_of : Text → Text → LogEntry
entry_of entry_type content = record {
  timestamp = 0;
  card_id = [];
  project = [];
  session_id = [];
  entry_type = entry_type;
  content = content;
  model = [];
  usage = none;
}

-- Whether the callbacks are not nil.
pub record Sinks : Type 0 where
  pub emit : Bool
  pub on_skill_engaged : Bool

module _ (go : Go) (sinks : Sinks) (redact : Text → Text) where
  abbrev pub emit_entry : LogEntry → List Output
  emit_entry entry = if sinks.emit then emitted entry ∷ [] else []

  -- `handleSkillToolUse`
  unfoldable pub handle_skill_tool_use : Text → List Output
  handle_skill_tool_use raw_input =
      elim (go.unmarshal_fields (bytes "skill" ∷ bytes "name" ∷ []) raw_input) [
        | none ↦ logged (bytes "logparser: failed to parse Skill tool input") ∷ []
        | some field ↦
            let name =
              if is_empty (field (bytes "skill"))
              then field (bytes "name")
              else field (bytes "skill") in
            if is_empty name then [] else if sinks.on_skill_engaged then engaged name ∷ [] else []
      ]

  -- The case "tool_use" of the switch.
  unfoldable pub tool_use : ContentBlock → List Output
  unfolding handle_skill_tool_use format_tool_call
  tool_use block =
      let content = redact (format_tool_call go block.name block.input) in
      if has_prefix block.name (bytes "mcp__")
      then []
      else if text_beq block.name (bytes "Skill")
      then handle_skill_tool_use block.input
      else if text_beq block.name (bytes "AskUserQuestion")
      then []
      else logged content ∷ emit_entry (entry_of (bytes "tool_call") content)

  -- The body of the loop over a message's blocks.
  unfoldable pub process_block : ContentBlock → List Output
  unfolding tool_use
  process_block block =
      if text_beq block.block_type (bytes "text")
      then (let content = redact block.text in
          logged content ∷ emit_entry (entry_of (bytes "text") content))
      else if text_beq block.block_type (bytes "thinking")
      then (let content = redact block.thinking in
          if is_empty content
          then []
          else logged content ∷ emit_entry (entry_of (bytes "thinking") content))
      else if text_beq block.block_type (bytes "tool_use")
      then tool_use block
      else []

  abbrev pub process_blocks : List ContentBlock → List Output
  process_blocks [] = []
  process_blocks (block ∷ l) = process_block block ++ process_blocks l

  -- The usage entry of an assistant's message.
  abbrev pub usage_entries : Message → List Output
  usage_entries m = elim m.usage [
    | none ↦ []
    | some u ↦ emit_entry (record (entry_of (bytes "usage") []) { model = m.model; usage = some u })
  ]

  -- `processLine`
  unfoldable pub process_line : Text → List Output
  unfolding process_block
  process_line line = if is_empty (go.trim_space line) then [] else elim (go.unmarshal_event line) [
    | none ↦ logged (bytes "logparser: malformed JSON line") ∷ []
    | some ev ↦
        if text_beq ev.event_type (bytes "assistant")
        then usage_entries ev.message ++ process_blocks ev.message.content
        else []
  ]

  -- strings.TrimRight(line, "\r\n")
  abbrev pub trim_right : Text → Text
  trim_right [] = []
  trim_right (b ∷ s) =
      let rest = trim_right s in
      if is_empty rest && (nat_beq b 13 || nat_beq b 10) then [] else b ∷ rest

  abbrev pub dropped_line : Text
  dropped_line =
      bytes "logparser: dropped oversized stream-json line (>16 MiB); rest of line discarded"

  -- A line that was read, in the loop of `ProcessStreamWithRedactor`.
  unfoldable pub handle_line : Bool → Text → List Output
  unfolding process_line
  handle_line truncated line =
      if truncated
      then logged dropped_line ∷ emit_entry (entry_of (bytes "system") dropped_line)
      else if ltb 0 (length line)
      then process_line (trim_right line)
      else []

  -- The end of the stream: none is io.EOF, else the reader's error.
  unfoldable pub stream_end : Option Text → List Output
  stream_end none = []
  stream_end (some message) =
      let said = bytes "logparser: stream read terminated with error: " ++ message in
      logged said ∷ emit_entry (entry_of (bytes "system") said)

  -- The loop, on fuel, with the reader's buffer size and the bound on a line.
  unfoldable pub stream_lines : ℕ → ℕ → ℕ → Option Text → Text → List Output
  unfolding read_bounded_line handle_line stream_end
  stream_lines zero size max_bytes error input = []
  stream_lines (suc fuel) size max_bytes error input =
      let l = read_bounded_line size max_bytes input in
      let more = stream_lines fuel size max_bytes error l.rest in
      handle_line l.truncated l.line ++ (if l.failed then stream_end error else more)

  -- `ProcessStreamWithRedactor`: each round but the last consumes a newline.
  unfoldable pub process_stream : ℕ → ℕ → Option Text → Text → List Output
  unfolding stream_lines
  process_stream size max_bytes error input =
      stream_lines (suc (length input)) size max_bytes error input
