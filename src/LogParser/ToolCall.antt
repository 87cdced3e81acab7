-- ===== src/LogParser/ToolCall.antt =====
-- internal/logparser/parser.go: the summary of a tool call. What the code takes of encoding/json, of
-- []rune conversions, of strings.TrimSpace and of fmt is a parameter.
use contextmatrix_runner.Prelude.{
  ℕ, Bool, true, false, ◌&&◌, ◌||◌, Option, none, some, List, [], ◌∷◌, ◌++◌, Text, bytes, text_beq,
  is_empty, nat_beq, ltb, leb, if◌then◌else◌,
}
use contextmatrix_runner.Broadcast.{TokenUsage}

pub record ContentBlock : Type 0 where
  pub block_type : Text
  pub id : Text
  pub text : Text
  pub thinking : Text
  pub name : Text
  pub input : Text  -- the raw JSON

-- `message`; its usage has the four counts of a `usageBlock`.
pub record Message : Type 0 where
  pub model : Text
  pub content : List ContentBlock
  pub usage : Option TokenUsage

pub record StreamEvent : Type 0 where
  pub event_type : Text
  pub message : Message

-- json.Unmarshal into an `event`; of an object's string fields, by their keys; of the length of its
-- `todos`; json.Compact; the number of runes and a prefix of them; strings.TrimSpace; fmt's %d. None is
-- an error.
pub record Go : Type 0 where
  pub unmarshal_event : Text → Option StreamEvent
  pub unmarshal_fields : List Text → Text → Option (Text → Text)
  pub unmarshal_todos : Text → Option ℕ
  pub compact : Text → Option Text
  pub rune_count : Text → ℕ
  pub rune_prefix : ℕ → Text → Text
  pub trim_space : Text → Text
  pub decimal : ℕ → Text

abbrev pub max_tool_call_len : ℕ
max_tool_call_len = 200

-- \s
abbrev pub is_space : ℕ → Bool
is_space b = nat_beq b 32 || (leb 9 b && leb b 10) || (leb 12 b && leb b 13)

-- `collapseWhitespace`; the flag tells that the byte before was whitespace.
unfoldable pub collapse_from : Bool → Text → Text
collapse_from after [] = []
collapse_from after (b ∷ s) =
    let gone = collapse_from true s in
    let space = 32 ∷ collapse_from true s in
    let copied = b ∷ collapse_from false s in
    if is_space b then if after then gone else space else copied

unfoldable pub collapse_whitespace : Text → Text
unfolding collapse_from
collapse_whitespace s = collapse_from false s

module _ (go : Go) where
  -- `compactJSON`
  unfoldable pub compact_json : Text → Text
  compact_json input = if is_empty input then [] else elim (go.compact input) [
    | none ↦ []
    | some s ↦
        if text_beq s (bytes "{}") || text_beq s (bytes "null")
        then []
        else if ltb max_tool_call_len (go.rune_count s)
        then go.rune_prefix max_tool_call_len s
        else s
  ]

  -- The first line of a command: strings.Cut at a newline.
  abbrev pub cut_line : Text → Text
  cut_line [] = []
  cut_line (b ∷ s) = let more = cut_line s in if nat_beq b 10 then [] else b ∷ more

  -- The tools whose summary is one field: the field of the input, or the compact JSON.
  unfoldable pub one_field : Text → Text → Text
  unfolding compact_json
  one_field key input = elim (go.unmarshal_fields (key ∷ []) input) [
    | none ↦ compact_json input
    | some field ↦ if is_empty (field key) then compact_json input else field key
  ]

  -- Glob and Grep
  unfoldable pub pattern_in_path : Text → Text
  unfolding compact_json
  pattern_in_path input = elim (go.unmarshal_fields (bytes "pattern" ∷ bytes "path" ∷ []) input) [
    | none ↦ compact_json input
    | some field ↦
        if is_empty (field (bytes "pattern"))
        then compact_json input
        else if is_empty (field (bytes "path"))
        then field (bytes "pattern")
        else field (bytes "pattern") ++ bytes " in " ++ field (bytes "path")
  ]

  -- Bash
  unfoldable pub command_line : Text → Text
  unfolding compact_json
  command_line input = elim (go.unmarshal_fields (bytes "command" ∷ []) input) [
    | none ↦ compact_json input
    | some field ↦
        if is_empty (field (bytes "command"))
        then compact_json input
        else go.trim_space (cut_line (field (bytes "command")))
  ]

  -- TodoWrite
  unfoldable pub todo_count : Text → Text
  unfolding compact_json
  todo_count input = elim (go.unmarshal_todos input) [
    | none ↦ compact_json input
    | some n ↦ if nat_beq n 0 then compact_json input else go.decimal n ++ bytes " todos"
  ]

  -- `extractToolSummary`
  unfoldable pub extract_tool_summary : Text → Text → Text
  unfolding compact_json one_field pattern_in_path command_line todo_count
  extract_tool_summary name input =
      if text_beq name (bytes "Bash")
      then command_line input
      else if text_beq name (bytes "Read")
          || text_beq name (bytes "Edit")
          || text_beq name (bytes "MultiEdit")
          || text_beq name (bytes "Write")
          || text_beq name (bytes "NotebookEdit")
      then one_field (bytes "file_path") input
      else if text_beq name (bytes "Glob") || text_beq name (bytes "Grep")
      then pattern_in_path input
      else if text_beq name (bytes "WebFetch")
      then one_field (bytes "url") input
      else if text_beq name (bytes "WebSearch")
      then one_field (bytes "query") input
      else if text_beq name (bytes "Task") || text_beq name (bytes "Agent")
      then one_field (bytes "description") input
      else if text_beq name (bytes "TodoWrite")
      then todo_count input
      else compact_json input

  -- The truncation of `formatToolCall`: an ellipsis follows the first 200 runes.
  abbrev pub shorten : Text → Text
  shorten s =
      if ltb max_tool_call_len (go.rune_count s)
      then go.rune_prefix max_tool_call_len s ++ 226 ∷ 128 ∷ 166 ∷ []
      else s

  -- `formatToolCall`
  unfoldable pub format_tool_call : Text → Text → Text
  unfolding extract_tool_summary collapse_whitespace
  format_tool_call name input =
      let trimmed = go.trim_space input in
      let summary = extract_tool_summary name input in
      if is_empty trimmed || text_beq trimmed (bytes "null") || text_beq trimmed (bytes "{}")
      then name
      else if is_empty summary
      then name
      else shorten (collapse_whitespace (name ++ bytes ": " ++ summary))
