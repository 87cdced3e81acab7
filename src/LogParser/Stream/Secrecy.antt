-- ===== src/LogParser/Stream/Secrecy.antt =====
-- internal/logparser/parser.go: the redactor and the entries that a line emits.
use contextmatrix_runner.Prelude.{
  none, some, text_beq, text_beq_iff, ◌&&◌, ◌||◌, ◌≤◌, ◌≡◌, refl, inl, inr, Bool, true, false, List,
  [], ◌∷◌, Text, bytes, is_empty, length, not, all, all-append, ◌∙◌, Option-cases, arith,
}
use contextmatrix_runner.LogParser.Redactor.{member, redact, new_redactor}
use contextmatrix_runner.LogParser.Redactor.Masked.{occurs, IsPlain, redact_masks}
use contextmatrix_runner.LogParser.ToolCall.{Go, ContentBlock, Message, format_tool_call}
use contextmatrix_runner.LogParser.Stream.{
  Output, emitted, engaged, logged, Sinks, handle_skill_tool_use, tool_use, process_block,
  process_blocks, process_line, usage_entries,
}

-- The content of an entry does not contain the text, and its model is empty or the given one.
abbrev pub hides : Text → Text → Output → Bool
hides q model (emitted entry) =
    not (occurs q entry.content) && (is_empty entry.model || text_beq entry.model model)
hides q model (engaged name) = true
hides q model (logged message) = true

-- The model that a line's event names.
abbrev pub model_of : Go → Text → Text
model_of go line = elim (go.unmarshal_event line) [ none ↦ [] | some ev ↦ ev.message.model ]

module _ (go : Go) (sinks : Sinks) (redact : Text → Text) (q model : Text)
    (masks : (t : Text) → occurs q (redact t) ≡ false) (nonempty : is_empty q ≡ false) where
  skill-hides :
      (input : Text) → all (hides q model) (handle_skill_tool_use go sinks redact input) ≡ true
  unfolding handle_skill_tool_use
  skill-hides input =
      elim (Option-cases (go.unmarshal_fields (bytes "skill" ∷ bytes "name" ∷ []) input)) [
        | inl e ↦ ground arith
        | inr (field, e) ↦ ground arith
      ]

  tool_use-hides :
      (block : ContentBlock) → all (hides q model) (tool_use go sinks redact block) ≡ true
  unfolding tool_use
  tool_use-hides block =
      ground (arith, skill-hides block.input, masks (format_tool_call go block.name block.input))

  process_block-hides :
      (block : ContentBlock) → all (hides q model) (process_block go sinks redact block) ≡ true
  unfolding process_block
  process_block-hides block =
      ground (arith, tool_use-hides block, masks block.text, masks block.thinking)

  process_blocks-hides :
      (l : List ContentBlock) → all (hides q model) (process_blocks go sinks redact l) ≡ true
  process_blocks-hides [] = refl
  process_blocks-hides (block ∷ l) =
      all-append (hides q model) (process_block go sinks redact block)
        (process_blocks go sinks redact l)
      ∙ rw (process_block-hides block, process_blocks-hides l) refl

  usage-hides :
      (m : Message) → m.model ≡ model → all (hides q model) (usage_entries go sinks redact m) ≡ true
  usage-hides m own = elim (Option-cases m.usage) [
    | inl e ↦ ground arith
    | inr (u, e) ↦ ground (arith, nonempty, text_beq_iff m.model model, own)
  ]

  process_line-hides :
      (line : Text)
      → model_of go line ≡ model
      → all (hides q model) (process_line go sinks redact line) ≡ true
  unfolding process_line
  process_line-hides line own = elim (Option-cases (go.unmarshal_event line)) [
    | inl e ↦ ground arith
    | inr (ev, e) ↦
        let named : ev.message.model ≡ model = ground (arith, e, own) in
        ground (
          arith,
          usage-hides ev.message named,
          process_blocks-hides ev.message.content,
          all-append (hides q model) (usage_entries go sinks redact ev.message)
              (process_blocks go sinks redact ev.message.content),
        )
  ]

-- Whatever a line of the stream is and however JSON is read: no entry that `processLine` emits has
-- in its content a secret of at least 8 bytes that the container's redactor was made with, if it has
-- no bracket and is no part of the marker, and the static patterns do not bring in an absent text. An
-- entry's model is empty, or it is the one that the line's event names, as the event has it.
pub process_line_masks :
    (go : Go) (sinks : Sinks) (patterns : Text → Text) (secrets : List Text) (q line : Text)
    → ((t : Text) → occurs q t ≡ false → occurs q (patterns t) ≡ false)
    → IsPlain q
    → member q secrets ≡ true
    → 8 ≤ length q
    → all
        (hides q (model_of go line))
        (process_line go sinks (redact patterns (new_redactor secrets)) line)
      ≡ true
process_line_masks go sinks patterns secrets q line f p m long =
    process_line-hides go sinks (redact patterns (new_redactor secrets)) q (model_of go line)
      (λ t. redact_masks patterns secrets q t f p m long) p.nonempty line refl
