-- ===== src/Engine/Parse/Depth.antt =====
-- engine/agent_engine.go, `parseToolCalls`: the depth of its recursion.
use ai_desktop_assistant.Common.{
  ℕ, zero, suc, ◌<◌, ◌≡◌, refl, ap, sym, ◌∙◌, Char, false, none, some, List, [], ◌∷◌, arith,
  is_empty, length,
}
use ai_desktop_assistant.Common.Text.{of_runes, trim_runes}
use ai_desktop_assistant.Engine.Types.{ToolCall, Decoder}
use ai_desktop_assistant.Engine.Parse.{fenced, braced, decode_calls, next_part, parse_tool_calls}
use ai_desktop_assistant.Engine.Parse.Parts.{braced-shape}

module _ (decoder : Decoder) where
  -- What the recursion does at a text, by what is found there.
  module _ (text : List Char) where
    abbrev response : List Char
    response = trim_runes text

    module _ (given : is_empty response ≡ false)
        (undecoded : decode_calls decoder (of_runes response) ≡ none) where
      parse_part :
          (depth : ℕ) (part : List Char)
          → next_part decoder response ≡ some part
          → parse_tool_calls decoder (suc depth) text ≡ parse_tool_calls decoder depth part
      unfolding parse_tool_calls
      parse_part depth part h = ground arith

  -- A text that is its own next part, and that does not decode, is parsed for ever: no depth of recursion is
  -- enough.
  parse_stuck :
      (depth : ℕ) (text : List Char)
      → is_empty (trim_runes text) ≡ false
      → decode_calls decoder (of_runes (trim_runes text)) ≡ none
      → next_part decoder (trim_runes text) ≡ some (trim_runes text)
      → trim_runes (trim_runes text) ≡ trim_runes text
      → parse_tool_calls decoder depth text ≡ none
  unfolding parse_tool_calls
  parse_stuck zero text given undecoded again same = refl
  parse_stuck (suc depth) text given undecoded again same =
      let r = trim_runes text in
      parse_part text given undecoded depth r again
      ∙ parse_stuck depth r (ap is_empty same ∙ given)
          (ap (λ t. decode_calls decoder (of_runes t)) same ∙ undecoded)
          (ap (next_part decoder) same ∙ again ∙ ap some (sym same)) (ap trim_runes same)

  -- The parse of a text ends.
  pub record Returns (text : List Char) : Type 0 where
    pub calls : List ToolCall
    pub ends : (depth : ℕ) → length text < depth → parse_tool_calls decoder depth text ≡ some calls

  braced-given : (t : List Char) → braced t ≡ some t → is_empty t ≡ false
  unfolding braced
  braced-given [] h = ground arith
  braced-given (c ∷ cs) h = refl

  next_part-braced :
      (t : List Char)
      → braced t ≡ some t
      → fenced "```json" t ≡ none
      → fenced "```" t ≡ none
      → next_part decoder t ≡ some t
  unfolding next_part
  next_part-braced t h k l = ground arith

  -- Reading the calls of a text that runs from an opening brace to a closing one, has no fenced block, and
  -- decodes to no call, calls itself with the same text for ever: no depth of recursion is enough.
  pub parse_tool_calls-never :
      (text : List Char)
      → braced text ≡ some text
      → fenced "```json" text ≡ none
      → fenced "```" text ≡ none
      → decode_calls decoder (of_runes text) ≡ none
      → (depth : ℕ) → parse_tool_calls decoder depth text ≡ none
  parse_tool_calls-never text whole no_json no_fence undecoded depth =
      let same = (braced-shape text text whole).0 in
      let given : is_empty text ≡ false = braced-given text whole in
      parse_stuck depth text (ap is_empty same ∙ given)
        (ap (λ t. decode_calls decoder (of_runes t)) same ∙ undecoded)
        (ap (next_part decoder) same
          ∙ next_part-braced text whole no_json no_fence
          ∙ ap some (sym same))
        (ap trim_runes same)
