-- ===== src/Engine/Parse.antt =====
-- engine/agent_engine.go, `parseToolCalls`: the tool calls in the text of a model's answer. The patterns
-- are ASCII, so that positions of bytes and of runes cut a text alike.
mod Parts
pub mod Depth
use ai_desktop_assistant.Common.{
  ℕ, zero, suc, Char, code, String, Bool, true, false, ◌&&◌, Option, none, some, List, [], ◌∷◌, map,
  if◌then◌else◌, ◌==◌, is_empty, drop, length,
}
use ai_desktop_assistant.Common.Text.{is_blank, is_prefix, runes, of_runes, split_at, trim_runes}
use ai_desktop_assistant.Values.{Args}
use ai_desktop_assistant.Engine.Types.{ToolCall, Decoder}

-- `ensureArgs`
unfoldable pub ensure_args : Args → Args
ensure_args none = some []
ensure_args (some args) = some args

abbrev pub named_call : String × Args → ToolCall
named_call (name, args) = record { id = ""; name = name; args = ensure_args args }

-- The calls of a list, those with no name left out.
unfoldable pub named_calls : List (String × Args) → List ToolCall
unfolding ensure_args
named_calls [] = []
named_calls ((name, args) ∷ rest) =
    if is_blank name then named_calls rest else named_call (name, args) ∷ named_calls rest

-- What stands between the first opening fence and the fence after it.
unfoldable pub fenced : String → List Char → Option (List Char)
unfolding split_at runes
fenced fence text = elim (split_at (runes fence) text) [
  | none ↦ none
  | some (before, rest) ↦ elim (split_at (runes "```") rest) [
    | none ↦ none
    | some (block, after) ↦ some block
  ]
]

-- A fenced block without the word `json` that it starts with.
unfoldable pub plain_block : List Char → List Char
unfolding trim_runes is_prefix runes
plain_block block =
    let trimmed = trim_runes block in
    if is_prefix (runes "json") trimmed then trim_runes (drop 4 trimmed) else trimmed

-- A text up to its last closing brace.
unfoldable pub to_last_brace : List Char → Option (List Char)
to_last_brace [] = none
to_last_brace (c ∷ cs) = elim (to_last_brace cs) [
  | some inner ↦ some (c ∷ inner)
  | none ↦ if code c == 125 then some (c ∷ []) else none
]

-- From the first opening brace to the last closing one.
unfoldable pub braced : List Char → Option (List Char)
unfolding to_last_brace
braced [] = none
braced (c ∷ cs) = if code c == 123 then to_last_brace (c ∷ cs) else braced cs

module _ (decoder : Decoder) where
  -- The text as one call, or as a list of calls.
  unfoldable pub decode_calls : String → Option (List ToolCall)
  unfolding ensure_args named_calls
  decode_calls text =
      let listed : Option (List ToolCall) = elim (decoder.multi text) [
        | none ↦ none
        | some entries ↦
            let calls = named_calls entries in if is_empty calls then none else some calls
      ] in
      elim (decoder.single text) [
        | none ↦ listed
        | some (name, args) ↦ if is_blank name then listed else some (named_call (name, args) ∷ [])
      ]

  -- The part of a text that the calls are looked for in next.
  unfoldable pub next_part : List Char → Option (List Char)
  unfolding fenced plain_block trim_runes braced
  next_part text = elim (fenced "```json" text) [
    | some block ↦ some (trim_runes block)
    | none ↦ elim (fenced "```" text) [ some block ↦ some (plain_block block) | none ↦ braced text ]
  ]

  -- `none` where the depth of the recursion does not suffice.
  unfoldable pub parse_tool_calls : ℕ → List Char → Option (List ToolCall)
  unfolding trim_runes of_runes
  parse_tool_calls zero text = none
  parse_tool_calls (suc depth) text =
      let response = trim_runes text in
      if is_empty response then some [] else elim (decode_calls (of_runes response)) [
        | some calls ↦ some calls
        | none ↦ elim (next_part response) [
          | none ↦ some []
          | some part ↦ parse_tool_calls depth part
        ]
      ]

  -- A call at the top: one more than the text's runes is depth enough for every text that it returns on.
  unfoldable pub parse_response : String → Option (List ToolCall)
  unfolding parse_tool_calls runes
  parse_response text = parse_tool_calls (suc (length (runes text))) (runes text)
