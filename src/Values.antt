-- ===== src/Values.antt =====
-- The arguments of a tool call, `map[string]interface{}`: values as JSON decodes them.
use ai_desktop_assistant.Common.{String, Bool, Option, none, some}
use ai_desktop_assistant.Common.Map.{Map, lookup}

-- A number is kept as its text.
mutual
  pub data Value : Type 0 where
    null : Value
    bool : Bool → Value
    number : String → Value
    text : String → Value
    array : Items → Value
    object : Fields → Value

  pub data Items : Type 0 where
    nil : Items
    cons : Value → Items → Items

  pub data Fields : Type 0 where
    end : Fields
    field : String → Value → Fields → Fields

-- A nil map is `none`.
abbrev pub Args : Type 0
Args = Option (Map Value)

abbrev as_text : Option Value → Option String
as_text (some (text s)) = some s
as_text _ = none

-- `s, ok := args[key].(string)`
unfoldable pub text_arg : String → Map Value → Option String
text_arg key args = as_text (lookup key args)

-- `fmt.Sprint` of a value read from a map, which may be missing, and of a whole map.
pub record Printer : Type 0 where
  pub print_value : Option Value → String
  pub print_args : Map Value → String
