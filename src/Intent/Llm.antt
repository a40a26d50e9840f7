-- ===== src/Intent/Llm.antt =====
-- internal/domain/agent/service/intent/llm_classifier.go: the classifier that asks the model. What the model
-- answers is a parameter; `lower` and `upper` are the tables of package `unicode`.
use ai_desktop_assistant.Common.{
  String, Char, Bool, List, [], ◌∷◌, map, if◌then◌else◌, char_eq, ◌||◌,
}
use ai_desktop_assistant.Common.Int.{ℤ, pos, ltb_ℤ}
use ai_desktop_assistant.Common.Map.{Map}
use ai_desktop_assistant.Common.Text.{runes, of_runes, is_blank, trim_runes}
use ai_desktop_assistant.Intent.{IntentResult, new_intent_result, is_among}
use ai_desktop_assistant.Intent.Rules.{sourced}

-- What `ClassifyIntent` gives.
pub data Answer : Type 0 where
  answer : String → ℤ → Map String → Answer
  error : Answer

-- The keys of `valid`.
abbrev pub known_intents : List String
known_intents =
    "READ_FILE" ∷ "WRITE_FILE" ∷ "LIST_FILES" ∷ "DELETE_FILE" ∷ "CREATE_DIR" ∷ "RUN_COMMAND"
    ∷ "RUN_SCRIPT" ∷ "START_APP" ∷ "SCREENSHOT" ∷ "ANALYZE_SCREEN" ∷ "OPEN_URL" ∷ "BROWSER_ACTION"
    ∷ "GET_CLIPBOARD" ∷ "SET_CLIPBOARD" ∷ "SYSTEM_INFO" ∷ "CHAT" ∷ "TASK_PLAN" ∷ "UNKNOWN" ∷ []

unfoldable pub is_known : String → Bool
is_known i = is_among known_intents i

abbrev underscore : Char → Char
underscore c = if char_eq c "-" || char_eq c " " then "_" else c

-- `normalizeIntent`
unfoldable pub normalize_intent : (Char → Char) → String → String
normalize_intent upper i =
    let n = of_runes (map underscore (trim_runes (map upper (runes i)))) in
    if is_known n then n else "CHAT"

-- A confidence that is not positive is 0.6, and none is above 1.
unfoldable pub clamp_confidence : ℤ → ℤ
clamp_confidence c =
    let d = if ltb_ℤ (pos 0) c then c else pos 600000 in
    if ltb_ℤ (pos 1000000) d then pos 1000000 else d

-- `Classify` of a classifier that is there, on what the model answers.
unfoldable pub classify_answer : (Char → Char) → Answer → IntentResult
classify_answer upper error = sourced "llm-error" (new_intent_result "CHAT" (pos 400000) [])
classify_answer upper (answer i c es) =
    if is_blank i
    then sourced "llm-error" (new_intent_result "CHAT" (pos 400000) [])
    else sourced "llm" (new_intent_result (normalize_intent upper i) (clamp_confidence c) es)
