-- ===== src/Repository/Messages.antt =====
-- memory_message_repo.go
use ai_desktop_assistant.Common.{
  ℕ, String, ◌&&◌, List, [], ◌∷◌, ◌++◌, map, if◌then◌else◌, ltb, length, is_empty, keep_last,
}
use ai_desktop_assistant.Common.Int.{ℤ, pos_part}
use ai_desktop_assistant.Common.Map.{Map, lookup_or, insert, delete}
use ai_desktop_assistant.Common.Text.{decimal}
use ai_desktop_assistant.Values.{Value, text, number}
use ai_desktop_assistant.Repository.Entities.{
  MessageEntity, Role, role_user, role_assistant, role_tool, role_system, Priority, low, medium,
  high, critical,
}

-- The map `messages`.
abbrev pub Messages : Type 0
Messages = Map (List MessageEntity)

unfoldable pub save_message : MessageEntity → Messages → Messages
save_message m r = insert m.session_id (lookup_or [] m.session_id r ++ m ∷ []) r

unfoldable pub save_batch : List MessageEntity → Messages → Messages
unfolding save_message
save_batch [] r = r
save_batch (m ∷ ms) r = save_batch ms (save_message m r)

-- `if limit > 0 && len(xs) > limit { xs = xs[len(xs)-limit:] }`
abbrev pub last_of {ℓ} : {A : Type ℓ} → ℤ → List A → List A
last_of limit xs =
    if ltb 0 (pos_part limit) && ltb (pos_part limit) (length xs)
    then keep_last (pos_part limit) xs
    else xs

unfoldable pub list_messages : String → ℤ → Messages → List MessageEntity
list_messages session limit r =
    let msgs = lookup_or [] session r in if is_empty msgs then [] else last_of limit msgs

unfoldable pub role_text : Role → String
role_text role_user = "user"
role_text role_assistant = "assistant"
role_text role_tool = "tool"
role_text role_system = "system"

unfoldable pub priority_number : Priority → ℕ
priority_number critical = 3
priority_number high = 2
priority_number medium = 1
priority_number low = 0

-- `ToMap`; `format_time` is `Format(time.RFC3339)`.
unfoldable pub to_map : (ℕ → String) → MessageEntity → Map Value
unfolding role_text priority_number
to_map format_time m =
    ("id", text m.id)
    ∷ ("sessionId", text m.session_id)
    ∷ ("role", text (role_text m.role))
    ∷ ("content", text m.content)
    ∷ ("toolName", text m.tool_name)
    ∷ ("toolCallId", text m.tool_call_id)
    ∷ ("step", number (decimal m.step))
    ∷ ("tokenCount", number (decimal m.token_count))
    ∷ ("priority", number (decimal (priority_number m.priority)))
    ∷ ("createdAt", text (format_time m.created_at))
    ∷ []

unfoldable pub list_as_maps : (ℕ → String) → String → ℤ → Messages → List (Map Value)
unfolding list_messages to_map
list_as_maps format_time session limit r = map (to_map format_time) (list_messages session limit r)

unfoldable pub delete_messages : String → Messages → Messages
delete_messages session r = delete session r

unfoldable pub count_messages : String → Messages → ℕ
count_messages session r = length (lookup_or [] session r)
