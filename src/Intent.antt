-- ===== src/Intent.antt =====
-- internal/domain/agent/model/valobj/intent.go and internal/types/enums/intent_type.go: what a request asks
-- for, and what a session remembers of it. A confidence is counted in millionths.
pub mod Extract
pub mod Rules
pub mod Llm
pub mod Service
pub mod Best
pub mod Sound
pub mod Kept
pub mod Cached
pub mod Reached
pub mod Bytes
pub mod Returns
mod Samples
use ai_desktop_assistant.Common.{
  ℕ, suc, String, Bool, true, false, ◌||◌, Option, none, some, List, [], ◌∷◌, ◌++◌, if◌then◌else◌,
  ltb, leb, str_eq, any, keep_last, length,
}
use ai_desktop_assistant.Common.Int.{ℤ, pos, ltb_ℤ}
use ai_desktop_assistant.Common.Map.{Map, insert, lookup_or}
use ai_desktop_assistant.Common.Text.{is_blank}

pub record IntentResult : Type 0 where
  pub intent : String
  pub confidence : ℤ
  pub entities : Map String
  pub is_action : Bool
  pub source : String

abbrev pub is_among : List String → String → Bool
is_among names s = any (λ n. str_eq n s) names

abbrev pub file_intents : List String
file_intents = "READ_FILE" ∷ "WRITE_FILE" ∷ "LIST_FILES" ∷ "DELETE_FILE" ∷ "CREATE_DIR" ∷ []

abbrev pub command_intents : List String
command_intents = "RUN_COMMAND" ∷ "RUN_SCRIPT" ∷ "START_APP" ∷ []

-- The keys of `actionIntents`.
abbrev pub action_intents : List String
action_intents =
    "READ_FILE" ∷ "WRITE_FILE" ∷ "LIST_FILES" ∷ "DELETE_FILE" ∷ "CREATE_DIR" ∷ "RUN_COMMAND"
    ∷ "RUN_SCRIPT" ∷ "START_APP" ∷ "SCREENSHOT" ∷ "ANALYZE_SCREEN" ∷ "OPEN_URL" ∷ "BROWSER_ACTION"
    ∷ "GET_CLIPBOARD" ∷ "SET_CLIPBOARD" ∷ "SYSTEM_INFO" ∷ "TASK_PLAN" ∷ []

unfoldable pub is_action_intent : String → Bool
is_action_intent i = is_among action_intents i

-- `NewIntentResult`; a missing map is an empty one.
unfoldable pub new_intent_result : String → ℤ → Map String → IntentResult
new_intent_result i c es = record {
  intent = i;
  confidence = c;
  entities = es;
  is_action = is_action_intent i;
  source = "";
}

-- `HasHighConfidence`, of a result that is there.
unfoldable pub has_high_confidence : IntentResult → ℕ → Bool
has_high_confidence r threshold = if ltb_ℤ r.confidence (pos threshold) then false else true

unfoldable pub get_entity : Option IntentResult → String → String
get_entity none k = ""
get_entity (some r) k = lookup_or "" k r.entities

-- `ConversationContextVO`
pub record ConversationContext : Type 0 where
  pub session_id : String
  pub last_intent : String
  pub last_entities : Map String
  pub recent_intents : List String
  pub entity_memory : Map String
  pub last_user_msg : String
  pub turn_count : ℕ

unfoldable pub new_conversation_context : String → ConversationContext
new_conversation_context id = record {
  session_id = id;
  last_intent = "";
  last_entities = [];
  recent_intents = [];
  entity_memory = [];
  last_user_msg = "";
  turn_count = 0;
}

-- `PutEntity`
unfoldable pub put_entity : String → String → ConversationContext → ConversationContext
put_entity k v c = if is_blank v then c else record c { entity_memory = insert k v c.entity_memory }

unfoldable pub put_entities : Map String → ConversationContext → ConversationContext
put_entities [] c = c
put_entities ((k, v) ∷ es) c = put_entities es (put_entity k v c)

-- `UpdateFromIntent`, of a result that is there.
unfoldable pub update_from_intent :
    IntentResult → String → ConversationContext → ConversationContext
update_from_intent r msg c = put_entities r.entities (record c {
  last_intent = r.intent;
  last_user_msg = msg;
  turn_count = suc c.turn_count;
  recent_intents = keep_last 10 (c.recent_intents ++ (r.intent ∷ []));
  last_entities = r.entities;
})

-- `Label`
unfoldable pub label_from : Map String → String → String
label_from labels i = lookup_or "" i labels

abbrev pub intent_labels : Map String
intent_labels =
    ("READ_FILE", "读取文件")
    ∷ ("WRITE_FILE", "写入文件")
    ∷ ("LIST_FILES", "列出文件")
    ∷ ("DELETE_FILE", "删除文件")
    ∷ ("CREATE_DIR", "创建目录")
    ∷ ("RUN_COMMAND", "执行命令")
    ∷ ("RUN_SCRIPT", "运行脚本")
    ∷ ("START_APP", "启动应用")
    ∷ ("SCREENSHOT", "屏幕截图")
    ∷ ("ANALYZE_SCREEN", "分析屏幕")
    ∷ ("OPEN_URL", "打开网页")
    ∷ ("BROWSER_ACTION", "浏览器操作")
    ∷ ("GET_CLIPBOARD", "获取剪贴板")
    ∷ ("SET_CLIPBOARD", "设置剪贴板")
    ∷ ("SYSTEM_INFO", "系统信息")
    ∷ ("CHAT", "对话")
    ∷ ("TASK_PLAN", "任务规划")
    ∷ ("UNKNOWN", "未知")
    ∷ []

unfoldable pub label : String → String
label i = label_from intent_labels i

unfoldable pub is_file_operation : String → Bool
is_file_operation i = is_among file_intents i

unfoldable pub is_command_execution : String → Bool
is_command_execution i = is_among command_intents i

unfoldable pub requires_path : String → Bool
requires_path i = is_among ("READ_FILE" ∷ "WRITE_FILE" ∷ "DELETE_FILE" ∷ []) i

unfoldable pub requires_content : String → Bool
requires_content i = is_among ("WRITE_FILE" ∷ "RUN_COMMAND" ∷ "RUN_SCRIPT" ∷ []) i
