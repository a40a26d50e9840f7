-- ===== src/Repository/Entities.antt =====
-- internal/domain/agent/model/entity/session.go and message.go, internal/domain/agent/model/valobj/
-- milestone.go, and internal/domain/mcp/model/entity/server.go.
use Prim.Native.String.{◌++◌ as append}
use ai_desktop_assistant.Common.{ℕ, ◌+◌, String, Bool, List, [], str_eq}
use ai_desktop_assistant.Common.Int.{ℤ}
use ai_desktop_assistant.Common.Map.{Map, lookup_or, insert}
use ai_desktop_assistant.Common.Text.{decimal}
use ai_desktop_assistant.Engine.Types.{
  MilestoneType, task_start, task_complete, task_change, tool_called, tool_error, step_reach,
  milestone_error, user_input, user_correction,
}

pub record SessionEntity : Type 0 where
  pub id : String
  pub agent_id : String
  pub user_id : String
  pub title : String
  pub status : String
  pub message_count : ℕ
  pub token_used : ℕ
  pub working_dir : String
  pub metadata : Map String
  pub created_at : ℕ
  pub updated_at : ℕ

unfoldable pub new_session_entity : ℕ → String → String → String → String → SessionEntity
new_session_entity now id agent_id user_id title = record {
  id = id;
  agent_id = agent_id;
  user_id = user_id;
  title = title;
  status = "ACTIVE";
  message_count = 0;
  token_used = 0;
  working_dir = "";
  metadata = [];
  created_at = now;
  updated_at = now;
}

unfoldable pub add_message : ℕ → ℕ → SessionEntity → SessionEntity
add_message now token_count s = record s {
  message_count = s.message_count + 1;
  token_used = s.token_used + token_count;
  updated_at = now;
}

unfoldable pub complete : ℕ → SessionEntity → SessionEntity
complete now s = record s { status = "COMPLETED"; updated_at = now }

unfoldable pub is_active : SessionEntity → Bool
is_active s = str_eq s.status "ACTIVE"

unfoldable pub set_meta : ℕ → String → String → SessionEntity → SessionEntity
set_meta now key value s = record s { metadata = insert key value s.metadata; updated_at = now }

unfoldable pub get_meta : String → SessionEntity → String
get_meta key s = lookup_or "" key s.metadata

unfoldable pub touch : ℕ → SessionEntity → SessionEntity
touch now s = record s { updated_at = now }

pub data Role : Type 0 where
  role_user role_assistant role_tool role_system : Role

pub data Priority : Type 0 where
  low medium high critical : Priority

pub record MessageEntity : Type 0 where
  pub id : String
  pub session_id : String
  pub role : Role
  pub content : String
  pub tool_name : String
  pub tool_call_id : String
  pub step : ℕ
  pub token_count : ℕ
  pub priority : Priority
  pub created_at : ℕ

-- `id` is what `generateID` gives.
unfoldable pub new_user_message : String → ℕ → String → String → MessageEntity
new_user_message id now session_id content = record {
  id = id;
  session_id = session_id;
  role = role_user;
  content = content;
  tool_name = "";
  tool_call_id = "";
  step = 0;
  token_count = 0;
  priority = high;
  created_at = now;
}

unfoldable pub new_assistant_message : String → ℕ → String → String → ℕ → MessageEntity
new_assistant_message id now session_id content step =
    record (new_user_message id now session_id content) { role = role_assistant; step = step }

unfoldable pub new_tool_message : String → ℕ → String → String → String → String → ℕ → MessageEntity
new_tool_message id now session_id tool_name tool_call_id content step =
    record (new_user_message id now session_id content) {
      role = role_tool;
      tool_name = tool_name;
      tool_call_id = tool_call_id;
      step = step;
      priority = medium;
    }

unfoldable pub new_system_message : String → ℕ → String → String → MessageEntity
new_system_message id now session_id content = record (new_user_message id now session_id content) {
  role = role_system;
  priority = critical;
}

pub record MilestoneVo : Type 0 where
  pub type : MilestoneType
  pub content : String
  pub step : ℕ
  pub timestamp : ℕ

unfoldable pub type_text : MilestoneType → String
type_text task_start = "TASK_START"
type_text task_complete = "TASK_COMPLETE"
type_text task_change = "TASK_CHANGE"
type_text tool_called = "TOOL_CALLED"
type_text tool_error = "TOOL_ERROR"
type_text step_reach = "STEP_REACHED"
type_text milestone_error = "ERROR"
type_text user_input = "USER_INPUT"
type_text user_correction = "USER_CORRECTION"

unfoldable pub is_of_type : MilestoneType → MilestoneVo → Bool
unfolding type_text
is_of_type type m = str_eq (type_text m.type) (type_text type)

unfoldable pub milestone_text : MilestoneVo → String
unfolding type_text
milestone_text m =
    append "[" (
      append (type_text m.type) (append "] Step" (append (decimal m.step) (append ": " m.content))))

pub record ServerConfig : Type 0 where
  pub name : String
  pub transport : String
  pub command : String
  pub args : List String
  pub env : Map String
  pub url : String
  pub enabled : Bool
  pub timeout_sec : ℤ
