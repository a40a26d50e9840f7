-- ===== src/Engine/Types.antt =====
-- port/llm_port.go, engine/events.go and the state that engine/agent_engine.go keeps during a run. An
-- event is given by its type, sub-type, step and mark of completion, and a milestone by its type and
-- step: their texts are shown to the user and steer nothing.
use ai_desktop_assistant.Common.{ℕ, ◌/◌, String, Char, Bool, Option, List, ◌∷◌, if◌then◌else◌, ltb}
use ai_desktop_assistant.Common.Text.{rune_count, is_blank}
use ai_desktop_assistant.Values.{Args, Printer}
use ai_desktop_assistant.Security.{PermissionGuard}
use ai_desktop_assistant.TaskPlan.{TaskPlan}

pub record ToolCall : Type 0 where
  pub id : String
  pub name : String
  pub args : Args

pub record ChatMessage : Type 0 where
  pub role : String
  pub content : String
  pub name : String
  pub tool_call_id : String

pub record ChatResponse : Type 0 where
  pub content : String
  pub tool_calls : List ToolCall
  pub total_tokens : ℕ

-- What `Generate` gives: an error by its text, or a response.
pub data Reply : Type 0 where
  failure : String → Reply
  reply : ChatResponse → Reply

-- What `executeTool` meets: no such tool, an error by its text, or a result.
pub data ToolOutcome : Type 0 where
  missing : ToolOutcome
  error : String → ToolOutcome
  result : String → ToolOutcome

pub data EventType : Type 0 where
  thought tool_call tool_result answer error_event complete intent plan plan_update permission route
        skill resume :
      EventType

pub data ErrorClass : Type 0 where
  class_none class_llm class_tool class_permission class_mcp class_loop class_cancel class_system :
      ErrorClass

pub record AgentEvent : Type 0 where
  pub type : EventType
  pub sub_type : String
  pub step : ℕ
  pub completed : Bool

pub record PendingPermissionInfo : Type 0 where
  pub id : String
  pub tool : String
  pub args : Args
  pub reason : String
  pub rule_id : String

-- `entity.NewAssistantMessage` and `NewToolMessage`, as saved in the repository.
pub record SavedMessage : Type 0 where
  pub role : String
  pub content : String
  pub tool_name : String
  pub tool_call_id : String
  pub step : ℕ
  pub token_count : ℕ

pub data MilestoneType : Type 0 where
  task_start task_complete task_change tool_called tool_error step_reach milestone_error user_input
        user_correction :
      MilestoneType

-- A call of the milestone tracker: `AddMilestone`, or `DetectAndRecord` with a role and a content.
pub data MilestoneCall : Type 0 where
  add : MilestoneType → ℕ → MilestoneCall
  detect : (role content : String) → ℕ → MilestoneCall

-- The loop's variables, and what it has done to the components: the newest entry of a log comes first,
-- but `messages` stand in their order. `executed` logs the tools that were run.
pub record State : Type 0 where
  pub guard : Option PermissionGuard
  pub task_plan : Option TaskPlan
  pub messages : List ChatMessage
  pub saved : List SavedMessage
  pub milestones : List MilestoneCall
  pub pushed : List (String × String)
  pub executed : List ToolCall
  pub events : List AgentEvent
  pub generated : ℕ
  pub total_tokens : ℕ
  pub total_tool_calls : ℕ
  pub final_answer : String
  pub last_tool_sig : String
  pub same_sig_count : ℕ
  pub pending_perm : Option PendingPermissionInfo
  pub need_break : Bool
  pub err_class : ErrorClass
  pub session_messages : ℕ
  pub session_tokens : ℕ
  pub session_saves : ℕ

-- `json.Unmarshal` into one name with its arguments, and into a list of those; `none` is its error. A
-- missing name is empty, and missing arguments are a nil map.
pub record Decoder : Type 0 where
  pub single : String → Option (String × Args)
  pub multi : String → Option (List (String × Args))

-- What surrounds a run. `generate` is the n-th call of the model port on the messages so far, `execute`
-- the n-th run of a tool, `cancelled` the context's state at a step, and `now` the clock at the n-th tool
-- call. `lower` is the table of `unicode.ToLower`; `sign` is `toolSignature`, a SHA-256 of the calls'
-- JSON, `hash_id` the hash in `ensureToolCallID`, and `format` `json.Marshal`.
pub record Env : Type 0 where
  pub printer : Printer
  pub lower : Char → Char
  pub session : String
  pub user_input : String
  pub has_context : Bool
  pub auto_approve : Bool
  pub continuing : Bool
  pub intent : String
  pub skill_id : String
  pub generate : ℕ → List ChatMessage → Reply
  pub execute : ℕ → ToolCall → ToolOutcome
  pub cancelled : ℕ → Bool
  pub now : ℕ → ℕ
  pub sign : List ToolCall → String
  pub hash_id : ToolCall → String
  pub format : List ToolCall → String
  pub decoder : Decoder

-- `common.EstimateTokens`
unfoldable pub estimate_text : String → ℕ
estimate_text text =
    if is_blank text then 0 else let t = rune_count text / 2 in if ltb t 1 then 1 else t

abbrev pub event : EventType → String → ℕ → Bool → AgentEvent
event type sub_type step completed = record {
  type = type;
  sub_type = sub_type;
  step = step;
  completed = completed;
}

abbrev pub publish : AgentEvent → State → State
publish e s = record s { events = e ∷ s.events }
