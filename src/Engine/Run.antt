-- ===== src/Engine/Run.antt =====
-- engine/agent_engine.go, `RunWithOptions` from the resumption of an approved call to its result.
use ai_desktop_assistant.Common.{
  ℕ, zero, suc, ◌+◌, ◌-◌, String, Bool, true, false, Option, none, some, [], ◌∷◌, ◌++◌,
  if◌then◌else◌,
}
use ai_desktop_assistant.Common.Text.{is_blank}
use ai_desktop_assistant.TaskPlan.{TaskPlan}
use ai_desktop_assistant.Security.{AwaitingResume, take_ready_resume}
use ai_desktop_assistant.Engine.Types.{
  ToolCall, ChatMessage, resume, tool_call, tool_result, complete, class_none, class_system,
  ErrorClass, PendingPermissionInfo, SavedMessage, State, Env, estimate_text, event, publish,
}
use ai_desktop_assistant.Engine.Config.{LoopConfig}
use ai_desktop_assistant.Engine.Calls.{
  budget_tool_result, ensure_tool_call_id, execute_tool, advance,
}
use ai_desktop_assistant.Engine.Round.{next, stop, cancel, diverge, round, build_step_prompt}

pub record AgentResult : Type 0 where
  pub session_id : String
  pub response : String
  pub intent : String
  pub steps : ℕ
  pub token_used : ℕ
  pub tool_calls : ℕ
  pub task_plan : Option TaskPlan
  pub skill_id : String
  pub pending_permission : Option PendingPermissionInfo
  pub need_permission : Bool
  pub error_class : ErrorClass

-- A run ends with a result, with a result and the context's error, or not at all.
pub data Ending : Type 0 where
  finished cancelled : State → AgentResult → Ending
  diverged : State → Ending

module _ (env : Env) (cfg : LoopConfig) where
  -- The approved call is run before the loop.
  unfoldable pub resume_call : AwaitingResume → State → State
  resume_call a s =
      let tc : ToolCall = record { id = ""; name = a.tool; args = a.args } in
      let call_id = ensure_tool_call_id env tc in
      let asst = env.format (tc ∷ []) in
      let asst_row : SavedMessage = record {
        role = "assistant";
        content = asst;
        tool_name = "";
        tool_call_id = "";
        step = 0;
        token_count = 0;
      } in
      let asst_message : ChatMessage = record {
        role = "assistant";
        content = asst;
        name = "";
        tool_call_id = "";
      } in
      let s1 =
        publish (event tool_call a.tool 0 false)
          (record (publish (event resume a.tool 0 false) s) { saved = asst_row ∷ s.saved }) in
      let text = budget_tool_result (execute_tool env s1 tc) in
      let s2 = record s1 {
        executed = tc ∷ s1.executed;
        total_tool_calls = s1.total_tool_calls + 1;
        pushed = if env.has_context then (a.tool, text) ∷ s1.pushed else s1.pushed;
      } in
      let s3 = publish (event tool_result a.tool 0 false) (advance env 0 a.tool text s2) in
      let tool_row : SavedMessage = record {
        role = "tool";
        content = text;
        tool_name = a.tool;
        tool_call_id = call_id;
        step = 0;
        token_count = estimate_text text;
      } in
      let tool_message : ChatMessage = record {
        role = "tool";
        content = text;
        name = a.tool;
        tool_call_id = call_id;
      } in
      let prompt : ChatMessage = record {
        role = "user";
        content = build_step_prompt 1 "继续完成任务";
        name = "";
        tool_call_id = "";
      } in
      record s3 {
        saved = tool_row ∷ s3.saved;
        messages = s3.messages ++ (asst_message ∷ tool_message ∷ prompt ∷ []);
      }

  -- A continued run takes the session's approved call, if there is one.
  unfoldable pub resume_run : State → State
  resume_run s = elim s.guard [
    | none ↦ s
    | some g ↦
        if env.continuing
        then (let (g', taken) = take_ready_resume env.session g in
            elim taken [
              | none ↦ record s { guard = some g' }
              | some a ↦ resume_call a (record s { guard = some g' })
            ])
        else s
  ]

  abbrev result_of : ℕ → State → AgentResult
  result_of steps s = record {
    session_id = env.session;
    response = s.final_answer;
    intent = env.intent;
    steps = steps;
    token_used = s.total_tokens;
    tool_calls = s.total_tool_calls;
    task_plan = s.task_plan;
    skill_id = env.skill_id;
    pending_permission = s.pending_perm;
    need_permission = elim s.pending_perm [ none ↦ false | some p ↦ true ];
    error_class = s.err_class;
  }

  abbrev class_or_system : ErrorClass → ErrorClass
  class_or_system class_none = class_system
  class_or_system c = c

  -- After the loop: an empty answer is replaced, the session is saved, and the result is published.
  unfoldable pub finish_run : State → Ending
  finish_run s =
      let s1 =
        if is_blank s.final_answer
        then record s { final_answer = "未能生成最终答案。"; err_class = class_or_system s.err_class }
        else s in
      let s2 =
        publish (event complete "" 0 true) (record s1 { session_saves = s1.session_saves + 1 }) in
      finished s2 (result_of (s2.total_tool_calls + 1) s2)

  -- The result of a cancelled run.
  unfoldable pub cancel_run : ℕ → State → Ending
  cancel_run step s = cancelled s (record (result_of (step - 1) s) {
    response = "请求已取消";
    pending_permission = none;
    need_permission = false;
  })

  -- The loop over the steps, by the number of rounds left.
  unfoldable pub react_loop : ℕ → ℕ → State → Ending
  react_loop zero step s = finish_run s
  react_loop (suc left) step s = elim (round env cfg step s) [
    | next s' ↦ react_loop left (suc step) s'
    | stop s' ↦ finish_run s'
    | cancel s' ↦ cancel_run step s'
    | diverge s' ↦ diverged s'
  ]

  unfoldable pub run : State → Ending
  run s = react_loop cfg.max_rounds 1 (resume_run s)
