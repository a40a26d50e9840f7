-- ===== src/Engine/Effects.antt =====
-- What running one tool call does to the state of a run.
use ai_desktop_assistant.Common.{
  ℕ, suc, ◌≡◌, String, false, List, [], ◌∷◌, arith, if◌then◌else◌, str_eq,
}
use ai_desktop_assistant.Engine.Types
use ai_desktop_assistant.Engine.Types.{
  ToolCall, State, Env, SavedMessage, AgentEvent, publish, event, tool_called, add, detect,
}
use ai_desktop_assistant.Engine.Calls.{
  run_call, report_error, advance, execute_tool, budget_tool_result,
}

-- Rows of tool results among the saved messages.
abbrev pub tool_rows : List SavedMessage → ℕ
tool_rows [] = 0
tool_rows (m ∷ ms) = if str_eq m.role "tool" then suc (tool_rows ms) else tool_rows ms

-- What stays as it is while a tool call runs and is reported.
pub record IsKept (s s' : State) : Type 0 where
  pub guard : s'.guard ≡ s.guard
  pub generated : s'.generated ≡ s.generated
  pub total_tokens : s'.total_tokens ≡ s.total_tokens
  pub total_tool_calls : s'.total_tool_calls ≡ s.total_tool_calls
  pub final_answer : s'.final_answer ≡ s.final_answer
  pub pending_perm : s'.pending_perm ≡ s.pending_perm
  pub need_break : s'.need_break ≡ s.need_break
  pub err_class : s'.err_class ≡ s.err_class

report_error-same :
    (env : Env) (step : ℕ) (raw : String) (s : State)
    → IsKept s (report_error env step raw s)
      × ((report_error env step raw s).executed ≡ s.executed)
      × ((report_error env step raw s).saved ≡ s.saved)
unfolding report_error
report_error-same env step raw s = ground arith

pub advance-same :
    (env : Env) (step : ℕ) (tool text : String) (s : State)
    → IsKept s (advance env step tool text s)
      × ((advance env step tool text s).executed ≡ s.executed)
      × ((advance env step tool text s).saved ≡ s.saved)
unfolding advance
advance-same env step tool text s = ground arith

pub run_call-effect :
    (env : Env) (step : ℕ) (tc : ToolCall) (s : State)
    → IsKept s (run_call env step tc s)
      × ((run_call env step tc s).executed ≡ tc ∷ s.executed)
      × (tool_rows (run_call env step tc s).saved ≡ suc (tool_rows s.saved))
unfolding run_call
run_call-effect env step tc s =
    let s1 = publish (event Types.tool_call tc.name step false) s in
    let raw = execute_tool env s1 tc in
    let text = budget_tool_result raw in
    let s1' = record s1 {
      executed = tc ∷ s1.executed;
      milestones = add tool_called step ∷ s1.milestones;
    } in
    let s2 = report_error env step raw s1' in
    let s3 = record s2 {
      pushed = if env.has_context then (tc.name, text) ∷ s2.pushed else s2.pushed;
      milestones = detect "tool" text step ∷ s2.milestones;
    } in
    let a = report_error-same env step raw s1' in
    let b = advance-same env step tc.name text s3 in ground (arith, a, b)
