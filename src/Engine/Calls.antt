-- ===== src/Engine/Calls.antt =====
-- engine/agent_engine.go: one tool call of a round, behind the permission gate.
use Prim.Native.String.{◌++◌ as append}
use ai_desktop_assistant.Common.{
  ℕ, ◌+◌, String, Char, Bool, true, false, ◌||◌, none, some, List, [], ◌∷◌, ◌++◌, if◌then◌else◌,
  leb, length,
}
use ai_desktop_assistant.Common.Text.{contains, to_lower, is_blank, truncate_with}
use ai_desktop_assistant.Security.{
  allow, deny, confirm, Decision, PermissionGuard, check, create_pending,
}
use ai_desktop_assistant.TaskPlan.Progress.{after_tool}
use ai_desktop_assistant.Engine.Types
use ai_desktop_assistant.Engine.Types.{
  ToolCall, ChatMessage, ToolOutcome, missing, error, result, AgentEvent, tool_result, error_event,
  plan_update, permission, class_none, class_permission, ErrorClass, SavedMessage, tool_called, add,
  detect, State, Env, estimate_text, event, publish,
}
use ai_desktop_assistant.Engine.Config.{LoopConfig}

-- `budgetToolResult`, with `maxToolResultChars` runes.
unfoldable pub budget_tool_result : String → String
unfolding truncate_with
budget_tool_result s =
    if is_blank s then s else truncate_with "\n...[truncated for context budget]" 4000 s

unfoldable pub ensure_tool_call_id : Env → ToolCall → String
ensure_tool_call_id env tc = if is_blank tc.id then append "call_" (env.hash_id tc) else tc.id

-- The text that `executeTool` returns.
unfoldable pub outcome_text : String → ToolOutcome → String
outcome_text name missing = append "工具 " (append name " 不存在")
outcome_text name (error e) = append "工具 " (append name (append " 执行失败: " e))
outcome_text name (result text) = text

unfoldable pub execute_tool : Env → State → ToolCall → String
unfolding outcome_text
execute_tool env s tc = outcome_text tc.name (env.execute (length s.executed) tc)

unfoldable pub is_tool_error : (Char → Char) → String → Bool
is_tool_error lower text =
    let low = to_lower lower text in
    contains text "执行失败" || contains text "不存在" || contains low "error" || contains low "failed"

module _ (env : Env) (step : ℕ) where
  -- The error event of a tool's result.
  unfoldable pub report_error : String → State → State
  report_error raw s =
      if is_tool_error env.lower raw
      then publish
          (event error_event (if contains (to_lower env.lower raw) "mcp" then "mcp" else "tool")
            step false)
          s
      else s

  unfoldable pub advance : String → String → State → State
  advance tool text s =
      let (p, advanced) = after_tool env.lower (tool, text) s.task_plan in
      let s' = record s { task_plan = p } in
      if advanced then publish (event plan_update "" step false) s' else s'

  -- From `callID := ensureToolCallID(tc)` to the end of the loop's body: the tool is run.
  unfoldable pub run_call : ToolCall → State → State
  run_call tc s =
      let call_id = ensure_tool_call_id env tc in
      let s1 = publish (event Types.tool_call tc.name step false) s in
      let raw = execute_tool env s1 tc in
      let text = budget_tool_result raw in
      let s2 = report_error raw (record s1 {
        executed = tc ∷ s1.executed;
        milestones = add tool_called step ∷ s1.milestones;
      }) in
      let s3 = record s2 {
        pushed = if env.has_context then (tc.name, text) ∷ s2.pushed else s2.pushed;
        milestones = detect "tool" text step ∷ s2.milestones;
      } in
      let s4 = publish (event tool_result tc.name step false) (advance tc.name text s3) in
      let row : SavedMessage = record {
        role = "tool";
        content = text;
        tool_name = tc.name;
        tool_call_id = call_id;
        step = step;
        token_count = estimate_text text;
      } in
      let message : ChatMessage = record {
        role = "tool";
        content = text;
        name = tc.name;
        tool_call_id = call_id;
      } in
      record s4 { saved = row ∷ s4.saved; messages = s4.messages ++ message ∷ [] }

  -- The text that tells the model of a denial.
  unfoldable pub denial_text : Decision → String
  denial_text d = append "⛔ 权限拒绝: " (append d.reason (append " (" (append d.rule_id ")")))

  -- `case security.ActionDeny`: the model is told, and the call is skipped.
  unfoldable pub deny_call : ToolCall → Decision → State → State
  unfolding denial_text
  deny_call tc d s =
      let message : ChatMessage = record {
        role = "tool";
        content = denial_text d;
        name = tc.name;
        tool_call_id = ensure_tool_call_id env tc;
      } in
      publish (event permission "deny" step false)
        (record s { messages = s.messages ++ message ∷ [] })

  unfoldable pub confirm_text : ToolCall → Decision → String → String
  confirm_text tc d id = append "⚠\u{fe0f} 操作需要确认\n工具: " (
      append tc.name (
        append "\n原因: " (
          append d.reason (
            append "\n确认ID: " (
              append id (
                append "\n\n请在界面点击「批准」或调用 POST /api/v1/permission/approve"
                  "（可设 continue=true 自动恢复），也可发送「继续」。"))))))

  -- `case security.ActionConfirm`, up to its `break`.
  unfoldable pub confirm_call : ToolCall → Decision → PermissionGuard → State → State
  unfolding confirm_text
  confirm_call tc d g s =
      let (g', p) =
        create_pending env.printer (env.now s.total_tool_calls) env.session tc.name tc.args d g in
      publish (event permission "confirm" step true) (record s {
        guard = some g';
        pending_perm = some (record {
          id = p.id;
          tool = p.tool;
          args = p.args;
          reason = p.reason;
          rule_id = p.rule_id;
        });
        err_class = class_permission;
        final_answer = confirm_text tc d p.id;
        need_break = true;
      })

  -- The switch on the decision. The `break` of the confirmation leaves the switch, and not the loop over
  -- the calls, so that what follows the switch runs the tool.
  unfoldable pub decided_call : ToolCall → Decision → PermissionGuard → State → State
  decided_call tc d g s = elim d.action [
    | deny ↦ deny_call tc d (record s { guard = some g })
    | confirm ↦ run_call tc (confirm_call tc d g s)
    | allow ↦ run_call tc (record s { guard = some g })
  ]

  unfoldable pub gated_call : ToolCall → State → State
  gated_call tc s = elim s.guard [
    | none ↦ run_call tc s
    | some g ↦
        if env.auto_approve
        then run_call tc s
        else let (g', d) = check env.printer g env.session tc.name tc.args in decided_call tc d g' s
  ]

  -- The loop over the calls of a round.
  unfoldable pub run_calls : LoopConfig → List ToolCall → State → State
  run_calls cfg [] s = s
  run_calls cfg (tc ∷ calls) s =
      if leb cfg.max_total_tool_calls s.total_tool_calls
      then s
      else run_calls cfg calls
          (gated_call tc (record s { total_tool_calls = s.total_tool_calls + 1 }))
