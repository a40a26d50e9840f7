-- ===== src/Engine/Round.antt =====
-- engine/agent_engine.go: one round of the ReAct loop.
use Prim.Native.String.{◌++◌ as append}
use ai_desktop_assistant.Common.{
  ℕ, zero, suc, ◌+◌, String, true, false, none, some, List, [], ◌∷◌, ◌++◌, if◌then◌else◌, leb, ltb,
  str_eq, is_empty, take,
}
use ai_desktop_assistant.Common.Text.{is_blank, trim_space, decimal}
use ai_desktop_assistant.TaskPlan.{string_for_prompt}
use ai_desktop_assistant.Engine.Types.{
  ToolCall, ChatMessage, ChatResponse, Reply, failure, reply, thought, answer, error_event,
  class_llm, class_loop, class_cancel, SavedMessage, task_complete, milestone_error, add, State,
  Env, estimate_text, event, publish,
}
use ai_desktop_assistant.Engine.Config.{LoopConfig}
use ai_desktop_assistant.Engine.Parse.{parse_response}
use ai_desktop_assistant.Engine.Calls.{run_calls}

-- How a round ends: with another round, with the end of the loop, with the return of a cancelled run, or
-- not at all, where reading the tool calls does not return.
pub data Outcome : Type 0 where
  next stop cancel diverge : State → Outcome

unfoldable pub build_step_prompt : ℕ → String → String
build_step_prompt step user_input = append "【第 " (
    append (decimal step)
      (append " 步】基于工具结果继续推理。用户原始请求：" (append user_input "\n若已完成请直接回答；若需更多工具请输出 JSON 工具调用。")))

module _ (env : Env) (cfg : LoopConfig) where
  -- The loop over the attempts, by the number of retries left.
  unfoldable pub generate_with_retries : ℕ → State → State × Reply
  generate_with_retries zero s =
      (record s { generated = s.generated + 1 }, env.generate s.generated s.messages)
  generate_with_retries (suc retries) s =
      let s' = record s { generated = s.generated + 1 } in
      elim (env.generate s.generated s.messages) [
        | reply r ↦ (s', reply r)
        | failure e ↦ generate_with_retries retries s'
      ]

  -- The model could not be reached.
  unfoldable pub llm_failed : ℕ → String → State → State
  llm_failed step e s = publish (event error_event "llm" step true) (record s {
    err_class = class_llm;
    milestones = add milestone_error step ∷ s.milestones;
    final_answer = append "LLM 调用失败: " e;
  })

  unfoldable pub count_tokens : ChatResponse → State → State
  count_tokens r s = record s {
    total_tokens =
        s.total_tokens + (if ltb 0 r.total_tokens then r.total_tokens else estimate_text r.content);
  }

  -- No tool is called: the response is the answer.
  unfoldable pub answer_round : ℕ → ChatResponse → State → State
  answer_round step r s =
      let trimmed = trim_space r.content in
      let text = if is_blank trimmed then "已完成处理。" else trimmed in
      let tokens = if ltb 0 r.total_tokens then r.total_tokens else estimate_text text in
      let row : SavedMessage = record {
        role = "assistant";
        content = text;
        tool_name = "";
        tool_call_id = "";
        step = step;
        token_count = tokens;
      } in
      publish (event answer "" step true) (record s {
        final_answer = text;
        saved = row ∷ s.saved;
        session_messages = s.session_messages + 1;
        session_tokens = s.session_tokens + tokens;
        milestones = add task_complete step ∷ s.milestones;
      })

  -- The same calls came too often in a row.
  unfoldable pub loop_detected : ℕ → ChatResponse → State → State
  loop_detected step r s = publish (event error_event "loop" step true) (record s {
    err_class = class_loop;
    final_answer = append "检测到重复工具调用，已停止循环。\n\n最后模型输出：\n" r.content;
  })

  -- The assistant's message with the calls.
  unfoldable pub record_assistant : ℕ → ChatResponse → List ToolCall → State → State
  record_assistant step r calls s =
      let content = if is_blank r.content then env.format calls else r.content in
      let row : SavedMessage = record {
        role = "assistant";
        content = content;
        tool_name = "";
        tool_call_id = "";
        step = step;
        token_count = 0;
      } in
      let message : ChatMessage = record {
        role = "assistant";
        content = content;
        name = "";
        tool_call_id = "";
      } in
      record s { messages = s.messages ++ message ∷ []; saved = row ∷ s.saved }

  -- From the step's prompt to the end of the round.
  unfoldable pub end_round : ℕ → State → State
  end_round step s =
      let prompt = append (build_step_prompt step env.user_input) (elim s.task_plan [
        | none ↦ ""
        | some p ↦ append "\n当前计划状态:\n" (string_for_prompt (some p))
      ]) in
      let message : ChatMessage = record {
        role = "user";
        content = prompt;
        name = "";
        tool_call_id = "";
      } in
      let s' = record s { messages = s.messages ++ message ∷ [] } in
      if leb cfg.max_rounds step
      then publish (event error_event "loop" step true)
          (record s' { err_class = class_loop; final_answer = "已达到最大执行步数，请根据已有结果继续或重新提问。" })
      else s'

  -- The calls that a round runs are at most as many as the configuration allows.
  unfoldable pub tools_round : ℕ → ChatResponse → List ToolCall → State → Outcome
  tools_round step r calls s =
      let s1 = record_assistant step r calls s in
      let s2 =
        run_calls env step cfg (take cfg.max_tool_calls_per_round calls)
          (record s1 { need_break = false }) in
      if s2.need_break then stop s2 else next (end_round step s2)

  -- The test for repeated calls, by their signature.
  unfoldable pub repeated_round : ℕ → ChatResponse → List ToolCall → State → Outcome
  repeated_round step r calls s =
      let sig = env.sign calls in
      if str_eq sig s.last_tool_sig
      then (let s' = record s { same_sig_count = s.same_sig_count + 1 } in
          if leb cfg.diminishing_returns_threshold (s.same_sig_count + 1)
          then stop (loop_detected step r s')
          else tools_round step r calls s')
      else tools_round step r calls (record s { same_sig_count = 0; last_tool_sig = sig })

  unfoldable pub response_round : ℕ → ChatResponse → State → Outcome
  response_round step r s =
      let s' = count_tokens r s in
      if is_empty r.tool_calls
      then elim (parse_response env.decoder r.content) [
        | none ↦ diverge s'
        | some calls ↦
            if is_empty calls then stop (answer_round step r s') else repeated_round step r calls s'
      ]
      else repeated_round step r r.tool_calls s'

  unfoldable pub reply_round : ℕ → State × Reply → Outcome
  reply_round step (s, failure e) = stop (llm_failed step e s)
  reply_round step (s, reply r) = response_round step r s

  unfoldable pub round : ℕ → State → Outcome
  round step s =
      if env.cancelled step
      then cancel
          (publish (event error_event "cancel" step true) (record s { err_class = class_cancel }))
      else reply_round step
          (generate_with_retries cfg.max_ai_retries (publish (event thought "" step false) s))
