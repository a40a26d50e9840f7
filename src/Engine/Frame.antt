-- ===== src/Engine/Frame.antt =====
-- What a round leaves alone outside the tool calls, and the induction over a run that follows.
use ai_desktop_assistant.Common.{
  ℕ, zero, suc, ◌+◌, ◌<◌, ◌≡◌, String, true, false, none, some, List, [], ◌∷◌, arith, if◌then◌else◌,
  leb, str_eq, is_empty, take, if_ind,
}
use ai_desktop_assistant.Engine.Types.{
  ToolCall, ChatResponse, Reply, failure, reply, State, event, publish, thought, error_event,
  class_cancel, Env,
}
use ai_desktop_assistant.Engine.Config.{LoopConfig}
use ai_desktop_assistant.Engine.Parse.{parse_response}
use ai_desktop_assistant.Engine.Calls.{gated_call, run_calls}
use ai_desktop_assistant.Engine.Round.{
  Outcome, next, stop, cancel, diverge, generate_with_retries, llm_failed, count_tokens,
  answer_round, loop_detected, record_assistant, end_round, tools_round, repeated_round,
  response_round, reply_round, round,
}
use ai_desktop_assistant.Engine.Run.{
  Ending, finished, cancelled, diverged, finish_run, cancel_run, react_loop,
}
use ai_desktop_assistant.Engine.Effects.{tool_rows}

-- What only the tool calls of a round change.
pub record IsSameCore (s s' : State) : Type 0 where
  pub guard : s'.guard ≡ s.guard
  pub executed : s'.executed ≡ s.executed
  pub total_tool_calls : s'.total_tool_calls ≡ s.total_tool_calls
  pub rows : tool_rows s'.saved ≡ tool_rows s.saved
  pub pending_perm : s'.pending_perm ≡ s.pending_perm

abbrev pub outcome_state : Outcome → State
outcome_state (next s) = s
outcome_state (stop s) = s
outcome_state (cancel s) = s
outcome_state (diverge s) = s

abbrev pub ending_state : Ending → State
ending_state (finished s r) = s
ending_state (cancelled s r) = s
ending_state (diverged s) = s

generate_with_retries-IsSameCore :
    (env : Env) (cfg : LoopConfig) (s : State) (retries : ℕ)
    → IsSameCore s (generate_with_retries env cfg retries s).0
unfolding generate_with_retries
generate_with_retries-IsSameCore env cfg s zero = ground arith
generate_with_retries-IsSameCore env cfg s (suc retries) = ground (
  arith,
  generate_with_retries-IsSameCore env cfg (record s { generated = s.generated + 1 }) retries,
)

module _ (env : Env) (cfg : LoopConfig) (s : State) where
  llm_failed-IsSameCore : (step : ℕ) (e : String) → IsSameCore s (llm_failed env cfg step e s)
  unfolding llm_failed
  llm_failed-IsSameCore step e = ground arith

  count_tokens-IsSameCore : (r : ChatResponse) → IsSameCore s (count_tokens env cfg r s)
  unfolding count_tokens
  count_tokens-IsSameCore r = ground arith

  answer_round-IsSameCore :
      (step : ℕ) (r : ChatResponse) → IsSameCore s (answer_round env cfg step r s)
  unfolding answer_round
  answer_round-IsSameCore step r = ground arith

  loop_detected-IsSameCore :
      (step : ℕ) (r : ChatResponse) → IsSameCore s (loop_detected env cfg step r s)
  unfolding loop_detected
  loop_detected-IsSameCore step r = ground arith

  record_assistant-IsSameCore :
      (step : ℕ) (r : ChatResponse) (calls : List ToolCall)
      → IsSameCore s (record_assistant env cfg step r calls s)
  unfolding record_assistant
  record_assistant-IsSameCore step r calls = ground arith

  end_round-IsSameCore : (step : ℕ) → IsSameCore s (end_round env cfg step s)
  unfolding end_round
  end_round-IsSameCore step = ground arith

-- A property that the loop's own bookkeeping keeps, and each tool call behind its gate, is kept by the whole
-- loop.
module _ (env : Env) (cfg : LoopConfig) (P : State → Type 0)
    (frame : (s s' : State) → IsSameCore s s' → P s → P s')
    (call : (step : ℕ) (tc : ToolCall) (s : State)
      → s.total_tool_calls < cfg.max_total_tool_calls
      → P s
      → P (gated_call env step tc (record s { total_tool_calls = s.total_tool_calls + 1 }))) where
  pub run_calls-ind :
      (step : ℕ) (calls : List ToolCall) (s : State) → P s → P (run_calls env step cfg calls s)
  unfolding run_calls
  run_calls-ind step [] s h = h
  run_calls-ind step (tc ∷ calls) s h =
      if_ind P (leb cfg.max_total_tool_calls s.total_tool_calls) (λ full. h)
        (λ room. run_calls-ind step calls _ (call step tc s (ground arith) h))

  tools_round-ind :
      (step : ℕ) (r : ChatResponse) (calls : List ToolCall) (s : State)
      → P s
      → P (outcome_state (tools_round env cfg step r calls s))
  unfolding tools_round
  tools_round-ind step r calls s h =
      let s1 = record_assistant env cfg step r calls s in
      let p1 = frame s s1 (record_assistant-IsSameCore env cfg s step r calls) h in
      let p1' = frame s1 (record s1 { need_break = false }) (ground arith) p1 in
      let few = take cfg.max_tool_calls_per_round calls in
      let s2 = run_calls env step cfg few (record s1 { need_break = false }) in
      let p2 = run_calls-ind step few (record s1 { need_break = false }) p1' in
      if_ind (λ o. P (outcome_state o)) s2.need_break (λ b. p2)
        (λ b. frame s2 (end_round env cfg step s2) (end_round-IsSameCore env cfg s2 step) p2)

  repeated_round-ind :
      (step : ℕ) (r : ChatResponse) (calls : List ToolCall) (s : State)
      → P s
      → P (outcome_state (repeated_round env cfg step r calls s))
  unfolding repeated_round
  repeated_round-ind step r calls s h =
      let s1 = record s { same_sig_count = s.same_sig_count + 1 } in
      let s2 = record s { same_sig_count = 0; last_tool_sig = env.sign calls } in
      let p1 = frame s s1 (ground arith) h in
      let Q : Outcome → Type 0 = λ o. P (outcome_state o) in
      if_ind Q (str_eq (env.sign calls) s.last_tool_sig)
        (λ same.
          if_ind Q (leb cfg.diminishing_returns_threshold (s.same_sig_count + 1))
            (λ often.
              frame s1 (loop_detected env cfg step r s1)
                (loop_detected-IsSameCore env cfg s1 step r) p1)
            (λ seldom. tools_round-ind step r calls s1 p1))
        (λ new. tools_round-ind step r calls s2 (frame s s2 (ground arith) h))

  response_round-ind :
      (step : ℕ) (r : ChatResponse) (s : State)
      → P s
      → P (outcome_state (response_round env cfg step r s))
  unfolding response_round
  response_round-ind step r s h =
      let s' = count_tokens env cfg r s in
      let p = frame s s' (count_tokens-IsSameCore env cfg s r) h in
      let Q : Outcome → Type 0 = λ o. P (outcome_state o) in
      if_ind Q (is_empty r.tool_calls)
        (λ none_given.
          elim (parse_response env.decoder r.content)
            as (λ parsed. Q (elim parsed [
              | none ↦ diverge s'
              | some calls ↦
                  if is_empty calls
                  then stop (answer_round env cfg step r s')
                  else repeated_round env cfg step r calls s'
            ])) [
              | none ↦ p
              | some calls ↦
                  if_ind Q (is_empty calls)
                    (λ e.
                      frame s' (answer_round env cfg step r s')
                        (answer_round-IsSameCore env cfg s' step r) p)
                    (λ e. repeated_round-ind step r calls s' p)
            ])
        (λ given. repeated_round-ind step r r.tool_calls s' p)

  reply_round-ind :
      (step : ℕ) (q : State × Reply) → P q.0 → P (outcome_state (reply_round env cfg step q))
  unfolding reply_round
  reply_round-ind step (s, failure e) h =
      frame s (llm_failed env cfg step e s) (llm_failed-IsSameCore env cfg s step e) h
  reply_round-ind step (s, reply r) h = response_round-ind step r s h

  pub round-ind : (step : ℕ) (s : State) → P s → P (outcome_state (round env cfg step s))
  unfolding round
  round-ind step s h =
      let s1 = publish (event thought "" step false) s in
      let s2 =
        publish (event error_event "cancel" step true) (record s { err_class = class_cancel }) in
      let q = generate_with_retries env cfg cfg.max_ai_retries s1 in
      if_ind (λ o. P (outcome_state o)) (env.cancelled step) (λ c. frame s s2 (ground arith) h)
        (λ c. reply_round-ind step q (
          frame s1 q.0 (generate_with_retries-IsSameCore env cfg s1 cfg.max_ai_retries)
            (frame s s1 (ground arith) h)))

  finish_run-ind : (s : State) → P s → P (ending_state (finish_run env cfg s))
  unfolding finish_run
  finish_run-ind s h = frame s (ending_state (finish_run env cfg s)) (ground arith) h

  pub react_loop-ind :
      (left step : ℕ) (s : State) → P s → P (ending_state (react_loop env cfg left step s))
  unfolding react_loop cancel_run
  react_loop-ind zero step s h = finish_run-ind s h
  react_loop-ind (suc left) step s h =
      (elim (round env cfg step s)
          as (λ o.
            P (outcome_state o)
            → P (
                ending_state (elim o [
                  | next s' ↦ react_loop env cfg left (suc step) s'
                  | stop s' ↦ finish_run env cfg s'
                  | cancel s' ↦ cancel_run env cfg step s'
                  | diverge s' ↦ diverged s'
                ]))) [
                  | next s' ↦ λ p. react_loop-ind left (suc step) s' p
                  | stop s' ↦ λ p. finish_run-ind s' p
                  | cancel s' ↦ λ p. p
                  | diverge s' ↦ λ p. p
                ])
        (round-ind step s h)
