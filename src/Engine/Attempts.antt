-- ===== src/Engine/Attempts.antt =====
-- engine/agent_engine.go: how often a run calls the model.
use ai_desktop_assistant.Common.{
  ℕ, zero, suc, ◌+◌, ◌*◌, ◌≤◌, ◌≡◌, refl, ap, ◌∙◌, false, some, List, [], ◌∷◌, inl, inr, arith, leb,
  take, if_ind, Bool-cases, Option-cases,
}
use ai_desktop_assistant.Security.{Decision, PermissionGuard, check, take_ready_resume}
use ai_desktop_assistant.Engine.Types.{
  ToolCall, ChatResponse, Reply, failure, reply, State, Env, event, publish, thought,
}
use ai_desktop_assistant.Engine.Config.{LoopConfig}
use ai_desktop_assistant.Engine.Parse.{parse_response}
use ai_desktop_assistant.Engine.Calls.{
  run_call, deny_call, confirm_call, decided_call, gated_call, run_calls,
}
use ai_desktop_assistant.Engine.Round.{
  next, stop, cancel, diverge, generate_with_retries, tools_round, repeated_round, response_round,
  reply_round, round, record_assistant, count_tokens, end_round, answer_round, loop_detected,
  llm_failed,
}
use ai_desktop_assistant.Engine.Run.{Ending, react_loop, resume_run, run, finish_run, cancel_run}
use ai_desktop_assistant.Engine.Effects.{run_call-effect}
use ai_desktop_assistant.Engine.Frame.{outcome_state, ending_state}
use ai_desktop_assistant.Engine.Resume.{
  resume_call-effect, resume_run_untaken, resume_run_taken, resume_run_off,
}
use ai_desktop_assistant.Engine.Bounds.{gated_call_open, resume_run_unguarded}
use ai_desktop_assistant.Engine.Gate.{gated_call-guarded}

more_rounds : (a b c m n : ℕ) → b ≤ a + n → c ≤ b + m * n → c ≤ a + suc m * n
more_rounds a b c m n h k = omega arith

last_round : (a b c m n : ℕ) → b ≤ a + n → c ≡ b → c ≤ a + suc m * n
last_round a b c m n h k = omega arith

module _ (env : Env) (cfg : LoopConfig) where
  run_call-generated :
      (step : ℕ) (tc : ToolCall) (s : State) → (run_call env step tc s).generated ≡ s.generated
  run_call-generated step tc s = (run_call-effect env step tc s).0.generated

  decided_call-generated :
      (step : ℕ) (tc : ToolCall) (d : Decision) (g : PermissionGuard) (s : State)
      → (decided_call env step tc d g s).generated ≡ s.generated
  unfolding decided_call deny_call confirm_call
  decided_call-generated step tc d g s =
      let kept = run_call-generated step tc (record s { guard = some g }) in
      let kept_waiting = run_call-generated step tc (confirm_call env step tc d g s) in ground arith

  gated_call-generated :
      (step : ℕ) (tc : ToolCall) (s : State) → (gated_call env step tc s).generated ≡ s.generated
  gated_call-generated step tc s =
      let kept = run_call-generated step tc s in
      elim (Option-cases s.guard) [
        | inl unguarded ↦
            ap (λ (t : State). t.generated) (gated_call_open env step tc s (inl unguarded)) ∙ kept
        | inr (g, here) ↦ elim (Bool-cases env.auto_approve) [
          | inl auto ↦
              ap (λ (t : State). t.generated) (gated_call_open env step tc s (inr auto)) ∙ kept
          | inr manual ↦
              let (g', d) = check env.printer g env.session tc.name tc.args in
              ap (λ (t : State). t.generated) (gated_call-guarded env step tc g s here manual)
              ∙ decided_call-generated step tc d g' s
        ]
      ]

  run_calls-generated :
      (step : ℕ) (calls : List ToolCall) (s : State)
      → (run_calls env step cfg calls s).generated ≡ s.generated
  unfolding run_calls
  run_calls-generated step [] s = refl
  run_calls-generated step (tc ∷ calls) s =
      let counted = record s { total_tool_calls = s.total_tool_calls + 1 } in
      if_ind (λ (t : State). t.generated ≡ s.generated)
        (leb cfg.max_total_tool_calls s.total_tool_calls) (λ full. refl)
        (λ room.
          run_calls-generated step calls (gated_call env step tc counted)
          ∙ gated_call-generated step tc counted)

  tools_round-generated :
      (step : ℕ) (r : ChatResponse) (calls : List ToolCall) (s : State)
      → (outcome_state (tools_round env cfg step r calls s)).generated ≡ s.generated
  unfolding tools_round record_assistant end_round
  tools_round-generated step r calls s =
      let s1 = record_assistant env cfg step r calls s in
      let same =
        run_calls-generated step (take cfg.max_tool_calls_per_round calls)
          (record s1 { need_break = false }) in
      ground arith

  repeated_round-generated :
      (step : ℕ) (r : ChatResponse) (calls : List ToolCall) (s : State)
      → (outcome_state (repeated_round env cfg step r calls s)).generated ≡ s.generated
  unfolding repeated_round loop_detected
  repeated_round-generated step r calls s =
      let s1 = record s { same_sig_count = s.same_sig_count + 1 } in
      let s2 = record s { same_sig_count = 0; last_tool_sig = env.sign calls } in
      ground (arith, tools_round-generated step r calls s1, tools_round-generated step r calls s2)

  response_round-generated :
      (step : ℕ) (r : ChatResponse) (s : State)
      → (outcome_state (response_round env cfg step r s)).generated ≡ s.generated
  unfolding response_round count_tokens answer_round
  response_round-generated step r s =
      let s' = count_tokens env cfg r s in
      let given = repeated_round-generated step r r.tool_calls s' in
      elim (Option-cases (parse_response env.decoder r.content)) [
        | inl unread ↦ ground arith
        | inr (calls, read) ↦ ground (arith, repeated_round-generated step r calls s')
      ]

  generate_with_retries-generated :
      (retries : ℕ) (s : State)
      → (generate_with_retries env cfg retries s).0.generated ≤ s.generated + (retries + 1)
  unfolding generate_with_retries
  generate_with_retries-generated zero s = omega arith
  generate_with_retries-generated (suc retries) s =
      ground
        (arith, generate_with_retries-generated retries (record s { generated = s.generated + 1 }))

  reply_round-generated :
      (step : ℕ) (q : State × Reply)
      → (outcome_state (reply_round env cfg step q)).generated ≡ q.0.generated
  unfolding reply_round llm_failed
  reply_round-generated step (s, failure e) = refl
  reply_round-generated step (s, reply r) = response_round-generated step r s

  round-generated :
      (step : ℕ) (s : State)
      → (outcome_state (round env cfg step s)).generated ≤ s.generated + (cfg.max_ai_retries + 1)
  unfolding round
  round-generated step s =
      let s1 = publish (event thought "" step false) s in
      let q = generate_with_retries env cfg cfg.max_ai_retries s1 in
      let tries = generate_with_retries-generated cfg.max_ai_retries s1 in
      let same = reply_round-generated step q in
      if_ind (λ o. (outcome_state o).generated ≤ s.generated + (cfg.max_ai_retries + 1))
        (env.cancelled step) (λ off. omega arith) (λ on. omega (arith, tries, same))

  finish_run-generated : (s : State) → (ending_state (finish_run env cfg s)).generated ≡ s.generated
  unfolding finish_run
  finish_run-generated s = ground arith

  react_loop-generated :
      (left step : ℕ) (s : State)
      → (ending_state (react_loop env cfg left step s)).generated
        ≤ s.generated + left * (cfg.max_ai_retries + 1)
  unfolding react_loop cancel_run
  react_loop-generated zero step s = omega (arith, finish_run-generated s)
  react_loop-generated (suc left) step s =
      (elim (round env cfg step s)
          as (λ o.
            (outcome_state o).generated ≤ s.generated + (cfg.max_ai_retries + 1)
            → (ending_state (elim o [
              | next s' ↦ react_loop env cfg left (suc step) s'
              | stop s' ↦ finish_run env cfg s'
              | cancel s' ↦ cancel_run env cfg step s'
              | diverge s' ↦ Ending.diverged s'
            ])).generated
              ≤ s.generated + suc left * (cfg.max_ai_retries + 1)) [
                | next s' ↦ λ p.
                    more_rounds s.generated s'.generated _ left (cfg.max_ai_retries + 1) p
                      (react_loop-generated left (suc step) s')
                | stop s' ↦ λ p.
                    last_round s.generated s'.generated _ left (cfg.max_ai_retries + 1) p
                      (finish_run-generated s')
                | cancel s' ↦
                    λ p. last_round s.generated s'.generated _ left (cfg.max_ai_retries + 1) p refl
                | diverge s' ↦
                    λ p. last_round s.generated s'.generated _ left (cfg.max_ai_retries + 1) p refl
              ])
        (round-generated step s)

resume_run-generated :
    (env : Env) (cfg : LoopConfig) (s : State) → (resume_run env cfg s).generated ≡ s.generated
resume_run-generated env cfg s = elim (Option-cases s.guard) [
  | inl unguarded ↦ ap (λ (t : State). t.generated) (resume_run_unguarded env cfg s unguarded)
  | inr (g, here) ↦ elim (Bool-cases env.continuing) [
    | inr off ↦ ap (λ (t : State). t.generated) (resume_run_off env cfg s g here off)
    | inl on ↦
        let (g', taken) = take_ready_resume env.session g in
        elim (Option-cases taken) [
          | inl missing ↦
              ap (λ (t : State). t.generated) (resume_run_untaken env cfg s g here on missing)
          | inr (a, some_call) ↦
              ap (λ (t : State). t.generated) (resume_run_taken env cfg s g here a on some_call)
              ∙ (resume_call-effect env cfg a (record s { guard = some g' })).3
        ]
  ]
]

-- Whatever the model and the tools answer, a run asks the model at most as often as the configuration has
-- rounds, times the attempts of a round: one and the retries.
pub run-generated :
    (env : Env) (cfg : LoopConfig) (s : State)
    → (ending_state (run env cfg s)).generated
      ≤ s.generated + cfg.max_rounds * (cfg.max_ai_retries + 1)
unfolding run
run-generated env cfg s = omega (
  arith,
  react_loop-generated env cfg cfg.max_rounds 1 (resume_run env cfg s),
  resume_run-generated env cfg s,
)
