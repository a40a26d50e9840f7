-- ===== src/Engine/Bounds.antt =====
-- engine/agent_engine.go: how often a run calls tools and the model.
use ai_desktop_assistant.Common.{
  ℕ, suc, ◌+◌, ◌≤◌, ◌<◌, ◌≡◌, ap, subst, sym, ◌∙◌, true, none, some, [], ◌⊎◌, inl, inr, arith,
  length, Bool-cases, Option-cases,
}
use ai_desktop_assistant.Security.{Decision, PermissionGuard, check, take_ready_resume}
use ai_desktop_assistant.Engine.Types.{ToolCall, State, Env}
use ai_desktop_assistant.Engine.Config.{LoopConfig}
use ai_desktop_assistant.Engine.Calls.{run_call, decided_call, gated_call}
use ai_desktop_assistant.Engine.Run.{react_loop, resume_run, run}
use ai_desktop_assistant.Engine.Effects.{run_call-effect, tool_rows}
use ai_desktop_assistant.Engine.Frame.{ending_state, react_loop-ind}
use ai_desktop_assistant.Engine.Gate.{gated_call-guarded, decided_call-HasDecided, Action-cases}
use ai_desktop_assistant.Engine.Resume.{
  resume_call-effect, resume_run_untaken, resume_run_taken, resume_run_off,
}

-- From `s` to `s'` at most one call was executed, with its row, and none was counted.
record HasRunOne (s s' : State) : Type 0 where
  total : s'.total_tool_calls ≡ s.total_tool_calls
  ran :
      ((length s'.executed ≡ length s.executed) × (tool_rows s'.saved ≡ tool_rows s.saved))
      ⊎ ((length s'.executed ≡ suc (length s.executed))
          × (tool_rows s'.saved ≡ suc (tool_rows s.saved)))

module _ (env : Env) where
  run_call-HasRunOne : (step : ℕ) (tc : ToolCall) (s : State) → HasRunOne s (run_call env step tc s)
  run_call-HasRunOne step tc s =
      let ran = run_call-effect env step tc s in
      record { total = ran.0.total_tool_calls; ran = inr (ap length ran.1, ran.2) }

  decided_call-HasRunOne :
      (step : ℕ) (tc : ToolCall) (d : Decision) (g : PermissionGuard) (s : State)
      → HasRunOne s (decided_call env step tc d g s)
  decided_call-HasRunOne step tc d g s =
      let decided = decided_call-HasDecided env step tc d g s in
      record {
        total = decided.total;
        ran = elim (Action-cases d.action) [
          | inl denied ↦ let (same, rows) = decided.denied denied in inl (ap length same, rows)
          | inr undenied ↦
              let (more, rows) = decided.undenied (ground arith) in inr (ap length more, rows)
        ];
      }

  pub gated_call_open :
      (step : ℕ) (tc : ToolCall) (s : State)
      → (s.guard ≡ none) ⊎ (env.auto_approve ≡ true)
      → gated_call env step tc s ≡ run_call env step tc s
  unfolding gated_call
  gated_call_open step tc s (inl unguarded) = ground arith
  gated_call_open step tc s (inr auto) = ground arith

  gated_call-HasRunOne :
      (step : ℕ) (tc : ToolCall) (s : State) → HasRunOne s (gated_call env step tc s)
  gated_call-HasRunOne step tc s =
      let open_gate : (s.guard ≡ none) ⊎ (env.auto_approve ≡ true)
          → HasRunOne s (gated_call env step tc s) =
        λ o.
          subst (λ s'. HasRunOne s s') (sym (gated_call_open step tc s o))
            (run_call-HasRunOne step tc s) in
      elim (Option-cases s.guard) [
        | inl unguarded ↦ open_gate (inl unguarded)
        | inr (g, here) ↦ elim (Bool-cases env.auto_approve) [
          | inl auto ↦ open_gate (inr auto)
          | inr manual ↦
              let (g', d) = check env.printer g env.session tc.name tc.args in
              let one = decided_call-HasRunOne step tc d g' s in
              subst (λ s'. HasRunOne s s') (sym (gated_call-guarded env step tc g s here manual))
                one
        ]
      ]

  -- Calls are counted before they run, and each that runs leaves one row.
  record IsCounted (limit : ℕ) (s : State) : Type 0 where
    within : s.total_tool_calls ≤ limit
    executed : length s.executed ≤ s.total_tool_calls
    rows : tool_rows s.saved ≡ length s.executed

  react_loop-IsCounted :
      (cfg : LoopConfig) (left step : ℕ) (s : State)
      → IsCounted cfg.max_total_tool_calls s
      → IsCounted cfg.max_total_tool_calls (ending_state (react_loop env cfg left step s))
  react_loop-IsCounted cfg =
      react_loop-ind env cfg (IsCounted cfg.max_total_tool_calls)
        (λ s s' core h.
          let same = ap length core.executed in
          record {
            within = subst (λ n. n ≤ cfg.max_total_tool_calls) (sym core.total_tool_calls) h.within;
            executed = rw (same, core.total_tool_calls) h.executed;
            rows = core.rows ∙ h.rows ∙ sym same;
          })
        (λ step tc s room h.
          let counted = record s { total_tool_calls = s.total_tool_calls + 1 } in
          let one = gated_call-HasRunOne step tc counted in
          let total = one.total in
          let within = h.within in
          let executed = h.executed in
          let rows = h.rows in
          elim one.ran [
            | inl (same, kept) ↦ record {
              within = ground arith;
              executed = ground arith;
              rows = ground arith;
            }
            | inr (more, row) ↦ record {
              within = ground arith;
              executed = ground arith;
              rows = ground arith;
            }
          ])

module _ (env : Env) (cfg : LoopConfig) (s : State) where
  pub resume_run_unguarded : s.guard ≡ none → resume_run env cfg s ≡ s
  unfolding resume_run
  resume_run_unguarded h = ground arith

  resume_run-IsCounted :
      0 < cfg.max_total_tool_calls
      → s.executed ≡ []
      → s.total_tool_calls ≡ 0
      → tool_rows s.saved ≡ 0
      → IsCounted env cfg.max_total_tool_calls (resume_run env cfg s)
  resume_run-IsCounted room none_yet none_counted no_rows =
      let P : State → Type 0 = IsCounted env cfg.max_total_tool_calls in
      let fresh = ap length none_yet in
      let start : (t : State)
          → t.executed ≡ []
          → t.total_tool_calls ≡ 0
          → tool_rows t.saved ≡ 0
          → P t =
        λ t e n r.
          let l = ap length e in
          record { within = ground arith; executed = ground arith; rows = ground arith } in
      elim (Option-cases s.guard) [
        | inl unguarded ↦
            subst P (sym (resume_run_unguarded unguarded)) (start s none_yet none_counted no_rows)
        | inr (g, here) ↦ elim (Bool-cases env.continuing) [
          | inr off ↦
              subst P (sym (resume_run_off env cfg s g here off))
                (start s none_yet none_counted no_rows)
          | inl on ↦ elim (Option-cases (take_ready_resume env.session g).1) [
            | inl missing ↦ subst P (sym (resume_run_untaken env cfg s g here on missing)) (
                start (record s { guard = some (take_ready_resume env.session g).0 }) none_yet
                  none_counted no_rows)
            | inr (a, taken) ↦
                let s' = record s { guard = some (take_ready_resume env.session g).0 } in
                let (same, ran, counted, generated, row) = resume_call-effect env cfg a s' in
                let one = ap length ran in
                subst P (sym (resume_run_taken env cfg s g here a on taken))
                  (record { within = ground arith; executed = ground arith; rows = ground arith })
          ]
        ]
      ]

  -- A new run, resumed or not, counts at most as many tool calls as the configuration allows, where that is
  -- at least one; it executes no more than it counts, and saves exactly one tool message for each executed.
  pub run-IsCounted :
      0 < cfg.max_total_tool_calls
      → s.executed ≡ []
      → s.total_tool_calls ≡ 0
      → tool_rows s.saved ≡ 0
      → let s' = ending_state (run env cfg s) in
        (s'.total_tool_calls ≤ cfg.max_total_tool_calls)
        × (length s'.executed ≤ s'.total_tool_calls)
        × (tool_rows s'.saved ≡ length s'.executed)
  unfolding run
  run-IsCounted room none_yet none_counted no_rows =
      let counted =
        react_loop-IsCounted env cfg cfg.max_rounds 1 (resume_run env cfg s)
          (resume_run-IsCounted room none_yet none_counted no_rows) in
      (counted.within, counted.executed, counted.rows)
