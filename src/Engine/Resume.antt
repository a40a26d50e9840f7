-- ===== src/Engine/Resume.antt =====
-- engine/agent_engine.go: what a whole run executes, the resumption of an approved call included.
use ai_desktop_assistant.Common.{
  suc, ◌+◌, ◌≡◌, refl, ap, subst, sym, ◌∙◌, String, true, false, none, some, [], ◌∷◌, arith,
  if◌then◌else◌, Bool-cases, Option-cases, inl, inr, ◌⊎◌, All,
}
use ai_desktop_assistant.Security.{PermissionGuard, AwaitingResume, take_ready_resume}
use ai_desktop_assistant.Engine.Types
use ai_desktop_assistant.Engine.Types.{ToolCall, SavedMessage, State, Env, event, publish, resume}
use ai_desktop_assistant.Engine.Config.{LoopConfig}
use ai_desktop_assistant.Engine.Calls.{execute_tool, budget_tool_result}
use ai_desktop_assistant.Engine.Run.{resume_call, resume_run, run}
use ai_desktop_assistant.Engine.Effects.{advance-same, tool_rows}
use ai_desktop_assistant.Engine.Frame.{ending_state}
use ai_desktop_assistant.Engine.Gate.{Cleared, IsSameRules, IsSafe, react_loop-IsSafe}

-- The tool call that an awaiting entry stands for.
abbrev pub resumed : AwaitingResume → ToolCall
resumed a = record { id = ""; name = a.tool; args = a.args }

module _ (env : Env) (cfg : LoopConfig) where
  pub resume_call-effect :
      (a : AwaitingResume) (s : State)
      → let s' = resume_call env cfg a s in
        (s'.guard ≡ s.guard)
        × (s'.executed ≡ resumed a ∷ s.executed)
        × (s'.total_tool_calls ≡ s.total_tool_calls + 1)
        × (s'.generated ≡ s.generated)
        × (tool_rows s'.saved ≡ suc (tool_rows s.saved))
  unfolding resume_call
  resume_call-effect a s =
      let asst_row : SavedMessage = record {
        role = "assistant";
        content = env.format (resumed a ∷ []);
        tool_name = "";
        tool_call_id = "";
        step = 0;
        token_count = 0;
      } in
      let s1 =
        publish (event Types.tool_call a.tool 0 false)
          (record (publish (event resume a.tool 0 false) s) { saved = asst_row ∷ s.saved }) in
      let text = budget_tool_result (execute_tool env s1 (resumed a)) in
      let s2 = record s1 {
        executed = resumed a ∷ s1.executed;
        total_tool_calls = s1.total_tool_calls + 1;
        pushed = if env.has_context then (a.tool, text) ∷ s1.pushed else s1.pushed;
      } in
      ground (arith, advance-same env 0 a.tool text s2)

take_ready_resume-IsSameRules :
    (session : String) (g : PermissionGuard) → IsSameRules g (take_ready_resume session g).0
unfolding take_ready_resume
take_ready_resume-IsSameRules session g = ground arith

-- A call that is in order: one that no check of the guard denies, or the approved one that it hands out.
abbrev pub InOrder : Env → PermissionGuard → ToolCall → Type 0
InOrder env g tc =
    Cleared env g tc
    ⊎ ((a : AwaitingResume) × ((take_ready_resume env.session g).1 ≡ some a) × (tc ≡ resumed a))

module _ (env : Env) (cfg : LoopConfig) (s : State) (g : PermissionGuard)
    (guarded : s.guard ≡ some g) where
  pub resume_run_taken :
      (a : AwaitingResume)
      → env.continuing ≡ true
      → (take_ready_resume env.session g).1 ≡ some a
      → resume_run env cfg s
        ≡ resume_call env cfg a (record s { guard = some (take_ready_resume env.session g).0 })
  unfolding resume_run
  resume_run_taken a on taken = ground arith

  pub resume_run_untaken :
      env.continuing ≡ true
      → (take_ready_resume env.session g).1 ≡ none
      → resume_run env cfg s ≡ record s { guard = some (take_ready_resume env.session g).0 }
  unfolding resume_run
  resume_run_untaken on taken = ground arith

  pub resume_run_off : env.continuing ≡ false → resume_run env cfg s ≡ s
  unfolding resume_run
  resume_run_off off = ground arith

  resume_run-IsSafe :
      (manual : env.auto_approve ≡ false)
      → s.executed ≡ []
      → IsSafe env manual g (InOrder env g) (λ tc c. inl c) (resume_run env cfg s)
  resume_run-IsSafe manual fresh =
      let P : State → Type 0 = IsSafe env manual g (InOrder env g) (λ tc c. inl c) in
      let same = take_ready_resume-IsSameRules env.session g in
      let g' = (take_ready_resume env.session g).0 in
      elim (Bool-cases env.continuing) [
        | inl on ↦ elim (Option-cases (take_ready_resume env.session g).1) [
          | inl missing ↦ subst P (sym (resume_run_untaken on missing)) (record {
            kept = (g', refl, same);
            in_order = subst (λ l. All (InOrder env g) l) (sym fresh) tt;
          })
          | inr (a, taken) ↦
              let s' = record s { guard = some g' } in
              let effect = resume_call-effect env cfg a s' in
              let done : All (InOrder env g) (resumed a ∷ []) = (inr (a, taken, refl), tt) in
              subst P (sym (resume_run_taken a on taken)) (record {
                kept = (g', effect.0, same);
                in_order =
                    subst (λ l. All (InOrder env g) l)
                      (sym (effect.1 ∙ ap (λ l. resumed a ∷ l) fresh)) done;
              })
        ]
        | inr off ↦ subst P (sym (resume_run_off off)) (record {
          kept = (g, guarded, record { deny_rules = refl; session_allow = refl });
          in_order = subst (λ l. All (InOrder env g) l) (sym fresh) tt;
        })
      ]

  -- In a run that does not approve by itself, every call that is executed, from the first round to the last,
  -- is one that the session had approved before the run, or whose tool only reads, or that has no command or
  -- one that no deny rule matches, or it is the approved call that the run resumed.
  pub run-InOrder :
      env.auto_approve ≡ false
      → s.executed ≡ []
      → All (InOrder env g) (ending_state (run env cfg s)).executed
  unfolding run
  run-InOrder manual fresh =
      (react_loop-IsSafe env manual g (InOrder env g) (λ tc c. inl c) cfg cfg.max_rounds 1
        (resume_run env cfg s) (resume_run-IsSafe manual fresh)).in_order
