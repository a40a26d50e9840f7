-- ===== src/Engine/Gate.antt =====
-- engine/agent_engine.go: what the permission gate lets a run execute.
use ai_desktop_assistant.Common.{
  ℕ, suc, ◌+◌, ◌≡◌, ◌≢◌, refl, ap, subst, sym, ◌∙◌, String, true, false, none, some, [], ◌∷◌, arith,
  inl, inr, ◌⊎◌, All,
}
use ai_desktop_assistant.Common.Map.{lookup_or}
use ai_desktop_assistant.Values.{Args, Printer}
use ai_desktop_assistant.Security.{
  allow, deny, confirm, Action, Decision, PermissionGuard, check, create_pending, is_allowed,
  tool_sig, extract_command,
}
use ai_desktop_assistant.Security.Check.{NoMatch, IsCleared, check-IsCleared, check-IsChecked}
use ai_desktop_assistant.Engine.Types.{ToolCall, State, Env}
use ai_desktop_assistant.Engine.Config.{LoopConfig}
use ai_desktop_assistant.Engine.Calls.{deny_call, confirm_call, decided_call, gated_call}
use ai_desktop_assistant.Engine.Run.{react_loop}
use ai_desktop_assistant.Engine.Effects.{run_call-effect, tool_rows}
use ai_desktop_assistant.Engine.Frame.{IsSameCore, ending_state, react_loop-ind}

-- The guard's rules and the sessions' approvals are those of `g`.
pub record IsSameRules (g g' : PermissionGuard) : Type 0 where
  pub deny_rules : g'.deny_rules ≡ g.deny_rules
  pub session_allow : g'.session_allow ≡ g.session_allow

pub Action-cases : (a : Action) → (a ≡ deny) ⊎ ((a ≡ confirm) ⊎ (a ≡ allow))
Action-cases deny = inl refl
Action-cases confirm = inr (inl refl)
Action-cases allow = inr (inr refl)

create_pending-IsSameRules :
    (printer : Printer) (now : ℕ) (session tool : String) (args : Args) (d : Decision)
    (g : PermissionGuard)
    → IsSameRules g (create_pending printer now session tool args d g).0
unfolding create_pending
create_pending-IsSameRules printer now session tool args d g = record {
  deny_rules = refl;
  session_allow = refl;
}

module _ (env : Env) where
  -- `IsCleared` of a tool call of the run's session.
  abbrev pub Cleared : PermissionGuard → ToolCall → Type 0
  Cleared g tc = IsCleared env.printer g env.session tc.name tc.args

  confirm_call-effect :
      (step : ℕ) (tc : ToolCall) (d : Decision) (g : PermissionGuard) (s : State)
      → let s' = confirm_call env step tc d g s in
        ((g' : PermissionGuard) × (s'.guard ≡ some g') × IsSameRules g g')
        × (s'.executed ≡ s.executed)
        × (s'.total_tool_calls ≡ s.total_tool_calls)
        × (tool_rows s'.saved ≡ tool_rows s.saved)
        × (s'.need_break ≡ true)
        × (s'.pending_perm ≢ none)
  unfolding confirm_call
  confirm_call-effect step tc d g s =
      let made =
        create_pending env.printer (env.now s.total_tool_calls) env.session tc.name tc.args d g in
      let same =
        create_pending-IsSameRules env.printer (env.now s.total_tool_calls) env.session tc.name
          tc.args d g in
      ((made.0, refl, same), refl, refl, refl, refl, λ e. cc)

  deny_call-IsSameCore :
      (step : ℕ) (tc : ToolCall) (d : Decision) (s : State)
      → IsSameCore s (deny_call env step tc d s)
  unfolding deny_call
  deny_call-IsSameCore step tc d s = ground arith

  -- The call behind the gate, by the decision about it.
  pub record HasDecided (tc : ToolCall) (d : Decision) (g : PermissionGuard) (s s' : State)
      : Type 0 where
    pub rules : (g' : PermissionGuard) × (s'.guard ≡ some g') × IsSameRules g g'
    pub total : s'.total_tool_calls ≡ s.total_tool_calls
    pub denied :
        d.action ≡ deny → (s'.executed ≡ s.executed) × (tool_rows s'.saved ≡ tool_rows s.saved)
    pub undenied :
        d.action ≢ deny
        → (s'.executed ≡ tc ∷ s.executed) × (tool_rows s'.saved ≡ suc (tool_rows s.saved))
    pub confirmed : d.action ≡ confirm → (s'.need_break ≡ true) × (s'.pending_perm ≢ none)

  pub decided_call-HasDecided :
      (step : ℕ) (tc : ToolCall) (d : Decision) (g : PermissionGuard) (s : State)
      → HasDecided tc d g s (decided_call env step tc d g s)
  unfolding decided_call
  decided_call-HasDecided step tc d g s =
      let s0 = record s { guard = some g } in
      let waits = confirm_call env step tc d g s in
      let c = confirm_call-effect step tc d g s in
      let ran = run_call-effect env step tc s0 in
      let ran_waiting = run_call-effect env step tc waits in
      let refused = deny_call-IsSameCore step tc d s0 in
      let same : IsSameRules g g = record { deny_rules = refl; session_allow = refl } in
      record {
        rules = elim (Action-cases d.action) [
          | inl denied ↦ (g, ground arith, same)
          | inr (inl asks) ↦ let (g', here, kept) = c.0 in (g', ground arith, kept)
          | inr (inr allowed) ↦ (g, ground arith, same)
        ];
        total = ground arith;
        denied = λ h. ground arith;
        undenied = λ h. ground arith;
        confirmed = λ h. ground arith;
      }

  pub gated_call-guarded :
      (step : ℕ) (tc : ToolCall) (g : PermissionGuard) (s : State)
      → s.guard ≡ some g
      → env.auto_approve ≡ false
      → let (g', d) = check env.printer g env.session tc.name tc.args in
        gated_call env step tc s ≡ decided_call env step tc d g' s
  unfolding gated_call
  gated_call-guarded step tc g s h manual = ground arith

  gated_call-HasDecided :
      (step : ℕ) (tc : ToolCall) (g : PermissionGuard) (s : State)
      → s.guard ≡ some g
      → env.auto_approve ≡ false
      → let (g', d) = check env.printer g env.session tc.name tc.args in
        HasDecided tc d g' s (gated_call env step tc s)
  gated_call-HasDecided step tc g s h manual =
      let (g', d) = check env.printer g env.session tc.name tc.args in
      subst (λ s'. HasDecided tc d g' s s') (sym (gated_call-guarded step tc g s h manual))
        (decided_call-HasDecided step tc d g' s)

module _ (env : Env) (manual : env.auto_approve ≡ false) (g0 : PermissionGuard) where
  Cleared-IsSameRules :
      (g : PermissionGuard) (tc : ToolCall)
      → IsSameRules g0 g
      → Cleared env g tc
      → Cleared env g0 tc
  unfolding is_allowed
  Cleared-IsSameRules g tc same h =
      let key = tool_sig env.printer tc.name tc.args in
      let allowed : (k : String) → is_allowed g env.session k ≡ is_allowed g0 env.session k =
        λ k. ap (λ m. lookup_or false k (lookup_or [] env.session m)) same.session_allow in
      elim h [
        | inl (inl approved) ↦ inl (inl (sym (allowed key) ∙ approved))
        | inl (inr all) ↦ inl (inr (sym (allowed "*") ∙ all))
        | inr (inl reads) ↦ inr (inl reads)
        | inr (inr (inl blank)) ↦ inr (inr (inl blank))
        | inr (inr (inr unmatched)) ↦ inr (
            inr (
              inr (
                subst (λ rules. NoMatch (extract_command env.printer tc.name tc.args) rules)
                  same.deny_rules unmatched)))
      ]

  module _ (Ok : ToolCall → Type 0) (cleared : (tc : ToolCall) → Cleared env g0 tc → Ok tc) where
    -- The guard keeps its rules and approvals, and all that was executed is in order.
    pub record IsSafe (s : State) : Type 0 where
      pub kept : (g : PermissionGuard) × (s.guard ≡ some g) × IsSameRules g0 g
      pub in_order : All Ok s.executed

    IsSafe-frame : (s s' : State) → IsSameCore s s' → IsSafe s → IsSafe s'
    IsSafe-frame s s' core h =
        let (g, here, same) = h.kept in
        record {
          kept = (g, core.guard ∙ here, same);
          in_order = subst (λ l. All Ok l) (sym core.executed) h.in_order;
        }

    IsSafe-call :
        (step : ℕ) (tc : ToolCall) (s : State)
        → IsSafe s
        → IsSafe (gated_call env step tc (record s { total_tool_calls = s.total_tool_calls + 1 }))
    IsSafe-call step tc s h =
        let (g, here, same) = h.kept in
        let counted = record s { total_tool_calls = s.total_tool_calls + 1 } in
        let (g', d) = check env.printer g env.session tc.name tc.args in
        let decided = gated_call-HasDecided env step tc g counted here manual in
        let checked = check-IsChecked env.printer g env.session tc.name tc.args in
        let (g'', now, rules) = decided.rules in
        record {
          kept = (
            g'',
            now,
            record {
              deny_rules = rules.deny_rules ∙ checked.same_deny_rules ∙ same.deny_rules;
              session_allow = rules.session_allow ∙ checked.same_allow ∙ same.session_allow;
            },
          );
          in_order = elim (Action-cases d.action) [
            | inl denied ↦ subst (λ l. All Ok l) (sym (decided.denied denied).0) h.in_order
            | inr undenied ↦
                let through : d.action ≢ deny = ground arith in
                let fine = cleared tc (
                  Cleared-IsSameRules g tc same
                    (check-IsCleared env.printer g env.session tc.name tc.args through)) in
                subst (λ l. All Ok l) (sym (decided.undenied through).0) (fine, h.in_order)
          ];
        }

    pub react_loop-IsSafe :
        (cfg : LoopConfig) (left step : ℕ) (s : State)
        → IsSafe s
        → IsSafe (ending_state (react_loop env cfg left step s))
    react_loop-IsSafe cfg =
        react_loop-ind env cfg IsSafe IsSafe-frame (λ step tc s room. IsSafe-call step tc s)
