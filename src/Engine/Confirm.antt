-- ===== src/Engine/Confirm.antt =====
-- engine/agent_engine.go: what becomes of a call that waits for its confirmation.
use ai_desktop_assistant.Common.{
  ℕ, ◌≡◌, refl, ap, sym, subst, ◌∙◌, String, true, false, some, ◌∷◌, arith,
}
use ai_desktop_assistant.Security.{
  confirm, Decision, PermissionGuard, PendingConfirm, check, create_pending, approve,
  take_ready_resume, resume_of,
}
use ai_desktop_assistant.Security.Approval.{approve-create_pending}
use ai_desktop_assistant.Engine.Types.{ToolCall, State, Env, PendingPermissionInfo}
use ai_desktop_assistant.Engine.Config.{LoopConfig}
use ai_desktop_assistant.Engine.Calls.{run_call, confirm_call, decided_call, gated_call}
use ai_desktop_assistant.Engine.Run.{resume_run}
use ai_desktop_assistant.Engine.Effects.{run_call-effect}
use ai_desktop_assistant.Engine.Gate.{gated_call-guarded}
use ai_desktop_assistant.Engine.Resume.{resumed, resume_call-effect, resume_run_taken}

-- What the interface is told of a permission.
abbrev pub info_of : PendingConfirm → PendingPermissionInfo
info_of p = record {
  id = p.id;
  tool = p.tool;
  args = p.args;
  reason = p.reason;
  rule_id = p.rule_id;
}

module _ (env : Env) (step : ℕ) (tc : ToolCall) (s : State) (g : PermissionGuard) where
  abbrev checked : PermissionGuard × Decision
  checked = check env.printer g env.session tc.name tc.args

  -- The guard and the permission once the confirmation is asked for.
  abbrev pub asked : PermissionGuard × PendingConfirm
  asked =
      create_pending env.printer (env.now s.total_tool_calls) env.session tc.name tc.args checked.1
        checked.0

  confirm_call_asked :
      let t = confirm_call env step tc checked.1 checked.0 s in
      (t.guard ≡ some asked.0)
      × (t.pending_perm ≡ some (info_of asked.1))
      × (t.need_break ≡ true)
      × (t.executed ≡ s.executed)
  unfolding confirm_call
  confirm_call_asked = (refl, refl, refl, refl)

  decided_call_confirm :
      (d : Decision) (h : PermissionGuard)
      → d.action ≡ confirm
      → decided_call env step tc d h s ≡ run_call env step tc (confirm_call env step tc d h s)
  unfolding decided_call
  decided_call_confirm d h asks = ground arith

  module _ (guarded : s.guard ≡ some g) (manual : env.auto_approve ≡ false)
      (asks : checked.1.action ≡ confirm) where
    -- In a guarded run that does not approve by itself, a call that needs a confirmation is executed at once,
    -- although its confirmation is asked for and the run is marked to break off.
    pub gated_call-confirm :
        let s' = gated_call env step tc s in
        (s'.executed ≡ tc ∷ s.executed)
        × (s'.pending_perm ≡ some (info_of asked.1))
        × (s'.need_break ≡ true)
        × (s'.guard ≡ some asked.0)
    gated_call-confirm =
        let t = confirm_call env step tc checked.1 checked.0 s in
        let (here, pending, stops, same) = confirm_call_asked in
        let ran = run_call-effect env step tc t in
        let all =
          gated_call-guarded env step tc g s guarded manual
          ∙ decided_call_confirm checked.1 checked.0 asks in
        subst
          (λ s'.
            (s'.executed ≡ tc ∷ s.executed)
            × (s'.pending_perm ≡ some (info_of asked.1))
            × (s'.need_break ≡ true)
            × (s'.guard ≡ some asked.0))
          (sym all)
          (
            ran.1 ∙ ap (λ l. tc ∷ l) same,
            ran.0.pending_perm ∙ pending,
            ran.0.need_break ∙ stops,
            ran.0.guard ∙ here,
          )

    -- Once the confirmation of such a call is approved, in either scope, a run that continues the session
    -- executes the call a second time.
    pub gated_call-resume_run :
        (cfg : LoopConfig) (scope : String) (next : Env)
        → next.session ≡ env.session
        → next.continuing ≡ true
        → let s' = gated_call env step tc s in
          let approved = (approve env.printer asked.1.id scope asked.0).0 in
          (resume_run next cfg (record s' { guard = some approved })).executed
          ≡ record { id = ""; name = tc.name; args = tc.args } ∷ tc ∷ s.executed
    unfolding create_pending
    gated_call-resume_run cfg scope next same on =
        let s' = gated_call env step tc s in
        let approved = (approve env.printer asked.1.id scope asked.0).0 in
        let t = record s' { guard = some approved } in
        let back =
          approve-create_pending env.printer (env.now s.total_tool_calls) env.session tc.name
            tc.args checked.1 checked.0 scope in
        let a = resume_of env.printer asked.1 asked.1.id in
        let taken : (take_ready_resume next.session approved).1 ≡ some a =
          ap (λ k. (take_ready_resume k approved).1) same ∙ back.1 in
        let t' = record t { guard = some (take_ready_resume next.session approved).0 } in
        ap (λ (u : State). u.executed) (resume_run_taken next cfg t approved refl a on taken)
        ∙ (resume_call-effect next cfg a t').1
        ∙ ap (λ l. resumed a ∷ l) gated_call-confirm.0
