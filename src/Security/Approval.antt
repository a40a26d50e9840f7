-- ===== src/Security/Approval.antt =====
-- permission_guard.go: the life of a permission that needs confirmation.
use ai_desktop_assistant.Common.{
  ℕ, ◌+◌, ◌<◌, ◌≡◌, ◌≢◌, refl, ap, ◌∙◌, ◌⊎◌, inl, inr, String, true, false, none, some, arith,
  if◌then◌else◌, str_eq, str_eq_iff, str_eq_refl, Bool-cases, Option-cases,
}
use ai_desktop_assistant.Common.Map.{lookup, lookup-insert_self}
use ai_desktop_assistant.Values.{Args, Printer}
use ai_desktop_assistant.Security.{
  allow, Decision, PendingConfirm, AwaitingResume, PermissionGuard, is_allowed, streak_of, tool_sig,
  check, check_command, check_policy, create_pending, allow_key, approved_resume, approve, reject,
  take_ready_resume, get_pending, resume_of, grant, revoke, clear_awaiting,
}
use ai_desktop_assistant.Security.Steps

module _ (printer : Printer) (now : ℕ) (session tool : String) (args : Args) (d : Decision)
    (g : PermissionGuard) where
  abbrev created : PermissionGuard
  created = (create_pending printer now session tool args d g).0

  abbrev permission : PendingConfirm
  permission = (create_pending printer now session tool args d g).1

  waiting : AwaitingResume
  waiting = record (resume_of printer permission permission.id) { ready = false }

  lookup-created_pending : lookup permission.id created.pending ≡ some permission
  unfolding create_pending
  lookup-created_pending = lookup-insert_self _ permission g.pending

  lookup-created_awaiting : lookup session created.awaiting ≡ some waiting
  unfolding create_pending waiting
  lookup-created_awaiting = lookup-insert_self session waiting g.awaiting

  lookup-granted :
      (scope : String)
      → lookup session (grant printer permission.id scope permission created).awaiting
        ≡ some (resume_of printer permission permission.id)
  unfolding waiting approved_resume create_pending
  lookup-granted scope = ground (
    arith,
    Steps.lookup-grant_awaiting printer permission.id scope permission created session,
    lookup-created_awaiting,
    str_eq_refl session,
    str_eq_refl permission.id,
  )

  take-granted :
      (scope : String)
      → let g' = grant printer permission.id scope permission created in
        take_ready_resume session g'
        ≡ (clear_awaiting session g', some (resume_of printer permission permission.id))
  take-granted scope =
      let g' = grant printer permission.id scope permission created in
      Steps.take_ready session g' (resume_of printer permission permission.id)
        (lookup-granted scope) refl

  take-cleared :
      (g' : PermissionGuard) → (take_ready_resume session (clear_awaiting session g')).1 ≡ none
  take-cleared g' =
      ap (λ r. r.1)
        (Steps.take_none session (clear_awaiting session g') (
          Steps.lookup-clear_awaiting session g' session
          ∙ ap (λ b. if b then none else lookup session g'.awaiting) (str_eq_refl session)))

  -- Created and approved, in either scope, a call is taken up once: what comes back is the tool and the
  -- arguments that were put up for confirmation, and a second take finds nothing.
  pub approve-create_pending :
      (scope : String)
      → let (g', approved) = approve printer permission.id scope created in
        let (taken, resume) = take_ready_resume session g' in
        (approved ≡ some permission)
        × (resume ≡ some (resume_of printer permission permission.id))
        × ((take_ready_resume session taken).1 ≡ none)
  approve-create_pending scope =
      let g' = grant printer permission.id scope permission created in
      rw (Steps.approve_found printer permission.id scope created permission lookup-created_pending)
        (rw (take-granted scope) (refl, refl, take-cleared g'))

  abbrev revoked : PermissionGuard
  revoked = revoke permission.id permission created

  revoked_pending : get_pending permission.id revoked ≡ none
  unfolding get_pending
  revoked_pending =
      Steps.lookup-revoke_pending permission.id permission created permission.id
      ∙ ap (λ b. if b then none else lookup permission.id created.pending)
          (str_eq_refl permission.id)

  revoked_awaiting : lookup session revoked.awaiting ≡ none
  unfolding create_pending waiting
  revoked_awaiting = ground (
    arith,
    lookup-created_awaiting,
    Steps.lookup-revoke_awaiting permission.id permission created waiting session
        lookup-created_awaiting,
    str_eq_refl session,
    str_eq_refl permission.id,
  )

  revoked_streak : streak_of revoked session ≡ streak_of g session + 1
  unfolding create_pending streak_of
  revoked_streak =
      ground (
        arith,
        Steps.streak_of-revoke permission.id permission created session,
        str_eq_refl session,
      )

  -- Created and rejected, a call is never taken up: the permission is gone, nothing is ready, and the
  -- session's streak of denials has grown by one.
  pub reject-create_pending :
      let (g', found) = reject permission.id created in
      (found ≡ true)
      × (get_pending permission.id g' ≡ none)
      × (take_ready_resume session g' ≡ (g', none))
      × (streak_of g' session ≡ streak_of g session + 1)
  reject-create_pending =
      rw (Steps.reject_found permission.id created permission lookup-created_pending)
        (refl, revoked_pending, Steps.take_none session revoked revoked_awaiting, revoked_streak)

-- Two guards that agree on what a check of a session reads.
record Agree (g g' : PermissionGuard) (session : String) : Type 0 where
  limit : g'.circuit_limit ≡ g.circuit_limit
  deny_rules : g'.deny_rules ≡ g.deny_rules
  confirm_rules : g'.confirm_rules ≡ g.confirm_rules
  write_tools : g'.write_tools ≡ g.write_tools
  command_tools : g'.command_tools ≡ g.command_tools
  delete_tools : g'.delete_tools ≡ g.delete_tools
  streak : streak_of g' session ≡ streak_of g session
  allowed : (key : String) → is_allowed g' session key ≡ is_allowed g session key

check-Agree :
    (printer : Printer) (g g' : PermissionGuard) (session tool : String) (args : Args)
    → Agree g g' session
    → (check printer g' session tool args).1 ≡ (check printer g session tool args).1
unfolding check check_command check_policy
check-Agree printer g g' session tool args h = ground (
  arith,
  h.limit,
  h.deny_rules,
  h.confirm_rules,
  h.write_tools,
  h.command_tools,
  h.delete_tools,
  h.streak,
  h.allowed "*",
  h.allowed (tool_sig printer tool args),
)

grant-Agree :
    (printer : Printer) (id scope : String) (p : PendingConfirm) (g : PermissionGuard) (s : String)
    → str_eq p.session_id s ≡ false
    → Agree g (grant printer id scope p g) s
unfolding grant
grant-Agree printer id scope p g s h = record {
  limit = refl;
  deny_rules = refl;
  confirm_rules = refl;
  write_tools = refl;
  command_tools = refl;
  delete_tools = refl;
  streak = Steps.streak_of-grant printer id scope p g s ∙ rw h;
  allowed = λ key. Steps.is_allowed-grant printer id scope p g s key ∙ rw h;
}

-- An approval serves its own session alone: the checks of any other session decide as before, whether the
-- permission was found or not.
pub check-approve_other :
    (printer : Printer) (id scope : String) (g : PermissionGuard) (s tool : String) (args : Args)
    → ((p : PendingConfirm) → lookup id g.pending ≡ some p → p.session_id ≢ s)
    → (check printer (approve printer id scope g).0 s tool args).1 ≡ (check printer g s tool args).1
unfolding approve
check-approve_other printer id scope g s tool args other =
    elim (Option-cases (lookup id g.pending)) [
      | inl missing ↦ rw (missing, approve)
      | inr (p, found) ↦
          let differs : str_eq p.session_id s ≡ false = elim (Bool-cases (str_eq p.session_id s)) [
            | inl same ↦ absurd (other p found ((str_eq_iff p.session_id s).0 same))
            | inr e ↦ e
          ] in
          rw (found, approve)
            (check-Agree printer g (grant printer id scope p g) s tool args
              (grant-Agree printer id scope p g s differs))
    ]

-- What an approval covers: the approved call in any scope, every call of the session in the two wide ones.
abbrev pub Covers : String → PendingConfirm → String → Args → Type 0
Covers scope p tool args =
    ((tool ≡ p.tool) × (args ≡ p.args))
    ⊎ ((str_eq scope "session" ≡ true) ⊎ (str_eq scope "always" ≡ true))

allow_key_cases :
    (printer : Printer) (scope : String) (p : PendingConfirm) (tool : String) (args : Args)
    → Covers scope p tool args
    → (allow_key printer scope p ≡ tool_sig printer tool args) ⊎ (allow_key printer scope p ≡ "*")
unfolding allow_key
allow_key_cases printer scope p tool args covers = ground arith

granted_key :
    (printer : Printer) (id scope : String) (p : PendingConfirm) (g : PermissionGuard)
    (key : String)
    → allow_key printer scope p ≡ key
    → is_allowed (grant printer id scope p g) p.session_id key ≡ true
granted_key printer id scope p g key e =
    Steps.is_allowed-grant printer id scope p g p.session_id key
    ∙ rw (e, str_eq_refl p.session_id, str_eq_refl key)

granted_allowed :
    (printer : Printer) (id scope : String) (p : PendingConfirm) (g : PermissionGuard)
    (tool : String) (args : Args)
    → Covers scope p tool args
    → let g' = grant printer id scope p g in
      (is_allowed g' p.session_id (tool_sig printer tool args) ≡ true)
      ⊎ (is_allowed g' p.session_id "*" ≡ true)
granted_allowed printer id scope p g tool args covers =
    elim (allow_key_cases printer scope p tool args covers) [
      | inl own ↦ inl (granted_key printer id scope p g (tool_sig printer tool args) own)
      | inr all ↦ inr (granted_key printer id scope p g "*" all)
    ]

-- After an approval the session's streak of denials starts again, and what the approval covers is let
-- through, whatever rule matches it.
pub check-approve :
    (printer : Printer) (id scope : String) (g : PermissionGuard) (p : PendingConfirm)
    (tool : String) (args : Args)
    → lookup id g.pending ≡ some p
    → 0 < g.circuit_limit
    → Covers scope p tool args
    → let g' = (approve printer id scope g).0 in
      (streak_of g' p.session_id ≡ 0) × ((check printer g' p.session_id tool args).1.action ≡ allow)
unfolding check
check-approve printer id scope g p tool args found limit covers =
    let g' = grant printer id scope p g in
    let streak : streak_of g' p.session_id ≡ 0 =
      Steps.streak_of-grant printer id scope p g p.session_id ∙ rw (str_eq_refl p.session_id) in
    let same : g'.circuit_limit ≡ g.circuit_limit = unfold grant in refl in
    rw (Steps.approve_found printer id scope g p found)
      (ground (arith, granted_allowed printer id scope p g tool args covers, streak, same))
