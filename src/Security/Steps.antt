-- ===== src/Security/Steps.antt =====
-- permission_guard.go: the steps of the guard where their tests are known, and what they store.
use ai_desktop_assistant.Common.{
  ◌+◌, ◌≡◌, String, true, false, ◌&&◌, none, some, [], arith, if◌then◌else◌, str_eq, str_eq_iff,
}
use ai_desktop_assistant.Common.Map.{lookup, lookup_or, insert, lookup-insert, lookup-delete}
use ai_desktop_assistant.Values.{Printer}
use ai_desktop_assistant.Security.{
  PendingConfirm, AwaitingResume, PermissionGuard, is_allowed, streak_of, allow_key,
  approved_resume, approve, reject, take_ready_resume, grant, revoke, clear_awaiting,
}

-- The steps of the guard where their tests are known.
module _ (printer : Printer) (id scope : String) (g : PermissionGuard) where
  pub approve_found :
      (p : PendingConfirm)
      → lookup id g.pending ≡ some p
      → approve printer id scope g ≡ (grant printer id scope p g, some p)
  unfolding approve
  approve_found p h = rw (h, approve)

pub reject_found :
    (id : String) (g : PermissionGuard) (p : PendingConfirm)
    → lookup id g.pending ≡ some p
    → reject id g ≡ (revoke id p g, true)
unfolding reject
reject_found id g p h = rw (h, reject)

module _ (session : String) (g : PermissionGuard) where
  pub take_ready :
      (a : AwaitingResume)
      → lookup session g.awaiting ≡ some a
      → a.ready ≡ true
      → take_ready_resume session g ≡ (clear_awaiting session g, some a)
  unfolding take_ready_resume clear_awaiting
  take_ready a h r = ground arith

  pub take_unready :
      (a : AwaitingResume)
      → lookup session g.awaiting ≡ some a
      → a.ready ≡ false
      → take_ready_resume session g ≡ (g, none)
  unfolding take_ready_resume
  take_unready a h r = ground arith

  pub take_none : lookup session g.awaiting ≡ none → take_ready_resume session g ≡ (g, none)
  unfolding take_ready_resume
  take_none h = ground arith

  pub lookup-clear_awaiting :
      (s : String)
      → lookup s (clear_awaiting session g).awaiting
        ≡ (if str_eq session s then none else lookup s g.awaiting)
  unfolding clear_awaiting
  lookup-clear_awaiting s = lookup-delete session s g.awaiting

module _ (printer : Printer) (id scope : String) (p : PendingConfirm) (g : PermissionGuard) where
  pub lookup-grant_awaiting :
      (s : String)
      → lookup s (grant printer id scope p g).awaiting ≡ (
          if str_eq p.session_id s
          then some (approved_resume printer id p (lookup p.session_id g.awaiting))
          else lookup s g.awaiting)
  unfolding grant
  lookup-grant_awaiting s =
      lookup-insert p.session_id s (approved_resume printer id p (lookup p.session_id g.awaiting))
        g.awaiting

  pub streak_of-grant :
      (s : String)
      → streak_of (grant printer id scope p g) s
        ≡ (if str_eq p.session_id s then 0 else streak_of g s)
  unfolding grant streak_of
  streak_of-grant s = ground (arith, lookup-insert p.session_id s 0 g.deny_streak)

  pub is_allowed-grant :
      (s key : String)
      → is_allowed (grant printer id scope p g) s key ≡ (
          if str_eq p.session_id s && str_eq (allow_key printer scope p) key
          then true
          else is_allowed g s key)
  unfolding grant is_allowed
  is_allowed-grant s key =
      let old = lookup_or [] p.session_id g.session_allow in
      let k = allow_key printer scope p in
      ground (
        arith,
        lookup-insert p.session_id s (insert k true old) g.session_allow,
        lookup-insert k key true old,
        str_eq_iff p.session_id s,
      )

module _ (id : String) (p : PendingConfirm) (g : PermissionGuard) where
  pub lookup-revoke_pending :
      (j : String)
      → lookup j (revoke id p g).pending ≡ (if str_eq id j then none else lookup j g.pending)
  unfolding revoke
  lookup-revoke_pending j = lookup-delete id j g.pending

  pub streak_of-revoke :
      (s : String)
      → streak_of (revoke id p g) s
        ≡ (if str_eq p.session_id s then streak_of g s + 1 else streak_of g s)
  unfolding revoke streak_of
  streak_of-revoke s = ground (
    arith,
    str_eq_iff p.session_id s,
    lookup-insert p.session_id s (lookup_or 0 p.session_id g.deny_streak + 1) g.deny_streak,
  )

  -- An entry of the permission itself goes; any other stays.
  pub lookup-revoke_awaiting :
      (a : AwaitingResume) (s : String)
      → lookup p.session_id g.awaiting ≡ some a
      → lookup s (revoke id p g).awaiting
        ≡ (if str_eq a.perm_id id && str_eq p.session_id s then none else lookup s g.awaiting)
  unfolding revoke
  lookup-revoke_awaiting a s h = ground (arith, lookup-delete p.session_id s g.awaiting)

  pub lookup-revoke_awaiting_some :
      (s : String) (a : AwaitingResume)
      → lookup s (revoke id p g).awaiting ≡ some a
      → lookup s g.awaiting ≡ some a
  unfolding revoke
  lookup-revoke_awaiting_some s a h = ground (arith, lookup-delete p.session_id s g.awaiting)
