-- ===== src/Security/Trace.antt =====
-- permission_guard.go over every sequence of calls: which call is resumed.
use mathlib.Core.List.{Memᴰ}
use ai_desktop_assistant.Common.{
  ℕ, ◌≡◌, refl, ap, sym, ◌∙◌, subst, String, Option, none, some, List, [], ◌∷◌, arith, str_eq,
  str_eq_iff, Bool-cases, Option-cases, inl, inr,
}
use ai_desktop_assistant.Common.Map.{lookup, lookup-insert_cases, lookup-delete}
use ai_desktop_assistant.Values.{Args, Printer}
use ai_desktop_assistant.Security.{
  Decision, Rule, PendingConfirm, AwaitingResume, PermissionGuard, new_permission_guard, check,
  create_pending, approved_resume, approve, reject, take_ready_resume, clear_awaiting, grant,
  revoke,
}
use ai_desktop_assistant.Security.Steps
use ai_desktop_assistant.Security.Check.{check-IsChecked}
use ai_desktop_assistant.Security.Backing.{
  Op, check_call, create, approve_id, reject_id, take, clear, apply, run, IsCreated, IsApproved,
  IsBacked, IsCreated-cons, IsBacked-cons, Inv, Inv-shrink, if-none-some,
}

module _ (printer : Printer) {ops : List Op} {g : PermissionGuard} (inv : Inv ops g) where
  Inv-check :
      (session tool : String) (args : Args)
      → Inv (check_call session tool args ∷ ops) (check printer g session tool args).0
  Inv-check session tool args =
      let checked = check-IsChecked printer g session tool args in
      Inv-shrink (check_call session tool args) (check printer g session tool args).0 inv
        (λ id p h. subst (λ m. lookup id m ≡ some p) checked.same_pending h)
        (λ s a h. subst (λ m. lookup s m ≡ some a) checked.same_awaiting h)

  Inv-create :
      (now : ℕ) (session tool : String) (args : Args) (d : Decision)
      → Inv
          (create now session tool args d ∷ ops)
          (create_pending printer now session tool args d g).0
  unfolding create_pending
  Inv-create now session tool args d =
      let op = create now session tool args d in
      let made : IsCreated (op ∷ ops) session tool args = record {
        now = now;
        decision = d;
        member = Memᴰ.head refl;
      } in
      record {
        pendings = λ id q h. elim (lookup-insert_cases _ id _ q g.pending h) [
          | inl (_, same) ↦ subst (λ r. IsCreated (op ∷ ops) r.session_id r.tool r.args) same made
          | inr old ↦ IsCreated-cons op (inv.pendings id q old)
        ];
        awaitings = λ s a h. elim (lookup-insert_cases session s _ a g.awaiting h) [
          | inl (here, same) ↦
              subst (λ r. IsBacked (op ∷ ops) s r) same
                (record {
                  own = here;
                  created = subst (λ t. IsCreated (op ∷ ops) t tool args) here made;
                  approved = λ r. cc;
                })
          | inr old ↦ IsBacked-cons op (inv.awaitings s a old)
        ];
      }

  -- An approval's entry is backed: by the session's own entry, or by the permission itself.
  resume-IsBacked :
      (id scope : String) (p : PendingConfirm) (o : Option AwaitingResume)
      → lookup id g.pending ≡ some p
      → lookup p.session_id g.awaiting ≡ o
      → IsBacked (approve_id id scope ∷ ops) p.session_id (approved_resume printer id p o)
  unfolding approved_resume
  resume-IsBacked id scope p none found waits = record {
    own = refl;
    created = IsCreated-cons (approve_id id scope) (inv.pendings id p found);
    approved = λ r. record { scope = scope; member = Memᴰ.head refl };
  }
  resume-IsBacked id scope p (some a) found waits =
      let old = inv.awaitings p.session_id a waits in
      elim (Bool-cases (str_eq a.perm_id id)) [
        | inl same ↦
            rw (same, approved_resume)
              (record {
                own = old.own;
                created = IsCreated-cons (approve_id id scope) old.created;
                approved = λ r. record {
                  scope = scope;
                  member =
                      Memᴰ.head (ap (λ i. approve_id i scope) ((str_eq_iff a.perm_id id).0 same));
                };
              })
        | inr other ↦
            rw (other, approved_resume)
              (record {
                own = refl;
                created = IsCreated-cons (approve_id id scope) (inv.pendings id p found);
                approved = λ r. record { scope = scope; member = Memᴰ.head refl };
              })
      ]

  Inv-grant :
      (id scope : String) (p : PendingConfirm)
      → lookup id g.pending ≡ some p
      → Inv (approve_id id scope ∷ ops) (grant printer id scope p g)
  unfolding grant
  Inv-grant id scope p found =
      let op = approve_id id scope in
      let backed = resume-IsBacked id scope p (lookup p.session_id g.awaiting) found refl in
      record {
        pendings = λ j q h. IsCreated-cons op (
            inv.pendings j q (
              if-none-some (str_eq id j) (lookup j g.pending)
                (sym (lookup-delete id j g.pending) ∙ h)));
        awaitings = λ s a h. elim (lookup-insert_cases p.session_id s _ a g.awaiting h) [
          | inl (here, same) ↦
              subst (λ r. IsBacked (op ∷ ops) s r) same
                (subst
                  (λ t.
                    IsBacked (op ∷ ops) t
                      (approved_resume printer id p (lookup p.session_id g.awaiting)))
                  here backed)
          | inr old ↦ IsBacked-cons op (inv.awaitings s a old)
        ];
      }

  Inv-approve : (id scope : String) → Inv (approve_id id scope ∷ ops) (approve printer id scope g).0
  unfolding approve
  Inv-approve id scope = elim (Option-cases (lookup id g.pending)) [
    | inl missing ↦
        rw (missing, approve) (Inv-shrink (approve_id id scope) g inv (λ j q h. h) (λ s a h. h))
    | inr (p, found) ↦ rw (found, approve) (Inv-grant id scope p found)
  ]

  Inv-reject : (id : String) → Inv (reject_id id ∷ ops) (reject id g).0
  unfolding reject
  Inv-reject id = elim (Option-cases (lookup id g.pending)) [
    | inl missing ↦ rw (missing, reject) (Inv-shrink (reject_id id) g inv (λ j q h. h) (λ s a h. h))
    | inr (p, found) ↦
        rw (found, reject)
          (Inv-shrink (reject_id id) (revoke id p g) inv
            (λ j q h.
              if-none-some (str_eq id j) (lookup j g.pending)
                (sym (Steps.lookup-revoke_pending id p g j) ∙ h))
            (λ s a h. Steps.lookup-revoke_awaiting_some id p g s a h))
  ]

  Inv-clear : (session : String) → Inv (clear session ∷ ops) (clear_awaiting session g)
  Inv-clear session =
      Inv-shrink (clear session) (clear_awaiting session g) inv
        (λ j q h. unfold clear_awaiting in h)
        (λ s a h.
          if-none-some (str_eq session s) (lookup s g.awaiting)
            (sym (Steps.lookup-clear_awaiting session g s) ∙ h))

  Inv-take : (session : String) → Inv (take session ∷ ops) (take_ready_resume session g).0
  unfolding take_ready_resume
  Inv-take session =
      let op = take session in
      let unchanged = Inv-shrink op g inv (λ j q h. h) (λ s a h. h) in
      let cleared =
        Inv-shrink op (clear_awaiting session g) inv (λ j q h. unfold clear_awaiting in h)
          (λ s a h.
            if-none-some (str_eq session s) (lookup s g.awaiting)
              (sym (Steps.lookup-clear_awaiting session g s) ∙ h)) in
      elim (Option-cases (lookup session g.awaiting)) [
        | inl missing ↦ rw (missing, take_ready_resume) unchanged
        | inr (a, waits) ↦ elim (Bool-cases a.ready) [
          | inl ready ↦ rw (Steps.take_ready session g a waits ready) cleared
          | inr unready ↦ rw (Steps.take_unready session g a waits unready) unchanged
        ]
      ]

module _ (printer : Printer) (deny_rules confirm_rules : List Rule) where
  abbrev start : PermissionGuard
  start = new_permission_guard deny_rules confirm_rules

  run-Inv : (ops : List Op) → Inv ops (run printer start ops)
  unfolding run apply new_permission_guard approve lookup
  run-Inv [] = record { pendings = λ id p h. cc; awaitings = λ s a h. cc }
  run-Inv (check_call session tool args ∷ ops) = Inv-check printer (run-Inv ops) session tool args
  run-Inv (create now session tool args d ∷ ops) =
      Inv-create printer (run-Inv ops) now session tool args d
  run-Inv (approve_id id scope ∷ ops) = Inv-approve printer (run-Inv ops) id scope
  run-Inv (reject_id id ∷ ops) = Inv-reject printer (run-Inv ops) id
  run-Inv (take session ∷ ops) = Inv-take printer (run-Inv ops) session
  run-Inv (clear session ∷ ops) = Inv-clear printer (run-Inv ops) session

  -- Whatever calls a new guard has had, a call that it hands out for resumption under a session was put up
  -- for confirmation by that session, with the same tool and the same arguments, and its permission was
  -- approved.
  pub take_ready_resume-IsBacked :
      (ops : List Op) (session : String) (a : AwaitingResume)
      → (take_ready_resume session (run printer start ops)).1 ≡ some a
      → IsCreated ops session a.tool a.args × IsApproved ops a.perm_id
  unfolding take_ready_resume
  take_ready_resume-IsBacked ops session a h =
      let g = run printer start ops in
      let inv = run-Inv ops in
      elim (Option-cases (lookup session g.awaiting)) [
        | inl missing ↦ ground arith
        | inr (b, waits) ↦ elim (Bool-cases b.ready) [
          | inl ready ↦
              let same : b ≡ a = ground arith in
              let backed = inv.awaitings session b waits in
              subst (λ x. IsCreated ops session x.tool x.args × IsApproved ops x.perm_id) same
                (backed.created, backed.approved ready)
          | inr unready ↦ ground arith
        ]
      ]
