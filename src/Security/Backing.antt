-- ===== src/Security/Backing.antt =====
-- permission_guard.go over a sequence of calls: what the sequence says of the entries that wait.
use mathlib.Core.List.{Memᴰ}
use ai_desktop_assistant.Common.{
  ℕ, ◌≡◌, String, Bool, true, false, Option, none, some, List, [], ◌∷◌, if◌then◌else◌,
}
use ai_desktop_assistant.Common.Map.{lookup}
use ai_desktop_assistant.Values.{Args, Printer}
use ai_desktop_assistant.Security.{
  Decision, PendingConfirm, AwaitingResume, PermissionGuard, check, create_pending, approve, reject,
  take_ready_resume, clear_awaiting,
}

-- The calls that change the guard.
pub data Op : Type 0 where
  check_call : (session tool : String) → Args → Op
  create : (now : ℕ) → (session tool : String) → Args → Decision → Op
  approve_id : (id scope : String) → Op
  reject_id : (id : String) → Op
  take : (session : String) → Op
  clear : (session : String) → Op

module _ (printer : Printer) where
  unfoldable pub apply : Op → PermissionGuard → PermissionGuard
  apply (check_call session tool args) g = (check printer g session tool args).0
  apply (create now session tool args d) g = (create_pending printer now session tool args d g).0
  apply (approve_id id scope) g = (approve printer id scope g).0
  apply (reject_id id) g = (reject id g).0
  apply (take session) g = (take_ready_resume session g).0
  apply (clear session) g = clear_awaiting session g

  -- The guard after a history of calls, the latest first.
  unfoldable pub run : PermissionGuard → List Op → PermissionGuard
  run g [] = g
  run g (op ∷ ops) = apply op (run g ops)

-- The history put this call of this session up for confirmation.
pub record IsCreated (ops : List Op) (session tool : String) (args : Args) : Type 0 where
  pub now : ℕ
  pub decision : Decision
  pub member : Memᴰ (create now session tool args decision) ops

pub record IsApproved (ops : List Op) (id : String) : Type 0 where
  pub scope : String
  pub member : Memᴰ (approve_id id scope) ops

pub IsCreated-cons :
    (op : Op) {ops : List Op} {session tool : String} {args : Args}
    → IsCreated ops session tool args
    → IsCreated (op ∷ ops) session tool args
IsCreated-cons op c = record { now = c.now; decision = c.decision; member = Memᴰ.tail c.member }

pub IsApproved-cons :
    (op : Op) {ops : List Op} {id : String} → IsApproved ops id → IsApproved (op ∷ ops) id
IsApproved-cons op c = record { scope = c.scope; member = Memᴰ.tail c.member }

-- What the history says of an entry that waits under a session.
pub record IsBacked (ops : List Op) (session : String) (a : AwaitingResume) : Type 0 where
  pub own : a.session_id ≡ session
  pub created : IsCreated ops session a.tool a.args
  pub approved : a.ready ≡ true → IsApproved ops a.perm_id

pub IsBacked-cons :
    (op : Op) {ops : List Op} {session : String} {a : AwaitingResume}
    → IsBacked ops session a
    → IsBacked (op ∷ ops) session a
IsBacked-cons op b = record {
  own = b.own;
  created = IsCreated-cons op b.created;
  approved = λ r. IsApproved-cons op (b.approved r);
}

pub record Inv (ops : List Op) (g : PermissionGuard) : Type 0 where
  pub pendings :
      (id : String) (p : PendingConfirm)
      → lookup id g.pending ≡ some p
      → IsCreated ops p.session_id p.tool p.args
  pub awaitings :
      (session : String) (a : AwaitingResume)
      → lookup session g.awaiting ≡ some a
      → IsBacked ops session a

-- A call that only takes entries away keeps the invariant.
pub Inv-shrink :
    (op : Op) {ops : List Op} {g : PermissionGuard} (g' : PermissionGuard)
    → Inv ops g
    → ((id : String) (p : PendingConfirm)
        → lookup id g'.pending ≡ some p
        → lookup id g.pending ≡ some p)
    → ((s : String) (a : AwaitingResume)
        → lookup s g'.awaiting ≡ some a
        → lookup s g.awaiting ≡ some a)
    → Inv (op ∷ ops) g'
Inv-shrink op g' inv fewer_pending fewer_awaiting = record {
  pendings = λ id p h. IsCreated-cons op (inv.pendings id p (fewer_pending id p h));
  awaitings = λ s a h. IsBacked-cons op (inv.awaitings s a (fewer_awaiting s a h));
}

pub if-none-some {ℓ} :
    {A : Type ℓ} (b : Bool) (o : Option A) {x : A} → (if b then none else o) ≡ some x → o ≡ some x
if-none-some true o h = cc
if-none-some false o h = h
