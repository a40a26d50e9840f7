-- ===== src/Security.antt =====
-- internal/domain/agent/service/security/permission_guard.go. A method that changes the guard returns
-- the new one; each method holds the guard's lock, so it is one step. A compiled rule is given by its
-- match function, and `fmt.Sprint` of arguments by a `Printer`.
pub mod Check
mod Steps
pub mod Approval
pub mod Backing
pub mod Trace
mod Samples
use Prim.Native.String.{◌++◌ as append}
use ai_desktop_assistant.Common.{
  ℕ, zero, suc, ◌+◌, String, Bool, true, false, ◌||◌, ◌&&◌, not, Option, none, some, List, [], ◌∷◌,
  if◌then◌else◌, leb, str_eq,
}
use ai_desktop_assistant.Common.Map.{Map, lookup, lookup_or, insert, delete}
use ai_desktop_assistant.Common.Text.{is_blank, decimal}
use ai_desktop_assistant.Values.{Value, Args, Printer, text_arg}

pub data Action : Type 0 where
  allow deny confirm : Action

pub record Decision : Type 0 where
  pub action : Action
  pub rule_id : String
  pub reason : String
  pub tool : String
  pub summary : String

pub record Rule : Type 0 where
  pub id : String
  pub matches : String → Bool
  pub action : Action
  pub reason : String

pub record PendingConfirm : Type 0 where
  pub id : String
  pub session_id : String
  pub tool : String
  pub args : Args
  pub reason : String
  pub rule_id : String
  pub created_at : ℕ

pub record AwaitingResume : Type 0 where
  pub session_id : String
  pub tool : String
  pub args : Args
  pub reason : String
  pub perm_id : String
  pub ready : Bool

pub record PermissionGuard : Type 0 where
  pub session_allow : Map (Map Bool)
  pub pending : Map PendingConfirm
  pub awaiting : Map AwaitingResume
  pub deny_rules : List Rule
  pub confirm_rules : List Rule
  pub write_tools : Map Bool
  pub command_tools : Map Bool
  pub delete_tools : Map Bool
  pub deny_streak : Map ℕ
  pub circuit_limit : ℕ

-- `NewPermissionGuard`, with the two lists that `initRules` compiles.
unfoldable pub new_permission_guard : List Rule → List Rule → PermissionGuard
new_permission_guard deny_rules confirm_rules = record {
  session_allow = [];
  pending = [];
  awaiting = [];
  deny_rules = deny_rules;
  confirm_rules = confirm_rules;
  write_tools = ("write_file", true) ∷ [];
  command_tools = ("run_command", true) ∷ ("run_script", true) ∷ [];
  delete_tools = ("delete_file", true) ∷ [];
  deny_streak = [];
  circuit_limit = 5;
}

-- The first rule of a list that matches.
unfoldable pub first_match : List Rule → String → Option Rule
first_match [] cmd = none
first_match (r ∷ rules) cmd = if r.matches cmd then some r else first_match rules cmd

-- `g.sessionAllow[sessionID] != nil && g.sessionAllow[sessionID][key]`
unfoldable pub is_allowed : PermissionGuard → String → String → Bool
is_allowed g session key = lookup_or false key (lookup_or [] session g.session_allow)

unfoldable pub streak_of : PermissionGuard → String → ℕ
streak_of g session = lookup_or 0 session g.deny_streak

unfoldable pub inc_deny : String → PermissionGuard → PermissionGuard
inc_deny session g = record g {
  deny_streak = insert session (lookup_or 0 session g.deny_streak + 1) g.deny_streak;
}

unfoldable pub is_read_tool : String → Bool
is_read_tool tool =
    str_eq tool "read_file"
    || str_eq tool "list_files"
    || str_eq tool "screenshot"
    || str_eq tool "get_time"
    || str_eq tool "echo"
    || str_eq tool "workspace_info"

-- The argument that a tool's command, script or path stands in.
unfoldable pub command_key : String → Option String
command_key tool =
    if str_eq tool "run_command"
    then some "command"
    else if str_eq tool "run_script"
    then some "scriptPath"
    else if str_eq tool "write_file" || str_eq tool "delete_file" || str_eq tool "read_file"
    then some "path"
    else none

module _ (printer : Printer) where
  open printer use {print_value, print_args}

  unfoldable pub extract_command : String → Args → String
  unfolding command_key text_arg
  extract_command tool none = ""
  extract_command tool (some args) = elim (command_key tool) [
    | none ↦ print_args args
    | some key ↦ elim (text_arg key args) [ some c ↦ c | none ↦ print_args args ]
  ]

  unfoldable pub tool_summary : String → Args → String
  tool_summary tool none = tool
  tool_summary tool (some args) =
      if str_eq tool "run_command"
      then append tool (append ": " (print_value (lookup "command" args)))
      else if str_eq tool "write_file" || str_eq tool "delete_file" || str_eq tool "read_file"
      then append tool (append ": " (print_value (lookup "path" args)))
      else tool

  unfoldable pub tool_sig : String → Args → String
  unfolding extract_command
  tool_sig tool args = append tool (append "|" (extract_command tool args))

  abbrev decide_rule : Action → String → String → String → Args → Decision
  decide_rule action rule_id reason tool args = record {
    action = action;
    rule_id = rule_id;
    reason = reason;
    tool = tool;
    summary = tool_summary tool args;
  }

  -- The end of `Check`: the policy by tool.
  unfoldable pub check_policy : PermissionGuard → String → Args → Decision
  check_policy g tool args =
      if lookup_or false tool g.write_tools || lookup_or false tool g.delete_tools
      then decide_rule confirm "write_or_delete" "写/删操作需确认" tool args
      else if lookup_or false tool g.command_tools
      then decide_rule confirm "shell_command" "执行命令需确认" tool args
      else decide_rule allow "" "" tool args

  -- `Check` from the rules on the command's text on.
  unfoldable pub check_command :
      PermissionGuard → String → String → Args → PermissionGuard × Decision
  check_command g session tool args =
      let cmd = extract_command tool args in
      if is_blank cmd then (g, check_policy g tool args) else elim (first_match g.deny_rules cmd) [
        | some r ↦ (inc_deny session g, decide_rule deny r.id r.reason tool args)
        | none ↦ elim (first_match g.confirm_rules cmd) [
          | some r ↦ (g, decide_rule confirm r.id r.reason tool args)
          | none ↦ (g, check_policy g tool args)
        ]
      ]

  unfoldable pub check : PermissionGuard → String → String → Args → PermissionGuard × Decision
  check g session tool args =
      if leb g.circuit_limit (streak_of g session)
      then (g, decide_rule deny "circuit_breaker" "会话连续触发安全拒绝，已熔断" tool args)
      else if is_allowed g session (tool_sig tool args)
      then (g, decide_rule allow "" "" tool args)
      else if is_allowed g session "*"
      then (g, decide_rule allow "" "session auto-approve" tool args)
      else if is_read_tool tool
      then (g, decide_rule allow "" "" tool args)
      else check_command g session tool args

  -- `now` is what `time.Now().UnixNano()` gives.
  unfoldable pub create_pending :
      ℕ → String → String → Args → Decision → PermissionGuard → PermissionGuard × PendingConfirm
  create_pending now session tool args d g =
      let id = append "perm-" (decimal now) in
      let p : PendingConfirm = record {
        id = id;
        session_id = session;
        tool = tool;
        args = args;
        reason = d.reason;
        rule_id = d.rule_id;
        created_at = now;
      } in
      let a : AwaitingResume = record {
        session_id = session;
        tool = tool;
        args = args;
        reason = d.reason;
        perm_id = id;
        ready = false;
      } in
      (record g { pending = insert id p g.pending; awaiting = insert session a g.awaiting }, p)

  -- The key that an approval allows for the session.
  unfoldable pub allow_key : String → PendingConfirm → String
  allow_key scope p =
      if str_eq scope "session" || str_eq scope "always" then "*" else tool_sig p.tool p.args

  abbrev pub resume_of : PendingConfirm → String → AwaitingResume
  resume_of p id = record {
    session_id = p.session_id;
    tool = p.tool;
    args = p.args;
    reason = p.reason;
    perm_id = id;
    ready = true;
  }

  -- The awaiting entry that an approval leaves: the session's own if it is this permission's, made ready.
  unfoldable pub approved_resume : String → PendingConfirm → Option AwaitingResume → AwaitingResume
  approved_resume id p none = resume_of p id
  approved_resume id p (some a) =
      if str_eq a.perm_id id then record a { ready = true } else resume_of p id

  -- What `Approve` does to the guard once it has found the permission.
  unfoldable pub grant : String → String → PendingConfirm → PermissionGuard → PermissionGuard
  grant id scope p g =
      let allowed = insert (allow_key scope p) true (lookup_or [] p.session_id g.session_allow) in
      let a = approved_resume id p (lookup p.session_id g.awaiting) in
      record g {
        pending = delete id g.pending;
        session_allow = insert p.session_id allowed g.session_allow;
        deny_streak = insert p.session_id 0 g.deny_streak;
        awaiting = insert p.session_id a g.awaiting;
      }

  -- `none` is the error that the permission is not found.
  unfoldable pub approve :
      String → String → PermissionGuard → PermissionGuard × Option PendingConfirm
  approve id scope g = elim (lookup id g.pending) [
    | none ↦ (g, none)
    | some p ↦ (grant id scope p g, some p)
  ]

-- What `Reject` does to the guard once it has found the permission.
unfoldable pub revoke : String → PendingConfirm → PermissionGuard → PermissionGuard
revoke id p g =
    let awaiting : Map AwaitingResume = elim (lookup p.session_id g.awaiting) [
      | none ↦ g.awaiting
      | some a ↦ if str_eq a.perm_id id then delete p.session_id g.awaiting else g.awaiting
    ] in
    record g {
      pending = delete id g.pending;
      awaiting = awaiting;
      deny_streak = insert p.session_id (lookup_or 0 p.session_id g.deny_streak + 1) g.deny_streak;
    }

-- `false` is the error that the permission is not found.
unfoldable pub reject : String → PermissionGuard → PermissionGuard × Bool
reject id g = elim (lookup id g.pending) [ none ↦ (g, false) | some p ↦ (revoke id p g, true) ]

unfoldable pub peek_awaiting : String → PermissionGuard → Option AwaitingResume
peek_awaiting session g = lookup session g.awaiting

unfoldable pub take_ready_resume :
    String → PermissionGuard → PermissionGuard × Option AwaitingResume
take_ready_resume session g = elim (lookup session g.awaiting) [
  | none ↦ (g, none)
  | some a ↦
      if a.ready then (record g { awaiting = delete session g.awaiting }, some a) else (g, none)
]

unfoldable pub clear_awaiting : String → PermissionGuard → PermissionGuard
clear_awaiting session g = record g { awaiting = delete session g.awaiting }

unfoldable pub get_pending : String → PermissionGuard → Option PendingConfirm
get_pending id g = lookup id g.pending

unfoldable pub list_pending_from : String → Map PendingConfirm → List PendingConfirm
list_pending_from session [] = []
list_pending_from session ((id, p) ∷ m) =
    if is_blank session || str_eq p.session_id session
    then p ∷ list_pending_from session m
    else list_pending_from session m

unfoldable pub list_pending : String → PermissionGuard → List PendingConfirm
unfolding list_pending_from
list_pending session g = list_pending_from session g.pending
