-- ===== src/Security/Samples.antt =====
-- The guard with two rules, and the theorems about it there.
use mathlib.Core.List.{Memᴰ}
use ai_desktop_assistant.Common.{
  ◌+◌, ◌≤◌, ◌<◌, ◌≡◌, refl, ◌⊎◌, inl, inr, String, true, none, some, List, [], ◌∷◌, arith,
}
use ai_desktop_assistant.Common.Map.{lookup, insert, delete}
use ai_desktop_assistant.Common.Text.{contains, decimal}
use ai_desktop_assistant.Values.{text, Args, Printer}
use ai_desktop_assistant.Security.{
  allow, deny, confirm, Decision, Rule, PendingConfirm, PermissionGuard, new_permission_guard,
  first_match, is_allowed, streak_of, inc_deny, is_read_tool, extract_command, tool_summary,
  tool_sig, check_policy, check_command, check, create_pending, allow_key, approved_resume, grant,
  approve, revoke, reject, take_ready_resume, get_pending, resume_of, clear_awaiting,
}
use ai_desktop_assistant.Security.Check.{Grounds, check-allow, check-deny}
use ai_desktop_assistant.Security.Approval.{
  approve-create_pending, reject-create_pending, check-approve_other, check-approve,
}
use ai_desktop_assistant.Security.Backing.{
  Op, create, approve_id, apply, run, IsCreated, IsApproved,
}
use ai_desktop_assistant.Security.Trace.{take_ready_resume-IsBacked}

abbrev printer : Printer
printer = record { print_value = λ v. "value"; print_args = λ args. "map[]" }

abbrev rm_rule : Rule
rm_rule = record {
  id = "rm_rf_root";
  matches = λ cmd. contains cmd "rm -rf /";
  action = deny;
  reason = "delete";
}

abbrev push_rule : Rule
push_rule = record {
  id = "git_push";
  matches = λ cmd. contains cmd "git push";
  action = confirm;
  reason = "push";
}

abbrev guard : PermissionGuard
guard = record {
  session_allow = [];
  pending = [];
  awaiting = [];
  deny_rules = rm_rule ∷ [];
  confirm_rules = push_rule ∷ [];
  write_tools = ("write_file", true) ∷ [];
  command_tools = ("run_command", true) ∷ ("run_script", true) ∷ [];
  delete_tools = ("delete_file", true) ∷ [];
  deny_streak = ("s", 4) ∷ [];
  circuit_limit = 5;
}

abbrev command : String → Args
command c = some (("command", text c) ∷ [])

program : Unit {0}
unfolding check check_command check_policy first_match is_allowed streak_of inc_deny is_read_tool
    extract_command tool_sig tool_summary contains lookup insert delete create_pending decimal
    approve grant allow_key approved_resume take_ready_resume reject revoke clear_awaiting
    new_permission_guard
program = tt

push_confirms : (check printer guard "s" "run_command" (command "git push")).1.rule_id ≡ "git_push"
unfolding program
push_confirms = refl

rm_denied :
    let (g, d) = check printer guard "s" "run_command" (command "rm -rf /") in
    (d.action ≡ deny) × (streak_of g "s" ≡ 5)
unfolding program
rm_denied = (refl, refl)

check-allow_example : (streak_of guard "s" < 5) × Grounds printer guard "s" "browser" none
unfolding program
check-allow_example = check-allow printer guard "s" "browser" none refl

check-deny_example :
    let (g', d) = check printer guard "s" "run_command" (command "rm -rf /") in
    (d.action ≡ deny) × ((streak_of g' "s" ≡ streak_of guard "s" + 1) ⊎ (5 ≤ streak_of guard "s"))
unfolding program
check-deny_example =
    check-deny printer guard "s" "run_command" (command "rm -rf /") rm_rule (Memᴰ.head refl) refl
      refl refl refl refl

abbrev decision : Decision
decision = record {
  action = confirm;
  rule_id = "git_push";
  reason = "push";
  tool = "run_command";
  summary = "";
}

abbrev waits : PermissionGuard × PendingConfirm
waits = create_pending printer 42 "s" "run_command" (command "git push") decision guard

approve-create_pending_example :
    let (g', approved) = approve printer waits.1.id "once" waits.0 in
    let (taken, resume) = take_ready_resume "s" g' in
    (approved ≡ some waits.1)
    × (resume ≡ some (resume_of printer waits.1 waits.1.id))
    × ((take_ready_resume "s" taken).1 ≡ none)
approve-create_pending_example =
    approve-create_pending printer 42 "s" "run_command" (command "git push") decision guard "once"

reject-create_pending_example :
    let (g', found) = reject waits.1.id waits.0 in
    (found ≡ true)
    × (get_pending waits.1.id g' ≡ none)
    × (take_ready_resume "s" g' ≡ (g', none))
    × (streak_of g' "s" ≡ streak_of guard "s" + 1)
reject-create_pending_example =
    reject-create_pending printer 42 "s" "run_command" (command "git push") decision guard

check-approve_other_example :
    (check printer (approve printer "perm-1" "always" guard).0 "t" "run_command" none).1
    ≡ (check printer guard "t" "run_command" none).1
unfolding lookup
check-approve_other_example =
    check-approve_other printer "perm-1" "always" guard "t" "run_command" none (λ p h. cc)

check-approve_example :
    let g' = (approve printer waits.1.id "session" waits.0).0 in
    (streak_of g' "s" ≡ 0)
    × ((check printer g' "s" "run_command" (command "rm -rf /")).1.action ≡ allow)
unfolding program
check-approve_example =
    check-approve printer waits.1.id "session" waits.0 waits.1 "run_command" (command "rm -rf /")
      refl (omega arith) (inr (inl refl))

abbrev history : List Op
history = approve_id "perm-7" "once" ∷ create 7 "s" "run_command" (command "git push") decision ∷ []

take_ready_resume-IsBacked_example :
    IsCreated history "s" "run_command" (command "git push") × IsApproved history "perm-7"
unfolding program run apply
take_ready_resume-IsBacked_example =
    take_ready_resume-IsBacked printer (rm_rule ∷ []) (push_rule ∷ []) history "s"
      (record {
        session_id = "s";
        tool = "run_command";
        args = command "git push";
        reason = "push";
        perm_id = "perm-7";
        ready = true;
      })
      refl
