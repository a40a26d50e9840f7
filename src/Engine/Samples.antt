-- ===== src/Engine/Samples.antt =====
-- A run of the engine on two scripted answers of the model, and the theorems about it there.
use ai_desktop_assistant.Common.{
  ℕ, zero, suc, ◌≤◌, ◌≡◌, ◌≢◌, refl, String, Bool, true, false, Option, none, some, [], ◌∷◌, arith,
  length, All, is_empty, subst,
}
use ai_desktop_assistant.Common.Map.{lookup}
use ai_desktop_assistant.Common.Text.{
  contains, runes, of_runes, is_prefix, split_at, trim_runes, trim_left, is_infix,
}
use ai_desktop_assistant.Values.{text, Args, Printer}
use ai_desktop_assistant.Security.{
  confirm, Rule, PermissionGuard, new_permission_guard, check, check_command, check_policy,
  first_match, is_allowed, streak_of, is_read_tool, extract_command, tool_sig, tool_summary,
  approve,
}
use ai_desktop_assistant.Engine.Types.{
  ToolCall, ChatResponse, Reply, reply, failure, result, Decoder, class_none, State, Env,
}
use ai_desktop_assistant.Engine.Config.{default_loop_config}
use ai_desktop_assistant.Engine.Parse.{
  fenced, to_last_brace, braced, decode_calls, next_part, parse_tool_calls, parse_response,
}
use ai_desktop_assistant.Engine.Calls.{gated_call}
use ai_desktop_assistant.Engine.Run.{resume_run, run, diverged}
use ai_desktop_assistant.Engine.Effects.{tool_rows}
use ai_desktop_assistant.Engine.Frame.{ending_state}
use ai_desktop_assistant.Engine.Resume.{InOrder, run-InOrder}
use ai_desktop_assistant.Engine.Bounds.{run-IsCounted}
use ai_desktop_assistant.Engine.Attempts.{run-generated}
use ai_desktop_assistant.Engine.Endless.{IsAnswered, run-never, run-IsAnswered}
use ai_desktop_assistant.Engine.Confirm.{asked, info_of, gated_call-confirm, gated_call-resume_run}

abbrev printer : Printer
printer = record { print_value = λ v. "value"; print_args = λ args. "map[]" }

abbrev push_rule : Rule
push_rule = record {
  id = "git_push";
  matches = λ cmd. contains cmd "git push";
  action = confirm;
  reason = "push";
}

abbrev guard : PermissionGuard
guard = new_permission_guard [] (push_rule ∷ [])

abbrev push : ToolCall
push = record { id = "1"; name = "run_command"; args = some (("command", text "git push") ∷ []) }

-- Only the text `{"name":"echo"}` is a call.
abbrev echo_decoder : Decoder
echo_decoder = record { single = λ t. if_echo (contains t "echo"); multi = λ t. none }
  where
    if_echo : Bool → Option (String × Args)
    if_echo true = some ("echo", none)
    if_echo false = none

abbrev answers : ℕ → Reply
answers zero = reply (record { content = ""; tool_calls = push ∷ []; total_tokens = 10 })
answers (suc n) = reply (record { content = "done"; tool_calls = []; total_tokens = 3 })

abbrev env : Env
env = record {
  printer = printer;
  lower = λ c. c;
  session = "s";
  user_input = "push it";
  has_context = true;
  auto_approve = false;
  continuing = false;
  intent = "TASK_PLAN";
  skill_id = "";
  generate = λ n messages. answers n;
  execute = λ n tc. result "ok";
  cancelled = λ step. false;
  now = λ n. 42;
  sign = λ calls. "sig";
  hash_id = λ tc. "1";
  format = λ calls. "[]";
  decoder = echo_decoder;
}

abbrev unread_answer : ChatResponse
unread_answer = record { content = "{}"; tool_calls = []; total_tokens = 0 }

abbrev unread_env : Env
unread_env = record env { generate = λ n messages. reply unread_answer; decoder = echo_decoder }

abbrev start : State
start = record {
  guard = some guard;
  task_plan = none;
  messages = [];
  saved = [];
  milestones = [];
  pushed = [];
  executed = [];
  events = [];
  generated = 0;
  total_tokens = 0;
  total_tool_calls = 0;
  final_answer = "";
  last_tool_sig = "";
  same_sig_count = 0;
  pending_perm = none;
  need_break = false;
  err_class = class_none;
  session_messages = 0;
  session_tokens = 0;
  session_saves = 0;
}

program : Unit {0}
unfolding default_loop_config check check_command check_policy first_match is_allowed streak_of
    is_read_tool extract_command tool_sig tool_summary contains is_infix is_prefix runes of_runes
    split_at trim_runes trim_left lookup fenced to_last_brace braced decode_calls next_part
    parse_tool_calls new_permission_guard
program = tt

run-InOrder_example :
    All (InOrder env guard) (ending_state (run env default_loop_config start)).executed
run-InOrder_example = run-InOrder env default_loop_config start guard refl refl refl

run-IsCounted_example :
    let s' = ending_state (run env default_loop_config start) in
    (s'.total_tool_calls ≤ 50)
    × (length s'.executed ≤ s'.total_tool_calls)
    × (tool_rows s'.saved ≡ length s'.executed)
unfolding program
run-IsCounted_example = run-IsCounted env default_loop_config start (omega arith) refl refl refl

run-generated_example : (ending_state (run env default_loop_config start)).generated ≤ 45
unfolding program
run-generated_example = run-generated env default_loop_config start

asks : (check printer guard "s" "run_command" push.args).1.action ≡ confirm
unfolding program
asks = refl

gated_call-confirm_example :
    let s' = gated_call env 1 push start in
    (s'.executed ≡ push ∷ [])
    × (s'.pending_perm ≡ some (info_of (asked env 1 push start guard).1))
    × (s'.need_break ≡ true)
    × (s'.guard ≡ some (asked env 1 push start guard).0)
gated_call-confirm_example = gated_call-confirm env 1 push start guard refl refl asks

gated_call-resume_run_example :
    let s' = gated_call env 1 push start in
    let waits = asked env 1 push start guard in
    let approved = (approve printer waits.1.id "once" waits.0).0 in
    let s'' =
      resume_run
        (record env { continuing = true })
        default_loop_config
        (record s' { guard = some approved }) in
    s''.executed ≡ record push { id = "" } ∷ push ∷ []
gated_call-resume_run_example =
    gated_call-resume_run env 1 push start guard refl refl asks default_loop_config "once"
      (record env { continuing = true }) refl refl

run-never_example : (t : State) × (run unread_env default_loop_config start ≡ diverged t)
unfolding program
run-never_example =
    run-never unread_env default_loop_config start unread_answer refl (omega arith) refl refl refl
      refl refl refl refl

abbrev echo_env : Env
echo_env = record env { decoder = echo_decoder }

abbrev IsRead : Reply → Type 0
IsRead (failure e) = Unit {0}
IsRead (reply r) = is_empty r.tool_calls ≡ true → parse_response echo_decoder r.content ≢ none

answers-IsRead : (n : ℕ) → IsRead (answers n)
unfolding program parse_response
answers-IsRead zero = λ e. absurd (ground (arith, e))
answers-IsRead (suc n) = λ e k. ground (arith, k)

run-IsAnswered_example :
    IsAnswered echo_env default_loop_config (run echo_env default_loop_config start)
run-IsAnswered_example =
    run-IsAnswered echo_env default_loop_config (λ n ms r h. subst IsRead h (answers-IsRead n))
      start
