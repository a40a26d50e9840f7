-- ===== src/TaskPlan/Samples.antt =====
-- task_plan.go on small plans, and the theorems about it at them.
use ai_desktop_assistant.Common.{
  ℕ, ◌≤◌, ◌≡◌, ◌≢◌, refl, ◌↔◌, inl, String, Char, true, false, Option, some, List, [], ◌∷◌, arith,
}
use ai_desktop_assistant.Common.Text.{trim_space, to_lower, split_on, contains}
use ai_desktop_assistant.TaskPlan.{
  Status, pending, done, SubTask, TaskPlan, finish, truncate_result, pending_count, update_first,
  mark_done, tool_matches_expected, advance_with_tool, advance_plan, advance_waiting, is_expected,
  start_next, all_done, string_for_prompt,
}
use ai_desktop_assistant.TaskPlan.Progress.{AllKnown, after_tool, after_tools, after_tools-all_done}
use ai_desktop_assistant.TaskPlan.Running.{running_count, after_tool-running_count}

abbrev same : Char → Char
same c = c

abbrev task : ℕ → Status → String → SubTask
task index status tools = record {
  index = index;
  title = "t";
  description = "d";
  expected_tools = tools;
  status = status;
  result = "";
}

abbrev two_steps : Option TaskPlan
two_steps = some (record {
  original_request = "r";
  summary = "s";
  need_confirm = false;
  sub_tasks = task 1 pending "list_files" ∷ task 2 pending "run_command, echo" ∷ [];
  source = "rule";
  current_index = 0;
})

program : Unit {0}
unfolding advance_with_tool advance_plan advance_waiting update_first is_expected
    tool_matches_expected finish truncate_result start_next all_done pending_count trim_space
    to_lower split_on contains
program = tt

-- The tool that the second task expects finishes the second task.
advances_expected :
    (advance_with_tool same " run_command" "ok" two_steps).0
    ≡ some (record {
      original_request = "r";
      summary = "s";
      need_confirm = false;
      sub_tasks =
          task 1 pending "list_files"
          ∷ record (task 2 done "run_command, echo") { result = "ok" }
          ∷ [];
      source = "rule";
      current_index = 2;
    })
unfolding program
advances_expected = refl

prompt_of_plan :
    string_for_prompt (mark_done 1 "ok" two_steps)
    ≡ "任务计划: s\n- [done] t (工具: list_files)\n  d\n  结果: ok\n- [pending] t (工具: run_command, echo)\n  d\n"
unfolding program string_for_prompt mark_done
prompt_of_plan = refl

two_steps-AllKnown : AllKnown two_steps
two_steps-AllKnown = (inl refl, (inl refl, tt))

abbrev calls : List (String × String)
calls = ("echo", "a") ∷ ("get_time", "b") ∷ []

after_tools-all_done_example :
    (all_done (after_tools same calls two_steps) ≡ true) ↔ (pending_count two_steps ≤ 2)
after_tools-all_done_example = after_tools-all_done same calls two_steps two_steps-AllKnown

after_tool-running_count_example :
    let (p', advanced) = after_tool same ("echo", "ok") two_steps in
    (running_count p' ≤ 1) × (advanced ≡ true → pending_count p' ≢ 0 → running_count p' ≡ 1)
unfolding running_count
after_tool-running_count_example =
    after_tool-running_count same ("echo", "ok") two_steps (omega arith)
