-- ===== src/Breakdown/Samples.antt =====
-- A request of three steps, and the theorems about its plan.
use ai_desktop_assistant.Common.{◌≡◌, refl, true, false, none, [], ◌∷◌}
use ai_desktop_assistant.Common.Map.{lookup, insert}
use ai_desktop_assistant.Common.Text.{
  runes, of_runes, rune_count, trim_space, trim_runes, to_lower, contains, is_infix, is_prefix,
  split_seq, truncate_with,
}
use ai_desktop_assistant.TaskPlan.{TaskPlan}
use ai_desktop_assistant.Breakdown.{
  Planner, trimmed_chunks, split_parts, split_all, long_parts, split_steps, join_comma, guess_tools,
  should_breakdown, sub_tasks_of, rule_breakdown, new_breakdown, breakdown, rule_plan, get_plan,
}
use ai_desktop_assistant.Breakdown.Plans.{IsMade, breakdown-IsMade}

abbrev planner : Planner
planner = record {
  complex = λ msg. true;
  lower = λ c. c;
  has_llm = false;
  generate = λ msg. none;
  decode = λ text. none;
}

program : Unit {0}
unfolding lookup insert runes of_runes rune_count trim_space trim_runes to_lower contains is_infix
    is_prefix split_seq truncate_with trimmed_chunks split_parts split_all long_parts split_steps
    join_comma guess_tools should_breakdown sub_tasks_of rule_breakdown new_breakdown breakdown
    get_plan
program = tt

steps : split_steps "run it; then list ;x" ≡ "run it" ∷ "then list" ∷ []
unfolding program
steps = refl

breakdown-IsMade_example :
    IsMade planner "s" "run it; then list" [] (breakdown planner "s" "run it; then list" [])
unfolding program
breakdown-IsMade_example = breakdown-IsMade planner "s" "run it; then list" [] refl

abbrev plan : TaskPlan
plan = rule_plan planner "run it; then list" ("run it" ∷ "then list" ∷ [])
