-- ===== src/TaskPlan.antt =====
-- internal/domain/agent/model/valobj/task_plan.go. A nil `*TaskPlan` is `none`; a method that changes
-- the plan returns the new one. Indices count from 1 and are natural numbers.
pub mod Progress
pub mod Running
mod Samples
use Prim.Native.String.{◌++◌ as append}
use ai_desktop_assistant.Common.{
  ℕ, zero, suc, ◌+◌, String, Char, Bool, true, false, ◌&&◌, ◌||◌, not, Option, none, some, List, [],
  ◌∷◌, if◌then◌else◌, ◌==◌, str_eq, is_empty, count_if,
}
use ai_desktop_assistant.Common.Text.{
  to_lower, trim_space, contains, split_on, truncate_with, is_blank, of_runes,
}

-- `SubTask.Status`: the texts that the code compares with, and any other.
pub data Status : Type 0 where
  unset pending running done failed skipped : Status
  other : String → Status

pub record SubTask : Type 0 where
  pub index : ℕ
  pub title : String
  pub description : String
  pub expected_tools : String
  pub status : Status
  pub result : String

pub record TaskPlan : Type 0 where
  pub original_request : String
  pub summary : String
  pub need_confirm : Bool
  pub sub_tasks : List SubTask
  pub source : String
  pub current_index : ℕ

abbrev pub is_waiting_status : Status → Bool
is_waiting_status unset = true
is_waiting_status pending = true
is_waiting_status _ = false

abbrev pub is_running_status : Status → Bool
is_running_status running = true
is_running_status _ = false

abbrev pub is_terminal_status : Status → Bool
is_terminal_status done = true
is_terminal_status skipped = true
is_terminal_status failed = true
is_terminal_status _ = false

-- `st.Status == "" || st.Status == "pending"`
abbrev pub is_waiting : SubTask → Bool
is_waiting t = is_waiting_status t.status

abbrev pub is_running : SubTask → Bool
is_running t = is_running_status t.status

abbrev pub is_terminal : SubTask → Bool
is_terminal t = is_terminal_status t.status

abbrev pub is_open : SubTask → Bool
is_open t = is_waiting t || is_running t

unfoldable pub truncate_result : String → ℕ → String
unfolding truncate_with
truncate_result s n = truncate_with "..." n s

unfoldable pub finish : String → SubTask → SubTask
finish result t = record t { status = done; result = truncate_result result 200 }

unfoldable pub pending_count : Option TaskPlan → ℕ
pending_count none = 0
pending_count (some p) = count_if is_open p.sub_tasks

-- The loops that change the first task that passes a test and return: that task as it was, and the
-- list with it changed.
unfoldable pub update_first :
    (SubTask → Bool) → (SubTask → SubTask) → List SubTask → Option (SubTask × List SubTask)
update_first p f [] = none
update_first p f (t ∷ ts) =
    if p t
    then some (t, f t ∷ ts)
    else elim (update_first p f ts) [ none ↦ none | some (u, us) ↦ some (u, t ∷ us) ]

unfoldable pub mark_done : ℕ → String → Option TaskPlan → Option TaskPlan
mark_done index result none = none
mark_done index result (some p) =
    elim (update_first (λ t. t.index == index) (finish result) p.sub_tasks) [
      | none ↦ some p
      | some (t, ts) ↦ some (record p { sub_tasks = ts })
    ]

-- The body of the loop of `MarkRunning`.
unfoldable pub mark_running_task : ℕ → SubTask → SubTask
mark_running_task index t =
    if t.index == index
    then record t { status = running }
    else if is_running t
    then record t { status = pending }
    else t

unfoldable pub mark_running_tasks : ℕ → List SubTask → List SubTask
mark_running_tasks index [] = []
mark_running_tasks index (t ∷ ts) = mark_running_task index t ∷ mark_running_tasks index ts

unfoldable pub has_index : ℕ → List SubTask → Bool
has_index index [] = false
has_index index (t ∷ ts) = if t.index == index then true else has_index index ts

unfoldable pub mark_running : ℕ → Option TaskPlan → Option TaskPlan
unfolding mark_running_tasks has_index
mark_running index none = none
mark_running index (some p) = some (record p {
  sub_tasks = mark_running_tasks index p.sub_tasks;
  current_index = if has_index index p.sub_tasks then index else p.current_index;
})

-- The loop of `toolMatchesExpected` over the parts of `expected`.
unfoldable pub matches_part : (Char → Char) → String → List String → Bool
unfolding to_lower trim_space contains
matches_part lower tool [] = false
matches_part lower tool (part ∷ parts) =
    let name = to_lower lower (trim_space part) in
    if not (is_blank name) && (str_eq name tool || contains tool name || contains name tool)
    then true
    else matches_part lower tool parts

unfoldable pub tool_matches_expected : (Char → Char) → String → String → Bool
unfolding matches_part split_on
tool_matches_expected lower tool expected = matches_part lower tool (split_on "," expected)

module _ (lower : Char → Char) where
  -- The second loop's test, on the lowered tool name.
  unfoldable pub is_expected : String → SubTask → Bool
  is_expected tool t =
      is_waiting t
      && not (is_blank t.expected_tools)
      && tool_matches_expected lower tool t.expected_tools

  -- The second and third loop of `AdvanceWithTool`.
  unfoldable pub advance_waiting : String → String → TaskPlan → TaskPlan × Bool
  advance_waiting tool result p =
      elim (update_first (is_expected tool) (finish result) p.sub_tasks) [
        | some (t, ts) ↦ (record p { sub_tasks = ts; current_index = t.index }, true)
        | none ↦ elim (update_first is_waiting (finish result) p.sub_tasks) [
          | some (t, ts) ↦ (record p { sub_tasks = ts; current_index = t.index }, true)
          | none ↦ (p, false)
        ]
      ]

  unfoldable pub advance_plan : String → String → TaskPlan → TaskPlan × Bool
  advance_plan tool result p = elim (update_first is_running (finish result) p.sub_tasks) [
    | some (t, ts) ↦ (record p { sub_tasks = ts }, true)
    | none ↦ advance_waiting (to_lower lower (trim_space tool)) result p
  ]

  unfoldable pub advance_with_tool : String → String → Option TaskPlan → Option TaskPlan × Bool
  advance_with_tool tool result none = (none, false)
  advance_with_tool tool result (some p) =
      if is_empty p.sub_tasks
      then (some p, false)
      else let (p', advanced) = advance_plan tool result p in (some p', advanced)

unfoldable pub start_plan : TaskPlan → TaskPlan × Option SubTask
start_plan p = elim (update_first is_waiting (λ t. record t { status = running }) p.sub_tasks) [
  | none ↦ (p, none)
  | some (t, ts) ↦
      (record p { sub_tasks = ts; current_index = t.index }, some (record t { status = running }))
]

unfoldable pub start_next : Option TaskPlan → Option TaskPlan × Option SubTask
unfolding start_plan
start_next none = (none, none)
start_next (some p) = let (p', t) = start_plan p in (some p', t)

-- The loop of `AllDone`.
unfoldable pub all_terminal : List SubTask → Bool
all_terminal [] = true
all_terminal (t ∷ ts) = if not (is_terminal t) then false else all_terminal ts

unfoldable pub all_done : Option TaskPlan → Bool
unfolding all_terminal
all_done none = true
all_done (some p) = all_terminal p.sub_tasks

unfoldable pub status_text : Status → String
status_text unset = "pending"
status_text pending = "pending"
status_text running = "running"
status_text done = "done"
status_text failed = "failed"
status_text skipped = "skipped"
status_text (other s) = s

-- The lines of `StringForPrompt` for one task.
unfoldable pub task_lines : SubTask → String
unfolding status_text
task_lines t =
    let head = append "- [" (append (status_text t.status) (append "] " t.title)) in
    let tools =
      if is_blank t.expected_tools then "" else append " (工具: " (append t.expected_tools ")") in
    let body = append "\n  " (append t.description "\n") in
    let result = if is_blank t.result then "" else append "  结果: " (append t.result "\n") in
    append head (append tools (append body result))

unfoldable pub tasks_text : List SubTask → String
unfolding task_lines
tasks_text [] = ""
tasks_text (t ∷ ts) = append (task_lines t) (tasks_text ts)

unfoldable pub string_for_prompt : Option TaskPlan → String
unfolding tasks_text all_done
string_for_prompt none = ""
string_for_prompt (some p) =
    if is_empty p.sub_tasks
    then ""
    else append "任务计划: " (
        append p.summary (
          append "\n" (
            append (tasks_text p.sub_tasks)
              (if all_done (some p) then "（计划已全部完成，请汇总回答）\n" else ""))))
