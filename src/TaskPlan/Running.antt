-- ===== src/TaskPlan/Running.antt =====
-- task_plan.go: how many tasks of a plan run.
use ai_desktop_assistant.Common.{
  ℕ, ◌+◌, ◌-◌, ◌≤◌, ◌≡◌, ◌≢◌, refl, String, Char, Bool, true, false, Option, none, some, List, [],
  ◌∷◌, arith, count_if, Bool-cases, inl, inr,
}
use ai_desktop_assistant.Common.Text.{to_lower, trim_space}
use ai_desktop_assistant.TaskPlan.{
  SubTask, TaskPlan, is_waiting, is_running, is_open, finish, pending_count, update_first,
  is_expected, advance_waiting, advance_plan, advance_with_tool, start_next,
}
use ai_desktop_assistant.TaskPlan.Progress.{
  after_tool, update_first-Starts, start_next-pending_count,
}

unfoldable pub running_count : Option TaskPlan → ℕ
running_count none = 0
running_count (some p) = count_if is_running p.sub_tasks

-- What finishing a task does to the count of running tasks: `n` of those that pass the test run.
abbrev Stops : (SubTask → Bool) → String → ℕ → List SubTask → Type 0
Stops p result n ts = elim (update_first p (finish result) ts) [
  | none ↦ Unit
  | some (t, us) ↦ count_if is_running us + n ≡ count_if is_running ts
]

update_first-Stops_running : (result : String) (ts : List SubTask) → Stops is_running result 1 ts
unfolding update_first finish
update_first-Stops_running result [] = tt
update_first-Stops_running result (t ∷ ts) = ground (arith, update_first-Stops_running result ts)

none-running :
    (result : String) (ts : List SubTask)
    → update_first is_running (finish result) ts ≡ none
    → count_if is_running ts ≡ 0
unfolding update_first
none-running result [] h = refl
none-running result (t ∷ ts) h = ground (arith, none-running result ts)

module _ (p : SubTask → Bool) (result : String)
    (idle : (t : SubTask) → p t ≡ true → is_running t ≡ false) where
  update_first-Stops_waiting : (ts : List SubTask) → Stops p result 0 ts
  unfolding update_first finish
  update_first-Stops_waiting [] = tt
  update_first-Stops_waiting (t ∷ ts) = elim (Bool-cases (p t)) [
    | inl e ↦ ground (arith, idle t e)
    | inr e ↦ ground (arith, update_first-Stops_waiting ts)
  ]

idle-waiting : (t : SubTask) → is_waiting t ≡ true → is_running t ≡ false
idle-waiting t h = ground arith

idle-expected :
    (lower : Char → Char) (tool : String) (t : SubTask)
    → is_expected lower tool t ≡ true
    → is_running t ≡ false
unfolding is_expected
idle-expected lower tool t h = ground arith

-- Advancing ends the running task, if there is one.
advance_with_tool-running_count :
    (lower : Char → Char) (tool result : String) (p : Option TaskPlan)
    → running_count (advance_with_tool lower tool result p).0 ≡ running_count p - 1
unfolding advance_with_tool advance_plan advance_waiting running_count
advance_with_tool-running_count lower tool result none = omega arith
advance_with_tool-running_count lower tool result (some p) =
    let tool' = to_lower lower (trim_space tool) in
    ground (
      arith,
      none-running result p.sub_tasks,
      update_first-Stops_running result p.sub_tasks,
      update_first-Stops_waiting (is_expected lower tool') result (idle-expected lower tool')
          p.sub_tasks,
      update_first-Stops_waiting is_waiting result idle-waiting p.sub_tasks,
    )

count-open-le :
    (ts : List SubTask) → count_if is_open ts ≡ count_if is_waiting ts + count_if is_running ts
count-open-le [] = refl
count-open-le (t ∷ ts) = ground (arith, count-open-le ts)

-- Starting the next task adds one running task exactly when a task waits.
start_next-running_count :
    (p : Option TaskPlan)
    → (running_count (start_next p).0 ≤ running_count p + 1)
      × (running_count p ≢ pending_count p → running_count (start_next p).0 ≡ running_count p + 1)
unfolding start_next running_count pending_count
start_next-running_count none = ground arith
start_next-running_count (some p) =
    ground (arith, update_first-Starts p.sub_tasks, count-open-le p.sub_tasks)

-- Where at most one task runs before a tool call, at most one runs after it; and if the call advanced the
-- plan and a task is still open, exactly one runs.
pub after_tool-running_count :
    (lower : Char → Char) (call : String × String) (p : Option TaskPlan)
    → running_count p ≤ 1
    → let (p', advanced) = after_tool lower call p in
      (running_count p' ≤ 1) × (advanced ≡ true → pending_count p' ≢ 0 → running_count p' ≡ 1)
unfolding after_tool
after_tool-running_count lower (tool, result) p h =
    let q = (advance_with_tool lower tool result p).0 in
    ground (
      arith,
      advance_with_tool-running_count lower tool result p,
      start_next-running_count q,
      start_next-pending_count q,
    )
