-- ===== src/TaskPlan/Progress.antt =====
-- task_plan.go: how far a tool call moves a plan.
use ai_desktop_assistant.Common.{
  ℕ, suc, ◌+◌, ◌≤◌, ◌≡◌, refl, ◌↔◌, ◌⊎◌, inl, inr, String, Char, Bool, true, false, Option, none,
  some, List, [], ◌∷◌, arith, if◌then◌else◌, count_if, length, Bool-cases, ◌-◌, ◌≢◌, All,
}
use ai_desktop_assistant.Common.Text.{to_lower, trim_space}
use ai_desktop_assistant.TaskPlan.{
  Status, SubTask, TaskPlan, is_waiting, is_running, is_terminal, is_open, finish, pending_count,
  update_first, is_expected, advance_waiting, advance_plan, advance_with_tool, start_next,
  all_terminal, all_done,
}

abbrev pub one_if : Bool → ℕ
one_if b = if b then 1 else 0

-- A loop that finishes a task takes one open task away, and one that finds none changes nothing.
abbrev Finishes : (SubTask → Bool) → String → List SubTask → Type 0
Finishes p result ts = elim (update_first p (finish result) ts) [
  | none ↦ count_if p ts ≡ 0
  | some (t, us) ↦ suc (count_if is_open us) ≡ count_if is_open ts
]

module _ (p : SubTask → Bool) (result : String)
    (opens : (t : SubTask) → p t ≡ true → is_open t ≡ true) where
  update_first-Finishes : (ts : List SubTask) → Finishes p result ts
  unfolding update_first finish
  update_first-Finishes [] = refl
  update_first-Finishes (t ∷ ts) = elim (Bool-cases (p t)) [
    | inl yes_p ↦ ground (arith, opens t yes_p)
    | inr no_p ↦ ground (arith, update_first-Finishes ts)
  ]

open-waiting : (t : SubTask) → is_waiting t ≡ true → is_open t ≡ true
open-waiting t h = ground arith

open-running : (t : SubTask) → is_running t ≡ true → is_open t ≡ true
open-running t h = ground arith

open-expected :
    (lower : Char → Char) (tool : String) (t : SubTask)
    → is_expected lower tool t ≡ true
    → is_open t ≡ true
unfolding is_expected
open-expected lower tool t h = ground arith

count-open :
    (ts : List SubTask)
    → count_if is_running ts ≡ 0
    → count_if is_waiting ts ≡ 0
    → count_if is_open ts ≡ 0
count-open [] r w = refl
count-open (t ∷ ts) r w = ground (arith, count-open ts)

advance_waiting-count :
    (lower : Char → Char) (tool result : String) (p : TaskPlan)
    → count_if is_running p.sub_tasks ≡ 0
    → let (p', advanced) = advance_waiting lower tool result p in
      (count_if is_open p'.sub_tasks + one_if advanced ≡ count_if is_open p.sub_tasks)
      × (advanced ≡ false → count_if is_open p.sub_tasks ≡ 0)
unfolding advance_waiting
advance_waiting-count lower tool result p idle = ground (
  arith,
  update_first-Finishes (is_expected lower tool) result (open-expected lower tool) p.sub_tasks,
  update_first-Finishes is_waiting result open-waiting p.sub_tasks,
  count-open p.sub_tasks idle,
)

advance_plan-count :
    (lower : Char → Char) (tool result : String) (p : TaskPlan)
    → let (p', advanced) = advance_plan lower tool result p in
      (count_if is_open p'.sub_tasks + one_if advanced ≡ count_if is_open p.sub_tasks)
      × (advanced ≡ false → count_if is_open p.sub_tasks ≡ 0)
unfolding advance_plan
advance_plan-count lower tool result p = ground (
  arith,
  update_first-Finishes is_running result open-running p.sub_tasks,
  λ (idle : count_if is_running p.sub_tasks ≡ 0).
      advance_waiting-count lower (to_lower lower (trim_space tool)) result p idle,
)

-- A tool call finishes exactly one open task of the plan, whatever the tool is, and it reports that no
-- task advanced exactly when no task was open.
pub advance_with_tool-pending_count :
    (lower : Char → Char) (tool result : String) (p : Option TaskPlan)
    → let (p', advanced) = advance_with_tool lower tool result p in
      (pending_count p' + one_if advanced ≡ pending_count p)
      × ((advanced ≡ false) ↔ (pending_count p ≡ 0))
unfolding advance_with_tool pending_count
advance_with_tool-pending_count lower tool result none = ground arith
advance_with_tool-pending_count lower tool result (some p) =
    ground (arith, advance_plan-count lower tool result p)

abbrev pub Starts : List SubTask → Type 0
Starts ts = elim (update_first is_waiting (λ t. record t { status = Status.running }) ts) [
  | none ↦ count_if is_waiting ts ≡ 0
  | some (t, us) ↦
      (count_if is_open us ≡ count_if is_open ts)
      × (count_if is_running us ≡ suc (count_if is_running ts))
      × (count_if is_waiting ts ≡ suc (count_if is_waiting us))
]

pub update_first-Starts : (ts : List SubTask) → Starts ts
unfolding update_first
update_first-Starts [] = refl
update_first-Starts (t ∷ ts) = ground (arith, update_first-Starts ts)

pub start_next-pending_count :
    (p : Option TaskPlan) → pending_count (start_next p).0 ≡ pending_count p
unfolding start_next pending_count
start_next-pending_count none = refl
start_next-pending_count (some p) = ground (arith, update_first-Starts p.sub_tasks)

-- Every status is one that the code itself writes.
abbrev pub IsKnown : SubTask → Type 0
IsKnown t = (is_open t ≡ true) ⊎ (is_terminal t ≡ true)

all_terminal_iff :
    (ts : List SubTask) → All IsKnown ts → (all_terminal ts ≡ true) ↔ (count_if is_open ts ≡ 0)
unfolding all_terminal
all_terminal_iff [] h = ground arith
all_terminal_iff (t ∷ ts) (k, h) = ground (arith, all_terminal_iff ts h)

abbrev pub AllKnown : Option TaskPlan → Type 0
AllKnown none = Unit
AllKnown (some p) = All IsKnown p.sub_tasks

-- `AllDone` and `PendingCount` agree: a plan whose statuses are all among those that the code writes is
-- done exactly when it has no open task.
pub all_done-pending_count :
    (p : Option TaskPlan) → AllKnown p → (all_done p ≡ true) ↔ (pending_count p ≡ 0)
unfolding all_done pending_count
all_done-pending_count none h = ground arith
all_done-pending_count (some p) h = all_terminal_iff p.sub_tasks h

abbrev LeavesKnown : (SubTask → Bool) → (SubTask → SubTask) → List SubTask → Type 0
LeavesKnown p f ts = elim (update_first p f ts) [ none ↦ Unit | some (t, us) ↦ All IsKnown us ]

update_first-AllKnown :
    (p : SubTask → Bool) (f : SubTask → SubTask)
    → ((t : SubTask) → IsKnown (f t))
    → (ts : List SubTask) → All IsKnown ts
    → LeavesKnown p f ts
unfolding update_first
update_first-AllKnown p f keeps [] h = tt
update_first-AllKnown p f keeps (t ∷ ts) (k, h) =
    ground (arith, keeps t, update_first-AllKnown p f keeps ts h)

finish-IsKnown : (result : String) (t : SubTask) → IsKnown (finish result t)
unfolding finish
finish-IsKnown result t = inr refl

advance_with_tool-AllKnown :
    (lower : Char → Char) (tool result : String) (p : Option TaskPlan)
    → AllKnown p
    → AllKnown (advance_with_tool lower tool result p).0
unfolding advance_with_tool advance_plan advance_waiting
advance_with_tool-AllKnown lower tool result none h = tt
advance_with_tool-AllKnown lower tool result (some p) h =
    let tool' = to_lower lower (trim_space tool) in
    ground (
      arith,
      update_first-AllKnown is_running (finish result) (finish-IsKnown result) p.sub_tasks h,
      update_first-AllKnown (is_expected lower tool') (finish result) (finish-IsKnown result)
          p.sub_tasks h,
      update_first-AllKnown is_waiting (finish result) (finish-IsKnown result) p.sub_tasks h,
    )

start_next-AllKnown : (p : Option TaskPlan) → AllKnown p → AllKnown (start_next p).0
unfolding start_next
start_next-AllKnown none h = tt
start_next-AllKnown (some p) h = ground (
  arith,
  update_first-AllKnown is_waiting (λ t. record t { status = Status.running }) (λ t. inl refl)
      p.sub_tasks h,
)

-- What the engine does with the plan after each tool result: advance it and, if a task advanced, start
-- the next one.
unfoldable pub after_tool :
    (Char → Char) → String × String → Option TaskPlan → Option TaskPlan × Bool
after_tool lower (tool, result) p =
    let (p', advanced) = advance_with_tool lower tool result p in
    (if advanced then (start_next p').0 else p', advanced)

after_tool-pending_count :
    (lower : Char → Char) (call : String × String) (p : Option TaskPlan)
    → (pending_count (after_tool lower call p).0 + one_if (after_tool lower call p).1
        ≡ pending_count p)
      × (pending_count p ≢ 0 → (after_tool lower call p).1 ≡ true)
unfolding after_tool
after_tool-pending_count lower (tool, result) p = ground (
  arith,
  advance_with_tool-pending_count lower tool result p,
  start_next-pending_count (advance_with_tool lower tool result p).0,
)

pub after_tool-AllKnown :
    (lower : Char → Char) (call : String × String) (p : Option TaskPlan)
    → AllKnown p
    → AllKnown (after_tool lower call p).0
unfolding after_tool
after_tool-AllKnown lower (tool, result) p h =
    let (p', advanced) = advance_with_tool lower tool result p in
    elim (Bool-cases advanced) [
      | inl e ↦ rw e (start_next-AllKnown p' (advance_with_tool-AllKnown lower tool result p h))
      | inr e ↦ rw e (advance_with_tool-AllKnown lower tool result p h)
    ]

unfoldable pub after_tools :
    (Char → Char) → List (String × String) → Option TaskPlan → Option TaskPlan
unfolding after_tool
after_tools lower [] p = p
after_tools lower (call ∷ calls) p = after_tools lower calls (after_tool lower call p).0

after_tools-pending_count :
    (lower : Char → Char) (calls : List (String × String)) (p : Option TaskPlan)
    → pending_count (after_tools lower calls p) ≡ pending_count p - length calls
unfolding after_tools
after_tools-pending_count lower [] p = omega arith
after_tools-pending_count lower (call ∷ calls) p = ground (
  arith,
  after_tool-pending_count lower call p,
  after_tools-pending_count lower calls (after_tool lower call p).0,
)

after_tools-AllKnown :
    (lower : Char → Char) (calls : List (String × String)) (p : Option TaskPlan)
    → AllKnown p
    → AllKnown (after_tools lower calls p)
unfolding after_tools
after_tools-AllKnown lower [] p h = h
after_tools-AllKnown lower (call ∷ calls) p h =
    after_tools-AllKnown lower calls (after_tool lower call p).0
      (after_tool-AllKnown lower call p h)

-- A plan with known statuses is all done after as many tool calls as it had open tasks or more, and not
-- before: the tools' names and results do not matter.
pub after_tools-all_done :
    (lower : Char → Char) (calls : List (String × String)) (p : Option TaskPlan)
    → AllKnown p
    → (all_done (after_tools lower calls p) ≡ true) ↔ (pending_count p ≤ length calls)
after_tools-all_done lower calls p h = ground (
  arith,
  after_tools-pending_count lower calls p,
  all_done-pending_count (after_tools lower calls p) (after_tools-AllKnown lower calls p h),
)
