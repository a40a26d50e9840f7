-- ===== src/Milestones.antt =====
-- internal/domain/agent/service/prompt/milestone_tracker.go: the milestones of the sessions, cached before a
-- repository. The repository is the one in memory, where there is one. `DetectAndRecord` is modelled up to
-- the type that it finds: it cuts the content by bytes, which can leave no valid text.
pub mod Cache
mod Samples
use ai_desktop_assistant.Common.{
  ℕ, String, Char, Bool, true, false, ◌||◌, Option, none, some, List, [], ◌∷◌, ◌++◌, if◌then◌else◌,
  str_eq, is_empty, length,
}
use ai_desktop_assistant.Common.Int.{ℤ, pos, positive_or}
use ai_desktop_assistant.Common.Map.{Map, lookup_or, insert, delete}
use ai_desktop_assistant.Common.Text.{is_blank, to_lower}
use ai_desktop_assistant.Engine.Types.{
  MilestoneType, task_complete, task_change, tool_called, tool_error, user_input, user_correction,
}
use ai_desktop_assistant.Repository.Entities.{MilestoneVo, is_of_type}
use ai_desktop_assistant.Repository.Milestones.{
  Milestones, at_most, save_milestone, list_milestones, delete_milestones,
}

pub record MilestoneTracker : Type 0 where
  pub milestones : Map (List MilestoneVo)
  pub max_history : ℕ
  pub repo : Option Milestones

unfoldable pub new_milestone_tracker : ℤ → MilestoneTracker
new_milestone_tracker max_history = record {
  milestones = [];
  max_history = positive_or 100 max_history;
  repo = none;
}

unfoldable pub set_repository : Milestones → MilestoneTracker → MilestoneTracker
set_repository repo t = record t { repo = some repo }

abbrev on_repo : (Milestones → Milestones) → Option Milestones → Option Milestones
on_repo f none = none
on_repo f (some r) = some (f r)

-- A nil milestone is `none`.
unfoldable pub add_milestone : String → Option MilestoneVo → MilestoneTracker → MilestoneTracker
add_milestone session none t = t
add_milestone session (some m) t =
    let history = at_most t.max_history (lookup_or [] session t.milestones ++ m ∷ []) in
    record t {
      milestones = insert session history t.milestones;
      repo = on_repo (save_milestone session (some m)) t.repo;
    }

-- A session with nothing cached is read from the repository.
unfoldable pub get_milestones : String → MilestoneTracker → MilestoneTracker × List MilestoneVo
get_milestones session t =
    let src = lookup_or [] session t.milestones in
    if is_empty src
    then elim t.repo [
      | none ↦ (t, [])
      | some r ↦
          let list = list_milestones session (pos t.max_history) r in
          if is_empty list
          then (t, [])
          else (record t { milestones = insert session list t.milestones }, list)
    ]
    else (t, src)

abbrev last_step : List MilestoneVo → ℕ
last_step [] = 0
last_step (m ∷ []) = m.step
last_step (m ∷ ms) = last_step ms

unfoldable pub get_last_step : String → MilestoneTracker → MilestoneTracker × ℕ
unfolding get_milestones
get_last_step session t = let (t', history) = get_milestones session t in (t', last_step history)

unfoldable pub clear_session : String → MilestoneTracker → MilestoneTracker
clear_session session t = record t {
  milestones = delete session t.milestones;
  repo = on_repo (delete_milestones session) t.repo;
}

unfoldable pub those_of_type : MilestoneType → List MilestoneVo → List MilestoneVo
unfolding is_of_type
those_of_type type [] = []
those_of_type type (m ∷ ms) =
    if is_of_type type m then m ∷ those_of_type type ms else those_of_type type ms

unfoldable pub get_milestones_by_type :
    String → MilestoneType → MilestoneTracker → MilestoneTracker × List MilestoneVo
unfolding get_milestones those_of_type
get_milestones_by_type session type t =
    let (t', history) = get_milestones session t in (t', those_of_type type history)

-- The five regular expressions, by what they match.
pub record Patterns : Type 0 where
  pub regret : String → Bool
  pub direction : String → Bool
  pub correction : String → Bool
  pub tool_error : String → Bool
  pub complete : String → Bool

-- The type of milestone in a message, if it is one.
unfoldable pub detect_type : Patterns → (Char → Char) → String → String → Option MilestoneType
detect_type p lower role content =
    let low = to_lower lower role in
    if str_eq low "user"
    then (if p.regret content || p.correction content
        then some user_correction
        else if p.direction content
        then some task_change
        else if p.complete content
        then some task_complete
        else some user_input)
    else if str_eq low "tool"
    then some (if p.tool_error content then tool_error else tool_called)
    else if str_eq low "assistant"
    then (if p.complete content then some task_complete else none)
    else none
