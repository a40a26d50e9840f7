-- ===== src/Milestones/Samples.antt =====
-- A tracker of two sessions, and the theorems about it.
use ai_desktop_assistant.Common.{◌≡◌, refl, String, List, some, [], ◌∷◌, arith}
use ai_desktop_assistant.Common.Map.{lookup, insert}
use ai_desktop_assistant.Engine.Types.{tool_called}
use ai_desktop_assistant.Repository.Entities.{MilestoneVo}
use ai_desktop_assistant.Repository.Milestones.{Milestones, save_milestone, list_milestones}
use ai_desktop_assistant.Repository.Saved.{save_milestones}
use ai_desktop_assistant.Milestones.{add_milestone, get_milestones}
use ai_desktop_assistant.Milestones.Cache.{
  started, add_milestones, get_milestones-add_milestones, get_milestones-add_milestone,
}

abbrev note : String → MilestoneVo
note content = record { type = tool_called; content = content; step = 1; timestamp = 0 }

abbrev notes : List (String × MilestoneVo)
notes = ("s", note "a") ∷ ("t", note "b") ∷ ("s", note "c") ∷ ("s", note "d") ∷ []

program : Unit {0}
unfolding lookup insert add_milestone get_milestones save_milestone list_milestones save_milestones
    add_milestones
program = tt

get_milestones-add_milestones_example :
    let t = add_milestones notes (started 2 []) in
    ((get_milestones "s" t).1 ≡ note "c" ∷ note "d" ∷ [])
    × ((get_milestones "s" (started 2 (save_milestones notes []))).1 ≡ (get_milestones "s" t).1)
unfolding program
get_milestones-add_milestones_example =
    get_milestones-add_milestones 2 (omega arith) notes "s" (omega arith)

abbrev stored : Milestones
stored = ("s", note "a" ∷ note "b" ∷ []) ∷ []

get_milestones-add_milestone_example :
    (get_milestones "s" (add_milestone "s" (some (note "c")) (started 10 stored))).1 ≡ note "c" ∷ []
unfolding program
get_milestones-add_milestone_example =
    get_milestones-add_milestone "s" (note "c") (started 10 stored) (omega arith) refl
