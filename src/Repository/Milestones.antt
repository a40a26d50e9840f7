-- ===== src/Repository/Milestones.antt =====
-- memory_milestone_repo.go, the milestones.
use ai_desktop_assistant.Common.{
  ℕ, ◌++◌, String, Option, none, some, List, [], ◌∷◌, if◌then◌else◌, ltb, length, keep_last,
}
use ai_desktop_assistant.Common.Int.{ℤ}
use ai_desktop_assistant.Common.Map.{Map, lookup_or, insert, delete}
use ai_desktop_assistant.Repository.Entities.{MilestoneVo}
use ai_desktop_assistant.Repository.Messages.{last_of}

-- The map `data`.
abbrev pub Milestones : Type 0
Milestones = Map (List MilestoneVo)

-- `if len(xs) > n { xs = xs[len(xs)-n:] }`
abbrev pub at_most {ℓ} : {A : Type ℓ} → ℕ → List A → List A
at_most n xs = if ltb n (length xs) then keep_last n xs else xs

-- A nil milestone is `none`.
unfoldable pub save_milestone : String → Option MilestoneVo → Milestones → Milestones
save_milestone session none r = r
save_milestone session (some m) r =
    insert session (at_most 100 (lookup_or [] session r ++ m ∷ [])) r

unfoldable pub list_milestones : String → ℤ → Milestones → List MilestoneVo
list_milestones session limit r = last_of limit (lookup_or [] session r)

unfoldable pub delete_milestones : String → Milestones → Milestones
delete_milestones session r = delete session r
