-- ===== src/Repository/CoreMemory.antt =====
-- memory_milestone_repo.go, the long-term memory.
use ai_desktop_assistant.Common.{
  ℕ, suc, ◌+◌, ◌++◌, String, ◌&&◌, List, [], ◌∷◌, reverse, if◌then◌else◌, ltb, leb, str_eq,
}
use ai_desktop_assistant.Common.Int.{ℤ, pos_part}

pub record CoreMemoryItem : Type 0 where
  pub id : ℕ
  pub user_id : String
  pub category : String
  pub content : String
  pub source : String

pub record CoreMemory : Type 0 where
  pub items : List CoreMemoryItem
  pub seq : ℕ

unfoldable pub new_core_memory : CoreMemory
new_core_memory = record { items = []; seq = 0 }

unfoldable pub save_memory : String → String → String → String → String → CoreMemory → CoreMemory
save_memory user session category content source r =
    let item : CoreMemoryItem = record {
      id = r.seq + 1;
      user_id = user;
      category = category;
      content = content;
      source = source;
    } in
    record { items = r.items ++ item ∷ []; seq = r.seq + 1 }

-- The loop of `ListByUser` over the items from the last to the first, with the number found.
unfoldable pub items_from : String → ℤ → ℕ → List CoreMemoryItem → List CoreMemoryItem
items_from user limit found [] = []
items_from user limit found (x ∷ xs) =
    let more = items_from user limit (suc found) xs in
    let later = items_from user limit found xs in
    if str_eq x.user_id user
    then (if ltb 0 (pos_part limit) && leb (pos_part limit) (suc found) then x ∷ [] else x ∷ more)
    else later

unfoldable pub list_by_user : String → ℤ → CoreMemory → List CoreMemoryItem
unfolding items_from
list_by_user user limit r = items_from user limit 0 (reverse r.items)
