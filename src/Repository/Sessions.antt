-- ===== src/Repository/Sessions.antt =====
-- memory_session_repo.go
use ai_desktop_assistant.Common.{ℕ, suc, String, Option, List, [], ◌∷◌, if◌then◌else◌, leb, str_eq}
use ai_desktop_assistant.Common.Int.{ℤ, positive_or}
use ai_desktop_assistant.Common.Map.{Map, lookup, insert, delete}
use ai_desktop_assistant.Repository.Entities.{SessionEntity}

-- The map `sessions`.
abbrev pub Sessions : Type 0
Sessions = Map SessionEntity

unfoldable pub save_session : SessionEntity → Sessions → Sessions
save_session s r = insert s.id s r

unfoldable pub find_session : String → Sessions → Option SessionEntity
find_session id r = lookup id r

unfoldable pub find_by_user : String → Sessions → List SessionEntity
find_by_user user [] = []
find_by_user user ((id, s) ∷ r) =
    if str_eq s.user_id user then s ∷ find_by_user user r else find_by_user user r

unfoldable pub delete_session : String → Sessions → Sessions
delete_session id r = delete id r

-- The loop of `ListActive`, with the number of sessions found.
unfoldable pub active_from : ℕ → ℕ → Sessions → List SessionEntity
active_from limit found [] = []
active_from limit found ((id, s) ∷ r) =
    let more = active_from limit (suc found) r in
    let later = active_from limit found r in
    if str_eq s.status "ACTIVE" then (if leb limit (suc found) then s ∷ [] else s ∷ more) else later

unfoldable pub list_active : ℤ → Sessions → List SessionEntity
unfolding active_from
list_active limit r = active_from (positive_or 50 limit) 0 r
