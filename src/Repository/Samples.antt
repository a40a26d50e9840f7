-- ===== src/Repository/Samples.antt =====
-- Small repositories, and the theorems about them there.
use ai_desktop_assistant.Common.{◌≡◌, String, List, [], ◌∷◌}
use ai_desktop_assistant.Common.Int.{pos}
use ai_desktop_assistant.Common.Map.{lookup, insert, delete}
use ai_desktop_assistant.Engine.Types.{tool_called}
use ai_desktop_assistant.Repository.Entities
use ai_desktop_assistant.Repository.Entities.{
  SessionEntity, new_session_entity, complete, MessageEntity, new_user_message,
  new_assistant_message, MilestoneVo, is_active,
}
use ai_desktop_assistant.Repository.Sessions.{
  Sessions, save_session, find_session, delete_session, list_active, active_from,
}
use ai_desktop_assistant.Repository.Messages.{
  save_message, save_batch, list_messages, count_messages,
}
use ai_desktop_assistant.Repository.Milestones.{save_milestone, list_milestones}
use ai_desktop_assistant.Repository.CoreMemory.{
  CoreMemory, new_core_memory, save_memory, list_by_user, items_from,
}
use ai_desktop_assistant.Repository.Saved.{list_messages-save_batch, save_milestones}

program : Unit {0}
unfolding lookup insert delete new_session_entity complete new_user_message new_assistant_message
    is_active save_session find_session delete_session list_active active_from save_message
    save_batch list_messages count_messages save_milestone list_milestones new_core_memory
    save_memory list_by_user items_from save_milestones
program = tt

abbrev message : String → String → MessageEntity
message session content = record {
  id = content;
  session_id = session;
  role = Entities.role_user;
  content = content;
  tool_name = "";
  tool_call_id = "";
  step = 0;
  token_count = 0;
  priority = Entities.high;
  created_at = 0;
}

abbrev batch : List MessageEntity
batch = message "s" "one" ∷ message "t" "two" ∷ message "s" "three" ∷ []

list_messages-save_batch_example :
    (list_messages "s" (pos 1) (save_batch batch []) ≡ message "s" "three" ∷ [])
    × (count_messages "s" (save_batch batch []) ≡ 2)
unfolding program
list_messages-save_batch_example = list_messages-save_batch batch "s" (pos 1) []

abbrev note : String → MilestoneVo
note content = record { type = tool_called; content = content; step = 1; timestamp = 0 }

abbrev session : String → String → SessionEntity
session id status = record {
  id = id;
  agent_id = "a";
  user_id = "u";
  title = "t";
  status = status;
  message_count = 0;
  token_used = 0;
  working_dir = "";
  metadata = [];
  created_at = 0;
  updated_at = 0;
}

abbrev sessions : Sessions
sessions =
    ("1", session "1" "ACTIVE") ∷ ("2", session "2" "COMPLETED") ∷ ("3", session "3" "ACTIVE") ∷ []

abbrev memory : CoreMemory
memory = record {
  items =
      record {
        id = 1;
        user_id = "u";
        category = "TASK_CHANGE";
        content = "old";
        source = "milestone";
      }
      ∷ [];
  seq = 1;
}
