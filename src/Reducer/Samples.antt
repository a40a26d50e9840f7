-- ===== src/Reducer/Samples.antt =====
-- The reducers on a small history.
use mathlib.Core.List.{Sublistᴰ}
use ai_desktop_assistant.Common.{
  ◌≡◌, refl, String, false, none, some, List, [], ◌∷◌, keep_last, map,
}
use ai_desktop_assistant.Common.Int.{pos, negsuc}
use ai_desktop_assistant.History.{
  Message, absent, times_0_7, estimate_string, estimate_tokens, priority_of,
}
use ai_desktop_assistant.Reducer.{
  sliding_reduce, priority_reduce, hybrid_reduce, hybrid_keep, same_message,
}
use ai_desktop_assistant.Reducer.Order.{hybrid_reduce-Sublist}
use ai_desktop_assistant.Reducer.Recent.{hybrid_reduce-recent}
use ai_desktop_assistant.Reducer.Budget.{IsWithin, hybrid_reduce-IsWithin}

-- The product in floats is below seven tenths where it falls short of a whole number.
times_0_7_values :
    map times_0_7 (1 ∷ 10 ∷ 90 ∷ 100 ∷ 170 ∷ 4000 ∷ []) ≡ 0 ∷ 7 ∷ 62 ∷ 70 ∷ 118 ∷ 2800 ∷ []
unfolding times_0_7
times_0_7_values = refl

abbrev message : String → String → String → Message
message id role content = record {
  is_nil = false;
  id = some id;
  role = some role;
  content = some content;
  priority = absent;
  tool_name = none;
  tool_call_id = none;
}

abbrev talk : List Message
talk =
    message "1" "user" "please list the files"
    ∷ message "2" "tool" "a b c d e f g h i j k l m n o p"
    ∷ message "3" "assistant" "there are sixteen files"
    ∷ message "4" "user" "thanks"
    ∷ []

program : Unit {0}
unfolding sliding_reduce priority_reduce hybrid_reduce hybrid_keep same_message estimate_string
    estimate_tokens priority_of
program = tt

-- Of the four messages the tool's one is of the lowest priority, and goes.
talk_reduced :
    hybrid_reduce (pos 46) talk
    ≡ message "1" "user" "please list the files"
      ∷ message "3" "assistant" "there are sixteen files"
      ∷ message "4" "user" "thanks"
      ∷ []
unfolding program
talk_reduced = refl

talk_unchanged : hybrid_reduce (negsuc 0) talk ≡ talk
unfolding program
talk_unchanged = refl

hybrid_reduce-Sublist_example : Sublistᴰ (hybrid_reduce (pos 45) talk) talk
hybrid_reduce-Sublist_example = hybrid_reduce-Sublist (pos 45) talk

hybrid_reduce-recent_example : keep_last 2 (hybrid_reduce (pos 5) talk) ≡ keep_last 2 talk
hybrid_reduce-recent_example = hybrid_reduce-recent (pos 5) talk

hybrid_reduce-IsWithin_example : IsWithin 45 (hybrid_reduce (pos 45) talk)
hybrid_reduce-IsWithin_example = hybrid_reduce-IsWithin (pos 45) talk
