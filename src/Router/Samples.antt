-- ===== src/Router/Samples.antt =====
-- A router with a model of weight two, and the theorem about it there.
use ai_desktop_assistant.Common.{◌≡◌, refl, [], ◌∷◌, str_eq, count_if}
use ai_desktop_assistant.Common.Int.{pos}
use ai_desktop_assistant.Common.Map.{lookup, insert}
use ai_desktop_assistant.Common.Text.{to_lower, runes, of_runes}
use ai_desktop_assistant.Router.{
  ModelProfile, new_model_router, append_unique, repeat, weight_of, expand, add_routes, register,
  select,
}
use ai_desktop_assistant.Router.Rotation.{select_times, select_times-count_if}

abbrev strong : ModelProfile
strong = record {
  name = "strong";
  api_base = "";
  api_key = "";
  weight = pos 2;
  scenarios = "code" ∷ "review" ∷ [];
}

program : Unit {0}
unfolding new_model_router append_unique repeat weight_of expand add_routes register select lookup
    insert to_lower runes of_runes select_times
program = tt

selections :
    select_times (λ c. c) "code" 4 (register (λ c. c) strong (new_model_router "base"))
    ≡ "strong" ∷ "strong" ∷ "default" ∷ "strong" ∷ []
unfolding program
selections = refl

select_times-count_if_example :
    count_if
      (str_eq "strong")
      (select_times (λ c. c) "code" 3 (register (λ c. c) strong (new_model_router "base")))
    ≡ 2
unfolding program
select_times-count_if_example =
    select_times-count_if (λ c. c) "code" (register (λ c. c) strong (new_model_router "base"))
      "strong" refl
