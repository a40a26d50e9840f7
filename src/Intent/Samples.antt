-- ===== src/Intent/Samples.antt =====
-- Requests to a new service, and the theorems about them.
use ai_desktop_assistant.Common.{
  ◌≤◌, ◌≡◌, refl, Char, true, some, List, [], ◌∷◌, arith, length, All,
}
use ai_desktop_assistant.Common.Int.{pos}
use ai_desktop_assistant.Common.Map.{Every, lookup, insert}
use ai_desktop_assistant.Common.Text.{
  runes, rune_bytes, trim_runes, is_infix, byte_count, byte_index, drop_bytes, is_prefix, is_space,
  of_runes, split_at, trim_left, trim_prefix,
}
use ai_desktop_assistant.Intent.{
  IntentResult, has_high_confidence, update_from_intent, put_entities, new_conversation_context,
  is_action_intent, new_intent_result, put_entity,
}
use ai_desktop_assistant.Intent.Rules.{
  classify, best_of, init_rules, sourced, classify_runes, best_rule, best_keyword, better,
  keyword_in, without_keyword, is_referential, keyword_score,
}
use ai_desktop_assistant.Intent.Llm.{
  answer, clamp_confidence, classify_answer, is_known, normalize_intent,
}
use ai_desktop_assistant.Intent.Service.{
  IntentService, Surroundings, new_intent_service, recognize, get_cache, get_context, remember,
  decide, put_cache, update_context, make_room, context_of, choose, hint, hint_of,
}
use ai_desktop_assistant.Intent.Sound.{IsSound, IsContext}
use ai_desktop_assistant.Intent.Reached.{created, recognize-IsSound}
use ai_desktop_assistant.Intent.Cached.{recognize-cached}
use ai_desktop_assistant.Intent.Returns.{recognize-is_some, is_some, entity_keywords}
use ai_desktop_assistant.Intent.Bytes.{IsSameSize}
use ai_desktop_assistant.Intent.Best.{IsBest, best_of-IsBest}

abbrev around : Surroundings
around = record {
  lower = λ c. c;
  upper = λ c. c;
  hash = λ s. s;
  ask = λ input hint. answer "OPEN-URL" (pos 700000) [];
}

best_of-IsBest_example :
    IsBest (λ c. c) (runes "列出目录 a") init_rules (best_of (λ c. c) init_rules (runes "列出目录 a"))
best_of-IsBest_example = best_of-IsBest (λ c. c) init_rules (runes "列出目录 a")

-- What a request for a web page is recognized as, and the service after it.
abbrev page : IntentResult
page = record {
  intent = "OPEN_URL";
  confidence = pos 700000;
  entities = [];
  is_action = true;
  source = "llm";
}

abbrev after_page : IntentService
after_page = record {
  rules = init_rules;
  has_llm = true;
  contexts =
      (
        "s",
        record {
          session_id = "s";
          last_intent = "OPEN_URL";
          last_entities = [];
          recent_intents = "OPEN_URL" ∷ [];
          entity_memory = [];
          last_user_msg = "page";
          turn_count = 1;
        },
      )
      ∷ [];
  cache = ("s:page", record { result = page; expire_at = 305 }) ∷ [];
  cache_ttl = 300;
  max_cache = 200;
}

page_run : recognize around 5 "s" "page" (new_intent_service true) ≡ some (page, after_page)
unfolding recognize new_intent_service get_cache get_context lookup insert classify_runes best_rule
    best_keyword better keyword_in without_keyword is_referential keyword_score is_infix byte_count
    byte_index drop_bytes is_prefix is_space of_runes rune_bytes split_at trim_left trim_prefix
    trim_runes runes remember decide put_cache update_context make_room context_of choose hint
    hint_of has_high_confidence update_from_intent put_entities new_conversation_context
    is_action_intent new_intent_result put_entity clamp_confidence classify_answer is_known
    normalize_intent classify best_of
page_run = refl

recognize-IsSound_example :
    IsSound page
    × (length after_page.cache ≤ after_page.max_cache)
    × Every IsContext after_page.contexts
recognize-IsSound_example =
    recognize-IsSound around 5 "s" "page" (new_intent_service true) after_page page (created true)
      page_run

recognize-cached_example :
    recognize around 9 "s" "page" (record after_page { contexts = [] })
    ≡ some (sourced "cache" page, record after_page { contexts = [] })
unfolding new_intent_service get_cache lookup
recognize-cached_example =
    recognize-cached around "s" "page" 5 9 (new_intent_service true) after_page
      (record after_page { contexts = [] }) page refl page_run (omega arith) refl

All-always {ℓ κ} : {A : Type ℓ} (P : A → Type κ) → ((a : A) → P a) → (xs : List A) → All P xs
All-always P h [] = tt
All-always P h (x ∷ xs) = (h x, All-always P h xs)

same_lem : (cs : List Char) → IsSameSize (λ c. c) cs
same_lem cs = All-always (λ c. rune_bytes c ≡ rune_bytes c) (λ c. refl) cs

recognize-is_some_example : is_some (recognize around 5 "s" "page" (new_intent_service true)) ≡ true
recognize-is_some_example =
    recognize-is_some around 5 "s" "page" (new_intent_service true)
      (All-always (All (λ k. IsSameSize around.lower (runes k)))
        (λ ks. All-always (λ k. IsSameSize around.lower (runes k)) (λ k. same_lem (runes k)) ks)
        entity_keywords)
      (same_lem (trim_runes (runes "page")))
