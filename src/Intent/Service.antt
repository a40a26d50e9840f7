-- ===== src/Intent/Service.antt =====
-- internal/domain/agent/service/intent/intent_service.go and context_tracker.go: the rules, then the model, with
-- a cache in front and the sessions' contexts. The sum of SHA-256 and the model are parameters; a lock is held
-- by each access, and the maps are walked in the order of their lists.
use Prim.Native.String.{◌++◌ as append}
use ai_desktop_assistant.Common.{
  ℕ, ◌+◌, ◌/◌, String, Char, Bool, ◌||◌, Option, none, some, List, [], drop, length, max,
  if◌then◌else◌, ltb, leb,
}
use ai_desktop_assistant.Common.Int.{ltb_ℤ}
use ai_desktop_assistant.Common.Map.{Map, lookup, lookup_or, insert, delete}
use ai_desktop_assistant.Common.Text.{is_blank}
use ai_desktop_assistant.Intent.{
  IntentResult, ConversationContext, new_conversation_context, update_from_intent,
  has_high_confidence,
}
use ai_desktop_assistant.Intent.Rules.{IntentRule, init_rules, classify, sourced}
use ai_desktop_assistant.Intent.Llm.{Answer, classify_answer}

pub record CacheEntry : Type 0 where
  pub result : IntentResult
  pub expire_at : ℕ

pub record IntentService : Type 0 where
  pub rules : List IntentRule
  pub has_llm : Bool
  pub contexts : Map ConversationContext
  pub cache : Map CacheEntry
  pub cache_ttl : ℕ
  pub max_cache : ℕ

-- `NewIntentService`, with a tracker of its own; the time is in seconds.
unfoldable pub new_intent_service : Bool → IntentService
new_intent_service has_llm = record {
  rules = init_rules;
  has_llm = has_llm;
  contexts = [];
  cache = [];
  cache_ttl = 300;
  max_cache = 200;
}

-- The context of a session, or a new one.
unfoldable pub context_of : String → Map ConversationContext → ConversationContext
context_of session cs = lookup_or (new_conversation_context session) session cs

-- `GetContext`: the tracker then holds the context that it gives.
unfoldable pub get_context : String → IntentService → IntentService
get_context session s = record s {
  contexts = insert session (context_of session s.contexts) s.contexts;
}

-- `UpdateContext`
unfoldable pub update_context : String → IntentResult → String → IntentService → IntentService
update_context session r msg s = record s {
  contexts = insert session (update_from_intent r msg (context_of session s.contexts)) s.contexts;
}

-- `Clear`
unfoldable pub clear_context : String → IntentService → IntentService
clear_context session s = record s { contexts = delete session s.contexts }

abbrev noted : String → String → String → String
noted text v hint = if is_blank v then hint else append hint (append text v)

-- `Hint`
unfoldable pub hint_of : Option ConversationContext → String
hint_of none = ""
hint_of (some c) =
    if is_blank c.last_intent
    then ""
    else noted "; 已知命令: " (lookup_or "" "command" c.entity_memory)
        (noted "; 已知路径: " (lookup_or "" "path" c.entity_memory) (append "上轮意图: " c.last_intent))

unfoldable pub hint : String → IntentService → String
hint session s = hint_of (lookup session s.contexts)

abbrev pub fresh : ℕ → Option CacheEntry → Option IntentResult
fresh now none = none
fresh now (some e) = if ltb e.expire_at now then none else some e.result

-- `getCache`
unfoldable pub get_cache : ℕ → String → IntentService → Option IntentResult
get_cache now key s = fresh now (lookup key s.cache)

-- What a full cache is cut to: at least one entry is deleted, and at most half of the cache's size.
unfoldable pub make_room : ℕ → Map CacheEntry → Map CacheEntry
make_room most m = if leb most (length m) then drop (max 1 (most / 2)) m else m

-- `putCache`
unfoldable pub put_cache : ℕ → String → IntentResult → IntentService → IntentService
put_cache now key r s = record s {
  cache =
      insert key (record { result = r; expire_at = now + s.cache_ttl })
        (make_room s.max_cache s.cache);
}

-- The model's result, unless it is unsure and the rules are surer.
unfoldable pub choose : IntentResult → IntentResult → IntentResult
choose rule_result llm_result =
    if has_high_confidence llm_result 500000 || ltb_ℤ rule_result.confidence llm_result.confidence
    then llm_result
    else rule_result

abbrev pub unsourced : IntentResult → IntentResult
unsourced r = if is_blank r.source then sourced "rule-only" r else r

-- What a recognition gives back, with the service after it.
unfoldable pub remember :
    ℕ → String → String → String → IntentResult → IntentService → IntentResult × IntentService
remember now key session input r s = (r, put_cache now key r (update_context session r input s))

-- The texts that the parameters give, in one place.
pub record Surroundings : Type 0 where
  pub lower : Char → Char
  pub upper : Char → Char
  pub hash : String → String
  -- `ClassifyIntent` on the request and the hint
  pub ask : String → String → Answer

module _ (env : Surroundings) where
  abbrev pub cache_key : String → String → String
  cache_key session input = append session (append ":" (env.hash input))

  -- The result of the rules, or the model's where it is asked.
  unfoldable pub decide : String → String → IntentResult → IntentService → IntentResult
  decide session input r s =
      if has_high_confidence r 800000
      then r
      else if s.has_llm
      then choose r (classify_answer env.upper (env.ask input (hint session s)))
      else unsourced r

  -- What follows a look at the cache; none where the rules' extraction of entities is broken.
  abbrev pub recognize_new :
      ℕ
      → String
      → String
      → IntentService
      → Option IntentResult
      → Option (IntentResult × IntentService)
  recognize_new now session input s none = none
  recognize_new now session input s (some r) =
      some (remember now (cache_key session input) session input (decide session input r s) s)

  abbrev pub recognize_at :
      ℕ
      → String
      → String
      → IntentService
      → Option IntentResult
      → Option (IntentResult × IntentService)
  recognize_at now session input s (some r) = some (sourced "cache" r, s)
  recognize_at now session input s none =
      let t = get_context session s in
      recognize_new now session input t
        (classify env.lower s.rules input (some (context_of session t.contexts)))

  -- `Recognize`, at one time.
  unfoldable pub recognize :
      ℕ → String → String → IntentService → Option (IntentResult × IntentService)
  recognize now session input s =
      recognize_at now session input s (get_cache now (cache_key session input) s)

  abbrev pub with_service :
      IntentService → Option IntentResult → Option (IntentResult × IntentService)
  with_service s none = none
  with_service s (some r) = some (r, s)

  -- `RecognizeWithLLM`
  unfoldable pub recognize_with_llm :
      String → String → IntentService → Option (IntentResult × IntentService)
  recognize_with_llm session input s =
      let t = get_context session s in
      let r = classify_answer env.upper (env.ask input (hint session s)) in
      if s.has_llm
      then some (r, update_context session r input s)
      else with_service t (classify env.lower s.rules input (some (context_of session t.contexts)))
