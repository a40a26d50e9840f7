-- ===== src/Intent/Kept.antt =====
-- intent_service.go and context_tracker.go: what every recognition keeps, whatever the model answers.
use ai_desktop_assistant.Common.{
  ℕ, suc, ◌≤◌, ◌<◌, ◌+◌, ◌≡◌, refl, String, Option, none, some, [], ◌∷◌, ◌++◌, arith, All, if_ind,
  ltb, leb, max, length, length-drop, length-keep_last, ◌/◌,
}
use ai_desktop_assistant.Common.Map.{
  Map, insert, Every, Every-insert, Every-drop, Every-lookup, Every-lookup_or, length-insert_le,
}
use ai_desktop_assistant.Common.Text.{is_blank}
use ai_desktop_assistant.Intent.{
  IntentResult, ConversationContext, new_conversation_context, has_high_confidence, put_entity,
  put_entities, update_from_intent,
}
use ai_desktop_assistant.Intent.Rules.{classify}
use ai_desktop_assistant.Intent.Service.{
  IntentService, CacheEntry, Surroundings, context_of, get_context, update_context, put_cache,
  make_room, choose, remember, decide, recognize, recognize_at, recognize_new, get_cache, cache_key,
  fresh, hint,
}
use ai_desktop_assistant.Intent.Sound.{
  IsKnown, IsSound, IsContext, Some, sourced-IsSound, classify_runes-IsSound,
  classify_answer-IsSound,
}

pub record IsService (s : IntentService) : Type 0 where
  pub rules : All (λ r. IsKnown r.intent) s.rules
  pub cached : Every (λ e. IsSound e.result) s.cache
  pub remembered : Every IsContext s.contexts
  pub bounded : length s.cache ≤ s.max_cache
  pub has_room : 0 < s.max_cache

-- The contexts.
put_entity-IsContext :
    (j v : String) (c : ConversationContext) → IsContext c → IsContext (put_entity j v c)
unfolding put_entity
put_entity-IsContext j v c k =
    if_ind IsContext (is_blank v) (λ e. k) (λ e. record { known = k.known; short = k.short })

put_entities-IsContext :
    (es : Map String) (c : ConversationContext) → IsContext c → IsContext (put_entities es c)
unfolding put_entities
put_entities-IsContext [] c k = k
put_entities-IsContext ((j, v) ∷ es) c k =
    put_entities-IsContext es (put_entity j v c) (put_entity-IsContext j v c k)

update-IsContext :
    (r : IntentResult) (msg : String) (c : ConversationContext)
    → IsSound r
    → IsContext c
    → IsContext (update_from_intent r msg c)
unfolding update_from_intent
update-IsContext r msg c S k = put_entities-IsContext r.entities _ (record {
  known = λ e. S.known;
  short = omega (arith, length-keep_last 10 (c.recent_intents ++ (r.intent ∷ [])));
})

new-IsContext : (id : String) → IsContext (new_conversation_context id)
unfolding new_conversation_context
new-IsContext id = record { known = λ e. ground (arith, e); short = ground arith }

-- The parts of a service.
pub context_of-IsContext :
    (session : String) (cs : Map ConversationContext)
    → Every IsContext cs
    → IsContext (context_of session cs)
unfolding context_of
context_of-IsContext session cs h =
    Every-lookup_or IsContext (new_conversation_context session) session cs (new-IsContext session)
      h

with_contexts :
    (s : IntentService) (session : String) (c : ConversationContext)
    → IsService s
    → IsContext c
    → IsService (record s { contexts = insert session c s.contexts })
with_contexts s session c S k = record {
  rules = S.rules;
  cached = S.cached;
  remembered = Every-insert IsContext session c s.contexts k S.remembered;
  bounded = S.bounded;
  has_room = S.has_room;
}

pub get_context-IsService :
    (session : String) (s : IntentService) → IsService s → IsService (get_context session s)
unfolding get_context
get_context-IsService session s S =
    with_contexts s session _ S (context_of-IsContext session s.contexts S.remembered)

pub update_context-IsService :
    (session msg : String) (r : IntentResult) (s : IntentService)
    → IsSound r
    → IsService s
    → IsService (update_context session r msg s)
unfolding update_context
update_context-IsService session msg r s k S =
    with_contexts s session _ S
      (update-IsContext r msg _ k (context_of-IsContext session s.contexts S.remembered))

abbrev Cached : CacheEntry → Type 0
Cached e = IsSound e.result

length-make_room :
    (most : ℕ) (m : Map CacheEntry)
    → 0 < most
    → length m ≤ most
    → suc (length (make_room most m)) ≤ most
unfolding make_room
length-make_room most m a b = ground (arith, a, b, length-drop (max 1 (most / 2)) m)

make_room-Every : (most : ℕ) (m : Map CacheEntry) → Every Cached m → Every Cached (make_room most m)
unfolding make_room
make_room-Every most m h =
    if_ind (Every Cached) (leb most (length m)) (λ e. Every-drop Cached (max 1 (most / 2)) m h)
      (λ e. h)

put_cache-IsService :
    (now : ℕ) (key : String) (r : IntentResult) (s : IntentService)
    → IsSound r
    → IsService s
    → IsService (put_cache now key r s)
unfolding put_cache
put_cache-IsService now key r s k S = record {
  rules = S.rules;
  cached = Every-insert Cached key _ _ k (make_room-Every s.max_cache s.cache S.cached);
  remembered = S.remembered;
  bounded = omega (
    arith,
    length-make_room s.max_cache s.cache S.has_room S.bounded,
    length-insert_le key (record { result = r; expire_at = now + s.cache_ttl })
        (make_room s.max_cache s.cache),
  );
  has_room = S.has_room;
}

-- A sound result, and a service as it should be.
abbrev pub IsRecognized : IntentResult × IntentService → Type 0
IsRecognized p = IsSound p.0 × IsService p.1

remember-IsRecognized :
    (now : ℕ) (key session input : String) (r : IntentResult) (s : IntentService)
    → IsSound r
    → IsService s
    → IsRecognized (remember now key session input r s)
unfolding remember
remember-IsRecognized now key session input r s k S =
    (k, put_cache-IsService now key r _ k (update_context-IsService session input r s k S))

module _ (env : Surroundings) where
  decide-IsSound :
      (session input : String) (r : IntentResult) (s : IntentService)
      → IsSound r
      → IsSound (decide env session input r s)
  unfolding decide choose
  decide-IsSound session input r s k =
      let m = classify_answer-IsSound env.upper (env.ask input (hint session s)) in
      if_ind IsSound (has_high_confidence r 800000) (λ e. k)
        (λ e.
          if_ind IsSound s.has_llm (λ f. if_ind IsSound _ (λ g. m) (λ g. k))
            (λ f.
              if_ind IsSound (is_blank r.source) (λ g. sourced-IsSound "rule-only" r k) (λ g. k)))

  recognize_new-IsRecognized :
      (now : ℕ) (session input : String) (s : IntentService) (o : Option IntentResult)
      → IsService s
      → Some IsSound o
      → Some IsRecognized (recognize_new env now session input s o)
  recognize_new-IsRecognized now session input s none S k = tt
  recognize_new-IsRecognized now session input s (some r) S k =
      remember-IsRecognized now _ session input _ s (decide-IsSound session input r s k) S

  fresh-IsSound :
      (now : ℕ) (o : Option CacheEntry)
      → ((e : CacheEntry) → o ≡ some e → Cached e)
      → Some IsSound (fresh now o)
  fresh-IsSound now none h = tt
  fresh-IsSound now (some e) h =
      if_ind (Some IsSound) (ltb e.expire_at now) (λ g. tt) (λ g. h e refl)

  recognize_at-IsRecognized :
      (now : ℕ) (session input : String) (s : IntentService) (o : Option IntentResult)
      → IsService s
      → Some IsSound o
      → Some IsRecognized (recognize_at env now session input s o)
  unfolding classify
  recognize_at-IsRecognized now session input s (some r) S k = (sourced-IsSound "cache" r k, S)
  recognize_at-IsRecognized now session input s none S k =
      let T = get_context-IsService session s S in
      recognize_new-IsRecognized now session input (get_context session s) _ T (
        classify_runes-IsSound env.lower s.rules _ _ S.rules
          (context_of-IsContext session _ T.remembered))

  pub recognize-IsRecognized :
      (now : ℕ) (session input : String) (s : IntentService)
      → IsService s
      → Some IsRecognized (recognize env now session input s)
  unfolding recognize get_cache
  recognize-IsRecognized now session input s S = recognize_at-IsRecognized now session input s _ S (
      fresh-IsSound now _
        (λ e g. Every-lookup Cached (cache_key env session input) s.cache e S.cached g))
