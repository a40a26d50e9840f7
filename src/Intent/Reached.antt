-- ===== src/Intent/Reached.antt =====
-- intent_service.go: the services that requests lead to.
use ai_desktop_assistant.Common.{
  ℕ, ◌≤◌, ◌≡◌, refl, String, Bool, Option, none, some, arith, length, subst, if_ind,
}
use ai_desktop_assistant.Common.Map.{Every, Every-delete}
use ai_desktop_assistant.Intent.{IntentResult}
use ai_desktop_assistant.Intent.Rules.{classify}
use ai_desktop_assistant.Intent.Llm.{is_known}
use ai_desktop_assistant.Intent.Service.{
  IntentService, Surroundings, new_intent_service, recognize, recognize_with_llm, clear_context,
  hint, with_service,
}
use ai_desktop_assistant.Intent.Sound.{
  IsSound, IsContext, Some, classify_answer-IsSound, classify_runes-IsSound,
}
use ai_desktop_assistant.Intent.Kept.{
  IsService, IsRecognized, recognize-IsRecognized, update_context-IsService, get_context-IsService,
  context_of-IsContext,
}

new_intent_service-IsService : (has_llm : Bool) → IsService (new_intent_service has_llm)
unfolding new_intent_service is_known
new_intent_service-IsService has_llm = record {
  rules = (
    refl,
    (refl, (refl, (refl, (refl, (refl, (refl, (refl, (refl, (refl, (refl, (refl, tt))))))))))),
  );
  cached = tt;
  remembered = tt;
  bounded = ground arith;
  has_room = ground arith;
}

-- The services that a new one becomes: it recognizes requests, with the cache or by the model alone, whatever the
-- model answers and at whatever times, and it forgets sessions.
pub data Reached : IntentService → Type 0 where
  created : (has_llm : Bool) → Reached (new_intent_service has_llm)
  recognized :
      (env : Surroundings) (now : ℕ) (session input : String) (s t : IntentService)
      (r : IntentResult)
      → Reached s
      → recognize env now session input s ≡ some (r, t)
      → Reached t
  asked :
      (env : Surroundings) (session input : String) (s t : IntentService) (r : IntentResult)
      → Reached s
      → recognize_with_llm env session input s ≡ some (r, t)
      → Reached t
  cleared : (session : String) (s : IntentService) → Reached s → Reached (clear_context session s)

Some-elim :
    (P : IntentResult × IntentService → Type 0) (o : Option (IntentResult × IntentService))
    (p : IntentResult × IntentService)
    → Some P o
    → o ≡ some p
    → P p
Some-elim P o p h e = subst (Some P) e h

clear_context-IsService :
    (session : String) (s : IntentService) → IsService s → IsService (clear_context session s)
unfolding clear_context
clear_context-IsService session s S = record {
  rules = S.rules;
  cached = S.cached;
  remembered = Every-delete IsContext session s.contexts S.remembered;
  bounded = S.bounded;
  has_room = S.has_room;
}

recognize_with_llm-IsRecognized :
    (env : Surroundings) (session input : String) (s : IntentService)
    → IsService s
    → Some IsRecognized (recognize_with_llm env session input s)
unfolding recognize_with_llm classify
recognize_with_llm-IsRecognized env session input s S =
    let m = classify_answer-IsSound env.upper (env.ask input (hint session s)) in
    let T = get_context-IsService session s S in
    if_ind (Some IsRecognized) s.has_llm (λ e. (m, update_context-IsService session input _ s m S))
      (λ e.
        with_lem _ _
          (classify_runes-IsSound env.lower s.rules _ _ S.rules
            (context_of-IsContext session _ T.remembered))
          T)
  where
    with_lem :
        (t : IntentService) (o : Option IntentResult)
        → Some IsSound o
        → IsService t
        → Some IsRecognized (with_service env t o)
    with_lem t none h T = tt
    with_lem t (some r) h T = (h, T)

Reached-IsService : (s : IntentService) → Reached s → IsService s
Reached-IsService _ (created b) = new_intent_service-IsService b
Reached-IsService _ (recognized env now session input s t r R e) =
    (Some-elim IsRecognized _ (r, t)
      (recognize-IsRecognized env now session input s (Reached-IsService s R)) e).1
Reached-IsService _ (asked env session input s t r R e) =
    (Some-elim IsRecognized _ (r, t)
      (recognize_with_llm-IsRecognized env session input s (Reached-IsService s R)) e).1
Reached-IsService _ (cleared session s R) =
    clear_context-IsService session s (Reached-IsService s R)

-- Whatever requests have come to a service since it was new, from whatever sessions, and whatever the model
-- answers: what it recognizes is one of the known intents, marked as an action exactly as the intent is one, with
-- a positive confidence of at most 1; and its cache then stays within its limit, and each context within ten
-- recent intents.
pub recognize-IsSound :
    (env : Surroundings) (now : ℕ) (session input : String) (s t : IntentService) (r : IntentResult)
    → Reached s
    → recognize env now session input s ≡ some (r, t)
    → IsSound r × (length t.cache ≤ t.max_cache) × Every IsContext t.contexts
recognize-IsSound env now session input s t r R e =
    let both =
      Some-elim IsRecognized _ (r, t)
        (recognize-IsRecognized env now session input s (Reached-IsService s R)) e in
    (both.0, both.1.bounded, both.1.remembered)
