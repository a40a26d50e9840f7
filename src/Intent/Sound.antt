-- ===== src/Intent/Sound.antt =====
-- intent_service.go: what every recognition keeps, whatever the model answers.
use ai_desktop_assistant.Common.{
  ℕ, ◌≤◌, ◌≡◌, refl, String, Char, true, false, not, ◌&&◌, Option, none, some, List, [], ◌∷◌, map,
  arith, All, if◌then◌else◌, if_ind, ltb, leb, length, is_empty,
}
use ai_desktop_assistant.Common.Int.{ℤ, pos, ltb_ℤ}
use ai_desktop_assistant.Common.Map.{Map}
use ai_desktop_assistant.Common.Text.{is_blank}
use ai_desktop_assistant.Intent.{
  IntentResult, ConversationContext, new_intent_result, is_action_intent,
}
use ai_desktop_assistant.Intent.Rules.{
  IntentRule, Best, better, best_keyword, best_rule, best_of, without_keyword, with_entities,
  classify_runes, sourced, is_referential,
}
use ai_desktop_assistant.Intent.Llm.{
  Answer, answer, error, is_known, normalize_intent, clamp_confidence, classify_answer,
}

abbrev pub IsKnown : String → Type 0
IsKnown i = is_known i ≡ true

-- A positive confidence that is at most 1.
abbrev pub IsConfidence : ℤ → Type 0
IsConfidence c = (ltb_ℤ (pos 0) c ≡ true) × (ltb_ℤ (pos 1000000) c ≡ false)

-- A result of one of the intents, marked as an action by its intent.
pub record IsSound (r : IntentResult) : Type 0 where
  pub known : IsKnown r.intent
  pub marked : r.is_action ≡ is_action_intent r.intent
  pub confident : IsConfidence r.confidence

pub record IsContext (c : ConversationContext) : Type 0 where
  pub known : is_blank c.last_intent ≡ false → IsKnown c.last_intent
  pub short : length c.recent_intents ≤ 10

pub sourced-IsSound : (t : String) (r : IntentResult) → IsSound r → IsSound (sourced t r)
sourced-IsSound t r S = record { known = S.known; marked = S.marked; confident = S.confident }

new-IsSound :
    (i : String) (c : ℤ) (es : Map String)
    → IsKnown i
    → IsConfidence c
    → IsSound (new_intent_result i c es)
unfolding new_intent_result
new-IsSound i c es k h = record { known = k; marked = refl; confident = h }

-- The rules.
module _ (lower : Char → Char) (low : List Char) where
  abbrev Known : Best → Type 0
  Known b = IsKnown b.intent

  better-Known :
      (r : IntentRule) (k : String) (b : Best)
      → IsKnown r.intent
      → Known b
      → Known (better lower low r k b)
  unfolding better
  better-Known r k b h g = ground (arith, h, g)

  best_keyword-Known :
      (r : IntentRule) (ks : List String) (b : Best)
      → IsKnown r.intent
      → Known b
      → Known (best_keyword lower low r ks b)
  unfolding best_keyword
  best_keyword-Known r [] b h k = k
  best_keyword-Known r (x ∷ xs) b h k =
      best_keyword-Known r xs (better lower low r x b) h (better-Known r x b h k)

  best_rule-Known :
      (rs : List IntentRule) (b : Best)
      → All (λ r. IsKnown r.intent) rs
      → Known b
      → Known (best_rule lower low rs b)
  unfolding best_rule
  best_rule-Known [] b h k = k
  best_rule-Known (r ∷ rs) b (a, h) k =
      best_rule-Known rs (best_keyword lower low r r.keywords b) h
        (best_keyword-Known r r.keywords b a k)

chat-IsKnown : IsKnown "CHAT"
unfolding is_known
chat-IsKnown = refl

chat-IsSound :
    (t : String) (n : ℕ)
    → IsConfidence (pos n)
    → IsSound (sourced t (new_intent_result "CHAT" (pos n) []))
chat-IsSound t n h = sourced-IsSound t _ (new-IsSound "CHAT" (pos n) [] chat-IsKnown h)

without_keyword-IsSound :
    (low : List Char) (c : ConversationContext)
    → IsContext c
    → IsSound (without_keyword low (some c))
unfolding without_keyword
without_keyword-IsSound low c k =
    if_ind IsSound (not (is_blank c.last_intent) && is_referential low)
      (λ e. sourced-IsSound "rule-coref" _ (
        new-IsSound c.last_intent (pos 750000) c.entity_memory (k.known (ground (arith, e)))
          (refl, refl)))
      (λ e. chat-IsSound "rule" 300000 (refl, refl))

-- A property of the value of an option, if it has one.
abbrev pub Some {ℓ κ} : {A : Type ℓ} → (A → Type κ) → Option A → Type κ
Some P none = Unit
Some P (some a) = P a

with_entities-IsSound :
    (b : Best) (memory : Map String) (o : Option (Map String))
    → IsKnown b.intent
    → Some IsSound (with_entities b memory o)
with_entities-IsSound b memory none h = tt
with_entities-IsSound b memory (some es) h = sourced-IsSound _ _ (
    new-IsSound b.intent _ _ h (
      if_ind (λ n. IsConfidence (pos n)) (leb 100 b.score) (λ e. (refl, refl)) (λ e. (refl, refl))))

pub classify_runes-IsSound :
    (lower : Char → Char) (rules : List IntentRule) (input : List Char) (c : ConversationContext)
    → All (λ r. IsKnown r.intent) rules
    → IsContext c
    → Some IsSound (classify_runes lower rules input (some c))
unfolding classify_runes best_of
classify_runes-IsSound lower rules input c h k =
    let b = best_of lower rules (map lower input) in
    if_ind (Some IsSound) (is_empty input)
      (λ e. new-IsSound "CHAT" (pos 500000) [] chat-IsKnown (refl, refl))
      (λ e.
        if_ind (Some IsSound) (ltb b.score 50) (λ f. without_keyword-IsSound (map lower input) c k)
          (λ f.
            with_entities-IsSound b c.entity_memory _
              (best_rule-Known lower (map lower input) rules _ h chat-IsKnown)))

-- The model's classifier.
normalize_intent-IsKnown : (upper : Char → Char) (i : String) → IsKnown (normalize_intent upper i)
unfolding normalize_intent
normalize_intent-IsKnown upper i = if_ind IsKnown _ (λ e. e) (λ e. chat-IsKnown)

clamp-IsConfidence : (c : ℤ) → IsConfidence (clamp_confidence c)
unfolding clamp_confidence
clamp-IsConfidence c =
    if_ind (λ d. IsConfidence (if ltb_ℤ (pos 1000000) d then pos 1000000 else d)) (ltb_ℤ (pos 0) c)
      (λ e. if_ind IsConfidence (ltb_ℤ (pos 1000000) c) (λ f. (refl, refl)) (λ f. (e, f)))
      (λ e. (refl, refl))

pub classify_answer-IsSound : (upper : Char → Char) (a : Answer) → IsSound (classify_answer upper a)
unfolding classify_answer
classify_answer-IsSound upper error = chat-IsSound "llm-error" 400000 (refl, refl)
classify_answer-IsSound upper (answer i c es) =
    if_ind IsSound (is_blank i) (λ e. chat-IsSound "llm-error" 400000 (refl, refl))
      (λ e. sourced-IsSound "llm" _ (
        new-IsSound (normalize_intent upper i) (clamp_confidence c) es
          (normalize_intent-IsKnown upper i) (clamp-IsConfidence c)))
