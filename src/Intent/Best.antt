-- ===== src/Intent/Best.antt =====
-- rule_classifier.go: the keyword that decides.
use ai_desktop_assistant.Common.{
  ℕ, ◌≤◌, ◌≡◌, refl, sym, subst, ◌∙◌, String, Char, Bool, true, ◌&&◌, List, [], ◌∷◌, arith, All,
  if◌then◌else◌, any, ltb, ◌==◌, str_eq, str_eq_refl, ◌⊎◌, inl, inr, Bool-cases,
}
use ai_desktop_assistant.Intent.Rules.{
  IntentRule, Best, keyword_score, keyword_in, better, best_keyword, best_rule, best_of,
}

or_lem : (b c : Bool) → b ≡ true → (if b then true else c) ≡ true
or_lem b c h = ground (arith, h)

either_lem : (b c : Bool) → c ≡ true → (if b then true else c) ≡ true
either_lem b c h = ground (arith, h)

module _ (lower : Char → Char) (low : List Char) where
  -- No keyword of the rules that is in the text has a higher score.
  abbrev IsAbove : Best → IntentRule → String → Type 0
  IsAbove b r k = keyword_in lower low k ≡ true → keyword_score r k ≤ b.score

  abbrev Tops : Best → IntentRule → Type 0
  Tops b r = All (IsAbove b r) r.keywords

  -- Whether a keyword of a rule is in the text and gives the best its intent and its score.
  abbrev decides : Best → IntentRule → String → Bool
  decides b r k = keyword_in lower low k && str_eq r.intent b.intent && keyword_score r k == b.score

  abbrev decided : Best → List IntentRule → Bool
  decided b rules = any (λ r. any (decides b r) r.keywords) rules

  -- The best of the rules: no keyword in the text has a higher score, and one gives its intent and its score,
  -- unless the text has none.
  pub record IsBest (rules : List IntentRule) (b : Best) : Type 0 where
    pub tops : All (Tops b) rules
    pub attained : (decided b rules ≡ true) ⊎ (b ≡ record { intent = "CHAT"; score = 0 })

  better-le : (r : IntentRule) (k : String) (b : Best) → b.score ≤ (better lower low r k b).score
  unfolding better
  better-le r k b = ground arith

  better-attained :
      (r : IntentRule) (k : String) (b : Best)
      → (decides (better lower low r k b) r k ≡ true) ⊎ (better lower low r k b ≡ b)
  unfolding better
  better-attained r k b =
      elim (Bool-cases (keyword_in lower low k && ltb b.score (keyword_score r k))) [
        | inl e ↦ inl (rw e (ground (arith, e, str_eq_refl r.intent)))
        | inr e ↦ inr (rw e refl)
      ]

  best_keyword-le :
      (r : IntentRule) (ks : List String) (b : Best)
      → b.score ≤ (best_keyword lower low r ks b).score
  unfolding best_keyword
  best_keyword-le r [] b = omega arith
  best_keyword-le r (k ∷ ks) b =
      omega (arith, better-le r k b, best_keyword-le r ks (better lower low r k b))

  best_rule-le : (rs : List IntentRule) (b : Best) → b.score ≤ (best_rule lower low rs b).score
  unfolding best_rule
  best_rule-le [] b = omega arith
  best_rule-le (r ∷ rs) b = omega (
    arith,
    best_keyword-le r r.keywords b,
    best_rule-le rs (best_keyword lower low r r.keywords b),
  )

  better-IsAbove : (r : IntentRule) (k : String) (b : Best) → IsAbove (better lower low r k b) r k
  unfolding better
  better-IsAbove r k b h = ground (arith, h)

  best_keyword-IsAbove :
      (r : IntentRule) (ks : List String) (b c : Best)
      → (best_keyword lower low r ks b).score ≤ c.score
      → All (IsAbove c r) ks
  unfolding best_keyword
  best_keyword-IsAbove r [] b c h = tt
  best_keyword-IsAbove r (k ∷ ks) b c h = (
    λ e. omega (arith, h, better-IsAbove r k b e, best_keyword-le r ks (better lower low r k b)),
    best_keyword-IsAbove r ks (better lower low r k b) c h,
  )

  best_rule-Tops :
      (rs : List IntentRule) (b c : Best)
      → (best_rule lower low rs b).score ≤ c.score
      → All (Tops c) rs
  unfolding best_rule
  best_rule-Tops [] b c h = tt
  best_rule-Tops (r ∷ rs) b c h =
      let d = best_keyword lower low r r.keywords b in
      (
        best_keyword-IsAbove r r.keywords b c (omega (arith, h, best_rule-le rs d)),
        best_rule-Tops rs d c h,
      )

  -- What decides among the keywords of one rule, or what was there before.
  best_keyword-attained :
      (r : IntentRule) (ks : List String) (b : Best)
      → let c = best_keyword lower low r ks b in (any (decides c r) ks ≡ true) ⊎ (c ≡ b)
  unfolding best_keyword
  best_keyword-attained r [] b = inr refl
  best_keyword-attained r (k ∷ ks) b = elim (best_keyword-attained r ks (better lower low r k b)) [
    | inl e ↦ inl (either_lem _ _ e)
    | inr e ↦ elim (better-attained r k b) [
      | inl d ↦ inl (or_lem _ _ (subst (λ c. decides c r k ≡ true) (sym e) d))
      | inr d ↦ inr (e ∙ d)
    ]
  ]

  best_rule-attained :
      (rs : List IntentRule) (b : Best)
      → let c = best_rule lower low rs b in (decided c rs ≡ true) ⊎ (c ≡ b)
  unfolding best_rule
  best_rule-attained [] b = inr refl
  best_rule-attained (r ∷ rs) b =
      let d = best_keyword lower low r r.keywords b in
      elim (best_rule-attained rs d) [
        | inl e ↦ inl (either_lem _ _ e)
        | inr e ↦ elim (best_keyword-attained r r.keywords b) [
          | inl f ↦ inl (or_lem _ _ (subst (λ c. any (decides c r) r.keywords ≡ true) (sym e) f))
          | inr f ↦ inr (e ∙ f)
        ]
      ]

abbrev start : Best
start = record { intent = "CHAT"; score = 0 }

le_refl : (n : ℕ) → n ≤ n
le_refl n = omega arith

-- The best of the rules for a text in lower case is the intent of a keyword in the text with the highest score, or
-- a chat where no keyword is in it.
pub best_of-IsBest :
    (lower : Char → Char) (rules : List IntentRule) (low : List Char)
    → IsBest lower low rules (best_of lower rules low)
unfolding best_of
best_of-IsBest lower rules low = record {
  tops =
      best_rule-Tops lower low rules start (best_rule lower low rules start)
        (le_refl (best_rule lower low rules start).score);
  attained = best_rule-attained lower low rules start;
}
