-- ===== src/Skill/Match.antt =====
-- internal/domain/skill/service/skill_service.go, `Match`: the skill with the best score.
use mathlib.Core.List.{Memᴰ}
use ai_desktop_assistant.Common.{
  ℕ, ◌≤◌, ◌<◌, ◌≡◌, refl, ap, sym, ◌⊎◌, String, Char, false, Option, none, some, [], ◌∷◌, arith,
  ltb, All, Bool-cases, inl, inr, if_ind,
}
use ai_desktop_assistant.Common.Map.{Map}
use ai_desktop_assistant.Skill.{Skill, match_score, is_named, match_from, match_skill}

module _ (lower : Char → Char) (input : String) where
  -- No skill of the map is named outright.
  abbrev pub NoneNamed : Map Skill → Type 0
  NoneNamed skills = All (λ (e : String × Skill). is_named lower input e.0 e.1 ≡ false) skills

  -- What is found among skills, above a score that was there before.
  abbrev IsBestAbove : ℕ → Map Skill → Option Skill → Type 0
  IsBestAbove before skills none =
      (before < 15) × All (λ (e : String × Skill). match_score e.1 input < 15) skills
  IsBestAbove before skills (some s) =
      (15 ≤ match_score s input)
      × (before ≤ match_score s input)
      × All (λ (e : String × Skill). match_score e.1 input ≤ match_score s input) skills

  -- The score so far is that of the best so far.
  abbrev Scores : Option Skill → ℕ → Type 0
  Scores none n = n ≡ 0
  Scores (some s) n = match_score s input ≡ n

  IsBestAbove-cons :
      (before score : ℕ) (id : String) (s : Skill) (skills : Map Skill) (o : Option Skill)
      → score ≡ match_score s input
      → before ≤ score
      → IsBestAbove score skills o
      → IsBestAbove before ((id, s) ∷ skills) o
  IsBestAbove-cons before score id s skills none e le h =
      (omega (arith, le, h.0), (omega (arith, e, h.0), h.1))
  IsBestAbove-cons before score id s skills (some best) e le h =
      (h.0, omega (arith, le, h.1), (omega (arith, e, h.1), h.2))

  IsBestAbove-skip :
      (before : ℕ) (id : String) (s : Skill) (skills : Map Skill) (o : Option Skill)
      → match_score s input ≤ before
      → IsBestAbove before skills o
      → IsBestAbove before ((id, s) ∷ skills) o
  IsBestAbove-skip before id s skills none le h = (h.0, (omega (arith, le, h.0), h.1))
  IsBestAbove-skip before id s skills (some best) le h = (h.0, h.1, (omega (arith, le, h.1), h.2))

  match_from-IsBestAbove :
      (best : Option Skill) (before : ℕ) (skills : Map Skill)
      → NoneNamed skills
      → Scores best before
      → IsBestAbove before skills (match_from lower input best before skills)
  unfolding match_from
  match_from-IsBestAbove none before [] h e = ground arith
  match_from-IsBestAbove (some s) before [] h e = ground arith
  match_from-IsBestAbove best before ((id, s) ∷ skills) (unnamed, h) e =
      let score = match_score s input in
      let Q : Option Skill → Type 0 = IsBestAbove before ((id, s) ∷ skills) in
      if_ind Q (is_named lower input id s) (λ named. absurd (ground arith))
        (λ other.
          if_ind Q (ltb before score)
            (λ better.
              IsBestAbove-cons before score id s skills
                (match_from lower input (some s) score skills) refl (ground arith)
                (match_from-IsBestAbove (some s) score skills h refl))
            (λ worse.
              IsBestAbove-skip before id s skills (match_from lower input best before skills)
                (ground arith) (match_from-IsBestAbove best before skills h e)))

  -- The skill found is the best so far or one of the map.
  match_from-Memᴰ :
      (best : Option Skill) (before : ℕ) (skills : Map Skill) (s : Skill)
      → match_from lower input best before skills ≡ some s
      → (best ≡ some s) ⊎ ((id : String) × Memᴰ (id, s) skills)
  unfolding match_from
  match_from-Memᴰ best before [] s h = inl (ground arith)
  match_from-Memᴰ best before ((id, x) ∷ skills) s h =
      let score = match_score x input in
      elim (Bool-cases (is_named lower input id x)) [
        | inl named ↦
            let same : x ≡ s = ground arith in
            inr (id, Memᴰ.head (ap (λ (y : Skill). (id, y)) (sym same)))
        | inr other ↦ elim (Bool-cases (ltb before score)) [
          | inl better ↦ elim (match_from-Memᴰ (some x) score skills s (ground arith)) [
            | inl this ↦
                let same : x ≡ s = ground arith in
                inr (id, Memᴰ.head (ap (λ (y : Skill). (id, y)) (sym same)))
            | inr (later, m) ↦ inr (later, Memᴰ.tail m)
          ]
          | inr worse ↦ elim (match_from-Memᴰ best before skills s (ground arith)) [
            | inl old ↦ inl old
            | inr (later, m) ↦ inr (later, Memᴰ.tail m)
          ]
        ]
      ]

  -- The best of the skills: one of them, with a score of at least 15 that none exceeds; or none of them,
  -- all scores being below 15.
  abbrev pub IsBest : Map Skill → Option Skill → Type 0
  IsBest skills none = All (λ (e : String × Skill). match_score e.1 input < 15) skills
  IsBest skills (some s) =
      ((id : String) × Memᴰ (id, s) skills)
      × (15 ≤ match_score s input)
      × All (λ (e : String × Skill). match_score e.1 input ≤ match_score s input) skills

  IsBestAbove-zero :
      (skills : Map Skill) (o : Option Skill)
      → match_from lower input none 0 skills ≡ o
      → IsBestAbove 0 skills o
      → IsBest skills o
  IsBestAbove-zero skills none e h = h.1
  IsBestAbove-zero skills (some s) e h =
      let found : (id : String) × Memᴰ (id, s) skills = elim (match_from-Memᴰ none 0 skills s e) [
        | inl old ↦ absurd (ground arith)
        | inr m ↦ m
      ] in
      (found, h.0, h.2)

  -- Where the request names no skill outright, it is matched with a skill of the map whose score is at least
  -- 15 and that no skill's score exceeds, or with none, and then every score is below 15.
  pub match_skill-IsBest :
      (skills : Map Skill) → NoneNamed skills → IsBest skills (match_skill lower input skills)
  unfolding match_skill
  match_skill-IsBest skills h =
      IsBestAbove-zero skills (match_from lower input none 0 skills) refl
        (match_from-IsBestAbove none 0 skills h refl)
