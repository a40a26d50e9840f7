-- ===== src/Engine/Parse/Parts.antt =====
-- engine/agent_engine.go, `parseToolCalls`: the length of the part of a text that is read next.
use mathlib.Core.List.{reverse-append, reverse-reverse}
use ai_desktop_assistant.Common.{
  suc, ◌+◌, ◌≤◌, ◌<◌, ◌≡◌, refl, ap, sym, subst, ◌∙◌, Char, code, String, true, some, List, [], ◌∷◌,
  ◌++◌, reverse, arith, ◌==◌, ltb, ltb→lt, drop, length, length-drop, length-append, Bool-cases,
  Option-cases, inl, inr, ◌⊎◌,
}
use ai_desktop_assistant.Common.Text.{is_prefix, is_space, runes, split_at, trim_left, trim_runes}
use ai_desktop_assistant.Engine.Types.{Decoder}
use ai_desktop_assistant.Engine.Parse.{fenced, plain_block, to_last_brace, braced, next_part}

length-trim_left : (cs : List Char) → length (trim_left cs) ≤ length cs
unfolding trim_left
length-trim_left [] = omega arith
length-trim_left (c ∷ cs) = ground (arith, length-trim_left cs)

length-reverse : (cs : List Char) → length (reverse cs) ≡ length cs
length-reverse [] = omega arith
length-reverse (c ∷ cs) =
    ap length (reverse-append (c ∷ []) cs)
    ∙ omega (arith, length-append (reverse cs) (c ∷ []), length-reverse cs)

pub length-trim_runes : (cs : List Char) → length (trim_runes cs) ≤ length cs
unfolding trim_runes
length-trim_runes cs =
    let front = trim_left cs in
    omega (
      arith,
      length-reverse (trim_left (reverse front)),
      length-trim_left (reverse front),
      length-reverse front,
      length-trim_left cs,
    )

is_prefix-length : (ps cs : List Char) → is_prefix ps cs ≡ true → length ps ≤ length cs
unfolding is_prefix
is_prefix-length [] cs h = omega arith
is_prefix-length (p ∷ ps) [] h = ground arith
is_prefix-length (p ∷ ps) (c ∷ cs) h = ground (arith, is_prefix-length ps cs)

length_none : (cs : List Char) → length cs ≤ 0 → cs ≡ []
length_none [] h = refl
length_none (c ∷ cs) h = ground arith

length-split_at :
    (ps cs before rest : List Char)
    → split_at ps cs ≡ some (before, rest)
    → length before + length ps + length rest ≤ length cs
unfolding split_at
length-split_at ps [] before rest h = ground (arith, is_prefix-length ps [])
length-split_at ps (c ∷ cs) before rest h = elim (Bool-cases (is_prefix ps (c ∷ cs))) [
  | inl here ↦
      let long = is_prefix-length ps (c ∷ cs) here in
      let cut = length-drop (length ps) (c ∷ cs) in ground arith
  | inr later ↦ elim (Option-cases (split_at ps cs)) [
    | inl missing ↦ ground arith
    | inr ((front, back), found) ↦ ground (arith, length-split_at ps cs front back found)
  ]
]

length-fenced :
    (fence : String) (text block : List Char)
    → fenced fence text ≡ some block
    → length block + length (runes fence) ≤ length text
unfolding fenced
length-fenced fence text block h = elim (Option-cases (split_at (runes fence) text)) [
  | inl missing ↦ ground arith
  | inr ((before, rest), opened) ↦ elim (Option-cases (split_at (runes "```") rest)) [
    | inl unclosed ↦ ground arith
    | inr ((inner, after), closed) ↦
        let outer = length-split_at (runes fence) text before rest opened in
        let within = length-split_at (runes "```") rest inner after closed in ground arith
  ]
]

length-plain_block : (block : List Char) → length (plain_block block) ≤ length block
unfolding plain_block
length-plain_block block =
    let trimmed = trim_runes block in
    let short = length-trim_runes block in
    let shorter = length-trim_runes (drop 4 trimmed) in
    let cut = length-drop 4 trimmed in ground arith

-- A text ends with a closing brace.
abbrev EndsClosed : List Char → Type 0
EndsClosed text = (front : List Char) × (c : Char) × (text ≡ front ++ c ∷ []) × (code c ≡ 125)

to_last_brace-EndsClosed :
    (cs inner : List Char)
    → to_last_brace cs ≡ some inner
    → EndsClosed inner × (length inner ≤ length cs) × ((length cs ≤ length inner) → inner ≡ cs)
unfolding to_last_brace
to_last_brace-EndsClosed [] inner h = ground arith
to_last_brace-EndsClosed (c ∷ cs) inner h = elim (Option-cases (to_last_brace cs)) [
  | inl last ↦ elim (Bool-cases (code c == 125)) [
    | inl closes ↦
        let alone : c ∷ [] ≡ inner = ground arith in
        let short : length cs ≤ 0 → c ∷ [] ≡ c ∷ cs =
          λ k. ap (λ l. c ∷ l) (sym (length_none cs k)) in
        subst
          (λ l.
            EndsClosed l × (length l ≤ suc (length cs)) × (suc (length cs) ≤ length l → l ≡ c ∷ cs))
          alone (([], c, refl, ground arith), omega arith, λ k. short (omega (arith, k)))
    | inr other ↦ ground arith
  ]
  | inr (tail, more) ↦
      let longer : c ∷ tail ≡ inner = ground arith in
      let ((front, d, ends, closes), short, all) = to_last_brace-EndsClosed cs tail more in
      subst
        (λ l.
          EndsClosed l × (length l ≤ suc (length cs)) × (suc (length cs) ≤ length l → l ≡ c ∷ cs))
        longer
        (
          (c ∷ front, d, ap (λ l. c ∷ l) ends, closes),
          omega (arith, short),
          λ k. ap (λ l. c ∷ l) (all (omega (arith, k))),
        )
]

to_last_brace-head :
    (c : Char) (cs inner : List Char)
    → to_last_brace (c ∷ cs) ≡ some inner
    → (tail : List Char) × (inner ≡ c ∷ tail)
unfolding to_last_brace
to_last_brace-head c cs inner h = elim (Option-cases (to_last_brace cs)) [
  | inl last ↦ elim (Bool-cases (code c == 125)) [
    | inl closes ↦ ([], ground arith)
    | inr other ↦ absurd (ground arith)
  ]
  | inr (tail, more) ↦ (tail, ground arith)
]

-- A text that starts with an opening brace and ends with a closing one is not trimmed.
trim_runes_closed :
    (c : Char) (cs : List Char) → code c ≡ 123 → EndsClosed (c ∷ cs) → trim_runes (c ∷ cs) ≡ c ∷ cs
unfolding trim_runes trim_left is_space
trim_runes_closed c cs opens (front, d, ends, closes) =
    let first : trim_left (c ∷ cs) ≡ c ∷ cs = ground arith in
    let back : reverse (c ∷ cs) ≡ d ∷ reverse front =
      ap reverse ends ∙ reverse-append front (d ∷ []) in
    let last : trim_left (d ∷ reverse front) ≡ d ∷ reverse front = ground arith in
    ap (λ l. reverse (trim_left (reverse l))) first
    ∙ ap (λ l. reverse (trim_left l)) back
    ∙ ap reverse (last ∙ sym back)
    ∙ reverse-reverse (c ∷ cs)

pub braced-shape :
    (cs part : List Char)
    → braced cs ≡ some part
    → (trim_runes part ≡ part) × (length part ≤ length cs) × ((length cs ≤ length part) → part ≡ cs)
unfolding braced
braced-shape [] part h = ground arith
braced-shape (c ∷ cs) part h = elim (Bool-cases (code c == 123)) [
  | inl opens ↦
      let found : to_last_brace (c ∷ cs) ≡ some part = ground arith in
      let (closed, short, all) = to_last_brace-EndsClosed (c ∷ cs) part found in
      let (tail, shape) = to_last_brace-head c cs part found in
      let closed' = subst EndsClosed shape closed in
      let same = trim_runes_closed c tail (ground arith) closed' in
      (ap trim_runes shape ∙ same ∙ sym shape, short, all)
  | inr other ↦
      let found : braced cs ≡ some part = ground arith in
      let (same, short, all) = braced-shape cs part found in
      (same, omega (arith, short), λ k. absurd (omega (arith, k, short)))
]

module _ (decoder : Decoder) where
  -- The next part is shorter, or it is the whole text again.
  pub next_part-shape :
      (text part : List Char)
      → next_part decoder text ≡ some part
      → (length part < length text) ⊎ ((part ≡ text) × (trim_runes part ≡ part))
  unfolding next_part runes
  next_part-shape text part h = elim (Option-cases (fenced "```json" text)) [
    | inr (block, found) ↦
        let inside = length-fenced "```json" text block found in
        let trimmed = length-trim_runes block in
        let same : trim_runes block ≡ part = ground arith in
        inl (subst (λ l. length l < length text) same (omega (arith, inside, trimmed)))
    | inl no_json ↦ elim (Option-cases (fenced "```" text)) [
      | inr (block, found) ↦
          let inside = length-fenced "```" text block found in
          let plain = length-plain_block block in
          let same : plain_block block ≡ part = ground arith in
          inl (subst (λ l. length l < length text) same (omega (arith, inside, plain)))
      | inl no_fence ↦
          let found : braced text ≡ some part = ground arith in
          let (same, short, all) = braced-shape text part found in
          elim (Bool-cases (ltb (length part) (length text))) [
            | inl shorter ↦ inl (ltb→lt (length part) (length text) shorter)
            | inr equal ↦ inr (all (ground arith), same)
          ]
    ]
  ]
