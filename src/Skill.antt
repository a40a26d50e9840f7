-- ===== src/Skill.antt =====
-- internal/domain/skill: which skill a request calls for, and which tools a skill leaves. A skill's texts are
-- given by their runes' strings; a map of skills is walked in the order of its list.
pub mod Ids
pub mod Match
pub mod Parse
pub mod Directory
pub mod Uninstalled
mod Samples
use Prim.Native.String.{◌++◌ as append}
use ai_desktop_assistant.Common.{
  ℕ, zero, suc, ◌+◌, ◌*◌, ◌/◌, String, Char, code, Bool, true, false, ◌&&◌, ◌||◌, not, Option, none,
  some, List, [], ◌∷◌, ◌++◌, map, reverse, if◌then◌else◌, ltb, leb, ◌==◌, str_eq, is_empty, length,
  any, select,
}
use ai_desktop_assistant.Common.Map.{Map, lookup}
use ai_desktop_assistant.Common.Text.{
  runes, of_runes, rune_count, is_blank, trim_runes, to_lower, contains, is_infix, is_prefix,
}

pub record Skill : Type 0 where
  pub id : String
  pub name : String
  pub description : String
  pub triggers : List String
  pub tools : List String
  pub body : String
  pub path : String
  pub source : String
  pub enabled : Bool

-- `toLower`, on the codes of the runes: the ASCII letters alone.
unfoldable pub lower_code : ℕ → ℕ
lower_code n = if leb b'A' n && leb n b'Z' then n + 32 else n

unfoldable pub lower_codes : String → List ℕ
unfolding runes lower_code
lower_codes s = map (λ c. lower_code (code c)) (runes s)

unfoldable pub starts_with : List ℕ → List ℕ → Bool
starts_with [] cs = true
starts_with (p ∷ ps) [] = false
starts_with (p ∷ ps) (c ∷ cs) = if p == c then starts_with ps cs else false

-- `indexOf(s, sub) >= 0`
unfoldable pub occurs : List ℕ → List ℕ → Bool
unfolding starts_with
occurs sub [] = starts_with sub []
occurs sub (c ∷ cs) = if starts_with sub (c ∷ cs) then true else occurs sub cs

-- `contains`: an empty text is in no text.
unfoldable pub contains_codes : List ℕ → List ℕ → Bool
unfolding occurs
contains_codes s sub = not (is_empty sub) && occurs sub s

-- A rune of a word.
unfoldable pub is_word_code : ℕ → Bool
is_word_code n =
    (leb b'a' n && leb n b'z')
    || (leb b'A' n && leb n b'Z')
    || (leb b'0' n && leb n b'9')
    || ltb 127 n

-- `splitWords`; `cur` is the reversed current word.
unfoldable pub words_from : List ℕ → List ℕ → List (List ℕ)
unfolding is_word_code lower_code
words_from cur [] = if is_empty cur then [] else reverse cur ∷ []
words_from cur (c ∷ cs) =
    let more = words_from (lower_code c ∷ cur) cs in
    let next = words_from [] cs in
    if is_word_code c then more else if is_empty cur then next else reverse cur ∷ next

-- The bytes of a rune in UTF-8.
unfoldable pub utf8_length : ℕ → ℕ
utf8_length n = if ltb n 0x80 then 1 else if ltb n 0x800 then 2 else if ltb n 0x10000 then 3 else 4

unfoldable pub byte_length : List ℕ → ℕ
unfolding utf8_length
byte_length [] = 0
byte_length (c ∷ cs) = utf8_length c + byte_length cs

-- The loops of `MatchScore` over the triggers and over the words of the description.
unfoldable pub trigger_score : List ℕ → List String → ℕ
unfolding lower_codes contains_codes
trigger_score input [] = 0
trigger_score input (t ∷ ts) =
    let codes = lower_codes t in
    (if contains_codes input codes then 20 + length codes / 2 else 0) + trigger_score input ts

unfoldable pub word_score : List ℕ → List (List ℕ) → ℕ
unfolding byte_length contains_codes
word_score input [] = 0
word_score input (w ∷ ws) =
    (if leb 2 (byte_length w) && contains_codes input w then 2 else 0) + word_score input ws

unfoldable pub match_score : Skill → String → ℕ
unfolding lower_codes contains_codes trigger_score words_from word_score runes
match_score s user_input =
    let input = lower_codes user_input in
    if not s.enabled
    then 0
    else (if contains_codes input (lower_codes s.name) then 30 else 0)
      + (if contains_codes input (lower_codes s.id) then 25 else 0)
      + trigger_score input s.triggers
      + word_score input (words_from [] (map code (runes s.description)))

module _ (lower : Char → Char) where
  -- A request names a skill outright.
  unfoldable pub is_named : String → String → Skill → Bool
  is_named user_input id s =
      let low = to_lower lower user_input in
      contains low (append "/" (to_lower lower id))
      || contains low (append "使用 " (to_lower lower s.name))
      || contains low (append "use skill " (to_lower lower id))

  -- The loop of `Match`, with the best skill so far and its score.
  unfoldable pub match_from : String → Option Skill → ℕ → Map Skill → Option Skill
  match_from user_input best best_score [] = if ltb best_score 15 then none else best
  match_from user_input best best_score ((id, s) ∷ skills) =
      let score = match_score s user_input in
      let better = match_from user_input (some s) score skills in
      let same = match_from user_input best best_score skills in
      if is_named user_input id s then some s else if ltb best_score score then better else same

  unfoldable pub match_skill : String → Map Skill → Option Skill
  unfolding match_from
  match_skill user_input skills = match_from user_input none 0 skills

  -- A tool's name is one that the skill declares, or one of the two is within the other.
  unfoldable pub is_tool_allowed : List String → String → Bool
  is_tool_allowed allow name =
      let low = to_lower lower name in
      any (λ a. str_eq a low) allow || any (λ a. contains low a || contains a low) allow

  -- A nil skill is `none`.
  unfoldable pub filter_tools : Option Skill → List String → List String
  filter_tools none all = all
  filter_tools (some s) all =
      let out = select (is_tool_allowed (map (to_lower lower) s.tools)) all in
      if is_empty s.tools then all else if is_empty out then all else out

-- `strings.ReplaceAll(id, " ", "-")`, then the runes that an id may have.
unfoldable pub is_id_code : ℕ → Bool
is_id_code n =
    (leb b'a' n && leb n b'z')
    || (leb b'A' n && leb n b'Z')
    || (leb b'0' n && leb n b'9')
    || n == b'-'
    || n == b'_'

unfoldable pub id_runes : List Char → List Char
unfolding is_id_code
id_runes [] = []
id_runes (c ∷ cs) =
    let rest = id_runes cs in
    if code c == 32 then "-" ∷ rest else if is_id_code (code c) then c ∷ rest else rest

unfoldable pub sanitize_id : String → String
unfolding id_runes trim_runes runes of_runes
sanitize_id id = of_runes (id_runes (trim_runes (runes id)))
