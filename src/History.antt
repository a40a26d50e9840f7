-- ===== src/History.antt =====
-- internal/domain/agent/service/context/reducer/reducer.go: a message of the history as a
-- `map[string]interface{}` with the keys that the code reads, and the estimate of its tokens.
use ai_desktop_assistant.Common.{
  ℕ, zero, suc, ◌+◌, ◌*◌, ◌/◌, ◌%◌, String, Bool, true, false, Option, none, some, List, [], ◌∷◌,
  if◌then◌else◌, ltb, ◌==◌, str_eq,
}
use ai_desktop_assistant.Common.Int.{ℤ, pos}
use ai_desktop_assistant.Common.Text.{rune_count, is_blank}

-- The dynamic value under "priority": a `float64` is given by its integer part, all that is used of it.
pub data PriorityValue : Type 0 where
  absent : PriorityValue
  int : ℤ → PriorityValue
  float : ℤ → PriorityValue

-- `none` where the key is missing or holds no string. `is_nil` is set for a nil map, which has no keys.
pub record Message : Type 0 where
  pub is_nil : Bool
  pub id : Option String
  pub role : Option String
  pub content : Option String
  pub priority : PriorityValue
  pub tool_name : Option String
  pub tool_call_id : Option String

abbrev pub text_or_empty : Option String → String
text_or_empty none = ""
text_or_empty (some s) = s

abbrev pub content_of : Message → String
content_of m = text_or_empty m.content

abbrev pub role_of : Message → String
role_of m = text_or_empty m.role

-- The least power of two `u` with `p < 2^53 * u`: the unit in the last place of the float64 nearest to
-- `p`. Sixty-four rounds serve every product of an int and a 53-bit significand.
unfoldable pub float_unit : ℕ → ℕ → ℕ → ℕ
float_unit zero u p = u
float_unit (suc fuel) u p = elim (ltb p (9007199254740992 * u)) [
  | true ↦ u
  | false ↦ float_unit fuel (u * 2) p
]

-- Division with rounding to the nearest integer, and to the even one from the middle.
unfoldable pub round_half_even : ℕ → ℕ → ℕ
round_half_even p u =
    let q = p / u in
    let r = p % u in
    if ltb (2 * r) u then q else if ltb u (2 * r) then q + 1 else if q % 2 == 0 then q else q + 1

-- `int(float64(n) * 0.7)`: the float64 nearest to 0.7 is 6305039478318694 / 2^53, and the product is
-- rounded to 53 bits.
unfoldable pub times_0_7 : ℕ → ℕ
unfolding float_unit round_half_even
times_0_7 n =
    let p = n * 6305039478318694 in
    let u = float_unit 64 1 p in round_half_even p u * u / 9007199254740992

unfoldable pub estimate_string : String → ℕ
unfolding times_0_7 rune_count
estimate_string s =
    if is_blank s then 0 else let t = times_0_7 (rune_count s) in if ltb t 1 then 1 else t

-- What a message counts in the sum of `EstimateTokens`.
abbrev pub message_tokens : Message → ℕ
message_tokens m = elim m.content [ none ↦ 0 | some c ↦ estimate_string c ]

unfoldable pub estimate_from : ℕ → List Message → ℕ
estimate_from total [] = total
estimate_from total (m ∷ ms) = estimate_from (total + message_tokens m) ms

unfoldable pub estimate_tokens : List Message → ℕ
unfolding estimate_from
estimate_tokens ms = estimate_from 0 ms

unfoldable pub role_priority : String → ℕ
role_priority role =
    if str_eq role "system"
    then 3
    else if str_eq role "user"
    then 2
    else if str_eq role "assistant"
    then 2
    else if str_eq role "tool"
    then 1
    else 0

unfoldable pub priority_of : Message → ℤ
unfolding role_priority
priority_of m = elim m.priority [
  | int v ↦ v
  | float v ↦ v
  | absent ↦ pos (role_priority (role_of m))
]
