-- ===== src/Common/Text.antt =====
-- Go's strings: runes, `strings.TrimSpace`, `ToLower`, `Contains`, `Split`, `HasPrefix`, and the slice of
-- runes. The table of `unicode.ToLower` is the argument `lower`.
use Prim.Native.Nat.{ℕ, zero, suc, ◌+◌, ◌-◌, ◌/◌, ◌%◌}
use Prim.Native.Char.{Char, code}
use Prim.Native.String.{String, ◌++◌ as append}
use mathlib.Core.Bool.{Bool, true, false, ◌&&◌, ◌||◌}
use mathlib.Core.List.{List, [], ◌∷◌, map, reverse, ◌++◌ as list_append}
use ai_desktop_assistant.Common.Tests.{leb, ltb, ◌==◌, char_eq, if◌then◌else◌}
use mathlib.Core.Option as Option
use mathlib.Core.Option.{Option, some, none}
use ai_desktop_assistant.Common.Lists.{length, take, drop}

-- `[]rune(s)`
unfoldable pub runes : String → List Char
runes String.[] = []
runes (String.◌∷◌ c s) = c ∷ runes s

-- `string(rs)`
unfoldable pub of_runes : List Char → String
of_runes [] = String.[]
of_runes (c ∷ cs) = String.◌∷◌ c (of_runes cs)

-- `len([]rune(s))`
unfoldable pub rune_count : String → ℕ
unfolding runes
rune_count s = length (runes s)

abbrev pub is_blank : String → Bool
is_blank String.[] = true
is_blank (String.◌∷◌ c s) = false

-- `unicode.IsSpace`
unfoldable pub is_space : Char → Bool
is_space c =
    let n = code c in
    (leb 9 n && leb n 13)
    || n == 32
    || n == 0x85
    || n == 0xa0
    || n == 0x1680
    || (leb 0x2000 n && leb n 0x200a)
    || n == 0x2028
    || n == 0x2029
    || n == 0x202f
    || n == 0x205f
    || n == 0x3000

unfoldable pub trim_left : List Char → List Char
unfolding is_space
trim_left [] = []
trim_left (c ∷ cs) = if is_space c then trim_left cs else c ∷ cs

unfoldable pub trim_runes : List Char → List Char
unfolding trim_left
trim_runes cs = reverse (trim_left (reverse (trim_left cs)))

-- `strings.TrimSpace`
unfoldable pub trim_space : String → String
unfolding trim_runes runes of_runes
trim_space s = of_runes (trim_runes (runes s))

-- `strings.ToLower`
unfoldable pub to_lower : (Char → Char) → String → String
unfolding runes of_runes
to_lower lower s = of_runes (map lower (runes s))

unfoldable pub is_prefix : List Char → List Char → Bool
is_prefix [] cs = true
is_prefix (p ∷ ps) [] = false
is_prefix (p ∷ ps) (c ∷ cs) = if char_eq p c then is_prefix ps cs else false

unfoldable pub is_infix : List Char → List Char → Bool
unfolding is_prefix
is_infix ps [] = is_prefix ps []
is_infix ps (c ∷ cs) = if is_prefix ps (c ∷ cs) then true else is_infix ps cs

-- `strings.Contains(s, sub)`: on valid UTF-8 an occurrence of bytes is one of runes.
unfoldable pub contains : String → String → Bool
unfolding is_infix runes
contains s sub = is_infix (runes sub) (runes s)

-- `strings.Split(s, sep)` for a separator of one rune; `cur` is the reversed current part.
unfoldable pub split_runes : Char → List Char → List Char → List String
unfolding of_runes
split_runes sep cur [] = of_runes (reverse cur) ∷ []
split_runes sep cur (c ∷ cs) =
    let cut = split_runes sep [] cs in
    let more = split_runes sep (c ∷ cur) cs in
    if char_eq c sep then of_runes (reverse cur) ∷ cut else more

unfoldable pub split_on : Char → String → List String
unfolding split_runes runes
split_on sep s = split_runes sep [] (runes s)

-- `r := []rune(s); if len(r) <= n { return s }; return string(r[:n]) + tail`
unfoldable pub truncate_with : String → ℕ → String → String
unfolding rune_count runes of_runes
truncate_with tail n s =
    if leb (rune_count s) n then s else append (of_runes (take n (runes s))) tail

unfoldable pub digit : ℕ → String
digit n =
    if n == 0
    then "0"
    else if n == 1
    then "1"
    else if n == 2
    then "2"
    else if n == 3
    then "3"
    else if n == 4
    then "4"
    else if n == 5
    then "5"
    else if n == 6
    then "6"
    else if n == 7
    then "7"
    else if n == 8
    then "8"
    else "9"

-- The decimal digits of a number, as `fmt.Sprintf("%d", n)` prints it. An int64 has at most 19.
unfoldable pub digits_from : ℕ → ℕ → String → String
unfolding digit
digits_from zero n tail = tail
digits_from (suc fuel) n tail =
    let text = append (digit (n % 10)) tail in
    elim (ltb n 10) [ true ↦ text | false ↦ digits_from fuel (n / 10) text ]

unfoldable pub decimal : ℕ → String
unfolding digits_from
decimal n = digits_from 20 n ""

-- What stands before the first occurrence of a pattern, and what stands after it.
unfoldable pub split_at : List Char → List Char → Option (List Char × List Char)
unfolding is_prefix
split_at ps [] = if is_prefix ps [] then some ([], []) else none
split_at ps (c ∷ cs) =
    if is_prefix ps (c ∷ cs)
    then some ([], drop (length ps) (c ∷ cs))
    else Option.map (λ p. (c ∷ p.0, p.1)) (split_at ps cs)

-- `strings.Split(s, sep)`; `skip` counts the runes of a separator that are still to be left out, and `cur`
-- is the reversed current part.
unfoldable pub split_seq : List Char → ℕ → List Char → List Char → List (List Char)
unfolding is_prefix
split_seq sep skip cur [] = reverse cur ∷ []
split_seq sep (suc skip) cur (c ∷ cs) = split_seq sep skip cur cs
split_seq sep zero cur (c ∷ cs) =
    let cut = split_seq sep (length sep - 1) [] cs in
    let more = split_seq sep zero (c ∷ cur) cs in
    if is_prefix sep (c ∷ cs) then reverse cur ∷ cut else more

-- The bytes of a rune in UTF-8.
unfoldable pub rune_bytes : Char → ℕ
rune_bytes c =
    if ltb (code c) 0x80
    then 1
    else if ltb (code c) 0x800
    then 2
    else if ltb (code c) 0x10000
    then 3
    else 4

-- `len(s)`
unfoldable pub byte_count : List Char → ℕ
unfolding rune_bytes
byte_count [] = 0
byte_count (c ∷ cs) = rune_bytes c + byte_count cs

-- `s[n:]` of bytes: none where Go panics, beyond the end, or where a rune is cut apart.
unfoldable pub drop_bytes : ℕ → List Char → Option (List Char)
unfolding rune_bytes
drop_bytes n [] = if n == 0 then some [] else none
drop_bytes n (c ∷ cs) =
    let rest = drop_bytes (n - rune_bytes c) cs in
    if n == 0 then some (c ∷ cs) else if leb (rune_bytes c) n then rest else none

-- `s[:n]` of bytes, likewise.
unfoldable pub take_bytes : ℕ → List Char → Option (List Char)
unfolding rune_bytes
take_bytes n [] = if n == 0 then some [] else none
take_bytes n (c ∷ cs) =
    let rest = take_bytes (n - rune_bytes c) cs in
    if n == 0 then some [] else if leb (rune_bytes c) n then Option.map (λ t. c ∷ t) rest else none

-- `strings.Index(s, sub)`, in bytes; none is -1.
unfoldable pub byte_index : List Char → List Char → Option ℕ
unfolding split_at byte_count
byte_index sub cs = Option.map (λ p. byte_count p.0) (split_at sub cs)

-- `strings.TrimPrefix`
unfoldable pub trim_prefix : List Char → List Char → List Char
unfolding is_prefix
trim_prefix p cs = if is_prefix p cs then drop (length p) cs else cs

-- `strings.Fields`; `cur` is the reversed current field.
unfoldable pub fields_from : List Char → List Char → List (List Char)
unfolding is_space
fields_from [] [] = []
fields_from (k ∷ ks) [] = reverse (k ∷ ks) ∷ []
fields_from [] (c ∷ cs) = if is_space c then fields_from [] cs else fields_from (c ∷ []) cs
fields_from (k ∷ ks) (c ∷ cs) =
    let cut = fields_from [] cs in
    let more = fields_from (c ∷ k ∷ ks) cs in if is_space c then reverse (k ∷ ks) ∷ cut else more

-- `strings.Join`
unfoldable pub join_runes : List Char → List (List Char) → List Char
join_runes sep [] = []
join_runes sep (t ∷ []) = t
join_runes sep (t ∷ u ∷ us) =
    let rest = join_runes sep (u ∷ us) in list_append t (list_append sep rest)
