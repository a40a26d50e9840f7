-- ===== src/Intent/Bytes.antt =====
-- rule_classifier.go: indices in bytes, of a text and of its lower case.
use text.Mathlib.TextEquality.{Char-path}
use mathlib.Core.Option as Option
use ai_desktop_assistant.Common.{
  ◌+◌, ◌-◌, ◌≡◌, refl, ap, ◌∙◌, Char, true, Option, none, some, List, [], ◌∷◌, ◌++◌, map, arith,
  All, if_ind, length, drop, drop_nil, ◌<◌,
}
use ai_desktop_assistant.Common.Text.{is_prefix, split_at, rune_bytes, byte_count, drop_bytes}
use ai_desktop_assistant.Intent.Sound.{Some}

-- A text whose runes keep their number of bytes in lower case.
abbrev pub IsSameSize : (Char → Char) → List Char → Type 0
IsSameSize lower cs = All (λ c. rune_bytes (lower c) ≡ rune_bytes c) cs

pub byte_count-map :
    (lower : Char → Char) (cs : List Char)
    → IsSameSize lower cs
    → byte_count (map lower cs) ≡ byte_count cs
unfolding byte_count
byte_count-map lower [] h = refl
byte_count-map lower (c ∷ cs) (e, h) = omega (arith, e, byte_count-map lower cs h)

pub byte_count-append : (xs ys : List Char) → byte_count (xs ++ ys) ≡ byte_count xs + byte_count ys
unfolding byte_count
byte_count-append [] ys = omega arith
byte_count-append (x ∷ xs) ys = omega (arith, byte_count-append xs ys)

rune_bytes_positive : (c : Char) → 0 < rune_bytes c
unfolding rune_bytes
rune_bytes_positive c = ground arith

pub drop_bytes-append : (xs ys : List Char) → drop_bytes (byte_count xs) (xs ++ ys) ≡ some ys
unfolding drop_bytes byte_count
drop_bytes-append [] [] = refl
drop_bytes-append [] (y ∷ ys) = refl
drop_bytes-append (x ∷ xs) ys =
    let same : rune_bytes x + byte_count xs - rune_bytes x ≡ byte_count xs = omega arith in
    rw same (ground (arith, rune_bytes_positive x, drop_bytes-append xs ys))

is_prefix-drop : (ps cs : List Char) → is_prefix ps cs ≡ true → cs ≡ ps ++ drop (length ps) cs
unfolding is_prefix
is_prefix-drop [] cs h = refl
is_prefix-drop (p ∷ ps) [] h = ground (arith, h)
is_prefix-drop (p ∷ ps) (c ∷ cs) h = ground (arith, h, Char-path p c, is_prefix-drop ps cs)

-- A pattern that is found splits its text.
abbrev pub IsSplit : List Char → List Char → List Char × List Char → Type 0
IsSplit ps cs p = cs ≡ p.0 ++ (ps ++ p.1)

pub split_at-IsSplit : (ps cs : List Char) → Some (IsSplit ps cs) (split_at ps cs)
unfolding split_at
split_at-IsSplit ps [] =
    if_ind (Some (IsSplit ps [])) (is_prefix ps [])
      (λ h. is_prefix-drop ps [] h ∙ ap (λ l. ps ++ l) (drop_nil (length ps))) (λ h. tt)
split_at-IsSplit ps (c ∷ cs) =
    if_ind (Some (IsSplit ps (c ∷ cs))) (is_prefix ps (c ∷ cs)) (λ h. is_prefix-drop ps (c ∷ cs) h)
      (λ h. cons_lem (split_at ps cs) (split_at-IsSplit ps cs))
  where
    cons_lem :
        (o : Option (List Char × List Char))
        → Some (IsSplit ps cs) o
        → Some (IsSplit ps (c ∷ cs)) (Option.map (λ p. (c ∷ p.0, p.1)) o)
    cons_lem none h = tt
    cons_lem (some p) h = ap (λ l. c ∷ l) h

-- The part of a text whose lower case is what stands before a place there.
pub map_split :
    (lower : Char → Char) (cs xs ys : List Char)
    → map lower cs ≡ xs ++ ys
    → (us : List Char) × (vs : List Char) × (cs ≡ us ++ vs) × (map lower us ≡ xs)
map_split lower cs [] ys h = ([], cs, refl, refl)
map_split lower [] (x ∷ xs) ys h = ground (arith, h)
map_split lower (c ∷ cs) (x ∷ xs) ys h =
    let rest = map_split lower cs xs ys (ground (arith, h)) in
    let same : lower c ≡ x = ground (arith, h) in
    (c ∷ rest.0, rest.1, ap (λ l. c ∷ l) rest.2, λ i. same i ∷ rest.3 i)

pub IsSameSize-front :
    (lower : Char → Char) (us vs : List Char) → IsSameSize lower (us ++ vs) → IsSameSize lower us
IsSameSize-front lower [] vs h = tt
IsSameSize-front lower (u ∷ us) vs (e, h) = (e, IsSameSize-front lower us vs h)
