-- ===== src/Skill/Ids.antt =====
-- internal/domain/skill/service/skill_service.go, `sanitizeID`: what an id can be.
use mathlib.Core.List.{reverse-append, reverse-reverse}
use ai_desktop_assistant.Common.{
  ◌≡◌, refl, ap, sym, subst, ◌∙◌, String, Char, code, true, List, [], ◌∷◌, arith, reverse, All,
  All-append,
}
use ai_desktop_assistant.Common.Text.{runes, of_runes, is_space, trim_left, trim_runes}
use ai_desktop_assistant.Common.TextLaws.{runes-of_runes}
use ai_desktop_assistant.Skill.{is_id_code, id_runes, sanitize_id}

-- A rune that an id may have: an ASCII letter or digit, a dash or an underscore.
abbrev pub IsIdRune : Char → Type 0
IsIdRune c = is_id_code (code c) ≡ true

id_runes-IsIdRune : (cs : List Char) → All IsIdRune (id_runes cs)
unfolding id_runes is_id_code
id_runes-IsIdRune [] = tt
id_runes-IsIdRune (c ∷ cs) = ground (arith, id_runes-IsIdRune cs)

id_runes-same : (cs : List Char) → All IsIdRune cs → id_runes cs ≡ cs
unfolding id_runes is_id_code
id_runes-same [] h = refl
id_runes-same (c ∷ cs) (here, h) = ground (arith, id_runes-same cs h)

trim_left-same : (cs : List Char) → All IsIdRune cs → trim_left cs ≡ cs
unfolding trim_left is_space is_id_code
trim_left-same [] h = refl
trim_left-same (c ∷ cs) (here, h) = ground arith

All-reverse : (cs : List Char) → All IsIdRune cs → All IsIdRune (reverse cs)
All-reverse [] h = tt
All-reverse (c ∷ cs) (here, h) =
    subst (All IsIdRune) (sym (reverse-append (c ∷ []) cs))
      (All-append IsIdRune (reverse cs) (c ∷ []) (All-reverse cs h) (here, tt))

trim_runes-same : (cs : List Char) → All IsIdRune cs → trim_runes cs ≡ cs
unfolding trim_runes
trim_runes-same cs h =
    ap (λ l. reverse (trim_left (reverse l))) (trim_left-same cs h)
    ∙ ap reverse (trim_left-same (reverse cs) (All-reverse cs h))
    ∙ reverse-reverse cs

-- An id that was sanitized has only ASCII letters, digits, dashes and underscores, so no separator of paths
-- and no dot; and sanitizing it again changes nothing.
pub sanitize_id-IsIdRune :
    (id : String)
    → All IsIdRune (runes (sanitize_id id)) × (sanitize_id (sanitize_id id) ≡ sanitize_id id)
unfolding sanitize_id
sanitize_id-IsIdRune id =
    let cs = id_runes (trim_runes (runes id)) in
    let fine = id_runes-IsIdRune (trim_runes (runes id)) in
    let back = runes-of_runes cs in
    (
      subst (All IsIdRune) (sym back) fine,
      ap (λ l. of_runes (id_runes (trim_runes l))) back
          ∙ ap (λ l. of_runes (id_runes l)) (trim_runes-same cs fine)
          ∙ ap of_runes (id_runes-same cs fine),
    )
