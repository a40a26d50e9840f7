-- ===== src/Common/TextLaws.antt =====
-- Laws of runes and of truncation.
use Prim.Native.Char.{Char}
use Prim.Native.String.{String, ◌++◌ as append}
use mathlib.Core.Path.{◌≡◌, refl, ap}
use mathlib.Core.List.{List, [], ◌∷◌, ◌++◌}
use text.Mathlib.TextLemmas.{nil-append, cons-append}
use ai_desktop_assistant.Common.Text.{runes, of_runes}

pub runes-of_runes : (cs : List Char) → runes (of_runes cs) ≡ cs
unfolding runes of_runes
runes-of_runes [] = refl
runes-of_runes (c ∷ cs) = ap (λ l. c ∷ l) (runes-of_runes cs)

pub runes-append : (s t : String) → runes (append s t) ≡ runes s ++ runes t
unfolding runes
runes-append String.[] t = rw nil-append
runes-append (String.◌∷◌ c s) t = rw cons-append (ap (λ l. c ∷ l) (runes-append s t))
