-- ===== src/Desktop/Pages.antt =====
-- internal/domain/desktop/service/browser_service.go: which page is opened, by Chrome or else by HTTP, and
-- what is kept of its text. Chrome and HTTP are parameters over the state `W` of the machine.
use ai_desktop_assistant.Common.{
  ℕ, ◌+◌, ◌-◌, Char, code, Bool, true, false, ◌||◌, Option, none, some, List, [], ◌∷◌, ◌++◌, map,
  if◌then◌else◌, take, length, leb, is_empty, ◌==◌,
}
use ai_desktop_assistant.Common.Text.{
  runes, is_prefix, trim_runes, byte_index, drop_bytes, take_bytes, fields_from, join_runes,
}
use ai_desktop_assistant.Common.Outcome.{Outcome, done, failed}

-- `truncateRunes`
unfoldable pub truncate_runes : List Char → ℕ → List Char
truncate_runes r n = if leb (length r) n then r else take n r ++ runes "..."

-- The loop of `stripTags`; `in_tag` is its flag.
unfoldable pub outside_tags : Bool → List Char → List Char
outside_tags in_tag [] = []
outside_tags in_tag (c ∷ cs) =
    let opened = outside_tags true cs in
    let closed = outside_tags false cs in
    let kept = outside_tags in_tag cs in
    if code c == b'<'
    then opened
    else if code c == b'>'
    then closed
    else if in_tag
    then kept
    else c ∷ kept

-- `stripTags`
unfoldable pub strip_tags : List Char → List Char
strip_tags s = join_runes (runes " ") (fields_from [] (outside_tags false s))

abbrev slice : List Char → ℕ → ℕ → Option (List Char)
slice html from n = elim (drop_bytes from html) [ none ↦ none | some rest ↦ take_bytes n rest ]

abbrev trimmed : Option (List Char) → Option (List Char)
trimmed none = none
trimmed (some t) = some (trim_runes t)

-- The title between two indices in bytes, `i` of the opening tag and `j`, from there, of the closing one.
abbrev title_at : List Char → Option ℕ → Option ℕ → Option (List Char)
title_at html none j = some []
title_at html (some i) none = some []
title_at html (some i) (some j) = trimmed (slice html (i + 7) (j - 7))

abbrev from_index : Option ℕ → List Char → List Char
from_index none cs = []
from_index (some i) cs = elim (drop_bytes i cs) [ none ↦ [] | some t ↦ t ]

-- `extractHTMLTitle`: the indices are found in the text in lower case and used in the text itself. None is a
-- panic or a text that ends inside a rune.
unfoldable pub extract_html_title : (Char → Char) → List Char → Option (List Char)
extract_html_title lower html =
    let low = map lower html in
    let i = byte_index (runes "<title>") low in
    title_at html i (byte_index (runes "</title>") (from_index i low))

-- The address that `OpenURL` opens.
unfoldable pub with_scheme : List Char → List Char
with_scheme url =
    if is_prefix (runes "http://") url || is_prefix (runes "https://") url
    then url
    else runes "https://" ++ url

-- The address that `NavigateAndScreenshot` opens.
unfoldable pub with_any_scheme : List Char → List Char
with_any_scheme url = if is_prefix (runes "http") url then url else runes "https://" ++ url

module _ {W : Type 0} (chrome http : List Char → W → Outcome (List Char × List Char) × W) where
  -- What Chrome's failure leads to.
  abbrev pub or_http :
      List Char → Outcome (List Char × List Char) × W → Outcome (List Char × List Char) × W
  or_http url (done (t, body), w) = (done (t, truncate_runes body 4000), w)
  or_http url (failed e, w) = http url w

  -- `OpenURL`
  unfoldable pub open_url : List Char → W → Outcome (List Char × List Char) × W
  open_url url w =
      let u = trim_runes url in
      if is_empty u
      then (failed "url required", w)
      else or_http (with_scheme u) (chrome (with_scheme u) w)

module _ {W : Type 0} (lower : Char → Char) (get : List Char → W → Outcome (List Char) × W) where
  -- What the fallback makes of the body that it read; the title is none as above.
  abbrev pub page_of : Outcome (List Char) × W → Outcome (Option (List Char) × List Char) × W
  page_of (done body, w) =
      (done (extract_html_title lower body, truncate_runes (strip_tags body) 4000), w)
  page_of (failed e, w) = (failed e, w)

  -- `httpFallback`; `get` reads at most 100000 bytes of the page.
  unfoldable pub http_fallback : List Char → W → Outcome (Option (List Char) × List Char) × W
  http_fallback url w = page_of (get url w)
