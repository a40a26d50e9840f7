-- ===== src/Skill/Parse.antt =====
-- internal/domain/skill/service/skill_service.go: what a SKILL.md says, and the text of a skill for the model.
use Prim.Native.String.{◌++◌ as append}
use ai_desktop_assistant.Common.{
  String, Char, Bool, true, not, ◌&&◌, ◌||◌, Option, none, some, List, [], ◌∷◌, ◌++◌, map, reverse,
  drop, if◌then◌else◌, char_eq, is_empty, str_eq,
}
use ai_desktop_assistant.Common.Map.{Map, insert, lookup_or}
use ai_desktop_assistant.Common.Text.{
  runes, of_runes, is_blank, is_prefix, trim_runes, trim_prefix, split_at, split_seq, join_runes,
}
use ai_desktop_assistant.Skill.{Skill, sanitize_id}

abbrev is_quote : Char → Bool
is_quote c = char_eq c "\"" || char_eq c "'"

abbrev drop_quotes : List Char → List Char
drop_quotes [] = []
drop_quotes (c ∷ cs) = if is_quote c then drop_quotes cs else c ∷ cs

-- `strings.Trim(val, "\"'")`
unfoldable pub unquoted : List Char → List Char
unquoted cs = reverse (drop_quotes (reverse (drop_quotes cs)))

abbrev is_separator : Char → Bool
is_separator c = char_eq c "," || char_eq c ";" || char_eq c "\n"

-- `strings.FieldsFunc`; `cur` is the reversed current field.
unfoldable pub csv_fields : List Char → List Char → List (List Char)
csv_fields [] [] = []
csv_fields (k ∷ ks) [] = reverse (k ∷ ks) ∷ []
csv_fields [] (c ∷ cs) = if is_separator c then csv_fields [] cs else csv_fields (c ∷ []) cs
csv_fields (k ∷ ks) (c ∷ cs) =
    let cut = csv_fields [] cs in
    let more = csv_fields (c ∷ k ∷ ks) cs in if is_separator c then reverse (k ∷ ks) ∷ cut else more

unfoldable pub csv_values : List (List Char) → List String
csv_values [] = []
csv_values (f ∷ fs) =
    let v = unquoted (trim_runes f) in
    let rest = csv_values fs in if is_empty v then rest else of_runes v ∷ rest

-- `splitCSV`
unfoldable pub split_csv : String → List String
split_csv s = csv_values (csv_fields [] (runes s))

-- What the loop over the lines has read: the values by key, the key of a list, and the list's values.
pub record Reading : Type 0 where
  pub meta : Map String
  pub current_key : String
  pub list_vals : List (List Char)

-- `flushList`
unfoldable pub flush_list : Reading → Reading
flush_list r =
    if not (is_blank r.current_key) && not (is_empty r.list_vals)
    then record r {
      meta = insert r.current_key (of_runes (join_runes (runes ",") r.list_vals)) r.meta;
      list_vals = [];
    }
    else r

abbrev drop_returns : List Char → List Char
drop_returns [] = []
drop_returns (c ∷ cs) = if char_eq c "\r" then drop_returns cs else c ∷ cs

abbrev is_block : String → Bool
is_block v = is_blank v || str_eq v "|" || str_eq v ">"

-- A line with a key: its value, or the start of a list.
unfoldable pub read_key : (Char → Char) → List Char × List Char → Reading → Reading
read_key lower (before, behind) r =
    let key = of_runes (map lower (trim_runes before)) in
    let v = of_runes (unquoted (trim_runes behind)) in
    if is_empty before
    then r
    else if is_block v
    then record r { current_key = key; list_vals = [] }
    else record r { meta = insert key v r.meta; current_key = key }

abbrev keyed : (Char → Char) → Option (List Char × List Char) → Reading → Reading
keyed lower none r = r
keyed lower (some p) r = read_key lower p r

unfoldable pub read_line : (Char → Char) → List Char → Reading → Reading
read_line lower text r =
    let line = reverse (drop_returns (reverse text)) in
    let trim = trim_runes line in
    if is_empty trim || is_prefix (runes "#") trim
    then r
    else if is_prefix (runes "- ") trim && not (is_blank r.current_key)
    then record r { list_vals = r.list_vals ++ (trim_runes (drop 2 trim) ∷ []) }
    else keyed lower (split_at (runes ":") line) (flush_list r)

unfoldable pub read_lines : (Char → Char) → List (List Char) → Reading → Reading
read_lines lower [] r = r
read_lines lower (l ∷ ls) r = read_lines lower ls (read_line lower l r)

-- The values of a head.
unfoldable pub read_head : (Char → Char) → List Char → Map String
read_head lower head =
    (flush_list (
      read_lines lower (split_seq (runes "\n") 0 [] head)
        (record { meta = []; current_key = ""; list_vals = [] }))).meta

abbrev split_head :
    (Char → Char) → List Char → Option (List Char × List Char) → Map String × List Char
split_head lower content none = ([], content)
split_head lower content (some (head, behind)) = (
  read_head lower head,
  trim_prefix (runes "\r\n") (trim_prefix (runes "\n") (trim_runes behind)),
)

-- `splitFrontmatter`: the values and the body.
unfoldable pub split_frontmatter : (Char → Char) → List Char → Map String × List Char
split_frontmatter lower text =
    let content = trim_runes text in
    if is_prefix (runes "---") content
    then split_head lower content (split_at (runes "\n---") (drop 3 content))
    else ([], content)

abbrev or_else : String → String → String
or_else v d = if is_blank v then d else v

abbrev csv_or_none : String → List String
csv_or_none v = if is_blank v then [] else split_csv v

-- `parseSkillDir`, of a directory with its last name and the file's text.
unfoldable pub parse_skill : (Char → Char) → String → String → String → Skill
parse_skill lower dir base text =
    let parts = split_frontmatter lower (runes text) in
    let value = λ (k : String). lookup_or "" k parts.0 in
    record {
      id = if is_blank (value "id") then base else sanitize_id (value "id");
      name = or_else (value "name") base;
      description = value "description";
      triggers = csv_or_none (value "triggers");
      tools = csv_or_none (value "tools");
      body = of_runes (trim_runes parts.1);
      path = dir;
      source = "";
      enabled = true;
    }

abbrev line_if : Bool → String → String
line_if b s = if b then s else ""

abbrev join_comma : List String → String
join_comma [] = ""
join_comma (t ∷ []) = t
join_comma (t ∷ u ∷ us) = append t (append ", " (join_comma (u ∷ us)))

-- `PromptSection`; a nil skill is `none`.
unfoldable pub prompt_section : Option Skill → String
prompt_section none = ""
prompt_section (some s) = append "## 已激活 Skill: " (
    append s.name (
      append " (" (
        append s.id (
          append ")\n" (
            append (line_if (not (is_blank s.description)) (append s.description "\n")) (
              append
                (line_if (not (is_empty s.tools))
                  (append "优先使用工具: " (append (join_comma s.tools) "\n")))
                (line_if (not (is_blank s.body))
                  (append "\n### Skill 执行指南\n" (append s.body "\n")))))))))
