-- ===== src/Intent/Extract.antt =====
-- rule_classifier.go: the entities that are read out of a request.
use ai_desktop_assistant.Common.{
  ℕ, ◌+◌, String, Char, Bool, ◌||◌, Option, none, some, List, [], ◌∷◌, map, reverse, if◌then◌else◌,
  str_eq, is_empty, char_eq,
}
use ai_desktop_assistant.Common.Map.{Map, insert, lookup_or}
use ai_desktop_assistant.Common.Text.{
  runes, of_runes, is_blank, trim_runes, trim_prefix, byte_count, byte_index, drop_bytes, split_at,
}
use ai_desktop_assistant.Intent.{is_among, file_intents}

-- `strings.Trim(p, "\"'` ")`
abbrev is_quote : Char → Bool
is_quote c = char_eq c "\"" || char_eq c "'" || char_eq c "`" || char_eq c " "

abbrev drop_quotes : List Char → List Char
drop_quotes [] = []
drop_quotes (c ∷ cs) = if is_quote c then drop_quotes cs else c ∷ cs

-- `cleanPath`
unfoldable pub clean_path : List Char → List Char
clean_path p = reverse (drop_quotes (reverse (drop_quotes p)))

-- `if i := strings.Index(rest, sep); i > 0 { rest = rest[:i] }`
unfoldable pub cut_before : List Char → List Char → List Char
cut_before sep rest = elim (split_at sep rest) [
  | none ↦ rest
  | some p ↦ (if is_empty p.0 then rest else p.0)
]

unfoldable pub cut_each : List String → List Char → List Char
cut_each [] rest = rest
cut_each (s ∷ ss) rest = cut_each ss (cut_before (runes s) rest)

abbrev separators : List String
separators = "，" ∷ "," ∷ " 的" ∷ " 并" ∷ " 然后" ∷ []

-- What follows a keyword, without its leading colons and blanks.
unfoldable pub trim_lead : List Char → List Char
trim_lead rest = trim_runes (trim_prefix (runes ":") (trim_prefix (runes "：") (trim_runes rest)))

-- A text that the code cuts by an index in bytes, or the end of the model: the index was found in the text in
-- lower case, and in the text itself it may stand beyond the end, where Go panics, or inside a rune.
pub data Cut : Type 0 where
  cut : List Char → Cut
  broken : Cut

abbrev pub cut_of : Option (List Char) → Cut
cut_of none = broken
cut_of (some t) = cut (trim_lead t)

abbrev pub cut_at : (Char → Char) → List Char → String → Option ℕ → Option Cut
cut_at lower input k none = none
cut_at lower input k (some i) = some (cut_of (drop_bytes (i + byte_count (runes k)) input))

-- The text behind a keyword; none where the keyword is not in the text.
unfoldable pub after_keyword : (Char → Char) → List Char → String → Option Cut
after_keyword lower input k =
    cut_at lower input k (byte_index (map lower (runes k)) (map lower input))

-- The first text behind a keyword that is not empty.
abbrev pub first_text : Option Cut → Cut → Cut
first_text none next = next
first_text (some broken) next = broken
first_text (some (cut t)) next =
    if is_empty t then next else cut (trim_runes (cut_each separators t))

-- `extractAfterKeywords`
unfoldable pub extract_after_keywords : (Char → Char) → List Char → List String → Cut
extract_after_keywords lower input [] = cut []
extract_after_keywords lower input (k ∷ ks) =
    first_text (after_keyword lower input k) (extract_after_keywords lower input ks)

abbrev pub path_keywords : List String
path_keywords =
    "读取文件" ∷ "查看文件" ∷ "打开文件" ∷ "写入文件" ∷ "保存文件" ∷ "删除文件" ∷ "创建目录" ∷ "列出" ∷ "读取" ∷ "查看" ∷ "打开" ∷ "写入"
    ∷ "保存" ∷ "删除" ∷ []

abbrev pub command_keywords : List String
command_keywords = "执行命令" ∷ "运行命令" ∷ "执行" ∷ "运行" ∷ "run" ∷ "execute" ∷ []

abbrev pub app_keywords : List String
app_keywords = "启动应用" ∷ "打开应用" ∷ "启动" ∷ "打开" ∷ "launch" ∷ "start" ∷ []

abbrev pub script_keywords : List String
script_keywords = "运行脚本" ∷ "执行脚本" ∷ "脚本" ∷ []

-- An entity, unless its text is empty; none where the text is broken.
abbrev pub entity : String → (List Char → List Char) → Cut → Option (Map String)
entity k f broken = none
entity k f (cut []) = some []
entity k f (cut (c ∷ cs)) = some ((k, of_runes (f (c ∷ cs))) ∷ [])

-- `extractEntities`
unfoldable pub extract_entities : (Char → Char) → List Char → String → Option (Map String)
extract_entities lower input i =
    if is_among file_intents i
    then entity "path" clean_path (extract_after_keywords lower input path_keywords)
    else if str_eq i "RUN_COMMAND"
    then entity "command" (λ t. t) (extract_after_keywords lower input command_keywords)
    else if str_eq i "START_APP"
    then entity "app" (λ t. t) (extract_after_keywords lower input app_keywords)
    else if str_eq i "RUN_SCRIPT"
    then entity "scriptPath" clean_path (extract_after_keywords lower input script_keywords)
    else some []

-- The entities that the session remembers, where the request has none of the key.
unfoldable pub merge_entities : Map String → Map String → Map String
merge_entities [] es = es
merge_entities ((k, v) ∷ m) es =
    merge_entities m (if is_blank (lookup_or "" k es) then insert k v es else es)
