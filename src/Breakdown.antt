-- ===== src/Breakdown.antt =====
-- internal/domain/agent/service/task/breakdown.go: the plan of a request, by rules or by the model. The
-- regular expression, the model and JSON are a `Planner`. A plan handed out is the one in the cache.
pub mod Plans
mod Samples
use Prim.Native.String.{◌++◌ as append}
use ai_desktop_assistant.Common.{
  ℕ, zero, suc, ◌+◌, String, Char, Bool, true, false, ◌&&◌, ◌||◌, not, Option, none, some, List, [],
  ◌∷◌, ◌++◌, if◌then◌else◌, ltb, leb, length, take, is_empty, count_if,
}
use ai_desktop_assistant.Common.Map.{Map, lookup, insert, delete}
use ai_desktop_assistant.Common.Text.{
  runes, of_runes, rune_count, is_blank, trim_space, trim_runes, to_lower, contains, split_seq,
  truncate_with,
}
use ai_desktop_assistant.Engine.Parse.{braced}
use ai_desktop_assistant.TaskPlan.{TaskPlan, SubTask, pending}

-- A sub-task that the model proposes.
pub record Proposal : Type 0 where
  pub title : String
  pub description : String
  pub expected_tools : String

-- `complex` is `complexTaskPattern.MatchString`, `lower` the table of `unicode.ToLower`, `generate` the
-- model's answer to a request, `none` where it fails, and `decode` what JSON reads from a text; there is a
-- model if `has_llm`.
pub record Planner : Type 0 where
  pub complex : String → Bool
  pub lower : Char → Char
  pub has_llm : Bool
  pub generate : String → Option String
  pub decode : String → Option (String × List Proposal)

-- The map `cache`.
abbrev pub Cache : Type 0
Cache = Map TaskPlan

abbrev pub separators : List String
separators =
    "然后" ∷ "接着" ∷ "之后" ∷ "最后" ∷ "；" ∷ ";" ∷ "，并且" ∷ "并且" ∷ " and then " ∷ " after that "
    ∷ " finally " ∷ []

-- The chunks of a part, trimmed, those that are empty left out.
unfoldable pub trimmed_chunks : List (List Char) → List String
unfolding trim_runes of_runes
trimmed_chunks [] = []
trimmed_chunks (c ∷ cs) =
    let trimmed = of_runes (trim_runes c) in
    if is_blank trimmed then trimmed_chunks cs else trimmed ∷ trimmed_chunks cs

unfoldable pub split_parts : String → List String → List String
unfolding trimmed_chunks split_seq runes
split_parts sep [] = []
split_parts sep (p ∷ ps) =
    trimmed_chunks (split_seq (runes sep) 0 [] (runes p)) ++ split_parts sep ps

unfoldable pub split_all : List String → List String → List String
unfolding split_parts
split_all [] parts = parts
split_all (sep ∷ seps) parts = split_all seps (split_parts sep parts)

-- The parts that are not too short.
unfoldable pub long_parts : List String → List String
unfolding rune_count runes
long_parts [] = []
long_parts (p ∷ ps) = if leb 2 (rune_count p) then p ∷ long_parts ps else long_parts ps

unfoldable pub split_steps : String → List String
unfolding split_all long_parts
split_steps msg = take 8 (long_parts (split_all separators (msg ∷ [])))

-- `strings.Join(tools, ",")`
unfoldable pub join_comma : List String → String
join_comma [] = ""
join_comma (t ∷ []) = t
join_comma (t ∷ ts) = append t (append "," (join_comma ts))

unfoldable pub guess_tools : (Char → Char) → String → String
unfolding join_comma
guess_tools lower step =
    let low = to_lower lower step in
    let files =
      if contains low "文件" || contains low "file" || contains low "写入"
      then "write_file" ∷ "read_file" ∷ []
      else [] in
    let commands =
      if contains low "命令" || contains low "执行" || contains low "run" || contains low "安装"
      then "run_command" ∷ []
      else [] in
    let folders = if contains low "目录" || contains low "列出" then "list_files" ∷ [] else [] in
    let tools = files ++ commands ++ folders in
    if is_empty tools then "list_files,run_command" else join_comma tools

module _ (planner : Planner) where
  abbrev signals : List String
  signals = "然后" ∷ "接着" ∷ "之后" ∷ "最后" ∷ "and then" ∷ "after that" ∷ "finally" ∷ "第一步" ∷ "第二步" ∷ []

  unfoldable pub should_breakdown : String → String → Cache → Bool
  should_breakdown session msg cache =
      let low = to_lower planner.lower msg in
      let count = count_if (λ sig. contains low (to_lower planner.lower sig)) signals in
      if is_blank (trim_space msg) then false else elim (lookup session cache) [
        | some p ↦ false
        | none ↦ planner.complex msg || ltb 80 (rune_count msg) || leb 2 count
      ]

  -- The loop over the parts, from an index on.
  unfoldable pub sub_tasks_of : ℕ → List String → List SubTask
  unfolding truncate_with guess_tools
  sub_tasks_of i [] = []
  sub_tasks_of i (p ∷ ps) =
      record {
        index = i + 1;
        title = truncate_with "..." 24 p;
        description = p;
        expected_tools = guess_tools planner.lower p;
        status = pending;
        result = "";
      }
      ∷ sub_tasks_of (i + 1) ps

  abbrev pub rule_plan : String → List String → TaskPlan
  rule_plan msg parts = record {
    original_request = msg;
    summary = "多步任务计划（规则拆解）";
    need_confirm = false;
    sub_tasks = sub_tasks_of 0 parts;
    source = "rule";
    current_index = 0;
  }

  unfoldable pub rule_breakdown : String → Option TaskPlan
  unfolding sub_tasks_of truncate_with
  rule_breakdown msg =
      let parts = split_steps msg in
      if leb 2 (length parts)
      then some (rule_plan msg parts)
      else if not (planner.complex msg) && ltb (rune_count msg) 80
      then none
      else some (
          rule_plan msg
            ("分析需求与当前环境" ∷ append "执行核心操作: " (truncate_with "..." 60 msg) ∷ "验证结果并汇报" ∷ []))

  unfoldable pub proposed_tasks : ℕ → List Proposal → List SubTask
  proposed_tasks i [] = []
  proposed_tasks i (t ∷ ts) =
      record {
        index = i + 1;
        title = t.title;
        description = t.description;
        expected_tools = t.expected_tools;
        status = pending;
        result = "";
      }
      ∷ proposed_tasks (i + 1) ts

  -- The JSON of an answer: from its first opening brace to its last closing one, or all of it.
  unfoldable pub json_part : String → String
  unfolding trim_runes braced runes of_runes
  json_part content =
      let trimmed = trim_runes (runes content) in
      of_runes (elim (braced trimmed) [ none ↦ trimmed | some part ↦ part ])

  abbrev pub llm_plan : String → String → List Proposal → TaskPlan
  llm_plan msg summary proposals = record {
    original_request = msg;
    summary = summary;
    need_confirm = false;
    sub_tasks = proposed_tasks 0 proposals;
    source = "llm";
    current_index = 0;
  }

  unfoldable pub llm_breakdown : String → Option TaskPlan
  llm_breakdown msg = elim (planner.generate msg) [
    | none ↦ none
    | some content ↦ elim (planner.decode (json_part content)) [
      | none ↦ none
      | some (summary, proposals) ↦
          if ltb (length proposals) 2 then none else some (llm_plan msg summary proposals)
    ]
  ]

  -- A plan that is found is stored.
  abbrev pub stored : String → Option TaskPlan → Cache → Cache × Option TaskPlan
  stored session none cache = (cache, none)
  stored session (some p) cache = (insert session p cache, some p)

  -- `breakdown` where nothing is cached.
  unfoldable pub new_breakdown : String → String → Cache → Cache × Option TaskPlan
  new_breakdown session msg cache =
      if not (should_breakdown session msg cache)
      then (cache, none)
      else if not planner.has_llm
      then stored session (rule_breakdown msg) cache
      else elim (llm_breakdown msg) [
        | none ↦ stored session (rule_breakdown msg) cache
        | some p ↦
            if leb 2 (length p.sub_tasks)
            then stored session (some p) cache
            else stored session (rule_breakdown msg) cache
      ]

  unfoldable pub breakdown : String → String → Cache → Cache × Option TaskPlan
  breakdown session msg cache = elim (lookup session cache) [
    | some p ↦ let p' = record p { source = "cache" } in (insert session p' cache, some p')
    | none ↦ new_breakdown session msg cache
  ]

unfoldable pub get_plan : String → Cache → Option TaskPlan
get_plan session cache = lookup session cache

unfoldable pub clear : String → Cache → Cache
clear session cache = delete session cache
