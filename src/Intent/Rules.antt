-- ===== src/Intent/Rules.antt =====
-- internal/domain/agent/service/intent/rule_classifier.go: the classifier by keywords. A score is counted in
-- hundredths, and `lower` is the table of `unicode.ToLower`.
use ai_desktop_assistant.Common.{
  ℕ, ◌+◌, String, Char, Bool, not, ◌&&◌, ◌||◌, Option, none, some, List, [], ◌∷◌, map,
  if◌then◌else◌, ltb, leb, any, is_empty, length,
}
use ai_desktop_assistant.Common.Int.{pos}
use ai_desktop_assistant.Common.Map.{Map}
use ai_desktop_assistant.Common.Text.{runes, is_blank, is_infix, trim_runes, byte_count}
use ai_desktop_assistant.Intent.{IntentResult, ConversationContext, new_intent_result}
use ai_desktop_assistant.Intent.Extract.{extract_entities, merge_entities}

pub record IntentRule : Type 0 where
  pub intent : String
  pub keywords : List String
  pub weight : ℕ

abbrev rule : String → List String → ℕ → IntentRule
rule i ks w = record { intent = i; keywords = ks; weight = w }

-- `initRules`
abbrev pub init_rules : List IntentRule
init_rules =
    rule "LIST_FILES"
      ("列出文件" ∷ "列出目录" ∷ "查看目录" ∷ "目录下" ∷ "ls " ∷ "list files" ∷ "dir " ∷ "有哪些文件" ∷ []) 100
    ∷ rule "READ_FILE" ("读取文件" ∷ "查看文件" ∷ "打开文件" ∷ "文件内容" ∷ "read file" ∷ "cat " ∷ []) 100
    ∷ rule "WRITE_FILE" ("写入文件" ∷ "保存文件" ∷ "创建文件" ∷ "write file" ∷ "保存到" ∷ []) 100
    ∷ rule "DELETE_FILE" ("删除文件" ∷ "移除文件" ∷ "delete file" ∷ "rm " ∷ []) 100
    ∷ rule "CREATE_DIR" ("创建目录" ∷ "新建文件夹" ∷ "mkdir" ∷ "新建目录" ∷ []) 100
    ∷ rule "RUN_COMMAND" ("执行命令" ∷ "运行命令" ∷ "执行cmd" ∷ "run command" ∷ "shell" ∷ []) 100
    ∷ rule "RUN_SCRIPT" ("运行脚本" ∷ "执行脚本" ∷ "run script" ∷ []) 100
    ∷ rule "START_APP" ("启动应用" ∷ "打开应用" ∷ "launch app" ∷ "start app" ∷ []) 90
    ∷ rule "SCREENSHOT" ("截图" ∷ "截屏" ∷ "screenshot" ∷ "capture screen" ∷ []) 100
    ∷ rule "OPEN_URL" ("打开网站" ∷ "打开网页" ∷ "open url" ∷ "浏览" ∷ []) 90
    ∷ rule "SYSTEM_INFO"
        ("系统信息" ∷ "内存使用" ∷ "cpu" ∷ "system info" ∷ "当前时间" ∷ "几点" ∷ "get_time" ∷ "工作区信息" ∷ []) 90
    ∷ rule "TASK_PLAN" ("帮我规划" ∷ "制定计划" ∷ "任务分解" ∷ "分步骤" ∷ []) 85
    ∷ []

-- The best intent so far and its score.
pub record Best : Type 0 where
  pub intent : String
  pub score : ℕ

-- `rule.Weight + float64(len(kw))*0.01`
unfoldable pub keyword_score : IntentRule → String → ℕ
keyword_score r k = r.weight + byte_count (runes k)

unfoldable pub keyword_in : (Char → Char) → List Char → String → Bool
keyword_in lower low k = is_infix (map lower (runes k)) low

-- One keyword: only a higher score takes the place of the best.
unfoldable pub better : (Char → Char) → List Char → IntentRule → String → Best → Best
better lower low r k b =
    if keyword_in lower low k && ltb b.score (keyword_score r k)
    then record { intent = r.intent; score = keyword_score r k }
    else b

unfoldable pub best_keyword : (Char → Char) → List Char → IntentRule → List String → Best → Best
best_keyword lower low r [] b = b
best_keyword lower low r (k ∷ ks) b = best_keyword lower low r ks (better lower low r k b)

unfoldable pub best_rule : (Char → Char) → List Char → List IntentRule → Best → Best
best_rule lower low [] b = b
best_rule lower low (r ∷ rs) b = best_rule lower low rs (best_keyword lower low r r.keywords b)

-- The best of the rules for a text in lower case.
unfoldable pub best_of : (Char → Char) → List IntentRule → List Char → Best
best_of lower rules low = best_rule lower low rules (record { intent = "CHAT"; score = 0 })

abbrev pub references : List String
references =
    "它" ∷ "这个" ∷ "那个" ∷ "继续" ∷ "再来" ∷ "同样" ∷ "同上" ∷ "再执行" ∷ "再做一次" ∷ "it" ∷ "same" ∷ "again"
    ∷ "continue" ∷ []

-- `isReferential`
unfoldable pub is_referential : List Char → Bool
is_referential low = any (λ r. is_infix (runes r) low) references || leb (length low) 6

abbrev pub remembered : Option ConversationContext → Map String
remembered none = []
remembered (some c) = c.entity_memory

abbrev pub sourced : String → IntentResult → IntentResult
sourced s r = record r { source = s }

-- Where no keyword is found: a short answer goes on with the last intent.
unfoldable pub without_keyword : List Char → Option ConversationContext → IntentResult
without_keyword low none = sourced "rule" (new_intent_result "CHAT" (pos 300000) [])
without_keyword low (some c) =
    if not (is_blank c.last_intent) && is_referential low
    then sourced "rule-coref" (new_intent_result c.last_intent (pos 750000) c.entity_memory)
    else sourced "rule" (new_intent_result "CHAT" (pos 300000) [])

abbrev pub with_entities : Best → Map String → Option (Map String) → Option IntentResult
with_entities b memory none = none
with_entities b memory (some es) = some (
    sourced "rule" (
      new_intent_result b.intent (pos (if leb 100 b.score then 920000 else 850000))
        (merge_entities memory es)))

-- `Classify`; none where the extraction of entities is broken.
unfoldable pub classify_runes :
    (Char → Char) → List IntentRule → List Char → Option ConversationContext → Option IntentResult
classify_runes lower rules input conv =
    let low = map lower input in
    let b = best_of lower rules low in
    if is_empty input
    then some (new_intent_result "CHAT" (pos 500000) [])
    else if ltb b.score 50
    then some (without_keyword low conv)
    else with_entities b (remembered conv) (extract_entities lower input b.intent)

unfoldable pub classify :
    (Char → Char) → List IntentRule → String → Option ConversationContext → Option IntentResult
classify lower rules input conv = classify_runes lower rules (trim_runes (runes input)) conv
