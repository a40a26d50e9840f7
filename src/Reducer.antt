-- ===== src/Reducer.antt =====
-- internal/domain/agent/service/context/reducer: the sliding window, the reducer by priority and their
-- union. A set of kept positions, `map[int]bool` in the code, is the list of the positions put into it.
pub mod Order
pub mod Recent
pub mod Budget
mod Samples
use ai_desktop_assistant.Common.{
  ℕ, zero, suc, ◌+◌, ◌-◌, ◌*◌, String, Bool, true, false, ◌||◌, ◌&&◌, not, Option, none, some, List,
  [], ◌∷◌, ◌++◌, reverse, if◌then◌else◌, ltb, leb, ◌==◌, str_eq, length, is_empty, drop, min,
}
use ai_desktop_assistant.Common.Int.{ℤ, pos, negsuc, ltb_ℤ, positive_or}
use ai_desktop_assistant.Common.Text.{is_blank}
use ai_desktop_assistant.History.{
  Message, content_of, role_of, estimate_string, estimate_tokens, priority_of,
}

-- What a reducer takes a message to cost.
abbrev pub cost : Message → ℕ
cost m = estimate_string (content_of m) + 4

-- The loop of `SlidingWindowReducer.Reduce`, over the messages from the last one back: where `rest` is
-- left below message `i`, `i` is its length.
unfoldable pub window_start : ℕ → ℕ → ℕ → ℕ → List Message → ℕ
window_start budget n used start [] = start
window_start budget n used start (m ∷ rest) =
    let t = cost m in
    elim (ltb budget (used + t) && ltb start n) [
      | true ↦ start
      | false ↦ window_start budget n (used + t) (length rest) rest
    ]

unfoldable pub sliding_start : ℕ → List Message → ℕ
unfolding window_start
sliding_start budget messages =
    let n = length messages in
    let start = window_start budget n 0 n (reverse messages) in
    let min_keep = if ltb n 2 then n else 2 in
    if ltb (n - min_keep) start then n - min_keep else start

unfoldable pub sliding_reduce : ℤ → List Message → List Message
unfolding sliding_start
sliding_reduce token_budget messages =
    if is_empty messages
    then messages
    else drop (sliding_start (positive_or 8000 token_budget) messages) messages

pub record ScoredMsg : Type 0 where
  pub idx : ℕ
  pub score : ℤ
  pub tokens : ℕ

-- `pri * 1000 + recency`
unfoldable pub score_of : ℤ → ℕ → ℤ
score_of (pos p) recency = pos (p * 1000 + recency)
score_of (negsuc p) recency =
    let below = suc p * 1000 in
    if leb below recency then pos (recency - below) else negsuc (below - recency - 1)

unfoldable pub score_items : ℕ → List Message → List ScoredMsg
unfolding score_of
score_items i [] = []
score_items i (m ∷ ms) =
    record { idx = i; score = score_of (priority_of m) i; tokens = cost m } ∷ score_items (suc i) ms

-- `sort.Slice` by falling score. It leaves the order of equal scores open, and here they keep theirs;
-- a history of at most 1000 messages has no two equal ones, since each has its own recency.
unfoldable pub insert_item : ScoredMsg → List ScoredMsg → List ScoredMsg
insert_item x [] = x ∷ []
insert_item x (y ∷ ys) = if ltb_ℤ x.score y.score then y ∷ insert_item x ys else x ∷ y ∷ ys

unfoldable pub sort_items : List ScoredMsg → List ScoredMsg
unfolding insert_item
sort_items [] = []
sort_items (x ∷ xs) = insert_item x (sort_items xs)

-- The loop that fills `keep` by falling score.
unfoldable pub fill : ℕ → ℕ → List ℕ → List ScoredMsg → List ℕ
fill budget used keep [] = keep
fill budget used keep (it ∷ items) = elim (ltb budget (used + it.tokens) && leb 2 (length keep)) [
  | true ↦ fill budget used keep items
  | false ↦ fill budget (used + it.tokens) (it.idx ∷ keep) items
]

-- The last two positions below `n`, or all where there are fewer.
unfoldable pub keep_recent : ℕ → List ℕ → List ℕ
keep_recent zero keep = keep
keep_recent (suc zero) keep = 0 ∷ keep
keep_recent (suc (suc n)) keep = n ∷ suc n ∷ keep

unfoldable pub is_kept : List ℕ → ℕ → Bool
is_kept [] i = false
is_kept (k ∷ keep) i = if k == i then true else is_kept keep i

-- The loop that collects the kept messages, from position `i`.
unfoldable pub kept : List ℕ → ℕ → List Message → List Message
unfolding is_kept
kept keep i [] = []
kept keep i (m ∷ ms) = if is_kept keep i then m ∷ kept keep (suc i) ms else kept keep (suc i) ms

unfoldable pub priority_keep : ℕ → List Message → List ℕ
unfolding fill keep_recent sort_items score_items
priority_keep budget messages =
    keep_recent (length messages) (fill budget 0 [] (sort_items (score_items 0 messages)))

unfoldable pub priority_reduce : ℤ → List Message → List Message
unfolding kept priority_keep
priority_reduce token_budget messages =
    if is_empty messages
    then messages
    else kept (priority_keep (positive_or 8000 token_budget) messages) 0 messages

abbrev same_id : Option String → Option String → Bool
same_id (some a) (some b) = not (is_blank a) && str_eq a b
same_id _ _ = false

unfoldable pub same_message : Message → Message → Bool
same_message a b =
    if a.is_nil || b.is_nil
    then false
    else if same_id a.id b.id
    then true
    else str_eq (role_of a) (role_of b) && str_eq (content_of a) (content_of b)

-- The inner loop of `indexSet`: the first position of a message that is the same.
unfoldable pub first_same : Message → ℕ → List Message → List ℕ
unfolding same_message
first_same s i [] = []
first_same s i (a ∷ all) = if same_message s a then i ∷ [] else first_same s (suc i) all

unfoldable pub index_set : List Message → List Message → List ℕ
unfolding first_same
index_set [] all = []
index_set (s ∷ subset) all = first_same s 0 all ++ index_set subset all

unfoldable pub hybrid_keep : ℕ → List Message → List ℕ
unfolding index_set keep_recent priority_reduce sliding_reduce
hybrid_keep budget messages =
    let pri_keep = index_set (priority_reduce (pos budget) messages) messages in
    let slide_keep = index_set (sliding_reduce (pos budget) messages) messages in
    keep_recent (length messages) (pri_keep ++ slide_keep)

unfoldable pub hybrid_reduce : ℤ → List Message → List Message
hybrid_reduce token_budget messages =
    if is_empty messages
    then messages
    else let budget = positive_or 8000 token_budget in
      if leb (estimate_tokens messages) budget
      then messages
      else let out = kept (hybrid_keep budget messages) 0 messages in
        if ltb budget (estimate_tokens out) then sliding_reduce (pos budget) out else out
