-- ===== src/Breakdown/Plans.antt =====
-- breakdown.go: the plans that the service makes, and its cache.
use Prim.Native.String.{◌++◌ as append}
use ai_desktop_assistant.Common.{
  ℕ, suc, ◌+◌, ◌≤◌, ◌≡◌, refl, ap, sym, subst, String, not, Option, none, some, List, [], ◌∷◌,
  arith, if◌then◌else◌, leb, ltb, leb→le, ◌&&◌, if_ind, length,
}
use ai_desktop_assistant.Common.Text.{rune_count, truncate_with}
use ai_desktop_assistant.Common.Map.{lookup-insert_self}
use ai_desktop_assistant.TaskPlan.{TaskPlan, SubTask, pending}
use ai_desktop_assistant.Breakdown.{
  Planner, Proposal, Cache, split_steps, sub_tasks_of, rule_breakdown, proposed_tasks,
  llm_breakdown, llm_plan, json_part, rule_plan, stored, should_breakdown, new_breakdown, breakdown,
  get_plan,
}

-- The tasks are pending, have no result, and are numbered from one after `i` on.
abbrev pub IsNumbered : ℕ → List SubTask → Type 0
IsNumbered i [] = Unit {0}
IsNumbered i (t ∷ ts) =
    (t.index ≡ i + 1) × (t.status ≡ pending) × (t.result ≡ "") × IsNumbered (i + 1) ts

-- A plan that nothing has been done on, for a request.
pub record IsFresh (msg : String) (p : TaskPlan) : Type 0 where
  pub request : p.original_request ≡ msg
  pub several : 2 ≤ length p.sub_tasks
  pub numbered : IsNumbered 0 p.sub_tasks

module _ (planner : Planner) where
  sub_tasks_of-IsNumbered :
      (i : ℕ) (parts : List String)
      → IsNumbered i (sub_tasks_of planner i parts)
        × (length (sub_tasks_of planner i parts) ≡ length parts)
  unfolding sub_tasks_of
  sub_tasks_of-IsNumbered i [] = (tt, refl)
  sub_tasks_of-IsNumbered i (p ∷ ps) =
      let (rest, size) = sub_tasks_of-IsNumbered (i + 1) ps in
      ((refl, refl, refl, rest), ap suc size)

  proposed_tasks-IsNumbered :
      (i : ℕ) (ts : List Proposal)
      → IsNumbered i (proposed_tasks planner i ts)
        × (length (proposed_tasks planner i ts) ≡ length ts)
  unfolding proposed_tasks
  proposed_tasks-IsNumbered i [] = (tt, refl)
  proposed_tasks-IsNumbered i (t ∷ ts) =
      let (rest, size) = proposed_tasks-IsNumbered (i + 1) ts in
      ((refl, refl, refl, rest), ap suc size)

  -- A plan there, if there is one, is fresh.
  abbrev FreshIfSome : String → Option TaskPlan → Type 0
  FreshIfSome msg none = Unit {0}
  FreshIfSome msg (some p) = IsFresh msg p

  rule_plan-IsFresh :
      (msg : String) (parts : List String)
      → 2 ≤ length parts
      → IsFresh msg (rule_plan planner msg parts)
  rule_plan-IsFresh msg parts enough =
      let (numbered, size) = sub_tasks_of-IsNumbered 0 parts in
      record { request = refl; several = omega (arith, enough, size); numbered = numbered }

  rule_breakdown-IsFresh : (msg : String) → FreshIfSome msg (rule_breakdown planner msg)
  unfolding rule_breakdown
  rule_breakdown-IsFresh msg =
      let parts = split_steps msg in
      let work = append "执行核心操作: " (truncate_with "..." 60 msg) in
      let template = "分析需求与当前环境" ∷ work ∷ "验证结果并汇报" ∷ [] in
      if_ind (FreshIfSome msg) (leb 2 (length parts))
        (λ enough. rule_plan-IsFresh msg parts (leb→le 2 (length parts) enough))
        (λ few.
          if_ind (FreshIfSome msg) (not (planner.complex msg) && ltb (rune_count msg) 80)
            (λ simple. tt) (λ difficult. rule_plan-IsFresh msg template (omega arith)))

  llm_breakdown-IsFresh : (msg : String) → FreshIfSome msg (llm_breakdown planner msg)
  unfolding llm_breakdown
  llm_breakdown-IsFresh msg =
      elim (planner.generate msg)
        as (λ o. FreshIfSome msg (elim o [
          | none ↦ none
          | some content ↦ elim (planner.decode (json_part planner content)) [
            | none ↦ none
            | some (summary, proposals) ↦
                if ltb (length proposals) 2
                then none
                else some (llm_plan planner msg summary proposals)
          ]
        ])) [
          | none ↦ tt
          | some content ↦
              elim (planner.decode (json_part planner content))
                as (λ o. FreshIfSome msg (elim o [
                  | none ↦ none
                  | some (summary, proposals) ↦
                      if ltb (length proposals) 2
                      then none
                      else some (llm_plan planner msg summary proposals)
                ])) [
                  | none ↦ tt
                  | some (summary, proposals) ↦
                      let (numbered, size) = proposed_tasks-IsNumbered 0 proposals in
                      if_ind (FreshIfSome msg) (ltb (length proposals) 2) (λ few. tt)
                        (λ enough. record {
                          request = refl;
                          several = ground arith;
                          numbered = numbered;
                        })
                ]
        ]

  -- Either no plan is made and the cache stays, or a fresh one is made and stored.
  abbrev pub IsMade : String → String → Cache → Cache × Option TaskPlan → Type 0
  IsMade session msg cache (cache', none) = cache' ≡ cache
  IsMade session msg cache (cache', some p) = (get_plan session cache' ≡ some p) × IsFresh msg p

  stored-IsMade :
      (session msg : String) (cache : Cache) (o : Option TaskPlan)
      → FreshIfSome msg o
      → IsMade session msg cache (stored planner session o cache)
  unfolding get_plan
  stored-IsMade session msg cache none h = refl
  stored-IsMade session msg cache (some p) h = (lookup-insert_self session p cache, h)

  new_breakdown-IsMade :
      (session msg : String) (cache : Cache)
      → IsMade session msg cache (new_breakdown planner session msg cache)
  unfolding new_breakdown
  new_breakdown-IsMade session msg cache =
      let Q : Cache × Option TaskPlan → Type 0 = IsMade session msg cache in
      let by_rules =
        stored-IsMade session msg cache (rule_breakdown planner msg) (rule_breakdown-IsFresh msg) in
      if_ind Q (not (should_breakdown planner session msg cache)) (λ simple. refl)
        (λ complex.
          if_ind Q (not planner.has_llm) (λ alone. by_rules)
            (λ assisted.
              (elim (llm_breakdown planner msg)
                  as (λ o.
                    FreshIfSome msg o
                    → Q (elim o [
                      | none ↦ stored planner session (rule_breakdown planner msg) cache
                      | some p ↦
                          if leb 2 (length p.sub_tasks)
                          then stored planner session (some p) cache
                          else stored planner session (rule_breakdown planner msg) cache
                    ])) [
                      | none ↦ λ h. by_rules
                      | some p ↦ λ h.
                          if_ind Q (leb 2 (length p.sub_tasks))
                            (λ several. stored-IsMade session msg cache (some p) h)
                            (λ few. by_rules)
                    ])
                (llm_breakdown-IsFresh msg)))

  -- Where a session has no plan, breaking down a request leaves the cache as it is and gives none, or it
  -- gives a plan, and stores it as it is given: for that request, with at least two sub-tasks, all pending,
  -- with no result, and numbered from one on, whether rules or the model made it.
  pub breakdown-IsMade :
      (session msg : String) (cache : Cache)
      → get_plan session cache ≡ none
      → IsMade session msg cache (breakdown planner session msg cache)
  unfolding breakdown get_plan
  breakdown-IsMade session msg cache h =
      subst (IsMade session msg cache) (sym new) (new_breakdown-IsMade session msg cache)
    where
      new : breakdown planner session msg cache ≡ new_breakdown planner session msg cache
      new = ground arith
