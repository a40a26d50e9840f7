-- ===== src/Router/Rotation.antt =====
-- model_router.go: the turns of `Select` through the weighted pool of a scenario.
use mathlib.Core.List.{append_assoc}
use native.Mathlib.Nat.{add-mod_right, mod-eq_of_lt}
use ai_desktop_assistant.Common.{
  ℕ, zero, suc, ◌+◌, ◌*◌, ◌%◌, ◌≡◌, refl, ap, sym, ◌∙◌, subst, String, Char, Bool, false, none,
  some, List, [], ◌∷◌, ◌++◌, arith, if◌then◌else◌, str_eq, str_eq_iff, is_empty, length, count_if,
  Bool-cases, inl, inr, length-append,
}
use ai_desktop_assistant.Common.Int.{pos_part}
use ai_desktop_assistant.Common.Map.{Map, lookup_or, insert, lookup-insert_self}
use ai_desktop_assistant.Common.Text.{to_lower}
use ai_desktop_assistant.Router.{ModelProfile, ModelRouter, repeat, weight_of, expand, select, nth}

-- The selections from a turn on.
abbrev pub turns_from : List String → ℕ → ℕ → List String
turns_from pool zero turn = []
turns_from pool (suc n) turn = nth pool (turn % length pool) ∷ turns_from pool n (suc turn)

turns_from_snoc :
    (pool : List String) (n turn : ℕ)
    → turns_from pool (suc n) turn
      ≡ turns_from pool n turn ++ nth pool ((turn + n) % length pool) ∷ []
turns_from_snoc pool zero turn = ap (λ i. nth pool (i % length pool) ∷ []) (omega arith)
turns_from_snoc pool (suc n) turn =
    ap (λ l. nth pool (turn % length pool) ∷ l)
      (turns_from_snoc pool n (suc turn)
        ∙ ap (λ i. turns_from pool n (suc turn) ++ nth pool (i % length pool) ∷ []) (omega arith))

nth-append : (done rest : List String) (x : String) → nth (done ++ x ∷ rest) (length done) ≡ x
nth-append [] rest x = refl
nth-append (d ∷ done) rest x = nth-append done rest x

-- From its first turn on, a cycle is the pool itself.
turns_from_drop :
    (pool done rest : List String)
    → pool ≡ done ++ rest
    → turns_from pool (length rest) (length done) ≡ rest
turns_from_drop pool done [] h = refl
turns_from_drop pool done (x ∷ rest) h =
    let size = ap length h ∙ length-append done (x ∷ rest) in
    let here : length done % length pool ≡ length done = mod-eq_of_lt (omega (arith, size)) in
    let first = ap (nth pool) here ∙ ap (λ l. nth l (length done)) h ∙ nth-append done rest x in
    let later =
      turns_from_drop pool (done ++ x ∷ []) rest (h ∙ sym (append_assoc done (x ∷ []) rest)) in
    let next : suc (length done) ≡ length (done ++ x ∷ []) =
      omega (arith, length-append done (x ∷ [])) in
    ap (λ y. y ∷ turns_from pool (length rest) (suc (length done))) first
    ∙ ap (λ l. x ∷ l) (ap (turns_from pool (length rest)) next ∙ later)

module _ (p : String → Bool) where
  count_if-append : (xs ys : List String) → count_if p (xs ++ ys) ≡ count_if p xs + count_if p ys
  count_if-append [] ys = omega arith
  count_if-append (x ∷ xs) ys = ground (arith, count_if-append xs ys)

  -- A cycle has the same elements from every turn on.
  count_if-turns_from :
      (pool : List String) (m turn : ℕ)
      → length pool ≡ suc m
      → count_if p (turns_from pool (suc m) (suc turn)) ≡ count_if p (turns_from pool (suc m) turn)
  count_if-turns_from pool m turn size =
      let x = nth pool (turn % length pool) in
      let same : (suc turn + m) % length pool ≡ turn % length pool =
        ap (λ n. n % length pool) (omega (arith, size)) ∙ add-mod_right turn (length pool) in
      ap (count_if p) (
        turns_from_snoc pool m (suc turn)
        ∙ ap (λ i. turns_from pool m (suc turn) ++ nth pool i ∷ []) same)
      ∙ count_if-append (turns_from pool m (suc turn)) (x ∷ [])
      ∙ ground arith

  count_if_cycle :
      (pool : List String) (turn : ℕ)
      → is_empty pool ≡ false
      → count_if p (turns_from pool (length pool) turn) ≡ count_if p pool
  count_if_cycle [] turn h = ground arith
  count_if_cycle (x ∷ xs) zero h = ap (count_if p) (turns_from_drop (x ∷ xs) [] (x ∷ xs) refl)
  count_if_cycle (x ∷ xs) (suc turn) h =
      count_if-turns_from (x ∷ xs) (length xs) turn refl ∙ count_if_cycle (x ∷ xs) turn h

mul_suc : (a n : ℕ) → a * suc n ≡ a + a * n
mul_suc a n = omega arith

-- How often a name stands in the pool: its weight, each time that it is a candidate.
count_if-repeat :
    (name other : String) (n : ℕ)
    → count_if (str_eq name) (repeat n other) ≡ (if str_eq name other then n else 0)
unfolding repeat
count_if-repeat name other zero = ground arith
count_if-repeat name other (suc n) = ground (arith, count_if-repeat name other n)

count_if-expand :
    (profiles : Map ModelProfile) (name : String) (cands : List String)
    → count_if (str_eq name) (expand profiles cands)
      ≡ pos_part (weight_of profiles name) * count_if (str_eq name) cands
unfolding expand
count_if-expand profiles name [] = omega arith
count_if-expand profiles name (other ∷ cands) =
    let w = pos_part (weight_of profiles other) in
    let here = count_if-repeat name other w in
    let rest = count_if-expand profiles name cands in
    count_if-append (str_eq name) (repeat w other) (expand profiles cands)
    ∙ (elim (Bool-cases (str_eq name other)) [
      | inl same ↦
          let v = pos_part (weight_of profiles name) in
          let c = count_if (str_eq name) cands in
          let equal : v ≡ w =
            ap (λ k. pos_part (weight_of profiles k)) ((str_eq_iff name other).0 same) in
          let all : count_if (str_eq name) (repeat w other) ≡ v =
            here ∙ ap (λ b. if b then w else 0) same ∙ sym equal in
          let once : count_if (str_eq name) (other ∷ cands) ≡ suc c =
            ap (λ b. if b then suc c else c) same in
          omega (arith, all, rest) ∙ sym (ap (λ n. v * n) once ∙ mul_suc v c)
      | inr differ ↦ ground arith
    ])

module _ (lower : Char → Char) where
  -- The models that a router selects for one scenario in a row.
  unfoldable pub select_times : String → ℕ → ModelRouter → List String
  select_times scenario zero r = []
  select_times scenario (suc n) r =
      let (r', name) = select lower scenario r in name ∷ select_times scenario n r'

  module _ (scenario : String) where
    abbrev pub pool_of : ModelRouter → List String
    pool_of r = expand r.profiles (lookup_or [] (to_lower lower scenario) r.routes)

    abbrev pub turn_of : ModelRouter → ℕ
    turn_of r = lookup_or 0 (to_lower lower scenario) r.counter

    select_pool :
        (r : ModelRouter)
        → is_empty (pool_of r) ≡ false
        → select lower scenario r ≡ (
          record r { counter = insert (to_lower lower scenario) (turn_of r + 1) r.counter },
          nth (pool_of r) (turn_of r % length (pool_of r)),
        )
    unfolding select expand
    select_pool r h = ground arith

    select-nth :
        (r : ModelRouter)
        → is_empty (pool_of r) ≡ false
        → let (r', name) = select lower scenario r in
          (name ≡ nth (pool_of r) (turn_of r % length (pool_of r)))
          × (pool_of r' ≡ pool_of r)
          × (turn_of r' ≡ suc (turn_of r))
    select-nth r some_models =
        let key = to_lower lower scenario in
        let turn : lookup_or 0 key (insert key (turn_of r + 1) r.counter) ≡ suc (turn_of r) =
          ap (λ o. elim o as (λ x. ℕ) [ none ↦ 0 | some n ↦ n ])
            (lookup-insert_self key (turn_of r + 1) r.counter)
          ∙ omega arith in
        subst
          (λ (q : ModelRouter × String).
            (q.1 ≡ nth (pool_of r) (turn_of r % length (pool_of r)))
            × (pool_of q.0 ≡ pool_of r)
            × (turn_of q.0 ≡ suc (turn_of r)))
          (sym (select_pool r some_models)) (refl, refl, turn)

    select_times-turns_from :
        (n : ℕ) (r : ModelRouter)
        → is_empty (pool_of r) ≡ false
        → select_times scenario n r ≡ turns_from (pool_of r) n (turn_of r)
    unfolding select_times
    select_times-turns_from zero r some_models = refl
    select_times-turns_from (suc n) r some_models =
        let (name, pool, turn) = select-nth r some_models in
        let r' = (select lower scenario r).0 in
        let later = select_times-turns_from n r' (ap is_empty pool ∙ some_models) in
        ap (λ x. x ∷ select_times scenario n r') name
        ∙ ap (λ l. nth (pool_of r) (turn_of r % length (pool_of r)) ∷ l)
            (later
              ∙ ap (λ l. turns_from l n (turn_of r')) pool
              ∙ ap (turns_from (pool_of r) n) turn)

    -- Selecting in a row, from any state of the router on, goes evenly through the scenario's candidates: in
    -- as many selections as the candidates' weights add up to, each model is chosen as often as its weight,
    -- for each time that it is a candidate. (The scenario has a candidate of a positive weight.)
    pub select_times-count_if :
        (r : ModelRouter) (name : String)
        → is_empty (pool_of r) ≡ false
        → count_if (str_eq name) (select_times scenario (length (pool_of r)) r)
          ≡ pos_part (weight_of r.profiles name)
            * count_if (str_eq name) (lookup_or [] (to_lower lower scenario) r.routes)
    select_times-count_if r name some_models =
        ap (count_if (str_eq name)) (select_times-turns_from (length (pool_of r)) r some_models)
        ∙ count_if_cycle (str_eq name) (pool_of r) (turn_of r) some_models
        ∙ count_if-expand r.profiles name (lookup_or [] (to_lower lower scenario) r.routes)
