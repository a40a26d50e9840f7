-- ===== src/Reducer/Recent.antt =====
-- internal/domain/agent/service/context/reducer: what becomes of the last messages of the history.
use ai_desktop_assistant.Common.{
  ℕ, zero, suc, ◌+◌, ◌-◌, ◌≤◌, ◌≡◌, refl, ap, sym, ◌∙◌, List, [], ◌∷◌, ◌++◌, arith, leb, ltb,
  length, take, drop, keep_last, length-append, length-take, length-drop, take-append-drop,
  Bool-cases, inl, inr, if_ind,
}
use native.Mathlib.Nat.{zero-add, suc-add, add-zero}
use ai_desktop_assistant.Common.Int.{ℤ, pos, positive_or}
use ai_desktop_assistant.History.{Message, estimate_tokens}
use ai_desktop_assistant.Reducer.{
  kept, is_kept, keep_recent, sliding_start, sliding_reduce, priority_keep, priority_reduce, fill,
  sort_items, score_items, hybrid_keep, hybrid_reduce,
}

drop-nil {ℓ} : {A : Type ℓ} (n : ℕ) → drop {A = A} n [] ≡ []
drop-nil zero = refl
drop-nil (suc n) = refl

drop-drop {ℓ} : {A : Type ℓ} (a b : ℕ) (xs : List A) → drop a (drop b xs) ≡ drop (b + a) xs
drop-drop a zero xs = rw zero-add
drop-drop zero (suc b) [] = sym (drop-nil (suc b + zero))
drop-drop (suc a) (suc b) [] = sym (drop-nil (suc b + suc a))
drop-drop a (suc b) (x ∷ xs) = rw suc-add (drop-drop a b xs)

-- Leaving out no more than what comes before the last two keeps the last two.
keep_last-drop {ℓ} :
    {A : Type ℓ} (k s : ℕ) (xs : List A)
    → s ≤ length xs - k
    → keep_last k (drop s xs) ≡ keep_last k xs
keep_last-drop k s xs h =
    drop-drop (length (drop s xs) - k) s xs ∙ ap (λ i. drop i xs) (omega (arith, length-drop s xs))

keep_last-append {ℓ} :
    {A : Type ℓ} (k : ℕ) (xs ys : List A) → length ys ≡ k → keep_last k (xs ++ ys) ≡ ys
keep_last-append {A} k xs ys h =
    ap (λ i. drop i (xs ++ ys)) (omega (arith, length-append xs ys)) ∙ drop_append xs ys
  where
    drop_append : (us vs : List A) → drop (length us) (us ++ vs) ≡ vs
    drop_append [] vs = refl
    drop_append (u ∷ us) vs = drop_append us vs

sliding_start-le : (budget : ℕ) (ms : List Message) → sliding_start budget ms ≤ length ms - 2
unfolding sliding_start
sliding_start-le budget ms = ground arith

pub sliding_reduce-recent :
    (budget : ℤ) (ms : List Message) → keep_last 2 (sliding_reduce budget ms) ≡ keep_last 2 ms
unfolding sliding_reduce
sliding_reduce-recent budget [] = refl
sliding_reduce-recent budget (m ∷ ms) =
    keep_last-drop 2 (sliding_start (positive_or 8000 budget) (m ∷ ms)) (m ∷ ms)
      (sliding_start-le (positive_or 8000 budget) (m ∷ ms))

kept-append :
    (keep : List ℕ) (i : ℕ) (xs ys : List Message)
    → kept keep i (xs ++ ys) ≡ kept keep i xs ++ kept keep (i + length xs) ys
unfolding kept
kept-append keep i [] ys = rw add-zero
kept-append keep i (x ∷ xs) ys =
    let rest = kept-append keep (suc i) xs ys in
    let shift : i + suc (length xs) ≡ suc i + length xs = omega arith in
    elim (Bool-cases (is_kept keep i)) [
      | inl e ↦ rw (e, shift) (ap (λ l. x ∷ l) rest)
      | inr e ↦ rw (e, shift) rest
    ]

kept-two :
    (keep : List ℕ) (i : ℕ) (ys : List Message) → length ys ≡ 2 → kept (i ∷ suc i ∷ keep) i ys ≡ ys
unfolding kept
kept-two keep i [] h = absurd (omega arith)
kept-two keep i (x ∷ []) h = absurd (omega arith)
kept-two keep i (x ∷ y ∷ []) h = ground arith
kept-two keep i (x ∷ y ∷ z ∷ zs) h = absurd (omega arith)

-- A collection that keeps the last two positions ends in the last two messages.
kept-recent :
    (keep : List ℕ) (ms : List Message)
    → keep_last 2 (kept (keep_recent (length ms) keep) 0 ms) ≡ keep_last 2 ms
unfolding keep_recent kept
kept-recent keep [] = refl
kept-recent keep (m ∷ []) = refl
kept-recent keep (m ∷ n ∷ ms) =
    let all = m ∷ n ∷ ms in
    let k = length ms in
    let back = drop k all in
    let size : length back ≡ 2 = omega (arith, length-drop k all) in
    let front : length (take k all) ≡ k = omega (arith, length-take k all) in
    ap (keep_last 2) (
      ap (kept (k ∷ suc k ∷ keep) 0) (sym (take-append-drop k all))
      ∙ kept-append (k ∷ suc k ∷ keep) 0 (take k all) back
      ∙ ap (λ l. kept (k ∷ suc k ∷ keep) 0 (take k all) ++ l)
          (ap (λ i. kept (k ∷ suc k ∷ keep) i back) (omega arith) ∙ kept-two keep k back size))
    ∙ keep_last-append 2 (kept (k ∷ suc k ∷ keep) 0 (take k all)) back size
    ∙ ap (λ i. drop i all) (omega arith)

priority_reduce-recent :
    (budget : ℤ) (ms : List Message) → keep_last 2 (priority_reduce budget ms) ≡ keep_last 2 ms
unfolding priority_reduce priority_keep
priority_reduce-recent budget [] = refl
priority_reduce-recent budget (m ∷ ms) =
    kept-recent (fill (positive_or 8000 budget) 0 [] (sort_items (score_items 0 (m ∷ ms)))) (m ∷ ms)

-- The hybrid reducer keeps the last two messages of the history, or the only one, as the last of what it
-- returns, whatever the budget.
pub hybrid_reduce-recent :
    (budget : ℤ) (ms : List Message) → keep_last 2 (hybrid_reduce budget ms) ≡ keep_last 2 ms
unfolding hybrid_reduce hybrid_keep
hybrid_reduce-recent budget [] = refl
hybrid_reduce-recent budget (m ∷ ms) =
    let b = positive_or 8000 budget in
    let out = kept (hybrid_keep b (m ∷ ms)) 0 (m ∷ ms) in
    let out_recent = kept-recent _ (m ∷ ms) in
    let Keeps = λ (l : List Message). keep_last 2 l ≡ keep_last 2 (m ∷ ms) in
    if_ind Keeps (leb (estimate_tokens (m ∷ ms)) b) (λ _. refl)
      (λ _.
        if_ind Keeps (ltb b (estimate_tokens out))
          (λ _. sliding_reduce-recent (pos b) out ∙ out_recent) (λ _. out_recent))
