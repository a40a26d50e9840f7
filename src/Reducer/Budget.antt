-- ===== src/Reducer/Budget.antt =====
-- reducer/sliding_window.go and hybrid_reducer.go: the estimates of what the two reducers return.
use mathlib.Core.List.{reverse-append, reverse-reverse, append-nil, append_assoc}
use ai_desktop_assistant.Common.{
  ℕ, ◌+◌, ◌-◌, ◌≤◌, ◌<◌, ◌≡◌, refl, ap, sym, subst, ◌∙◌, ◌⊎◌, inl, inr, true, false, ◌&&◌, List, [],
  ◌∷◌, ◌++◌, reverse, arith, if◌then◌else◌, leb, ltb, length, drop, length-append, length-drop,
  Bool-cases, leb→le, if_ind,
}
use ai_desktop_assistant.Common.Int.{ℤ, pos, positive_or}
use ai_desktop_assistant.History.{Message, message_tokens, estimate_from, estimate_tokens}
use ai_desktop_assistant.Reducer.{
  cost, kept, window_start, sliding_start, sliding_reduce, hybrid_keep, hybrid_reduce,
}

abbrev pub total_cost : List Message → ℕ
total_cost [] = 0
total_cost (m ∷ ms) = cost m + total_cost ms

-- The messages fit a budget, or there are at most `k` of them.
abbrev pub Fits : ℕ → ℕ → List Message → Type 0
Fits budget k ms = (total_cost ms ≤ budget) ⊎ (length ms ≤ k)

drop-length {ℓ} : {A : Type ℓ} (xs ys : List A) → drop (length xs) (xs ++ ys) ≡ ys
drop-length [] ys = refl
drop-length (x ∷ xs) ys = drop-length xs ys

length-reverse {ℓ} : {A : Type ℓ} (xs : List A) → length (reverse xs) ≡ length xs
length-reverse [] = refl
length-reverse (x ∷ xs) = omega (
  arith,
  ap length (reverse-append (x ∷ []) xs),
  length-append (reverse xs) (x ∷ []),
  length-reverse xs,
)

drop-reverse {ℓ} : {A : Type ℓ} (xs ys : List A) → drop (length xs) (reverse xs ++ ys) ≡ ys
drop-reverse xs ys =
    ap (λ n. drop n (reverse xs ++ ys)) (sym (length-reverse xs)) ∙ drop-length (reverse xs) ys

reverse-cons {ℓ} :
    {A : Type ℓ} (x : A) (xs ys : List A) → reverse (x ∷ xs) ++ ys ≡ reverse xs ++ (x ∷ ys)
reverse-cons x xs ys =
    ap (λ l. l ++ ys) (reverse-append (x ∷ []) xs) ∙ append_assoc (reverse xs) (x ∷ []) ys

module _ (budget n used start : ℕ) (m : Message) (rest : List Message) where
  window_start_stop :
      (ltb budget (used + cost m) && ltb start n) ≡ true
      → window_start budget n used start (m ∷ rest) ≡ start
  unfolding window_start
  window_start_stop h = rw (h, window_start)

  window_start_next :
      (ltb budget (used + cost m) && ltb start n) ≡ false
      → window_start budget n used start (m ∷ rest)
        ≡ window_start budget n (used + cost m) (length rest) rest
  unfolding window_start
  window_start_next h = rw (h, window_start)

-- The loop has counted the messages in `tail`, those from its start on, and has `rest` to go.
window_start-Fits :
    (budget : ℕ) (all : List Message) (used : ℕ) (rest tail : List Message)
    → all ≡ reverse rest ++ tail
    → used ≡ total_cost tail
    → Fits budget 1 tail
    → Fits budget 1 (drop (window_start budget (length all) used (length rest) rest) all)
unfolding window_start
window_start-Fits budget all used [] tail a e h = subst (Fits budget 1) (sym a) h
window_start-Fits budget all used (m ∷ rest) tail a e h =
    let size = ap length a ∙ length-append (reverse (m ∷ rest)) tail in
    let back = length-reverse (m ∷ rest) in
    let family = λ (i : ℕ). Fits budget 1 (drop i all) in
    elim (Bool-cases (ltb budget (used + cost m) && ltb (length (m ∷ rest)) (length all))) [
      | inl full ↦ subst family (sym (window_start_stop budget (length all) used _ m rest full)) (
          subst (Fits budget 1)
            (sym (ap (drop (length (m ∷ rest))) a ∙ drop-reverse (m ∷ rest) tail)) h)
      | inr more ↦ subst family (sym (window_start_next budget (length all) used _ m rest more)) (
          window_start-Fits budget all (used + cost m) rest (m ∷ tail)
            (a ∙ reverse-cons m rest tail) (omega (arith, e)) (ground arith))
    ]

window-Fits :
    (budget : ℕ) (ms : List Message)
    → Fits budget 1 (drop (window_start budget (length ms) 0 (length ms) (reverse ms)) ms)
window-Fits budget ms =
    subst (λ n. Fits budget 1 (drop (window_start budget (length ms) 0 n (reverse ms)) ms))
      (length-reverse ms)
      (window_start-Fits budget ms 0 (reverse ms) []
        (sym (append-nil (reverse (reverse ms)) ∙ reverse-reverse ms)) refl (inr (omega arith)))

sliding_start-Fits :
    (budget : ℕ) (ms : List Message) → Fits budget 2 (drop (sliding_start budget ms) ms)
unfolding sliding_start
sliding_start-Fits budget ms =
    let n = length ms in
    let k = n - (if ltb n 2 then n else 2) in
    let s = window_start budget n 0 n (reverse ms) in
    elim (Bool-cases (ltb k s)) [
      | inl e ↦ rw e (inr (ground (arith, length-drop k ms)))
      | inr e ↦ rw e (elim (window-Fits budget ms) [
        | inl fits ↦ inl fits
        | inr few ↦ inr (omega (arith, few))
      ])
    ]

pub sliding_reduce-Fits :
    (budget : ℤ) (ms : List Message) → Fits (positive_or 8000 budget) 2 (sliding_reduce budget ms)
unfolding sliding_reduce
sliding_reduce-Fits budget [] = inl (omega arith)
sliding_reduce-Fits budget (m ∷ ms) = sliding_start-Fits (positive_or 8000 budget) (m ∷ ms)

estimate_from-le : (total : ℕ) (ms : List Message) → estimate_from total ms ≤ total + total_cost ms
unfolding estimate_from
estimate_from-le total [] = omega arith
estimate_from-le total (m ∷ ms) = ground (arith, estimate_from-le (total + message_tokens m) ms)

estimate_tokens-le : (ms : List Message) → estimate_tokens ms ≤ total_cost ms
unfolding estimate_tokens
estimate_tokens-le ms = omega (arith, estimate_from-le 0 ms)

-- The estimate is within a budget, or at most two messages are left.
abbrev pub IsWithin : ℕ → List Message → Type 0
IsWithin budget ms = (estimate_tokens ms ≤ budget) ⊎ (length ms ≤ 2)

sliding_reduce-IsWithin :
    (budget : ℤ) (ms : List Message) → IsWithin (positive_or 8000 budget) (sliding_reduce budget ms)
sliding_reduce-IsWithin budget ms =
    ground (arith, sliding_reduce-Fits budget ms, estimate_tokens-le (sliding_reduce budget ms))

positive_or-pos :
    (d : ℕ) (budget : ℤ) → 0 < d → positive_or d (pos (positive_or d budget)) ≡ positive_or d budget
positive_or-pos d budget h = ground arith

-- What the hybrid reducer returns has an estimate within the budget (8000 where the budget given is not
-- positive), or it is down to at most two messages.
pub hybrid_reduce-IsWithin :
    (budget : ℤ) (ms : List Message) → IsWithin (positive_or 8000 budget) (hybrid_reduce budget ms)
unfolding hybrid_reduce
hybrid_reduce-IsWithin budget [] = inr (omega arith)
hybrid_reduce-IsWithin budget (m ∷ ms) =
    let b = positive_or 8000 budget in
    let out = kept (hybrid_keep b (m ∷ ms)) 0 (m ∷ ms) in
    let tight = sliding_reduce-IsWithin (pos b) out in
    let same = positive_or-pos 8000 budget (omega arith) in
    if_ind (IsWithin b) (leb (estimate_tokens (m ∷ ms)) b) (λ small. inl (leb→le _ _ small))
      (λ _.
        if_ind (IsWithin b) (ltb b (estimate_tokens out))
          (λ _. subst (λ k. IsWithin k (sliding_reduce (pos b) out)) same tight)
          (λ fits. inl (ground arith)))
