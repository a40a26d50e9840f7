-- ===== src/Reducer/Order.antt =====
-- internal/domain/agent/service/context/reducer: the messages kept and those of the history, in order.
use mathlib.Core.List.Sublistᴰ
use mathlib.Core.List.{Sublistᴰ}
use ai_desktop_assistant.Common.{
  ℕ, zero, suc, refl, List, [], ◌∷◌, leb, ltb, drop, Bool-cases, inl, inr, if_ind,
}
use ai_desktop_assistant.Common.Int.{ℤ, pos, positive_or}
use ai_desktop_assistant.History.{Message, estimate_tokens}
use ai_desktop_assistant.Reducer.{
  kept, is_kept, sliding_start, sliding_reduce, priority_keep, priority_reduce, hybrid_keep,
  hybrid_reduce,
}

pub drop-Sublist {ℓ} : {A : Type ℓ} (n : ℕ) (xs : List A) → Sublistᴰ (drop n xs) xs
drop-Sublist zero xs = Sublistᴰ.refl xs
drop-Sublist (suc n) [] = Sublistᴰ.slnil
drop-Sublist (suc n) (x ∷ xs) = Sublistᴰ.cons (drop-Sublist n xs)

kept-Sublist : (keep : List ℕ) (i : ℕ) (ms : List Message) → Sublistᴰ (kept keep i ms) ms
unfolding kept
kept-Sublist keep i [] = Sublistᴰ.slnil
kept-Sublist keep i (m ∷ ms) = elim (Bool-cases (is_kept keep i)) [
  | inl e ↦ rw e (Sublistᴰ.cons-cons refl (kept-Sublist keep (suc i) ms))
  | inr e ↦ rw e (Sublistᴰ.cons (kept-Sublist keep (suc i) ms))
]

sliding_reduce-Sublist : (budget : ℤ) (ms : List Message) → Sublistᴰ (sliding_reduce budget ms) ms
unfolding sliding_reduce
sliding_reduce-Sublist budget [] = Sublistᴰ.slnil
sliding_reduce-Sublist budget (m ∷ ms) =
    drop-Sublist (sliding_start (positive_or 8000 budget) (m ∷ ms)) (m ∷ ms)

pub priority_reduce-Sublist :
    (budget : ℤ) (ms : List Message) → Sublistᴰ (priority_reduce budget ms) ms
unfolding priority_reduce
priority_reduce-Sublist budget [] = Sublistᴰ.slnil
priority_reduce-Sublist budget (m ∷ ms) =
    kept-Sublist (priority_keep (positive_or 8000 budget) (m ∷ ms)) 0 (m ∷ ms)

-- What the hybrid reducer returns is the history with messages left out: in the history's order, and each
-- at most as often as there.
pub hybrid_reduce-Sublist : (budget : ℤ) (ms : List Message) → Sublistᴰ (hybrid_reduce budget ms) ms
unfolding hybrid_reduce
hybrid_reduce-Sublist budget [] = Sublistᴰ.slnil
hybrid_reduce-Sublist budget (m ∷ ms) =
    let b = positive_or 8000 budget in
    let out = kept (hybrid_keep b (m ∷ ms)) 0 (m ∷ ms) in
    let out_sub = kept-Sublist (hybrid_keep b (m ∷ ms)) 0 (m ∷ ms) in
    let IsPart = λ (l : List Message). Sublistᴰ l (m ∷ ms) in
    if_ind IsPart (leb (estimate_tokens (m ∷ ms)) b) (λ _. Sublistᴰ.refl (m ∷ ms))
      (λ _.
        if_ind IsPart (ltb b (estimate_tokens out))
          (λ _. Sublistᴰ.trans (sliding_reduce-Sublist (pos b) out) out_sub) (λ _. out_sub))
