-- ===== src/Repository/Saved.antt =====
-- The repositories of messages and milestones, as logs of what was saved.
use mathlib.Core.List.{append_assoc, append-nil}
use ai_desktop_assistant.Common.{
  ℕ, ◌-◌, ◌≡◌, refl, ap, sym, ◌∙◌, String, Bool, false, Option, none, some, List, [], ◌∷◌, ◌++◌,
  arith, if◌then◌else◌, ltb, str_eq, str_eq_iff, length, length-append, is_empty, drop, drop-append,
  drop-drop, length-drop, select, select-append, Bool-cases, inl, inr, if_ind,
}
use ai_desktop_assistant.Common.Int.{ℤ}
use ai_desktop_assistant.Common.Map.{lookup, lookup_or, insert, lookup-insert}
use ai_desktop_assistant.Repository.Entities.{MessageEntity, MilestoneVo}
use ai_desktop_assistant.Repository.Messages.{
  Messages, save_message, save_batch, list_messages, count_messages, last_of,
}
use ai_desktop_assistant.Repository.Milestones.{
  Milestones, save_milestone, list_milestones, at_most,
}

abbrev of_session : String → MessageEntity → Bool
of_session session m = str_eq m.session_id session

lookup_or-save_message :
    (m : MessageEntity) (session : String) (r : Messages)
    → lookup_or [] session (save_message m r)
      ≡ lookup_or [] session r ++ select (of_session session) (m ∷ [])
unfolding save_message
lookup_or-save_message m session r =
    let added = lookup_or [] m.session_id r ++ m ∷ [] in
    let found = lookup-insert m.session_id session added r in
    elim (Bool-cases (str_eq m.session_id session)) [
      | inl same ↦
          ap (λ o. elim o as (λ x. List MessageEntity) [ none ↦ [] | some v ↦ v ])
            (found ∙ ap (λ b. if b then some added else lookup session r) same)
          ∙ ap (λ k. lookup_or [] k r ++ m ∷ []) ((str_eq_iff m.session_id session).0 same)
          ∙ ap (λ b. lookup_or [] session r ++ (if b then m ∷ [] else [])) (sym same)
      | inr differ ↦
          ap (λ o. elim o as (λ x. List MessageEntity) [ none ↦ [] | some v ↦ v ])
            (found ∙ ap (λ b. if b then some added else lookup session r) differ)
          ∙ sym (append-nil (lookup_or [] session r))
          ∙ ap (λ b. lookup_or [] session r ++ (if b then m ∷ [] else [])) (sym differ)
    ]

lookup_or-save_batch :
    (ms : List MessageEntity) (session : String) (r : Messages)
    → lookup_or [] session (save_batch ms r)
      ≡ lookup_or [] session r ++ select (of_session session) ms
unfolding save_batch
lookup_or-save_batch [] session r = sym (append-nil (lookup_or [] session r))
lookup_or-save_batch (m ∷ ms) session r =
    let p = of_session session in
    let old = lookup_or [] session r in
    lookup_or-save_batch ms session (save_message m r)
    ∙ ap (λ l. l ++ select p ms) (lookup_or-save_message m session r)
    ∙ append_assoc old (select p (m ∷ [])) (select p ms)
    ∙ ap (λ l. old ++ l) (sym (select-append p (m ∷ []) ms))

last_of-empty :
    (limit : ℤ) (xs : List MessageEntity)
    → (if is_empty xs then [] else last_of limit xs) ≡ last_of limit xs
last_of-empty limit [] = ground arith
last_of-empty limit (x ∷ xs) = refl

-- A message's repository is a log by session: after a batch, the list of a session is what it held and then
-- the batch's messages of that session, in their order, cut to the last ones where a limit is given; and the
-- count is that of all of them.
pub list_messages-save_batch :
    (ms : List MessageEntity) (session : String) (limit : ℤ) (r : Messages)
    → let all = lookup_or [] session r ++ select (of_session session) ms in
      (list_messages session limit (save_batch ms r) ≡ last_of limit all)
      × (count_messages session (save_batch ms r) ≡ length all)
unfolding list_messages count_messages
list_messages-save_batch ms session limit r =
    let all = lookup_or-save_batch ms session r in
    (
      last_of-empty limit (lookup_or [] session (save_batch ms r)) ∙ ap (last_of limit) all,
      ap length all,
    )

module _ {ℓ} {A : Type ℓ} (n : ℕ) where
  pub at_most-drop : (xs : List A) → at_most n xs ≡ drop (length xs - n) xs
  at_most-drop xs =
      if_ind (λ l. l ≡ drop (length xs - n) xs) (ltb n (length xs)) (λ long. refl)
        (λ short. ap (λ k. drop k xs) (short_enough short))
    where
      short_enough : ltb n (length xs) ≡ false → 0 ≡ length xs - n
      short_enough h = ground arith

  -- Cutting after each of two additions is cutting once.
  pub at_most-snoc :
      (xs : List A) (x : A) → at_most n (at_most n xs ++ x ∷ []) ≡ at_most n (xs ++ x ∷ [])
  at_most-snoc xs x =
      let k = length xs - n in
      let size = length-drop k xs in
      let cut = length-append (drop k xs) (x ∷ []) in
      let whole = length-append xs (x ∷ []) in
      ap (λ l. at_most n (l ++ x ∷ [])) (at_most-drop xs)
      ∙ at_most-drop (drop k xs ++ x ∷ [])
      ∙ ap (λ l. drop (length (drop k xs ++ x ∷ []) - n) l)
          (sym (drop-append k xs (x ∷ []) (omega arith)))
      ∙ drop-drop (length (drop k xs ++ x ∷ []) - n) k (xs ++ x ∷ [])
      ∙ ap (λ i. drop i (xs ++ x ∷ [])) (omega (arith, size, cut, whole))
      ∙ sym (at_most-drop (xs ++ x ∷ []))

-- A list by session that grows at its end and is cut to its last `n`.
abbrev pub push : ℕ → String → MilestoneVo → Milestones → Milestones
push n session m r = insert session (at_most n (lookup_or [] session r ++ m ∷ [])) r

unfoldable pub push_all : ℕ → List (String × MilestoneVo) → Milestones → Milestones
push_all n [] r = r
push_all n ((session, m) ∷ ms) r = push_all n ms (push n session m r)

-- The milestones saved under their sessions, in order.
unfoldable pub save_milestones : List (String × MilestoneVo) → Milestones → Milestones
save_milestones [] r = r
save_milestones ((session, m) ∷ ms) r = save_milestones ms (save_milestone session (some m) r)

abbrev pub milestones_for : String → List (String × MilestoneVo) → List MilestoneVo
milestones_for session [] = []
milestones_for session ((other, m) ∷ ms) =
    if str_eq other session then m ∷ milestones_for session ms else milestones_for session ms

save_milestones-push_all :
    (ms : List (String × MilestoneVo)) (r : Milestones) → save_milestones ms r ≡ push_all 100 ms r
unfolding save_milestones save_milestone push_all
save_milestones-push_all [] r = refl
save_milestones-push_all ((session, m) ∷ ms) r = save_milestones-push_all ms (push 100 session m r)

module _ (n : ℕ) where
  lookup_or-push :
      (m : MilestoneVo) (other session : String) (r : Milestones)
      → lookup_or [] session (push n other m r) ≡ (
          if str_eq other session
          then at_most n (lookup_or [] session r ++ m ∷ [])
          else lookup_or [] session r)
  lookup_or-push m other session r =
      let added = at_most n (lookup_or [] other r ++ m ∷ []) in
      let found = lookup-insert other session added r in
      let read : Option (List MilestoneVo) → List MilestoneVo =
        λ o. elim o as (λ x. List MilestoneVo) [ none ↦ [] | some v ↦ v ] in
      let old = lookup_or [] session r in
      elim (Bool-cases (str_eq other session)) [
        | inl same ↦
            ap read (found ∙ ap (λ b. if b then some added else lookup session r) same)
            ∙ ap (λ k. at_most n (lookup_or [] k r ++ m ∷ [])) ((str_eq_iff other session).0 same)
            ∙ ap (λ b. if b then at_most n (old ++ m ∷ []) else old) (sym same)
        | inr differ ↦
            ap read (found ∙ ap (λ b. if b then some added else lookup session r) differ)
            ∙ ap (λ b. if b then at_most n (old ++ m ∷ []) else old) (sym differ)
      ]

  pub push_all-at_most :
      (ms : List (String × MilestoneVo)) (session : String) (log : List MilestoneVo)
      (r : Milestones)
      → lookup_or [] session r ≡ at_most n log
      → lookup_or [] session (push_all n ms r) ≡ at_most n (log ++ milestones_for session ms)
  unfolding push_all
  push_all-at_most [] session log r h = h ∙ ap (at_most n) (sym (append-nil log))
  push_all-at_most ((other, m) ∷ ms) session log r h =
      let r' = push n other m r in
      let stored = lookup_or-push m other session r in
      let old = lookup_or [] session r in
      let later = milestones_for session ms in
      elim (Bool-cases (str_eq other session)) [
        | inl same ↦
            let now : lookup_or [] session r' ≡ at_most n (log ++ m ∷ []) =
              stored
              ∙ ap (λ b. if b then at_most n (old ++ m ∷ []) else old) same
              ∙ ap (λ l. at_most n (l ++ m ∷ [])) h
              ∙ at_most-snoc n log m in
            push_all-at_most ms session (log ++ m ∷ []) r' now
            ∙ ap (at_most n) (
                append_assoc log (m ∷ []) later
                ∙ ap (λ b. log ++ (if b then m ∷ later else later)) (sym same))
        | inr differ ↦
            let now : lookup_or [] session r' ≡ at_most n log =
              stored ∙ ap (λ b. if b then at_most n (old ++ m ∷ []) else old) differ ∙ h in
            push_all-at_most ms session log r' now
            ∙ ap (λ b. at_most n (log ++ (if b then m ∷ later else later))) (sym differ)
      ]

-- However many milestones a new repository has been given, under whichever sessions, it lists for a session
-- the last hundred of that session's, in their order, cut further where a limit is given.
pub list_milestones-save_milestones :
    (ms : List (String × MilestoneVo)) (session : String) (limit : ℤ)
    → list_milestones session limit (save_milestones ms [])
      ≡ last_of limit (at_most 100 (milestones_for session ms))
unfolding list_milestones lookup
list_milestones-save_milestones ms session limit = ap (last_of limit) (
    ap (lookup_or [] session) (save_milestones-push_all ms [])
    ∙ push_all-at_most 100 ms session [] [] (ground arith))
