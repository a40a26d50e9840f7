-- ===== src/Milestones/Cache.antt =====
-- milestone_tracker.go: the cache before the repository.
use ai_desktop_assistant.Common.{
  ℕ, ◌+◌, ◌-◌, ◌≤◌, ◌<◌, ◌≡◌, refl, ap, sym, ◌∙◌, String, true, false, none, some, List, [], ◌∷◌,
  ◌++◌, arith, length, is_empty, drop, drop-drop, length-drop, Bool-cases, inl, inr,
}
use ai_desktop_assistant.Common.Int.{pos}
use ai_desktop_assistant.Common.Map.{lookup, lookup_or, lookup-insert_self}
use ai_desktop_assistant.Repository.Entities.{MilestoneVo}
use ai_desktop_assistant.Repository.Messages.{last_of}
use ai_desktop_assistant.Repository.Milestones.{
  Milestones, at_most, save_milestone, list_milestones,
}
use ai_desktop_assistant.Repository.Saved.{
  push, push_all, push_all-at_most, save_milestones, milestones_for, at_most-drop,
  list_milestones-save_milestones,
}
use ai_desktop_assistant.Milestones.{MilestoneTracker, add_milestone, get_milestones}

-- A tracker with an empty cache on a repository, as after a start.
abbrev pub started : ℕ → Milestones → MilestoneTracker
started max_history r = record { milestones = []; max_history = max_history; repo = some r }

unfoldable pub add_milestones : List (String × MilestoneVo) → MilestoneTracker → MilestoneTracker
add_milestones [] t = t
add_milestones ((session, m) ∷ ms) t = add_milestones ms (add_milestone session (some m) t)

add_milestones-push_all :
    (ms : List (String × MilestoneVo)) (n : ℕ) (c r : Milestones)
    → add_milestones ms (record { milestones = c; max_history = n; repo = some r })
      ≡ record { milestones = push_all n ms c; max_history = n; repo = some (save_milestones ms r) }
unfolding add_milestones add_milestone push_all save_milestones
add_milestones-push_all [] n c r = refl
add_milestones-push_all ((session, m) ∷ ms) n c r =
    add_milestones-push_all ms n (push n session m c) (save_milestone session (some m) r)

get_milestones_cached :
    (session : String) (t : MilestoneTracker)
    → is_empty (lookup_or [] session t.milestones) ≡ false
    → (get_milestones session t).1 ≡ lookup_or [] session t.milestones
unfolding get_milestones
get_milestones_cached session t h = ground arith

empty_nil : (xs : List MilestoneVo) → is_empty xs ≡ true → xs ≡ []
empty_nil [] h = refl
empty_nil (x ∷ xs) h = ground arith

get_milestones_cold :
    (session : String) (t : MilestoneTracker) (r : Milestones)
    → is_empty (lookup_or [] session t.milestones) ≡ true
    → t.repo ≡ some r
    → (get_milestones session t).1 ≡ list_milestones session (pos t.max_history) r
unfolding get_milestones
get_milestones_cold session t r h k =
    elim (Bool-cases (is_empty (list_milestones session (pos t.max_history) r))) [
      | inl missing ↦
          let nothing = empty_nil (list_milestones session (pos t.max_history) r) missing in
          ground arith
      | inr found ↦ ground arith
    ]

-- A limit that is positive cuts as a history does.
last_of-at_most : (n : ℕ) (xs : List MilestoneVo) → 0 < n → last_of (pos n) xs ≡ at_most n xs
last_of-at_most n xs h = ground arith

at_most-at_most :
    (n k : ℕ) (xs : List MilestoneVo) → n ≤ k → at_most n (at_most k xs) ≡ at_most n xs
at_most-at_most n k xs h =
    let size = length-drop (length xs - k) xs in
    let cut : (length xs - k) + (length (drop (length xs - k) xs) - n) ≡ length xs - n =
      omega (arith, h, size) in
    ap (at_most n) (at_most-drop k xs)
    ∙ at_most-drop n (drop (length xs - k) xs)
    ∙ drop-drop (length (drop (length xs - k) xs) - n) (length xs - k) xs
    ∙ ap (λ i. drop i xs) cut
    ∙ sym (at_most-drop n xs)

module _ (n : ℕ) (some_history : 0 < n) (ms : List (String × MilestoneVo)) (session : String) where
  listed :
      n ≤ 100
      → list_milestones session (pos n) (save_milestones ms [])
        ≡ at_most n (milestones_for session ms)
  listed h =
      let all = milestones_for session ms in
      list_milestones-save_milestones ms session (pos n)
      ∙ last_of-at_most n (at_most 100 all) some_history
      ∙ at_most-at_most n 100 all h

  -- The milestones of a tracker are a log by session, cut to its last ones: after any additions, to any
  -- sessions, what it gives for a session are the last milestones added to that session, as many as its
  -- history is long, in their order; and after a restart on the same repository it gives the same ones. (The
  -- history is at least one long, and at most as long as the repository's hundred.)
  pub get_milestones-add_milestones :
      n ≤ 100
      → let t = add_milestones ms (started n []) in
        ((get_milestones session t).1 ≡ at_most n (milestones_for session ms))
        × ((get_milestones session (started n (save_milestones ms []))).1
            ≡ (get_milestones session t).1)
  unfolding lookup
  get_milestones-add_milestones h =
      let all = at_most n (milestones_for session ms) in
      let t : MilestoneTracker = record {
        milestones = push_all n ms [];
        max_history = n;
        repo = some (save_milestones ms []);
      } in
      let same = add_milestones-push_all ms n [] [] in
      let cached : lookup_or [] session (push_all n ms []) ≡ all =
        push_all-at_most n ms session [] [] (ground arith) in
      let warm : (get_milestones session t).1 ≡ all =
        elim (Bool-cases (is_empty (lookup_or [] session (push_all n ms [])))) [
          | inl missing ↦
              get_milestones_cold session t (save_milestones ms []) missing refl ∙ listed h
          | inr found ↦ get_milestones_cached session t found ∙ cached
        ] in
      let now = ap (λ (u : MilestoneTracker). (get_milestones session u).1) same ∙ warm in
      let cold =
        get_milestones_cold session (started n (save_milestones ms [])) (save_milestones ms []) refl
          refl in
      (now, cold ∙ listed h ∙ sym now)

-- A milestone that is added to a session before the session's milestones are first read after a restart
-- hides those in the repository: the tracker then gives that milestone alone. (Its history is at least one
-- long.)
pub get_milestones-add_milestone :
    (session : String) (m : MilestoneVo) (t : MilestoneTracker)
    → 0 < t.max_history
    → lookup_or [] session t.milestones ≡ []
    → (get_milestones session (add_milestone session (some m) t)).1 ≡ m ∷ []
unfolding add_milestone
get_milestones-add_milestone session m t some_history cold =
    let t' = add_milestone session (some m) t in
    let n = t.max_history in
    let alone : at_most n (m ∷ []) ≡ m ∷ [] = ground arith in
    let cached : lookup_or [] session t'.milestones ≡ m ∷ [] =
      ap (λ o. elim o as (λ x. List MilestoneVo) [ none ↦ [] | some v ↦ v ])
        (lookup-insert_self session (at_most n (lookup_or [] session t.milestones ++ m ∷ []))
          t.milestones)
      ∙ ap (λ l. at_most n (l ++ m ∷ [])) cold
      ∙ alone in
    get_milestones_cached session t' (ap is_empty cached) ∙ cached
