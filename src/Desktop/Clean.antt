-- ===== src/Desktop/Clean.antt =====
-- The laws of filepath.Clean, on the texts of paths.
use mathlib.Core.List.{append-nil, append_assoc, reverse-cons}
use ai_desktop_assistant.Common.{
  subst, ◌≡◌, refl, sym, ap, ◌∙◌, Char, Bool, true, false, not, ◌||◌, List, [], ◌∷◌, ◌++◌, reverse,
  arith, All, All-append, char_eq, is_empty, select, Bool-cases, inl, inr, if_ind,
}
use ai_desktop_assistant.Desktop.Paths.{
  FilePath, Segment, is_abs, slash, is_dot, is_dot_dot, push, segments, join, join_from,
  normal_from, clean_step, pop, path_text, clean, names,
}

abbrev pub has_slash : Segment → Bool
has_slash [] = false
has_slash (c ∷ cs) = char_eq c slash || has_slash cs

-- A name that a clean absolute path may hold.
abbrev pub IsName : Segment → Type 0
IsName s =
    (has_slash s ≡ false) × (is_empty s ≡ false) × (is_dot s ≡ false) × (is_dot_dot s ≡ false)

pub segments_name : (s : Segment) → has_slash s ≡ false → segments s ≡ s ∷ []
unfolding segments
segments_name [] h = refl
segments_name (c ∷ cs) h =
    let hc : char_eq c slash ≡ false = ground (arith, h) in
    rw hc (ap (push c) (segments_name cs (ground (arith, h))))

push-append :
    (c : Char) (xs ys : List Segment) → is_empty xs ≡ false → push c (xs ++ ys) ≡ push c xs ++ ys
push-append c [] ys h = ground (arith, h)
push-append c (x ∷ xs) ys h = refl

is_empty-segments : (p : FilePath) → is_empty (segments p) ≡ false
unfolding segments
is_empty-segments [] = refl
is_empty-segments (c ∷ cs) =
    if_ind (λ (o : List Segment). is_empty o ≡ false) (char_eq c slash) (λ h. refl)
      (λ h. push_lem c (segments cs))
  where
    push_lem : (d : Char) (xs : List Segment) → is_empty (push d xs) ≡ false
    push_lem d [] = refl
    push_lem d (x ∷ xs) = refl

-- A separator splits a path's segments.
pub segments-append : (p q : FilePath) → segments (p ++ (slash ∷ q)) ≡ segments p ++ segments q
unfolding segments
segments-append [] q = refl
segments-append (c ∷ cs) q = elim (Bool-cases (char_eq c slash)) [
  | inl h ↦ rw h (ap (λ l. [] ∷ l) (segments-append cs q))
  | inr h ↦ rw h (
      ap (push c) (segments-append cs q)
      ∙ push-append c (segments cs) (segments q) (is_empty-segments cs))
]

pub segments-join_from :
    (s : Segment) (ss : List Segment)
    → has_slash s ≡ false
    → All IsName ss
    → segments (join_from s ss) ≡ s ∷ ss
unfolding join_from
segments-join_from s [] h k = segments_name s h
segments-join_from s (t ∷ ts) h ((n, _, _, _), k) =
    segments-append s (join_from t ts)
    ∙ ap (λ l. l ++ segments (join_from t ts)) (segments_name s h)
    ∙ ap (λ l. s ∷ l) (segments-join_from t ts n k)

abbrev pub significant : Segment → Bool
significant s = not (is_empty s || is_dot s)

pub clean_step_name :
    (r : Bool) (kept : List Segment) (s : Segment) → IsName s → clean_step r kept s ≡ s ∷ kept
unfolding clean_step
clean_step_name r kept s (a, b, c, d) = ground (arith, b, c, d)

normal_from-names :
    (r : Bool) (kept ss : List Segment) → All IsName ss → normal_from r kept ss ≡ reverse kept ++ ss
unfolding normal_from
normal_from-names r kept [] h = sym (append-nil (reverse kept))
normal_from-names r kept (s ∷ ss) (n, h) =
    ap (λ k. normal_from r k ss) (clean_step_name r kept s n)
    ∙ normal_from-names r (s ∷ kept) ss h
    ∙ ap (λ l. l ++ ss) (reverse-cons s kept)
    ∙ append_assoc (reverse kept) (s ∷ []) ss

select_names : (ss : List Segment) → All IsName ss → select (λ s. not (is_empty s)) ss ≡ ss
select_names [] h = refl
select_names (s ∷ ss) ((_, e, _, _), h) = rw e (ap (λ l. s ∷ l) (select_names ss h))

pub names-path_text : (ss : List Segment) → All IsName ss → names (path_text true ss) ≡ ss
unfolding names path_text segments join
names-path_text [] h = refl
names-path_text (s ∷ ss) ((a, b, c, d), h) =
    rw (segments-join_from s ss a h) (select_names (s ∷ ss) ((a, b, c, d), h))

-- Cleaning a clean absolute path changes nothing.
pub clean-path_text :
    (ss : List Segment) → All IsName ss → clean (path_text true ss) ≡ path_text true ss
unfolding clean path_text segments join normal_from
clean-path_text [] h = refl
clean-path_text (s ∷ ss) ((a, b, c, d), h) =
    rw (segments-join_from s ss a h)
      (ap (λ l. slash ∷ join l) (normal_from-names true [] (s ∷ ss) ((a, b, c, d), h)))

pub All-reverse {κ} : (P : Segment → Type κ) (xs : List Segment) → All P xs → All P (reverse xs)
All-reverse P [] h = tt
All-reverse P (x ∷ xs) (p, h) =
    subst (All P) (sym (reverse-cons x xs))
      (All-append P (reverse xs) (x ∷ []) (All-reverse P xs h) (p, tt))

clean_step-IsName :
    (kept : List Segment) (s : Segment)
    → All IsName kept
    → has_slash s ≡ false
    → All IsName (clean_step true kept s)
unfolding clean_step pop
clean_step-IsName [] s h k = ground (arith, k)
clean_step-IsName (n ∷ ns) s h k = ground (arith, h, k)

normal_from-IsName :
    (kept ss : List Segment)
    → All IsName kept
    → All (λ s. has_slash s ≡ false) ss
    → All IsName (normal_from true kept ss)
unfolding normal_from
normal_from-IsName kept [] h k = All-reverse IsName kept h
normal_from-IsName kept (s ∷ ss) h (a, k) =
    normal_from-IsName (clean_step true kept s) ss (clean_step-IsName kept s h a) k

pub segments-has_slash : (p : FilePath) → All (λ s. has_slash s ≡ false) (segments p)
unfolding segments
segments-has_slash [] = (refl, tt)
segments-has_slash (c ∷ cs) =
    if_ind (λ (o : List Segment). All (λ s. has_slash s ≡ false) o) (char_eq c slash)
      (λ h. (refl, segments-has_slash cs)) (λ h. push_lem h (segments cs) (segments-has_slash cs))
  where
    push_lem :
        char_eq c slash ≡ false
        → (xs : List Segment) → All (λ s. has_slash s ≡ false) xs
        → All (λ s. has_slash s ≡ false) (push c xs)
    push_lem h [] k = (ground (arith, h), tt)
    push_lem h (x ∷ xs) (a, k) = (ground (arith, h, a), k)

-- A clean absolute path is the text of names.
pub clean_names :
    (p : FilePath) → is_abs p ≡ true → clean p ≡ path_text true (normal_from true [] (segments p))
unfolding clean
clean_names p h = rw h

pub normal-IsName : (p : FilePath) → All IsName (normal_from true [] (segments p))
normal-IsName p = normal_from-IsName [] (segments p) tt (segments-has_slash p)
