-- ===== src/Desktop/Below.antt =====
-- file_service.go: where resolvePath puts a relative path.
use mathlib.Core.List.{append-nil, append_assoc, reverse-cons}
use ai_desktop_assistant.Common.{
  ◌≡◌, refl, sym, ap, ◌∙◌, subst, Char, Bool, true, false, List, [], ◌∷◌, ◌++◌, reverse, arith, All,
  All-append, select, select-append, is_empty, if◌then◌else◌, Bool-cases, inl, inr,
}
use ai_desktop_assistant.Desktop.Paths.{
  FilePath, Segment, slash, is_abs, is_dot_dot, segments, join, join_from, normal_from, clean_step,
  path_text, clean, join_paths, Resolved, inside,
}
use ai_desktop_assistant.Desktop.Clean.{
  IsName, has_slash, significant, segments-append, segments-join_from, segments-has_slash,
  clean_names,
}
use ai_desktop_assistant.Desktop.Files.{confine, resolve_path}
use ai_desktop_assistant.Desktop.Inside.{
  is_root, target, is_prefix-path_text, resolve_path_root, resolve_path_other,
}

-- A segment that is not `..`
abbrev pub IsDown : Segment → Type 0
IsDown s = is_dot_dot s ≡ false

clean_step_down :
    (r : Bool) (kept : List Segment) (s : Segment)
    → IsDown s
    → clean_step r kept s ≡ (if significant s then s ∷ kept else kept)
unfolding clean_step
clean_step_down r kept s h = ground (arith, h)

-- Where no segment leads up, cleaning keeps the significant ones.
normal_from_down :
    (r : Bool) (kept ss : List Segment)
    → All IsDown ss
    → normal_from r kept ss ≡ reverse kept ++ select significant ss
unfolding normal_from
normal_from_down r kept [] h = sym (append-nil (reverse kept))
normal_from_down r kept (s ∷ ss) (d, h) =
    ap (λ k. normal_from r k ss) (clean_step_down r kept s d) ∙ elim (Bool-cases (significant s)) [
      | inl e ↦ rw e (
          normal_from_down r (s ∷ kept) ss h
          ∙ ap (λ l. l ++ select significant ss) (reverse-cons s kept)
          ∙ append_assoc (reverse kept) (s ∷ []) (select significant ss))
      | inr e ↦ rw e (normal_from_down r kept ss h)
    ]

select_names : (ss : List Segment) → All IsName ss → select significant ss ≡ ss
select_names [] h = refl
select_names (s ∷ ss) ((_, e, d, _), h) = rw (e, d) (ap (λ l. s ∷ l) (select_names ss h))

select-IsName :
    (ss : List Segment)
    → All (λ s. has_slash s ≡ false) ss
    → All IsDown ss
    → All IsName (select significant ss)
select-IsName [] h k = tt
select-IsName (s ∷ ss) (a, h) (d, k) = ground (arith, a, d, select-IsName ss h k)

names-IsDown : (ss : List Segment) → All IsName ss → All IsDown ss
names-IsDown [] h = tt
names-IsDown (s ∷ ss) ((_, _, _, d), h) = (d, names-IsDown ss h)

-- The segments of a clean path.
text-IsDown : (bs : List Segment) → All IsName bs → All IsDown (segments (path_text true bs))
unfolding segments path_text join
text-IsDown [] h = (refl, (refl, tt))
text-IsDown (b ∷ bs) ((a, x, y, d), h) =
    rw (segments-join_from b bs a h) (refl, (d, names-IsDown bs h))

text_significant :
    (bs : List Segment) → All IsName bs → select significant (segments (path_text true bs)) ≡ bs
unfolding segments path_text join
text_significant [] h = refl
text_significant (b ∷ bs) ((a, x, y, d), h) =
    rw (segments-join_from b bs a h) (select_names (b ∷ bs) ((a, x, y, d), h))

relative_significant :
    (ss : List Segment) → All IsName ss → select significant (segments (path_text false ss)) ≡ ss
unfolding segments path_text join
relative_significant [] h = refl
relative_significant (b ∷ bs) ((a, x, y, d), h) =
    rw (segments-join_from b bs a h) (select_names (b ∷ bs) ((a, x, y, d), h))

relative-IsDown : (ss : List Segment) → All IsName ss → All IsDown (segments (path_text false ss))
unfolding segments path_text join
relative-IsDown [] h = (refl, tt)
relative-IsDown (b ∷ bs) ((a, x, y, d), h) = rw (segments-join_from b bs a h) (d, names-IsDown bs h)

-- The names that a relative path without `..` adds to the workspace's.
abbrev pub parts_of : FilePath → List Segment
parts_of p = select significant (segments p)

module _ (p : FilePath) (rel : is_abs p ≡ false) (down : All IsDown (segments p)) where
  parts_of-IsName : All IsName (parts_of p)
  parts_of-IsName = select-IsName (segments p) (segments-has_slash p) down

  clean_relative : clean p ≡ path_text false (parts_of p)
  unfolding clean
  clean_relative = rw rel (ap (path_text false) (normal_from_down false [] (segments p) down))

-- The text of a relative path is not empty and begins with no separator.
relative_lem :
    (ss : List Segment)
    → All IsName ss
    → (is_abs (path_text false ss) ≡ false) × (is_empty (path_text false ss) ≡ false)
unfolding path_text join join_from
relative_lem [] h = (refl, refl)
relative_lem ([] ∷ ss) ((a, e, d, u), h) = ground (arith, e)
relative_lem ((c ∷ cs) ∷ []) ((a, e, d, u), h) = (ground (arith, a), refl)
relative_lem ((c ∷ cs) ∷ t ∷ ts) ((a, e, d, u), h) = (ground (arith, a), refl)

join_relative :
    (bs : List Segment) (c : FilePath)
    → is_empty c ≡ false
    → join_paths (path_text true bs) c ≡ clean (path_text true bs ++ (slash ∷ c))
unfolding join_paths path_text
join_relative bs c h = rw h refl

is_abs-append : (bs : List Segment) (c : FilePath) → is_abs (path_text true bs ++ c) ≡ true
unfolding path_text
is_abs-append bs c = refl

module _ (bs ss : List Segment) (hb : All IsName bs) (hs : All IsName ss) where
  abbrev joined : FilePath
  joined = path_text true bs ++ (slash ∷ path_text false ss)

  joined-segments : segments joined ≡ segments (path_text true bs) ++ segments (path_text false ss)
  joined-segments = segments-append (path_text true bs) (path_text false ss)

  joined-IsDown : All IsDown (segments joined)
  joined-IsDown = subst (All IsDown) (sym joined-segments) (
      All-append IsDown (segments (path_text true bs)) (segments (path_text false ss))
        (text-IsDown bs hb) (relative-IsDown ss hs))

  joined-significant : select significant (segments joined) ≡ bs ++ ss
  joined-significant =
      ap (select significant) joined-segments
      ∙ select-append significant (segments (path_text true bs)) (segments (path_text false ss))
      ∙ rw (text_significant bs hb, relative_significant ss hs) refl

  join_down : join_paths (path_text true bs) (path_text false ss) ≡ path_text true (bs ++ ss)
  join_down =
      join_relative bs (path_text false ss) (relative_lem ss hs).1
      ∙ clean_names joined (is_abs-append bs (slash ∷ path_text false ss))
      ∙ ap (path_text true)
          (normal_from_down true [] (segments joined) joined-IsDown ∙ joined-significant)

  pub normal_text : normal_from true [] (segments (path_text true (bs ++ ss))) ≡ bs ++ ss
  normal_text =
      let both : All IsName (bs ++ ss) = All-append IsName bs ss hb hs in
      normal_from_down true [] (segments (path_text true (bs ++ ss))) (text-IsDown (bs ++ ss) both)
      ∙ text_significant (bs ++ ss) both

target_relative :
    (bs : List Segment) (p : FilePath)
    → All IsName bs
    → is_abs p ≡ false
    → All IsDown (segments p)
    → target bs p ≡ path_text true (bs ++ parts_of p)
target_relative bs p hb rel down =
    rw (clean_relative p rel down, (relative_lem (parts_of p) (parts_of-IsName p rel down)).0)
      (join_down bs (parts_of p) hb (parts_of-IsName p rel down))

parts_of_root : (p : FilePath) → is_root p ≡ true → parts_of p ≡ []
unfolding segments
parts_of_root [] h = refl
parts_of_root (c ∷ []) h = ground (arith, h)
parts_of_root (c ∷ d ∷ cs) h = ground (arith, h)

confine_below :
    (lower : Char → Char) (bs ss : List Segment)
    → confine lower (path_text true bs) (path_text true (bs ++ ss))
      ≡ inside (path_text true (bs ++ ss))
unfolding confine
confine_below lower bs ss = rw (is_prefix-path_text lower bs ss) refl

-- A relative path none of whose segments is `..` is let through, and stands for the workspace's names followed
-- by its own, without the empty ones and `.`; the workspace is the root or a clean absolute path.
pub resolve_path_below :
    (lower : Char → Char) (cwd : Resolved) (bs : List Segment) (p : FilePath)
    → All IsName bs
    → is_abs p ≡ false
    → All IsDown (segments p)
    → resolve_path lower cwd (path_text true bs) p ≡ inside (path_text true (bs ++ parts_of p))
resolve_path_below lower cwd bs p hb rel down = elim (Bool-cases (is_root p)) [
  | inl e ↦
      (resolve_path_root lower cwd (path_text true bs) p e
        ∙ ap (λ l. inside (path_text true l))
            (sym (append-nil bs) ∙ ap (λ l. bs ++ l) (sym (parts_of_root p e))))
  | inr e ↦
      (resolve_path_other lower cwd bs p e
        ∙ ap
            (λ q.
              confine lower (path_text true bs) (path_text true (normal_from true [] (segments q))))
            (target_relative bs p hb rel down)
        ∙ ap (λ l. confine lower (path_text true bs) (path_text true l))
            (normal_text bs (parts_of p) hb (parts_of-IsName p rel down))
        ∙ confine_below lower bs (parts_of p))
]
