-- ===== src/Desktop/Inside.antt =====
-- file_service.go: which paths resolvePath lets through.
use text.Mathlib.TextEquality.{Char-path}
use mathlib.Core.List.{append-nil, append_assoc}
use ai_desktop_assistant.Common.{
  ◌≡◌, refl, sym, ap, ◌∙◌, subst, Char, Bool, true, false, ◌||◌, List, [], ◌∷◌, ◌++◌, map, arith,
  All, is_empty, if◌then◌else◌, Bool-cases, inl, inr,
}
use ai_desktop_assistant.Common.Text.{is_prefix}
use ai_desktop_assistant.Desktop.Paths.{
  FilePath, Segment, slash, dot_dot, is_abs, is_dot, seg_eq, segments, join, join_from, normal_from,
  path_text, clean, join_paths, abs_path, names, strip, rel, rel_from, goes_up, leaves, Resolved,
  inside,
}
use ai_desktop_assistant.Desktop.Clean.{
  IsName, clean-path_text, names-path_text, clean_names, normal-IsName,
}
use ai_desktop_assistant.Desktop.Files.{confine, resolve_path}

pub seg_eq→eq : (s t : Segment) → seg_eq s t ≡ true → s ≡ t
unfolding seg_eq
seg_eq→eq [] [] h = refl
seg_eq→eq [] (d ∷ ds) h = ground (arith, h)
seg_eq→eq (c ∷ cs) [] h = ground (arith, h)
seg_eq→eq (c ∷ cs) (d ∷ ds) h = ground (arith, h, Char-path c d, seg_eq→eq cs ds)

strip_lem : (bs ts : List Segment) → is_empty (strip bs ts).0 ≡ true → ts ≡ bs ++ (strip bs ts).1
unfolding strip
strip_lem [] ts h = refl
strip_lem (b ∷ bs) [] h = ground (arith, h)
strip_lem (b ∷ bs) (t ∷ ts) h = ground (arith, h, seg_eq→eq b t, strip_lem bs ts)

pub is_prefix-map-append :
    (f : Char → Char) (p q : List Char) → is_prefix (map f p) (map f (p ++ q)) ≡ true
unfolding is_prefix
is_prefix-map-append f [] q = refl
is_prefix-map-append f (c ∷ cs) q = ground (arith, is_prefix-map-append f cs q)

abbrev rest_text : List Segment → FilePath
rest_text [] = []
rest_text (s ∷ ss) = slash ∷ join_from s ss

join_from-append :
    (s : Segment) (ss ts : List Segment) → join_from s (ss ++ ts) ≡ join_from s ss ++ rest_text ts
unfolding join_from
join_from-append s [] [] = sym (append-nil s)
join_from-append s [] (t ∷ ts) = refl
join_from-append s (r ∷ rs) ts =
    ap (λ l. s ++ (slash ∷ l)) (join_from-append r rs ts)
    ∙ sym (append_assoc s (slash ∷ join_from r rs) (rest_text ts))

-- The text of a path begins the text of each path below it.
pub is_prefix-path_text :
    (lower : Char → Char) (bs ts : List Segment)
    → is_prefix (map lower (path_text true bs)) (map lower (path_text true (bs ++ ts))) ≡ true
unfolding path_text join
is_prefix-path_text lower [] ts = is_prefix-map-append lower (slash ∷ []) (join ts)
is_prefix-path_text lower (b ∷ bs) ts =
    rw (join_from-append b bs ts)
      (is_prefix-map-append lower (slash ∷ join_from b bs) (rest_text ts))

pub is_abs-path_text : (bs : List Segment) → is_abs (path_text true bs) ≡ true
unfolding path_text
is_abs-path_text bs = refl

pub is_dot-path_text : (bs : List Segment) → is_dot (path_text true bs) ≡ false
unfolding path_text
is_dot-path_text bs = dot_lem (join bs)
  where
    dot_lem : (cs : List Char) → is_dot (slash ∷ cs) ≡ false
    dot_lem [] = refl
    dot_lem (c ∷ cs) = refl

dot_dot-leaves : (ss : List Segment) → is_prefix dot_dot (join_from dot_dot ss) ≡ true
unfolding is_prefix join_from
dot_dot-leaves [] = refl
dot_dot-leaves (s ∷ ss) = refl

up-leaves : (b : Segment) (bs ts : List Segment) → leaves (rel_from (b ∷ bs, ts)) ≡ true
unfolding rel_from join
up-leaves b bs ts = elim (Bool-cases (goes_up (b ∷ bs) ts)) [
  | inl h ↦ rw h
  | inr h ↦ rw h (dot_dot-leaves (map (λ s. dot_dot) bs ++ ts))
]

stays-is_empty :
    (p : List Segment × List Segment) → leaves (rel_from p) ≡ false → is_empty p.0 ≡ true
stays-is_empty ([], ts) h = refl
stays-is_empty (b ∷ bs, ts) h = ground (arith, h, up-leaves b bs ts)

rel_different :
    (bs ts : List Segment)
    → All IsName bs
    → All IsName ts
    → seg_eq (path_text true ts) (path_text true bs) ≡ false
    → rel (path_text true bs) (path_text true ts) ≡ rel_from (strip bs ts)
unfolding rel
rel_different bs ts hb ht e = rw (
  clean-path_text bs hb,
  clean-path_text ts ht,
  e,
  is_dot-path_text bs,
  names-path_text bs hb,
  names-path_text ts ht,
  is_abs-path_text bs,
  is_abs-path_text ts,
)

-- A relative path that does not lead up leads below its base.
pub rel-leaves :
    (bs ts : List Segment)
    → All IsName bs
    → All IsName ts
    → leaves (rel (path_text true bs) (path_text true ts)) ≡ false
    → (cs : List Segment) × (ts ≡ bs ++ cs)
rel-leaves bs ts hb ht h = elim (Bool-cases (seg_eq (path_text true ts) (path_text true bs))) [
  | inl e ↦ ([], same e ∙ sym (append-nil bs))
  | inr e ↦ ((strip bs ts).1, strip_lem bs ts (stays-is_empty (strip bs ts) (below e)))
]
  where
    same : seg_eq (path_text true ts) (path_text true bs) ≡ true → ts ≡ bs
    same e =
        sym (names-path_text ts ht)
        ∙ ap names (seg_eq→eq (path_text true ts) (path_text true bs) e)
        ∙ names-path_text bs hb

    below :
        seg_eq (path_text true ts) (path_text true bs) ≡ false
        → leaves (rel_from (strip bs ts)) ≡ false
    below e = subst (λ r. leaves r ≡ false) (rel_different bs ts hb ht e) h

-- A clean absolute path whose text begins with the workspace's, up to case.
pub record IsConfined (lower : Char → Char) (bs : List Segment) (p : FilePath) : Type 0 where
  pub parts : List Segment
  pub are_names : All IsName parts
  pub text : p ≡ path_text true parts
  pub begins : is_prefix (map lower (path_text true bs)) (map lower p) ≡ true

is_abs-clean : (q : FilePath) → is_abs q ≡ true → is_abs (clean q) ≡ true
unfolding path_text
is_abs-clean q h = rw (clean_names q h) refl

is_abs-join_paths :
    (bs : List Segment) (c : FilePath) → is_abs (join_paths (path_text true bs) c) ≡ true
unfolding join_paths path_text
is_abs-join_paths bs [] = is_abs-clean (slash ∷ join bs) refl
is_abs-join_paths bs (d ∷ ds) = is_abs-clean (slash ∷ (join bs ++ (slash ∷ d ∷ ds))) refl

is_abs-target :
    (bs : List Segment) (c : FilePath)
    → is_abs (if is_abs c then c else join_paths (path_text true bs) c) ≡ true
is_abs-target bs c = ground (arith, is_abs-join_paths bs c)

pub confine-IsConfined :
    (lower : Char → Char) (bs ts : List Segment) (p : FilePath)
    → All IsName bs
    → All IsName ts
    → confine lower (path_text true bs) (path_text true ts) ≡ inside p
    → IsConfined lower bs p
unfolding confine
confine-IsConfined lower bs ts p hb ht h =
    let same : path_text true ts ≡ p = ground (arith, h) in
    record {
      parts = ts;
      are_names = ht;
      text = sym same;
      begins =
          subst (λ q. is_prefix (map lower (path_text true bs)) (map lower q) ≡ true) same
            begins_lem;
    }
  where
    begins_lem : is_prefix (map lower (path_text true bs)) (map lower (path_text true ts)) ≡ true
    begins_lem = elim (Bool-cases (leaves (rel (path_text true bs) (path_text true ts)))) [
      | inl e ↦ ground (arith, e, h)
      | inr e ↦
          (let below = rel-leaves bs ts hb ht e in
            subst
              (λ l. is_prefix (map lower (path_text true bs)) (map lower (path_text true l)) ≡ true)
              (sym below.1) (is_prefix-path_text lower bs below.0))
    ]

abs_path-is_abs :
    (cwd : Resolved) (q : FilePath) → is_abs q ≡ true → abs_path cwd q ≡ inside (clean q)
unfolding abs_path
abs_path-is_abs cwd q h = rw h refl

-- A path that asks for the workspace itself.
abbrev pub is_root : FilePath → Bool
is_root p = is_empty p || is_dot p

abbrev pub target : List Segment → FilePath → FilePath
target bs p = if is_abs (clean p) then clean p else join_paths (path_text true bs) (clean p)

pub resolve_path_root :
    (lower : Char → Char) (cwd : Resolved) (base p : FilePath)
    → is_root p ≡ true
    → resolve_path lower cwd base p ≡ inside base
unfolding resolve_path
resolve_path_root lower cwd base p h = rw h refl

pub resolve_path_other :
    (lower : Char → Char) (cwd : Resolved) (bs : List Segment) (p : FilePath)
    → is_root p ≡ false
    → resolve_path lower cwd (path_text true bs) p
      ≡ confine lower
          (path_text true bs)
          (path_text true (normal_from true [] (segments (target bs p))))
unfolding resolve_path
resolve_path_other lower cwd bs p h =
    rw
      (
        h,
        abs_path-is_abs cwd (target bs p) (is_abs-target bs (clean p)),
        clean_names (target bs p) (is_abs-target bs (clean p)),
      )
      refl

root-IsConfined :
    (lower : Char → Char) (bs : List Segment)
    → All IsName bs
    → IsConfined lower bs (path_text true bs)
root-IsConfined lower bs hb = record {
  parts = bs;
  are_names = hb;
  text = refl;
  begins =
      subst (λ l. is_prefix (map lower (path_text true bs)) (map lower (path_text true l)) ≡ true)
        (append-nil bs) (is_prefix-path_text lower bs []);
}

-- What resolvePath lets through is a clean absolute path without `.` or `..` whose text begins with that of the
-- workspace, up to case, where the workspace is the root or a clean absolute path.
pub resolve_path-IsConfined :
    (lower : Char → Char) (cwd : Resolved) (bs : List Segment) (p q : FilePath)
    → All IsName bs
    → resolve_path lower cwd (path_text true bs) p ≡ inside q
    → IsConfined lower bs q
resolve_path-IsConfined lower cwd bs p q hb h = elim (Bool-cases (is_root p)) [
  | inl e ↦
      (let same : path_text true bs ≡ q =
          ground (arith, h, resolve_path_root lower cwd (path_text true bs) p e) in
        subst (IsConfined lower bs) same (root-IsConfined lower bs hb))
  | inr e ↦
      confine-IsConfined lower bs (normal_from true [] (segments (target bs p))) q hb
        (normal-IsName (target bs p)) (sym (resolve_path_other lower cwd bs p e) ∙ h)
]
