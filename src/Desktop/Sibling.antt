-- ===== src/Desktop/Sibling.antt =====
-- file_service.go: the test of resolvePath on a neighbour of the workspace.
use mathlib.Core.List.{append_assoc}
use ai_desktop_assistant.Common.{
  ◌≡◌, ◌≢◌, refl, sym, ap, ◌∙◌, Char, true, false, List, [], ◌∷◌, ◌++◌, arith, All, length,
  length-append, ◌+◌,
}
use ai_desktop_assistant.Desktop.Paths.{
  FilePath, Segment, slash, segments, join, join_from, normal_from, path_text, Resolved, inside,
}
use ai_desktop_assistant.Desktop.Clean.{IsName, clean-path_text}
use ai_desktop_assistant.Desktop.Files.{confine, resolve_path}
use ai_desktop_assistant.Desktop.Inside.{
  is_root, target, is_prefix-map-append, is_dot-path_text, is_abs-path_text, resolve_path_other,
}
use ai_desktop_assistant.Desktop.Below.{normal_text}

is_root-path_text : (bs : List Segment) → is_root (path_text true bs) ≡ false
unfolding path_text
is_root-path_text bs = is_dot-path_text bs

target_absolute :
    (bs ns : List Segment) → All IsName ns → target bs (path_text true ns) ≡ path_text true ns
target_absolute bs ns h = rw (clean-path_text ns h, is_abs-path_text ns) refl

normal_names :
    (ns : List Segment) → All IsName ns → normal_from true [] (segments (path_text true ns)) ≡ ns
normal_names ns h = normal_text [] ns tt h

-- An absolute path of names is tested as it is.
pub resolve_path_absolute :
    (lower : Char → Char) (cwd : Resolved) (bs ns : List Segment)
    → All IsName ns
    → resolve_path lower cwd (path_text true bs) (path_text true ns)
      ≡ confine lower (path_text true bs) (path_text true ns)
resolve_path_absolute lower cwd bs ns h =
    resolve_path_other lower cwd bs (path_text true ns) (is_root-path_text ns)
    ∙ ap
        (λ q. confine lower (path_text true bs) (path_text true (normal_from true [] (segments q))))
        (target_absolute bs ns h)
    ∙ ap (λ l. confine lower (path_text true bs) (path_text true l)) (normal_names ns h)

-- A directory whose name begins with the workspace's.
abbrev pub neighbour : List Segment → Segment → Segment → List Segment
neighbour bs w s = bs ++ ((w ++ s) ∷ [])

join_from_last :
    (b : Segment) (bs : List Segment) (w s : Segment)
    → join_from b (bs ++ ((w ++ s) ∷ [])) ≡ join_from b (bs ++ (w ∷ [])) ++ s
unfolding join_from
join_from_last b [] w s = sym (append_assoc b (slash ∷ w) s)
join_from_last b (c ∷ cs) w s =
    ap (λ l. b ++ (slash ∷ l)) (join_from_last c cs w s)
    ∙ sym (append_assoc b (slash ∷ join_from c (cs ++ (w ∷ []))) s)

path_text_last :
    (bs : List Segment) (w s : Segment)
    → path_text true (neighbour bs w s) ≡ path_text true (bs ++ (w ∷ [])) ++ s
unfolding path_text join join_from
path_text_last [] w s = refl
path_text_last (b ∷ bs) w s = ap (λ l. slash ∷ l) (join_from_last b bs w s)

confine_prefix : (lower : Char → Char) (p q : FilePath) → confine lower p (p ++ q) ≡ inside (p ++ q)
unfolding confine
confine_prefix lower p q = rw (is_prefix-map-append lower p q) refl

abbrev pub IsBelow : List Segment → List Segment → Type 0
IsBelow bs ns = (cs : List Segment) × (ns ≡ bs ++ cs)

longer-nil : (w s : Segment) → w ++ s ≡ w → s ≡ []
longer-nil w s h =
    let same : length w + length s ≡ length w = sym (length-append w s) ∙ ap length h in
    nil_lem s same
  where
    nil_lem : (t : Segment) → length w + length t ≡ length w → t ≡ []
    nil_lem [] k = refl
    nil_lem (c ∷ cs) k = ground (arith, k)

neighbour_outside :
    (bs : List Segment) (w s : Segment) → s ≢ [] → ¬ IsBelow (bs ++ (w ∷ [])) (neighbour bs w s)
neighbour_outside [] w s h (cs, e) = h (longer-nil w s (ground (arith, e)))
neighbour_outside (b ∷ bs) w s h (cs, e) = neighbour_outside bs w s h (cs, ground (arith, e))

-- A path outside the workspace is let through: where the last name of the workspace, a clean absolute path, is
-- `w`, so is its neighbour whose name is `w` followed by more.
pub resolve_path-neighbour :
    (lower : Char → Char) (cwd : Resolved) (bs : List Segment) (w s : Segment)
    → All IsName (neighbour bs w s)
    → s ≢ []
    → (resolve_path lower cwd (path_text true (bs ++ (w ∷ []))) (path_text true (neighbour bs w s))
        ≡ inside (path_text true (neighbour bs w s)))
      × (¬ IsBelow (bs ++ (w ∷ [])) (neighbour bs w s))
resolve_path-neighbour lower cwd bs w s h k =
    let base = path_text true (bs ++ (w ∷ [])) in
    (
      resolve_path_absolute lower cwd (bs ++ (w ∷ [])) (neighbour bs w s) h
          ∙ ap (confine lower base) (path_text_last bs w s)
          ∙ confine_prefix lower base s
          ∙ ap inside (sym (path_text_last bs w s)),
      neighbour_outside bs w s k,
    )
