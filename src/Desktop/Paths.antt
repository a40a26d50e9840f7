-- ===== src/Desktop/Paths.antt =====
-- path/filepath on Unix, as the file service of internal/domain/desktop/service/file_service.go uses it:
-- Clean, IsAbs, Join, Abs and Rel, and the service's own resolvePath. A path is the list of its runes.
use ai_desktop_assistant.Common.{
  String, Char, Bool, true, false, not, ◌&&◌, ◌||◌, List, [], ◌∷◌, ◌++◌, map, reverse,
  if◌then◌else◌, char_eq, is_empty, select,
}
use ai_desktop_assistant.Common.Text.{is_prefix}

abbrev pub FilePath : Type 0
FilePath = List Char

-- One name of a path.
abbrev pub Segment : Type 0
Segment = List Char

abbrev pub slash : Char
slash = "/"

abbrev pub dot : Char
dot = "."

abbrev pub dot_dot : Segment
dot_dot = dot ∷ dot ∷ []

unfoldable pub seg_eq : Segment → Segment → Bool
seg_eq [] [] = true
seg_eq [] (c ∷ cs) = false
seg_eq (c ∷ cs) [] = false
seg_eq (c ∷ cs) (d ∷ ds) = if char_eq c d then seg_eq cs ds else false

abbrev pub is_dot : Segment → Bool
is_dot [] = false
is_dot (c ∷ []) = char_eq c dot
is_dot (c ∷ d ∷ cs) = false

abbrev pub is_dot_dot : Segment → Bool
is_dot_dot [] = false
is_dot_dot (c ∷ []) = false
is_dot_dot (c ∷ d ∷ []) = char_eq c dot && char_eq d dot
is_dot_dot (c ∷ d ∷ e ∷ cs) = false

abbrev pub push : Char → List Segment → List Segment
push c [] = (c ∷ []) ∷ []
push c (s ∷ ss) = (c ∷ s) ∷ ss

-- `strings.Split(path, "/")`
unfoldable pub segments : FilePath → List Segment
segments [] = [] ∷ []
segments (c ∷ cs) = if char_eq c slash then [] ∷ segments cs else push c (segments cs)

unfoldable pub join_from : Segment → List Segment → FilePath
join_from s [] = s
join_from s (t ∷ ts) = s ++ (slash ∷ join_from t ts)

-- `strings.Join(segments, "/")`
unfoldable pub join : List Segment → FilePath
unfolding join_from
join [] = []
join (s ∷ ss) = join_from s ss

-- `filepath.IsAbs`
abbrev pub is_abs : FilePath → Bool
is_abs [] = false
is_abs (c ∷ cs) = char_eq c slash

-- What a `..` leaves of the names before it, the last of them first: nothing is above a root.
unfoldable pub pop : Bool → List Segment → List Segment
pop rooted [] = if rooted then [] else dot_dot ∷ []
pop rooted (k ∷ ks) = if is_dot_dot k then dot_dot ∷ k ∷ ks else ks

unfoldable pub clean_step : Bool → List Segment → Segment → List Segment
unfolding pop
clean_step rooted kept s =
    if is_empty s || is_dot s then kept else if is_dot_dot s then pop rooted kept else s ∷ kept

unfoldable pub normal_from : Bool → List Segment → List Segment → List Segment
unfolding clean_step
normal_from rooted kept [] = reverse kept
normal_from rooted kept (s ∷ ss) = normal_from rooted (clean_step rooted kept s) ss

-- The text of a clean path.
unfoldable pub path_text : Bool → List Segment → FilePath
unfolding join
path_text true ss = slash ∷ join ss
path_text false [] = dot ∷ []
path_text false (s ∷ ss) = join (s ∷ ss)

-- `filepath.Clean`
unfoldable pub clean : FilePath → FilePath
clean p = path_text (is_abs p) (normal_from (is_abs p) [] (segments p))

-- `filepath.Join(base, path)`: empty elements are left out.
unfoldable pub join_paths : FilePath → FilePath → FilePath
join_paths [] p = if is_empty p then [] else clean p
join_paths (c ∷ cs) p = clean (if is_empty p then c ∷ cs else (c ∷ cs) ++ (slash ∷ p))

-- A path, or an error's text.
pub data Resolved : Type 0 where
  inside : FilePath → Resolved
  refused : String → Resolved

-- `filepath.Abs`; `cwd` is what `os.Getwd` gives.
unfoldable pub abs_path : Resolved → FilePath → Resolved
abs_path cwd p =
    if is_abs p
    then inside (clean p)
    else elim cwd [ inside d ↦ inside (join_paths d p) | refused e ↦ refused e ]

-- The names of a clean path.
unfoldable pub names : FilePath → List Segment
names p = select (λ s. not (is_empty s)) (segments p)

-- Two paths without the names with which both begin.
unfoldable pub strip : List Segment → List Segment → List Segment × List Segment
strip [] ts = ([], ts)
strip (b ∷ bs) [] = (b ∷ bs, [])
strip (b ∷ bs) (t ∷ ts) = let rest = strip bs ts in if seg_eq b t then rest else (b ∷ bs, t ∷ ts)

abbrev pub goes_up : List Segment → List Segment → Bool
goes_up [] ts = false
goes_up (b ∷ bs) ts = is_dot_dot b && not (is_empty ts)

unfoldable pub rel_from : List Segment × List Segment → Resolved
unfolding join
rel_from (bs, ts) =
    if goes_up bs ts
    then refused "Rel: can't make the target relative to the base"
    else inside (join (map (λ b. dot_dot) bs ++ ts))

-- `filepath.Rel(base, target)`
unfoldable pub rel : FilePath → FilePath → Resolved
rel base target =
    let b = clean base in
    let t = clean target in
    let b_names = if is_dot b then [] else names b in
    let b_abs = if is_dot b then false else is_abs b in
    if seg_eq t b
    then inside (dot ∷ [])
    else if b_abs && not (is_abs t) || not b_abs && is_abs t
    then refused "Rel: can't make the target relative to the base"
    else rel_from (strip b_names (names t))

-- `err != nil || strings.HasPrefix(rel, "..")`
abbrev pub leaves : Resolved → Bool
leaves (inside r) = is_prefix dot_dot r
leaves (refused e) = true
