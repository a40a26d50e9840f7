-- ===== src/Desktop/Files.antt =====
-- internal/domain/desktop/service/file_service.go: the operations on files, confined to a workspace. The
-- operating system's calls are the record `Os`, over the state `W` of its files.
use Prim.Native.String.{◌++◌ as append}
use ai_desktop_assistant.Common.{
  ℕ, String, Char, Bool, true, false, not, ◌&&◌, ◌||◌, Option, none, some, List, [], ◌∷◌, map,
  reverse, if◌then◌else◌, char_eq, is_empty, str_eq,
}
use ai_desktop_assistant.Common.Text.{runes, of_runes, is_prefix, byte_count}
use ai_desktop_assistant.Desktop.Paths.{
  FilePath, slash, is_dot, is_abs, seg_eq, clean, join_paths, abs_path, rel, leaves, Resolved,
  inside, refused,
}
use ai_desktop_assistant.Common.Outcome.{Outcome, done, failed}

pub data FileOperationType : Type 0 where
  read : FileOperationType
  write : FileOperationType
  list : FileOperationType
  delete : FileOperationType
  create : FileOperationType
  unknown : String → FileOperationType

pub record FileOperation : Type 0 where
  pub kind : FileOperationType
  pub path : FilePath
  pub content : String
  pub mode : String

pub record FileInfo : Type 0 where
  pub name : FilePath
  pub path : FilePath
  pub is_dir : Bool
  pub size : ℕ
  pub modified : String

pub record FileResult : Type 0 where
  pub success : Bool
  pub path : FilePath
  pub content : String
  pub items : List FileInfo
  pub size : ℕ
  pub error_msg : String

-- What the service uses of the `os` package. A call that changes files gives the text of its error, if any.
pub record Os (W : Type 0) : Type 0 where
  pub read_file : FilePath → W → Outcome String
  pub stat_size : FilePath → W → Option ℕ
  pub read_dir : FilePath → W → Outcome (List (FilePath × Bool × Option (ℕ × String)))
  pub mkdir_all : FilePath → W → Option String × W
  -- `os.OpenFile(path, O_APPEND|O_WRONLY|O_CREATE)` and then `WriteString`
  pub open_append : FilePath → W → Option String × W
  pub write_string : FilePath → String → W → Option String × W
  pub write_file : FilePath → String → W → Option String × W
  -- `os.OpenFile(path, O_CREATE|O_EXCL|O_WRONLY)`
  pub create_new : FilePath → W → Option String × W
  pub remove_all : FilePath → W → Option String × W

pub record FileService : Type 0 where
  pub base_dir : FilePath

abbrev pub failure : String → FileResult
failure e = record { success = false; path = []; content = ""; items = []; size = 0; error_msg = e }

abbrev pub success_at : FilePath → FileResult
success_at p = record {
  success = true;
  path = p;
  content = "";
  items = [];
  size = 0;
  error_msg = "";
}

abbrev pub size_or : ℕ → Option ℕ → ℕ
size_or d none = d
size_or d (some n) = n

-- `filepath.Dir`: what stands up to the last separator, cleaned.
unfoldable pub up_to_slash : FilePath → FilePath
up_to_slash [] = []
up_to_slash (c ∷ cs) = if char_eq c slash then c ∷ cs else up_to_slash cs

unfoldable pub dir : FilePath → FilePath
unfolding up_to_slash clean
dir p = clean (reverse (up_to_slash (reverse p)))

abbrev pub or_base : FilePath → Resolved → FilePath
or_base b (inside d) = d
or_base b (refused e) = b

-- `NewFileService`: the directory itself is made by the system.
unfoldable pub new_file_service : Resolved → FilePath → FileService
unfolding abs_path
new_file_service cwd p = record { base_dir = or_base p (abs_path cwd p) }

-- The test of `resolvePath` on an absolute path.
unfoldable pub confine : (Char → Char) → FilePath → FilePath → Resolved
confine lower base p =
    if not (is_prefix (map lower base) (map lower p)) && leaves (rel base p)
    then refused (append "路径越界: 仅允许访问工作区 " (of_runes base))
    else inside p

-- `resolvePath`. `lower` is the table of `unicode.ToLower`, and `cwd` what `os.Getwd` gives.
unfoldable pub resolve_path : (Char → Char) → Resolved → FilePath → FilePath → Resolved
resolve_path lower cwd base p =
    let c = clean p in
    if is_empty p || is_dot p
    then inside base
    else elim (abs_path cwd (if is_abs c then c else join_paths base c)) [
      | inside a ↦ confine lower base a
      | refused e ↦ refused e
    ]

abbrev pub file_info : FilePath → FilePath × Bool × Option (ℕ × String) → FileInfo
unfolding join_paths
file_info p (n, d, none) = record {
  name = n;
  path = join_paths p n;
  is_dir = d;
  size = 0;
  modified = "";
}
file_info p (n, d, some (s, t)) = record {
  name = n;
  path = join_paths p n;
  is_dir = d;
  size = s;
  modified = t;
}

-- The services on one system.
module _ {W : Type 0} (os : Os W) where
  unfoldable pub read_file : FilePath → W → FileResult
  unfolding byte_count
  read_file p w = elim (os.read_file p w) [
    | done data_read ↦ record (success_at p) {
      content = data_read;
      size = size_or (byte_count (runes data_read)) (os.stat_size p w);
    }
    | failed e ↦ failure e
  ]

  -- The size of what was written, or 0.
  abbrev pub written : FilePath → W → FileResult × W
  written p w = (record (success_at p) { size = size_or 0 (os.stat_size p w) }, w)

  -- One call, and what follows where it gives no error.
  abbrev pub after : Option String × W → (W → FileResult × W) → FileResult × W
  after (some e, w) k = (failure e, w)
  after (none, w) k = k w

  unfoldable pub write_file : FilePath → String → String → W → FileResult × W
  write_file p content mode w = after (os.mkdir_all (dir p) w) (λ w1.
      if str_eq mode "append"
      then after (os.open_append p w1) (λ w2. after (os.write_string p content w2) (written p))
      else after (os.write_file p content w1) (written p))

  unfoldable pub list_files : FilePath → W → FileResult
  list_files p w = elim (os.read_dir p w) [
    | done es ↦ record (success_at p) { items = map (file_info p) es }
    | failed e ↦ failure e
  ]

  unfoldable pub delete_file : FileService → FilePath → W → FileResult × W
  delete_file s p w =
      if seg_eq (clean p) (clean s.base_dir)
      then (failure "the root of the workspace is not deleted", w)
      else after (os.remove_all p w) (λ w1. (success_at p, w1))

  unfoldable pub create_file : FilePath → W → FileResult × W
  create_file p w =
      after (os.mkdir_all (dir p) w) (λ w1. after (os.create_new p w1) (λ w2. (success_at p, w2)))

  unfoldable pub create_dir : FilePath → W → FileResult × W
  create_dir p w = after (os.mkdir_all p w) (λ w1. (success_at p, w1))

  -- An operation on a path that was resolved.
  unfoldable pub dispatch : FileService → FileOperation → FilePath → W → FileResult × W
  dispatch s op p w = elim op.kind [
    | read ↦ (read_file p w, w)
    | write ↦ (if str_eq op.mode "mkdir" then create_dir p w else write_file p op.content op.mode w)
    | list ↦ (list_files p w, w)
    | delete ↦ delete_file s p w
    | create ↦ create_file p w
    | unknown k ↦ (failure "unsupported operation", w)
  ]

  abbrev pub dispatch_resolved : FileService → FileOperation → W → Resolved → FileResult × W
  dispatch_resolved s op w (inside p) = dispatch s op p w
  dispatch_resolved s op w (refused e) = (failure e, w)

  unfoldable pub execute_file_operation :
      (Char → Char) → Resolved → FileService → FileOperation → W → FileResult × W
  execute_file_operation lower cwd s op w =
      dispatch_resolved s op w (resolve_path lower cwd s.base_dir op.path)
