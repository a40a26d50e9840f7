-- ===== src/Desktop/Frame.antt =====
-- file_service.go: which files an operation may change.
use text.Mathlib.TextEquality.{Char-path}
use ai_desktop_assistant.Common.{
  ◌≡◌, refl, ◌∙◌, String, Char, true, false, Option, none, some, List, [], ◌∷◌, map, arith, All,
  if_ind, str_eq,
}
use ai_desktop_assistant.Common.Text.{is_prefix}
use ai_desktop_assistant.Desktop.Paths.{
  FilePath, Segment, seg_eq, clean, path_text, Resolved, inside, refused,
}
use ai_desktop_assistant.Desktop.Clean.{IsName}
use ai_desktop_assistant.Desktop.Files.{
  Os, FileService, FileOperation, read, write, list, delete, create, unknown, FileResult, written,
  after, write_file, delete_file, create_file, create_dir, dispatch, dispatch_resolved,
  execute_file_operation, resolve_path, dir,
}
use ai_desktop_assistant.Desktop.Inside.{resolve_path-IsConfined}

pub is_prefix_refl : (p : FilePath) → is_prefix p p ≡ true
unfolding is_prefix
is_prefix_refl [] = refl
is_prefix_refl (c ∷ cs) = ground (arith, is_prefix_refl cs)

is_prefix-map_trans :
    (f : Char → Char) (a p q : FilePath)
    → is_prefix a (map f p) ≡ true
    → is_prefix p q ≡ true
    → is_prefix a (map f q) ≡ true
unfolding is_prefix
is_prefix-map_trans f [] p q h k = refl
is_prefix-map_trans f (x ∷ a) [] q h k = ground (arith, h)
is_prefix-map_trans f (x ∷ a) (c ∷ p) [] h k = ground (arith, k)
is_prefix-map_trans f (x ∷ a) (c ∷ p) (d ∷ q) h k =
    ground (arith, h, k, Char-path c d, is_prefix-map_trans f a p q)

-- A path outside the workspace is neither a path inside nor below one.
pub outside_prefix :
    (lower : Char → Char) (a p q : FilePath)
    → is_prefix a (map lower p) ≡ true
    → is_prefix a (map lower q) ≡ false
    → is_prefix p q ≡ false
outside_prefix lower a p q h k = ground (arith, h, k, is_prefix-map_trans lower a p q)

module _ {W : Type 0} (os : Os W) (content : FilePath → W → Option String)
    (Leads : FilePath → FilePath → Type 0) where
  -- What the `os` package says: a call changes the content of a file only where the path that it is given may lead
  -- to the file, through the links of the disk or, when it removes, to a directory above it; making directories
  -- changes no file's content. `Leads p q` is that the path `p` may lead to `q` so.
  pub record IsOs : Type 0 where
    pub mkdir_keeps : (p q : FilePath) (w : W) → content q (os.mkdir_all p w).1 ≡ content q w
    pub open_keeps :
        (p q : FilePath) (w : W) → ¬ (Leads p q) → content q (os.open_append p w).1 ≡ content q w
    pub string_keeps :
        (p q : FilePath) (s : String) (w : W)
        → ¬ (Leads p q)
        → content q (os.write_string p s w).1 ≡ content q w
    pub write_keeps :
        (p q : FilePath) (s : String) (w : W)
        → ¬ (Leads p q)
        → content q (os.write_file p s w).1 ≡ content q w
    pub create_keeps :
        (p q : FilePath) (w : W) → ¬ (Leads p q) → content q (os.create_new p w).1 ≡ content q w
    pub remove_keeps :
        (p q : FilePath) (w : W) → ¬ (Leads p q) → content q (os.remove_all p w).1 ≡ content q w

  -- A result that leaves a file's content as it was.
  abbrev Keeps : FilePath → W → FileResult × W → Type 0
  Keeps q w r = content q r.1 ≡ content q w

  after-Keeps :
      (q : FilePath) (w : W) (r : Option String × W) (k : W → FileResult × W)
      → content q r.1 ≡ content q w
      → ((v : W) → content q (k v).1 ≡ content q v)
      → Keeps q w (after os r k)
  after-Keeps q w (none, v) k h l = l v ∙ h
  after-Keeps q w (some e, v) k h l = h

  module _ (IO : IsOs) (s : FileService) (p q : FilePath) (out : ¬ (Leads p q)) where
    written-Keeps : (w : W) → Keeps q w (written os p w)
    written-Keeps w = refl

    write_file-Keeps : (c m : String) (w : W) → Keeps q w (write_file os p c m w)
    unfolding write_file
    write_file-Keeps c m w =
        after-Keeps q w (os.mkdir_all (dir p) w) _ (IO.mkdir_keeps (dir p) q w) (λ w1.
          if_ind (Keeps q w1) (str_eq m "append")
            (λ h. after-Keeps q w1 (os.open_append p w1) _ (IO.open_keeps p q w1 out) (λ w2.
              after-Keeps q w2 (os.write_string p c w2) _ (IO.string_keeps p q c w2 out)
                written-Keeps))
            (λ h.
              after-Keeps q w1 (os.write_file p c w1) _ (IO.write_keeps p q c w1 out)
                written-Keeps))

    delete_file-Keeps : (w : W) → Keeps q w (delete_file os s p w)
    unfolding delete_file
    delete_file-Keeps w =
        if_ind (Keeps q w) (seg_eq (clean p) (clean s.base_dir)) (λ h. refl)
          (λ h. after-Keeps q w (os.remove_all p w) _ (IO.remove_keeps p q w out) (λ v. refl))

    create_file-Keeps : (w : W) → Keeps q w (create_file os p w)
    unfolding create_file
    create_file-Keeps w =
        after-Keeps q w (os.mkdir_all (dir p) w) _ (IO.mkdir_keeps (dir p) q w)
          (λ w1. after-Keeps q w1 (os.create_new p w1) _ (IO.create_keeps p q w1 out) (λ w2. refl))

    create_dir-Keeps : (w : W) → Keeps q w (create_dir os p w)
    unfolding create_dir
    create_dir-Keeps w = after-Keeps q w (os.mkdir_all p w) _ (IO.mkdir_keeps p q w) (λ v. refl)

    dispatch-Keeps : (op : FileOperation) (w : W) → Keeps q w (dispatch os s op p w)
    unfolding dispatch
    dispatch-Keeps op w =
        elim op.kind as (λ k. Keeps q w (dispatch os s (record op { kind = k }) p w)) [
          | read ↦ refl
          | write ↦
              if_ind (Keeps q w) (str_eq op.mode "mkdir") (λ h. create_dir-Keeps w)
                (λ h. write_file-Keeps op.content op.mode w)
          | list ↦ refl
          | delete ↦ delete_file-Keeps w
          | create ↦ create_file-Keeps w
          | unknown k ↦ refl
        ]

  resolved-Keeps :
      (IO : IsOs) (s : FileService) (op : FileOperation) (q : FilePath) (w : W) (r : Resolved)
      → ((p : FilePath) → r ≡ inside p → ¬ (Leads p q))
      → Keeps q w (dispatch_resolved os s op w r)
  resolved-Keeps IO s op q w (inside p) h = dispatch-Keeps IO s p q (h p refl) op w
  resolved-Keeps IO s op q w (refused e) h = refl

  -- No operation, whatever its kind and its path, and whether it succeeds or fails, changes the content of a file
  -- that no path beginning with the workspace's text, up to case, may lead to, through the links of the disk or
  -- to a directory above it; the workspace is a clean absolute path.
  pub execute_file_operation-outside :
      (lower : Char → Char) (cwd : Resolved) (bs : List Segment) (op : FileOperation) (q : FilePath)
      (w : W)
      → IsOs
      → All IsName bs
      → ((p : FilePath)
          → is_prefix (map lower (path_text true bs)) (map lower p) ≡ true
          → ¬ (Leads p q))
      → content q
          (execute_file_operation os lower cwd (record { base_dir = path_text true bs }) op w).1
        ≡ content q w
  unfolding execute_file_operation
  execute_file_operation-outside lower cwd bs op q w IO hb out =
      let base = path_text true bs in
      resolved-Keeps IO (record { base_dir = base }) op q w (resolve_path lower cwd base op.path)
        (λ p e. out p (resolve_path-IsConfined lower cwd bs op.path p hb e).begins)
