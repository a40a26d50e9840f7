-- ===== src/Skill/Directory.antt =====
-- skill_service.go: the directory of the skills. The disk is a parameter over its state `W`; paths are those of
-- Unix.
use Prim.Native.String.{◌++◌ as append}
use ai_desktop_assistant.Common.{
  String, Char, Bool, true, false, ◌||◌, Option, none, some, List, [], ◌∷◌, if◌then◌else◌, is_empty,
  str_eq,
}
use ai_desktop_assistant.Common.Map.{Map, insert, lookup}
use ai_desktop_assistant.Common.Outcome.{Outcome, done, failed}
use ai_desktop_assistant.Common.Text.{runes, of_runes, is_blank, is_prefix, to_lower}
use ai_desktop_assistant.Desktop.Paths.{
  FilePath, Resolved, inside, refused, clean, join_paths, names, rel,
}
use ai_desktop_assistant.Desktop.Files.{dir}
use ai_desktop_assistant.Skill.{Skill, sanitize_id}
use ai_desktop_assistant.Skill.Parse.{parse_skill}

-- What the service uses of the `os` package and of `filepath.Walk`; a call that changes files gives the text of
-- its error, if any.
pub record Disk (W : Type 0) : Type 0 where
  pub mkdir_all : FilePath → W → Option String × W
  -- The entries' names, and whether each is a directory.
  pub read_dir : FilePath → W → Outcome (List (FilePath × Bool))
  pub read_file : FilePath → W → Outcome String
  -- `os.Stat`: whether it is a directory.
  pub stat : FilePath → W → Outcome Bool
  pub remove_all : FilePath → W → Option String × W
  -- `os.Create` and `io.Copy`
  pub write_file : FilePath → String → W → Option String × W
  -- The paths below a directory in the order of the walk, and whether each is a directory.
  pub walk : FilePath → W → List (Outcome (FilePath × Bool))

pub record SkillService : Type 0 where
  pub root_dir : FilePath
  pub skills : Map Skill

abbrev last_of : List FilePath → FilePath → FilePath
last_of [] d = d
last_of (n ∷ ns) d = last_of ns n

-- `filepath.Base`
unfoldable pub base : FilePath → FilePath
base [] = runes "."
base (c ∷ cs) = last_of (names (c ∷ cs)) (runes "/")

abbrev is_done {ℓ} : {A : Type ℓ} → Outcome A → Bool
is_done (done a) = true
is_done (failed e) = false

module _ {W : Type 0} (disk : Disk W) (lower : Char → Char) where
  abbrev parsed : FilePath → Outcome String → Outcome Skill
  parsed p (failed e) = failed e
  parsed p (done text) = done (parse_skill lower (of_runes p) (of_runes (base p)) text)

  -- `parseSkillDir`
  unfoldable pub parse_skill_dir : FilePath → W → Outcome Skill
  parse_skill_dir p w = parsed p (disk.read_file (join_paths p (runes "SKILL.md")) w)

  -- A skill that was read is marked by where it comes from.
  unfoldable pub sourced : FilePath → Skill → W → Skill
  sourced p s w =
      let builtin =
        is_prefix (runes "builtin-") (runes s.id)
        || is_done (disk.stat (join_paths p (runes ".builtin")) w) in
      record s { source = if builtin then "builtin" else "installed"; enabled = true }

  abbrev add_parsed : FilePath → W → Outcome Skill → Map Skill → Map Skill
  add_parsed p w (failed e) m = m
  add_parsed p w (done s) m = insert s.id (sourced p s w) m

  -- The loop of `Reload`: what is no directory, or holds no skill, is left out.
  unfoldable pub load_entries : FilePath → List (FilePath × Bool) → W → Map Skill → Map Skill
  load_entries root [] w m = m
  load_entries root ((n, is_dir) ∷ es) w m =
      let p = join_paths root n in
      load_entries root es w (if is_dir then add_parsed p w (parse_skill_dir p w) m else m)

  abbrev pub Result : Type 0
  Result = Option String × SkillService × W

  abbrev pub loaded : SkillService → W → Outcome (List (FilePath × Bool)) → Result
  loaded s w (failed e) = (some e, s, w)
  loaded s w (done es) = (none, record s { skills = load_entries s.root_dir es w [] }, w)

  abbrev pub reload_made : SkillService → Option String × W → Result
  reload_made s (some e, w) = (some e, s, w)
  reload_made s (none, w) = loaded s w (disk.read_dir s.root_dir w)

  -- `Reload`: the error, if any.
  unfoldable pub reload : SkillService → W → Result
  reload s w = reload_made s (disk.mkdir_all s.root_dir w)

  -- `NewSkillService`
  unfoldable pub new_skill_service : FilePath → W → SkillService × W
  new_skill_service root w =
      let r =
        reload (record { root_dir = if is_empty root then runes "./skills" else root; skills = [] })
          w in
      (r.1, r.2)

  abbrev pub uninstall_removed : SkillService → Option String × W → Result
  uninstall_removed s (some e, w) = (some e, s, w)
  uninstall_removed s (none, w) = reload s w

  abbrev pub uninstall_found : SkillService → String → FilePath → W → Outcome Bool → Result
  uninstall_found s id dst w (failed e) = (some (append "skill not found: " id), s, w)
  uninstall_found s id dst w (done d) = uninstall_removed s (disk.remove_all dst w)

  -- `Uninstall`
  unfoldable pub uninstall : String → SkillService → W → Result
  uninstall id s w =
      let key = sanitize_id id in
      let dst = join_paths s.root_dir (runes key) in
      if is_blank key
      then (some "id required", s, w)
      else uninstall_found s key dst w (disk.stat dst w)

  -- What follows a call that gave no error.
  abbrev and_then : Option String × W → (W → Option String × W) → Option String × W
  and_then (some e, w) k = (some e, w)
  and_then (none, w) k = k w

  abbrev copy_text : FilePath → Outcome String → W → Option String × W
  copy_text dst (failed e) w = (some e, w)
  copy_text dst (done text) w = and_then (disk.mkdir_all (dir dst) w) (disk.write_file dst text)

  -- `copyFile`
  unfoldable pub copy_file : FilePath → FilePath → W → Option String × W
  copy_file src dst w = copy_text dst (disk.read_file src w) w

  abbrev copy_one : FilePath → FilePath → Bool → Resolved → W → Option String × W
  copy_one dst p is_dir (refused e) w = (some e, w)
  copy_one dst p is_dir (inside r) w =
      if is_dir then disk.mkdir_all (join_paths dst r) w else copy_file p (join_paths dst r) w

  -- The walk of `copyDir`, which ends at the first error.
  unfoldable pub copy_each :
      FilePath → FilePath → List (Outcome (FilePath × Bool)) → W → Option String × W
  copy_each src dst [] w = (none, w)
  copy_each src dst (failed e ∷ ps) w = (some e, w)
  copy_each src dst (done (p, is_dir) ∷ ps) w =
      and_then (copy_one dst p is_dir (rel src p) w) (copy_each src dst ps)

  -- `copyDir`
  unfoldable pub copy_dir : FilePath → FilePath → W → Option String × W
  copy_dir src dst w = and_then (disk.mkdir_all dst w) (λ v. copy_each src dst (disk.walk src v) v)

  abbrev pub Installed : Type 0
  Installed = Outcome Skill × SkillService × W

  abbrev installed_as : Option Skill → Option Skill → Outcome Skill
  installed_as (some s) o = done s
  installed_as none (some s) = done s
  installed_as none none = failed "install ok but skill not loaded"

  abbrev install_loaded : String → String → Result → Installed
  install_loaded id own (some e, s, w) = (failed e, s, w)
  install_loaded id own (none, s, w) =
      (installed_as (lookup id s.skills) (lookup own s.skills), s, w)

  abbrev install_copied : String → String → SkillService → Option String × W → Installed
  install_copied id own s (some e, w) = (failed e, s, w)
  install_copied id own s (none, w) = install_loaded id own (reload s w)

  abbrev install_parsed : FilePath → String → SkillService → W → Outcome Skill → Installed
  install_parsed src id s w (failed e) = (failed e, s, w)
  install_parsed src id s w (done k) =
      let key = sanitize_id (if is_blank id then k.id else id) in
      install_copied key k.id s (copy_dir src (join_paths s.root_dir (runes key)) w)

  abbrev install_from : Option FilePath → String → SkillService → W → Installed
  install_from none id s w = (failed "source must be a skill directory or SKILL.md", s, w)
  install_from (some src) id s w = install_parsed src id s w (parse_skill_dir src w)

  abbrev source_dir : (Char → Char) → FilePath → Bool → Option FilePath
  source_dir fold src is_dir =
      if is_dir
      then some src
      else if str_eq (to_lower fold (of_runes (base src))) (to_lower fold "SKILL.md")
      then some (dir src)
      else none

  abbrev install_found :
      (Char → Char) → FilePath → String → SkillService → W → Outcome Bool → Installed
  install_found fold src id s w (failed e) = (failed (append "source not found: " e), s, w)
  install_found fold src id s w (done d) = install_from (source_dir fold src d) id s w

  -- `InstallFromPath`; `fold` is the folding of case of `strings.EqualFold`.
  unfoldable pub install_from_path :
      (Char → Char) → FilePath → String → SkillService → W → Installed
  install_from_path fold path id s w =
      let src = clean path in install_found fold src id s w (disk.stat src w)
