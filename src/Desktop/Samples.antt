-- ===== src/Desktop/Samples.antt =====
-- A disk in memory, a workspace, and the theorems about them.
use ai_desktop_assistant.Common.{
  ℕ, ◌≡◌, refl, subst, String, Char, true, false, Option, none, some, List, [], ◌∷◌, ◌++◌, arith,
  All, Bool-cases, inl, inr, if◌then◌else◌, ◌<◌, ◌≤◌, ◌*◌, ◌^◌,
}
use ai_desktop_assistant.Common.Int.{pos, negsuc}
use ai_desktop_assistant.Common.Text.{
  runes, is_prefix, trim_space, trim_runes, trim_left, is_space, of_runes,
}
use ai_desktop_assistant.Common.Outcome.{done, failed}
use ai_desktop_assistant.Desktop.Paths.{
  FilePath, Segment, seg_eq, segments, join, join_from, path_text, Resolved, inside, refused,
}
use ai_desktop_assistant.Desktop.Clean.{IsName}
use ai_desktop_assistant.Desktop.Files.{
  Os, FileOperation, execute_file_operation, resolve_path, write,
}
use ai_desktop_assistant.Desktop.Inside.{IsConfined, resolve_path-IsConfined, seg_eq→eq}
use ai_desktop_assistant.Desktop.Below.{parts_of, resolve_path_below}
use ai_desktop_assistant.Desktop.Sibling.{IsBelow, neighbour, resolve_path-neighbour}
use ai_desktop_assistant.Desktop.Frame.{
  IsOs, is_prefix_refl, outside_prefix, execute_file_operation-outside,
}
use ai_desktop_assistant.Desktop.Commands.{
  Regexps, CommandService, CommandOperation, Invocation, Run, succeeded, shell, execute_command,
  refusal, run_reported, new_command_service_with_policy, add_patterns,
}
use ai_desktop_assistant.Desktop.Denied.{IsAsked, is_denied, execute_command-IsGuarded}

-- The files of the disk.
abbrev Disk : Type 0
Disk = List (FilePath × String)

abbrev find : FilePath → Disk → Option String
find q [] = none
find q ((p, s) ∷ d) = if seg_eq p q then some s else find q d

abbrev put : FilePath → String → Disk → Disk
put p s d = (p, s) ∷ d

abbrev wipe : FilePath → Disk → Disk
wipe p [] = []
wipe p ((q, s) ∷ d) = if is_prefix p q then wipe p d else (q, s) ∷ wipe p d

abbrev disk_os : Os Disk
disk_os = record {
  read_file = λ p d. elim (find p d) [ none ↦ failed "no such file" | some s ↦ done s ];
  stat_size = λ p d. none;
  read_dir = λ p d. failed "no such directory";
  mkdir_all = λ p d. (none, d);
  open_append = λ p d. (none, d);
  write_string = λ p s d. (none, put p s d);
  write_file = λ p s d. (none, put p s d);
  create_new = λ p d. (none, put p "" d);
  remove_all = λ p d. (none, wipe p d);
}

-- A file whose path does not begin with `p` is no file whose path does.
find-wipe : (p q : FilePath) (d : Disk) → is_prefix p q ≡ false → find q (wipe p d) ≡ find q d
find-wipe p q [] h = refl
find-wipe p q ((r, s) ∷ d) h = ground (arith, h, find-wipe p q d h, seg_eq→eq r q, seg_prefix_lem)
  where
    seg_prefix_lem : is_prefix p r ≡ true → seg_eq r q ≡ true → is_prefix p q ≡ true
    seg_prefix_lem k e = subst (λ t. is_prefix p t ≡ true) (seg_eq→eq r q e) k

-- The disk has no links.
abbrev Leads : FilePath → FilePath → Type 0
Leads p q = is_prefix p q ≡ true

Leads-not : (p q : FilePath) → ¬ (Leads p q) → is_prefix p q ≡ false
Leads-not p q h = elim (Bool-cases (is_prefix p q)) [ inl e ↦ absurd (h e) | inr e ↦ e ]

Leads-apart : (p q : FilePath) → ¬ (Leads p q) → seg_eq p q ≡ false
Leads-apart p q h = elim (Bool-cases (seg_eq p q)) [
  | inl e ↦ absurd (h (subst (λ r. is_prefix p r ≡ true) (seg_eq→eq p q e) (is_prefix_refl p)))
  | inr e ↦ e
]

disk-IsOs : IsOs disk_os find Leads
disk-IsOs = record {
  mkdir_keeps = λ p q d. refl;
  open_keeps = λ p q d h. refl;
  string_keeps = λ p q s d h. rw (Leads-apart p q h) refl;
  write_keeps = λ p q s d h. rw (Leads-apart p q h) refl;
  create_keeps = λ p q d h. rw (Leads-apart p q h) refl;
  remove_keeps = λ p q d h. find-wipe p q d (Leads-not p q h);
}

abbrev ws : Segment
ws = "w" ∷ "s" ∷ []

abbrev workspace : List Segment
workspace = ws ∷ []

workspace-names : All IsName workspace
workspace-names = ((refl, refl, refl, refl), tt)

abbrev keep_case : Char → Char
keep_case c = c

abbrev home : Resolved
home = refused "no directory"

abbrev notes : FilePath
notes = "a" ∷ "/" ∷ "/" ∷ "." ∷ "/" ∷ "b" ∷ "." ∷ "t" ∷ "x" ∷ "t" ∷ []

abbrev passwords : FilePath
passwords = "/" ∷ "e" ∷ "t" ∷ "c" ∷ "/" ∷ "p" ∷ "a" ∷ "s" ∷ "s" ∷ "w" ∷ "d" ∷ []

resolve_path_below_example :
    resolve_path keep_case home (path_text true workspace) notes
    ≡ inside (path_text true (workspace ++ parts_of notes))
unfolding segments
resolve_path_below_example =
    resolve_path_below keep_case home workspace notes workspace-names refl
      (refl, (refl, (refl, (refl, tt))))

resolve_path-IsConfined_example :
    IsConfined keep_case workspace (path_text true (workspace ++ parts_of notes))
unfolding segments
resolve_path-IsConfined_example =
    resolve_path-IsConfined keep_case home workspace notes
      (path_text true (workspace ++ parts_of notes)) workspace-names
      (resolve_path_below keep_case home workspace notes workspace-names refl
        (refl, (refl, (refl, (refl, tt)))))

abbrev suffix : Segment
suffix = "-" ∷ "e" ∷ "v" ∷ "i" ∷ "l" ∷ []

resolve_path-neighbour_example :
    (resolve_path keep_case home
        (path_text true ([] ++ (ws ∷ [])))
        (path_text true (neighbour [] ws suffix))
      ≡ inside (path_text true (neighbour [] ws suffix)))
    × (¬ IsBelow ([] ++ (ws ∷ [])) (neighbour [] ws suffix))
resolve_path-neighbour_example =
    resolve_path-neighbour keep_case home [] ws suffix ((refl, refl, refl, refl), tt)
      (λ e. ground (arith, e))

abbrev save : FileOperation
save = record { kind = write; path = notes; content = "text"; mode = "" }

abbrev disk : Disk
disk = (passwords, "secret") ∷ []

execute_file_operation-outside_example :
    find passwords
      (execute_file_operation disk_os keep_case home
        (record { base_dir = path_text true workspace })
        save
        disk).1
    ≡ find passwords disk
unfolding is_prefix path_text join join_from
execute_file_operation-outside_example =
    execute_file_operation-outside disk_os find Leads keep_case home workspace save passwords disk
      disk-IsOs workspace-names
      (λ p h k.
        ground (arith, k, outside_prefix keep_case (path_text true workspace) p passwords h refl))

abbrev plain : Regexps
plain = record { compile = λ s. none; fold = keep_case }

abbrev echo : Invocation → ℕ → Run × ℕ
echo i n = (record { ended = succeeded; output = i.program; timed_out = false; duration = n }, n)

abbrev guarded : CommandService
guarded = new_command_service_with_policy plain (pos 60) ("rm" ∷ [])

abbrev remove : CommandOperation
remove = record {
  kind = shell;
  command = "rm";
  args = "-r" ∷ [];
  work_dir = "";
  env = [];
  timeout = negsuc 0;
}

execute_command-IsGuarded_example :
    (is_denied guarded remove ≡ true
      → (e : String) × (execute_command echo false [] guarded (some remove) 5 ≡ (refusal e, 5)))
    × (is_denied guarded remove ≡ false
        → (i : Invocation) × (execute_command echo false [] guarded (some remove) 5
            ≡ run_reported echo i 5)
          × IsAsked false [] remove i
          × (0 < i.time_limit)
          × (i.time_limit ≤ guarded.max_timeout * 10 ^ 9))
unfolding new_command_service_with_policy add_patterns trim_space trim_runes trim_left is_space
    runes of_runes
execute_command-IsGuarded_example =
    execute_command-IsGuarded echo false [] guarded remove 5 refl (ground arith) (ground arith)
