-- ===== src/Skill/Samples.antt =====
-- Two skills, and the theorems about them.
use ai_desktop_assistant.Common.{
  ◌≡◌, refl, subst, String, true, false, Bool-cases, inl, inr, Option, none, some, if◌then◌else◌,
  arith, [], ◌∷◌,
}
use ai_desktop_assistant.Common.Map.{Map}
use ai_desktop_assistant.Common.Outcome.{done, failed}
use ai_desktop_assistant.Desktop.Paths.{FilePath, seg_eq, path_text, normal_from, segments}
use ai_desktop_assistant.Desktop.Inside.{seg_eq→eq}
use ai_desktop_assistant.Skill.Directory.{Disk, uninstall}
use ai_desktop_assistant.Skill.Uninstalled.{IsDisk, uninstall-outside}
use ai_desktop_assistant.Common.Text.{
  runes, of_runes, contains, is_infix, is_prefix, to_lower, trim_runes, trim_left, is_space,
}
use ai_desktop_assistant.Skill.{
  Skill, lower_code, lower_codes, starts_with, occurs, contains_codes, is_word_code, words_from,
  utf8_length, byte_length, trigger_score, word_score, match_score, is_named, match_skill,
  match_from, filter_tools, is_tool_allowed, is_id_code, id_runes, sanitize_id,
}
use ai_desktop_assistant.Skill.Match.{IsBest, match_skill-IsBest}

abbrev shell : Skill
shell = record {
  id = "safe-shell";
  name = "shell";
  description = "run commands";
  triggers = "terminal" ∷ [];
  tools = "run_command" ∷ [];
  body = "";
  path = "";
  source = "builtin";
  enabled = true;
}

abbrev overview : Skill
overview = record shell {
  id = "overview";
  name = "overview";
  description = "list files";
  triggers = [];
  tools = [];
}

abbrev skills : Map Skill
skills = ("overview", overview) ∷ ("safe-shell", shell) ∷ []

program : Unit {0}
unfolding runes of_runes contains is_infix is_prefix to_lower trim_runes trim_left is_space
    lower_code lower_codes starts_with occurs contains_codes is_word_code words_from utf8_length
    byte_length trigger_score word_score match_score is_named match_skill match_from filter_tools
    is_tool_allowed is_id_code id_runes sanitize_id
program = tt

score : match_score shell "run the Terminal" ≡ 26
unfolding program
score = refl

match_skill-IsBest_example :
    IsBest (λ c. c) "run the Terminal" skills (match_skill (λ c. c) "run the Terminal" skills)
unfolding program
match_skill-IsBest_example =
    match_skill-IsBest (λ c. c) "run the Terminal" skills (refl, (refl, tt))

abbrev notes : FilePath
notes = "n" ∷ "o" ∷ "t" ∷ "e" ∷ "s" ∷ "." ∷ "m" ∷ "d" ∷ []

abbrev skills_dir : FilePath
skills_dir = "." ∷ "/" ∷ "s" ∷ "k" ∷ "i" ∷ "l" ∷ "l" ∷ "s" ∷ []

-- A disk with one file, which is gone when its path is removed.
abbrev still : Disk String
still = record {
  mkdir_all = λ p w. (none, w);
  read_dir = λ p w. done [];
  read_file = λ p w. failed "no such file";
  stat = λ p w. done true;
  remove_all = λ p w. (none, if is_prefix p notes then "" else w);
  write_file = λ p s w. (none, w);
  walk = λ p w. [];
}

abbrev Leads : FilePath → FilePath → Type 0
Leads p q = is_prefix p q ≡ true

abbrev content : FilePath → String → Option String
content q w = if seg_eq notes q then some w else none

still-IsDisk : IsDisk still content Leads
still-IsDisk = record {
  mkdir_keeps = λ p q w. refl;
  remove_keeps = λ p q w h. ground (arith, prefix_lem p q, leads_lem p q h);
}
  where
    prefix_lem :
        (p q : FilePath) → seg_eq notes q ≡ true → is_prefix p notes ≡ true → is_prefix p q ≡ true
    prefix_lem p q e h = subst (λ r. is_prefix p r ≡ true) (seg_eq→eq notes q e) h

    leads_lem : (p q : FilePath) → ¬ (Leads p q) → is_prefix p q ≡ false
    leads_lem p q h = elim (Bool-cases (is_prefix p q)) [ inl e ↦ absurd (h e) | inr e ↦ e ]

uninstall-outside_example :
    content notes
      (uninstall still (λ c. c) "../wiki" (record { root_dir = skills_dir; skills = [] }) "kept").2
    ≡ content notes "kept"
unfolding sanitize_id id_runes is_id_code trim_runes trim_left is_space runes of_runes is_prefix
    path_text normal_from segments
uninstall-outside_example =
    uninstall-outside still content Leads (λ c. c) "../wiki"
      (record { root_dir = skills_dir; skills = [] }) notes "kept" still-IsDisk refl
      (λ e. ground (arith, e))
