-- ===== src/Skill/Uninstalled.antt =====
-- skill_service.go, `Uninstall`: which files it may remove.
use mathlib.Core.List.{reverse-cons}
use ai_desktop_assistant.Common.{
  reverse, ◌≡◌, refl, sym, ap, ◌∙◌, subst, String, Char, Bool, false, Option, none, some, List, [],
  ◌∷◌, ◌++◌, arith, All, is_empty, Bool-cases, inl, inr,
}
use ai_desktop_assistant.Common.Outcome.{Outcome, done, failed}
use ai_desktop_assistant.Common.Text.{runes, is_blank}
use ai_desktop_assistant.Desktop.Paths.{
  FilePath, Segment, path_text, join_paths, is_abs, segments, normal_from, clean_step, clean,
}
use ai_desktop_assistant.Desktop.Clean.{
  IsName, has_slash, clean_step_name, segments-append, segments_name,
}
use ai_desktop_assistant.Skill.{sanitize_id, is_id_code}
use ai_desktop_assistant.Skill.Ids.{IsIdRune, sanitize_id-IsIdRune}
use ai_desktop_assistant.Skill.Directory.{
  Disk, SkillService, reload, reload_made, loaded, uninstall, uninstall_found, uninstall_removed,
}

id-has_slash : (cs : List Char) → All IsIdRune cs → has_slash cs ≡ false
unfolding is_id_code
id-has_slash [] h = refl
id-has_slash (c ∷ cs) (p, h) = ground (arith, p, id-has_slash cs h)

-- An id that is not empty is the name of a directory.
id-IsName : (cs : List Char) → All IsIdRune cs → is_empty cs ≡ false → IsName cs
unfolding is_id_code
id-IsName [] h e = ground (arith, e)
id-IsName (c ∷ []) (p, h) e = (id-has_slash (c ∷ []) (p, h), refl, ground (arith, p), refl)
id-IsName (c ∷ d ∷ []) (p, h) e = (id-has_slash (c ∷ d ∷ []) (p, h), refl, refl, ground (arith, p))
id-IsName (c ∷ d ∷ f ∷ cs) (p, h) e = (id-has_slash (c ∷ d ∷ f ∷ cs) (p, h), refl, refl, refl)

is_empty-runes : (s : String) → is_blank s ≡ false → is_empty (runes s) ≡ false
unfolding runes
is_empty-runes String.[] h = h
is_empty-runes (String.◌∷◌ c s) h = refl

-- The path of a name right below a directory, which may be relative: the directory's names, cleaned, and then it.
abbrev pub below : FilePath → Segment → FilePath
below root n = path_text (is_abs root) (normal_from (is_abs root) [] (segments root) ++ (n ∷ []))

normal_from-last :
    (r : Bool) (kept ss : List Segment) (n : Segment)
    → IsName n
    → normal_from r kept (ss ++ (n ∷ [])) ≡ normal_from r kept ss ++ (n ∷ [])
unfolding normal_from
normal_from-last r kept [] n h = ap reverse (clean_step_name r kept n h) ∙ reverse-cons n kept
normal_from-last r kept (s ∷ ss) n h = normal_from-last r (clean_step r kept s) ss n h

join_id :
    (root : FilePath) (n : Segment)
    → is_empty root ≡ false
    → IsName n
    → join_paths root n ≡ below root n
unfolding join_paths clean
join_id [] n e h = ground (arith, e)
join_id (c ∷ cs) n e (slashless, full, u, v) = rw full (
    ap (λ l. path_text (is_abs (c ∷ cs)) (normal_from (is_abs (c ∷ cs)) [] l))
      (segments-append (c ∷ cs) n ∙ ap (λ l. segments (c ∷ cs) ++ l) (segments_name n slashless))
    ∙ ap (path_text (is_abs (c ∷ cs)))
        (normal_from-last (is_abs (c ∷ cs)) [] (segments (c ∷ cs)) n (slashless, full, u, v)))

module _ {W : Type 0} (disk : Disk W) (content : FilePath → W → Option String)
    (Leads : FilePath → FilePath → Type 0) where
  -- What the `os` package says: making directories changes no file's content, and removing a path changes only
  -- files that the path may lead to, or to a directory above them, which is `Leads p q` for a path `p` and a file `q`.
  pub record IsDisk : Type 0 where
    pub mkdir_keeps : (p q : FilePath) (w : W) → content q (disk.mkdir_all p w).1 ≡ content q w
    pub remove_keeps :
        (p q : FilePath) (w : W) → ¬ (Leads p q) → content q (disk.remove_all p w).1 ≡ content q w

  module _ (lower : Char → Char) (D : IsDisk) (q : FilePath) where
    reload_keeps : (s : SkillService) (w : W) → content q (reload disk lower s w).2 ≡ content q w
    unfolding reload
    reload_keeps s w = made_lem (disk.mkdir_all s.root_dir w) ∙ D.mkdir_keeps s.root_dir q w
      where
        loaded_lem :
            (v : W) (o : Outcome (List (FilePath × Bool)))
            → content q (loaded disk lower s v o).2 ≡ content q v
        loaded_lem v (failed e) = refl
        loaded_lem v (done es) = refl

        made_lem :
            (r : Option String × W) → content q (reload_made disk lower s r).2 ≡ content q r.1
        made_lem (some e, v) = refl
        made_lem (none, v) = loaded_lem v (disk.read_dir s.root_dir v)

    removed_keeps :
        (s : SkillService) (dst : FilePath) (w : W)
        → ¬ (Leads dst q)
        → content q (uninstall_removed disk lower s (disk.remove_all dst w)).2 ≡ content q w
    removed_keeps s dst w h = removed_lem (disk.remove_all dst w) ∙ D.remove_keeps dst q w h
      where
        removed_lem :
            (r : Option String × W) → content q (uninstall_removed disk lower s r).2 ≡ content q r.1
        removed_lem (some e, v) = refl
        removed_lem (none, v) = reload_keeps s v

    found_keeps :
        (s : SkillService) (id : String) (dst : FilePath) (w : W) (o : Outcome Bool)
        → ¬ (Leads dst q)
        → content q (uninstall_found disk lower s id dst w o).2 ≡ content q w
    found_keeps s id dst w (failed e) h = refl
    found_keeps s id dst w (done d) h = removed_keeps s dst w h

  -- Uninstalling, whatever the id, removes at most the directory of the sanitized id right below the directory of the
  -- skills: a file to which this one path, relative or absolute, can not lead keeps its content. The path of the
  -- directory of the skills is not empty.
  pub uninstall-outside :
      (lower : Char → Char) (id : String) (s : SkillService) (q : FilePath) (w : W)
      → IsDisk
      → is_empty s.root_dir ≡ false
      → ¬ (Leads (below s.root_dir (runes (sanitize_id id))) q)
      → content q (uninstall disk lower id s w).2 ≡ content q w
  unfolding uninstall
  uninstall-outside lower id s q w D full out = elim (Bool-cases (is_blank (sanitize_id id))) [
    | inl e ↦ rw e refl
    | inr e ↦
        rw e (found_keeps lower D q s _ _ w _ (subst (λ p. ¬ (Leads p q)) (sym (dst_lem e)) out))
  ]
    where
      dst_lem :
          is_blank (sanitize_id id) ≡ false
          → join_paths s.root_dir (runes (sanitize_id id))
            ≡ below s.root_dir (runes (sanitize_id id))
      dst_lem e = join_id s.root_dir (runes (sanitize_id id)) full (
          id-IsName (runes (sanitize_id id)) (sanitize_id-IsIdRune id).0
            (is_empty-runes (sanitize_id id) e))
