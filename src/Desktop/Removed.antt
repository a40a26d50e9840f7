-- ===== src/Desktop/Removed.antt =====
-- sandbox_service.go: what becomes of the directories that a run makes.
use mathlib.Core.List.{append_assoc}
use ai_desktop_assistant.Common.{
  ℕ, ◌≡◌, refl, ap, sym, ◌∙◌, String, Char, ◌&&◌, Option, none, some, List, [], ◌∷◌, ◌++◌, All,
  if_ind,
}
use ai_desktop_assistant.Common.Text.{is_blank, trim_space}
use ai_desktop_assistant.Desktop.Paths.{FilePath}
use ai_desktop_assistant.Common.Outcome.{Outcome, done, failed}
use ai_desktop_assistant.Desktop.Sandbox.{
  Machine, Program, SandboxService, Language, in_temp, after_write, run_found, run_docker,
  run_local, or_local, run_language, run,
}

module _ {W : Type 0} (m : Machine W) (temps : W → List FilePath) where
  -- The directories that `os.MkdirTemp` made after such a call.
  abbrev Made : W → Outcome FilePath × W → Type 0
  Made w (done d, v) = temps v ≡ d ∷ temps w
  Made w (failed e, v) = temps v ≡ temps w

  -- What the calls do to the directories that `os.MkdirTemp` made: it makes a new one or fails, `os.RemoveAll`
  -- removes the one that it is given or gives an error and leaves it, and neither writing a file nor a program that
  -- runs touches them.
  pub record IsMachine : Type 0 where
    pub makes : (root : FilePath) (name : String) (w : W) → Made w (m.mkdir_temp root name w)
    pub removes :
        (d : FilePath) (w : W) (ds : List FilePath)
        → temps w ≡ d ∷ ds
        → temps (m.remove_all d w).1 ≡ (elim (m.remove_all d w).0 [ none ↦ ds | some e ↦ d ∷ ds ])
    pub writes : (p : FilePath) (s : String) (w : W) → temps (m.write_file p s w).1 ≡ temps w
    pub runs : (p : Program) (w : W) → temps (m.run p w).1 ≡ temps w

  -- At some time the removal of a directory gave an error.
  abbrev pub IsStuck : FilePath → Type 0
  IsStuck d = (w : W) × (e : String) × ((m.remove_all d w).0 ≡ some e)

  -- Beside the directories that were there, only such are left whose removal gave an error.
  abbrev pub IsCleared : W → W → Type 0
  IsCleared w v = (ds : List FilePath) × (temps v ≡ ds ++ temps w) × All IsStuck ds

  same-IsCleared : (w v : W) → temps v ≡ temps w → IsCleared w v
  same-IsCleared w v h = ([], h, tt)

  All-append : (xs ys : List FilePath) → All IsStuck xs → All IsStuck ys → All IsStuck (xs ++ ys)
  All-append [] ys h k = k
  All-append (x ∷ xs) ys (q, h) k = (q, All-append xs ys h k)

  IsCleared_trans : (u v w : W) → IsCleared u v → IsCleared v w → IsCleared u w
  IsCleared_trans u v w (ds, h, a) (es, k, b) =
      (es ++ ds, k ∙ ap (λ l. es ++ l) h ∙ sym (append_assoc es ds (temps u)), All-append es ds b a)

  module _ (M : IsMachine) (s : SandboxService) where
    after_write_keeps :
        (w : W) (r : Option String × W) (k : W → Outcome String × W)
        → temps r.1 ≡ temps w
        → ((v : W) → temps (k v).1 ≡ temps v)
        → temps (after_write m s r k).1 ≡ temps w
    after_write_keeps w (some e, v) k h f = h
    after_write_keeps w (none, v) k h f = f v ∙ h

    remove_all-IsCleared :
        (d : FilePath) (u w : W) → temps u ≡ d ∷ temps w → IsCleared w (m.remove_all d u).1
    remove_all-IsCleared d u w h = removed_lem (m.remove_all d u).0 refl (M.removes d u (temps w) h)
      where
        removed_lem :
            (o : Option String)
            → (m.remove_all d u).0 ≡ o
            → temps (m.remove_all d u).1 ≡ (elim o [ none ↦ temps w | some e ↦ d ∷ temps w ])
            → IsCleared w (m.remove_all d u).1
        removed_lem none q k = ([], k, tt)
        removed_lem (some e) q k = (d ∷ [], k, ((u, e, q), tt))

    in_temp-IsCleared :
        (w : W) (r : Outcome FilePath × W) (body : FilePath → W → Outcome String × W)
        → Made w r
        → ((d : FilePath) (v : W) → temps (body d v).1 ≡ temps v)
        → IsCleared w (in_temp m s r body).1
    in_temp-IsCleared w (done d, v) body h f = remove_all-IsCleared d (body d v).1 w (f d v ∙ h)
    in_temp-IsCleared w (failed e, v) body h f = same-IsCleared w v h

    run_found_keeps :
        (o : Option String) (p : Program) (w : W) → temps (run_found m s o p w).1 ≡ temps w
    run_found_keeps none p w = M.runs p w
    run_found_keeps (some e) p w = refl

    run_docker-IsCleared :
        (l : Language) (code : String) (left : Option ℕ) (w : W)
        → IsCleared w (run_docker m s l code left w).1
    unfolding run_docker
    run_docker-IsCleared l code left w =
        in_temp-IsCleared w (m.mkdir_temp s.work_root "sbx-*" w) _ (M.makes _ _ w) (λ d v.
          after_write_keeps v (m.write_file _ code v) _ (M.writes _ code v) (λ u. M.runs _ u))

    run_local-IsCleared :
        (l : Language) (code : String) (w : W) → IsCleared w (run_local m s l code w).1
    unfolding run_local
    run_local-IsCleared l code w =
        in_temp-IsCleared w (m.mkdir_temp s.work_root "sbx-local-*" w) _ (M.makes _ _ w) (λ d v.
          after_write_keeps v (m.write_file _ code v) _ (M.writes _ code v)
            (λ u. run_found_keeps _ _ u))

    or_local-IsCleared :
        (l : Language) (code : String) (w : W) (r : Outcome String × W)
        → IsCleared w r.1
        → IsCleared w (or_local m s l code r).1
    or_local-IsCleared l code w (done out, v) h = h
    or_local-IsCleared l code w (failed e, v) h =
        IsCleared_trans w v _ h (run_local-IsCleared l code v)

    run_language-IsCleared :
        (o : Option Language) (code : String) (left : Option ℕ) (w : W)
        → IsCleared w (run_language m s o code left w).1
    run_language-IsCleared none code left w = same-IsCleared w w refl
    run_language-IsCleared (some l) code left w =
        if_ind (λ (r : Outcome String × W). IsCleared w r.1) (s.use_docker && m.docker_available w)
          (λ h.
            or_local-IsCleared l code w (run_docker m s l code left w)
              (run_docker-IsCleared l code left w))
          (λ h. run_local-IsCleared l code w)

    -- After a run, on each of its paths, the temporary directories are those that were there before it and, before
    -- them, only such whose removal gave an error: the directory of the container and that of the program on the
    -- machine, which runs where the container's directory or its file could not be made, are both removed, errors
    -- included.
    pub run-IsCleared :
        (lower : Char → Char) (language code : String) (left : Option ℕ) (w : W)
        → IsCleared w (run m s lower language code left w).1
    unfolding run
    run-IsCleared lower language code left w =
        if_ind (λ (r : Outcome String × W). IsCleared w r.1) (is_blank (trim_space code))
          (λ h. same-IsCleared w w refl) (λ h. run_language-IsCleared _ (trim_space code) left w)
