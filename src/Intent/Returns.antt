-- ===== src/Intent/Returns.antt =====
-- rule_classifier.go: where the extraction of entities neither panics nor cuts a rune.
use mathlib.Core.List.{append_assoc}
use mathlib.Core.Option as Option
use ai_desktop_assistant.Common.{
  ℕ, ◌+◌, ◌≡◌, refl, sym, ap, ◌∙◌, subst, String, Char, Bool, true, false, Option, none, some, List,
  [], ◌∷◌, ◌++◌, map, All, if_ind, is_empty, ltb, str_eq,
}
use ai_desktop_assistant.Common.Map.{Map}
use ai_desktop_assistant.Common.Text.{
  runes, split_at, byte_count, byte_index, drop_bytes, trim_runes,
}
use ai_desktop_assistant.Intent.{IntentResult, ConversationContext, is_among, file_intents}
use ai_desktop_assistant.Intent.Extract.{
  Cut, cut, broken, cut_of, after_keyword, cut_at, first_text, extract_after_keywords, entity,
  extract_entities, path_keywords, command_keywords, app_keywords, script_keywords, clean_path,
}
use ai_desktop_assistant.Intent.Rules.{
  IntentRule, Best, classify_runes, classify, with_entities, best_of, remembered, without_keyword,
}
use ai_desktop_assistant.Intent.Sound.{Some}
use ai_desktop_assistant.Intent.Service.{
  IntentService, Surroundings, recognize, recognize_at, recognize_new, get_cache, cache_key,
}
use ai_desktop_assistant.Intent.Bytes.{
  IsSameSize, IsSplit, byte_count-map, byte_count-append, drop_bytes-append, split_at-IsSplit,
  map_split, IsSameSize-front,
}

abbrev is_cut : Cut → Bool
is_cut (cut t) = true
is_cut broken = false

abbrev IsCut : Cut → Type 0
IsCut c = is_cut c ≡ true

abbrev pub is_some {ℓ} : {A : Type ℓ} → Option A → Bool
is_some none = false
is_some (some a) = true

abbrev Found : Option (Map String) → Type 0
Found o = is_some o ≡ true

abbrev Returned : Option IntentResult → Type 0
Returned o = is_some o ≡ true

entity-is_some :
    (k : String) (f : List Char → List Char) (c : Cut) → IsCut c → is_some (entity k f c) ≡ true
entity-is_some k f broken h = h
entity-is_some k f (cut []) h = refl
entity-is_some k f (cut (c ∷ cs)) h = refl

-- The keywords behind which entities stand.
abbrev pub entity_keywords : List (List String)
entity_keywords = path_keywords ∷ command_keywords ∷ app_keywords ∷ script_keywords ∷ []

module _ (lower : Char → Char) (input : List Char) (same : IsSameSize lower input) where
  -- The end of an occurrence, in bytes, is a place between runes of the text itself.
  found_lem :
      (k : String) (p : List Char × List Char)
      → IsSameSize lower (runes k)
      → IsSplit (map lower (runes k)) (map lower input) p
      → is_cut (cut_of (drop_bytes (byte_count p.0 + byte_count (runes k)) input)) ≡ true
  found_lem k p h e =
      let low = map lower (runes k) in
      let parts = map_split lower input (p.0 ++ low) p.1 (e ∙ sym (append_assoc p.0 low p.1)) in
      let size : byte_count p.0 + byte_count (runes k) ≡ byte_count parts.0 =
        ap (λ n. byte_count p.0 + n) (sym (byte_count-map lower (runes k) h))
        ∙ sym (byte_count-append p.0 low)
        ∙ ap byte_count (sym parts.3)
        ∙ byte_count-map lower parts.0
            (IsSameSize-front lower parts.0 parts.1 (subst (IsSameSize lower) parts.2 same)) in
      ap (λ o. is_cut (cut_of o))
        (ap (λ n. drop_bytes n input) size
          ∙ ap (drop_bytes (byte_count parts.0)) parts.2
          ∙ drop_bytes-append parts.0 parts.1)

  after_keyword-IsCut :
      (k : String) → IsSameSize lower (runes k) → Some IsCut (after_keyword lower input k)
  unfolding after_keyword byte_index
  after_keyword-IsCut k h =
      index_lem (split_at (map lower (runes k)) (map lower input))
        (split_at-IsSplit (map lower (runes k)) (map lower input))
    where
      index_lem :
          (o : Option (List Char × List Char))
          → Some (IsSplit (map lower (runes k)) (map lower input)) o
          → Some IsCut (cut_at lower input k (Option.map (λ p. byte_count p.0) o))
      index_lem none e = tt
      index_lem (some p) e = found_lem k p h e

  extract-IsCut :
      (ks : List String)
      → All (λ k. IsSameSize lower (runes k)) ks
      → IsCut (extract_after_keywords lower input ks)
  unfolding extract_after_keywords
  extract-IsCut [] h = refl
  extract-IsCut (k ∷ ks) (e, h) =
      first_lem (after_keyword lower input k) (extract_after_keywords lower input ks)
        (after_keyword-IsCut k e) (extract-IsCut ks h)
    where
      first_lem :
          (o : Option Cut) (next : Cut) → Some IsCut o → IsCut next → IsCut (first_text o next)
      first_lem none next a b = b
      first_lem (some broken) next a b = a
      first_lem (some (cut t)) next a b = if_ind IsCut (is_empty t) (λ f. b) (λ f. refl)

  module _ (keys : All (All (λ k. IsSameSize lower (runes k))) entity_keywords) where
    extract_entities-is_some : (i : String) → is_some (extract_entities lower input i) ≡ true
    unfolding extract_entities
    extract_entities-is_some i =
        if_ind Found (is_among file_intents i)
          (λ h. entity-is_some "path" clean_path _ (extract-IsCut path_keywords keys.0))
          (λ h.
            if_ind Found (str_eq i "RUN_COMMAND")
              (λ g. entity-is_some "command" (λ t. t) _ (extract-IsCut command_keywords keys.1.0))
              (λ g.
                if_ind Found (str_eq i "START_APP")
                  (λ f. entity-is_some "app" (λ t. t) _ (extract-IsCut app_keywords keys.1.1.0))
                  (λ f.
                    if_ind Found (str_eq i "RUN_SCRIPT")
                      (λ e.
                        entity-is_some "scriptPath" clean_path _
                          (extract-IsCut script_keywords keys.1.1.1.0))
                      (λ e. refl))))

    classify_runes-is_some :
        (rules : List IntentRule) (conv : Option ConversationContext)
        → is_some (classify_runes lower rules input conv) ≡ true
    unfolding classify_runes
    classify_runes-is_some rules conv =
        let b = best_of lower rules (map lower input) in
        let found = with_lem b (remembered conv) (extract_entities lower input b.intent) in
        if_ind Returned (is_empty input) (λ h. refl)
          (λ h.
            if_ind Returned (ltb b.score 50) {x = some (without_keyword (map lower input) conv)}
              (λ g. refl) (λ g. found (extract_entities-is_some b.intent)))
      where
        with_lem :
            (b : Best) (m : Map String) (o : Option (Map String))
            → is_some o ≡ true
            → is_some (with_entities b m o) ≡ true
        with_lem b m none h = h
        with_lem b m (some es) h = refl

-- A recognition returns, where the request's runes, without the blanks around it, and those of the keywords of
-- entities have as many bytes in lower case as before.
pub recognize-is_some :
    (env : Surroundings) (now : ℕ) (session input : String) (s : IntentService)
    → All (All (λ k. IsSameSize env.lower (runes k))) entity_keywords
    → IsSameSize env.lower (trim_runes (runes input))
    → is_some (recognize env now session input s) ≡ true
unfolding recognize classify
recognize-is_some env now session input s keys same =
    at_lem (get_cache now (cache_key env session input) s)
  where
    new_lem :
        (t : IntentService) (o : Option IntentResult)
        → is_some o ≡ true
        → is_some (recognize_new env now session input t o) ≡ true
    new_lem t none h = h
    new_lem t (some r) h = refl

    at_lem : (o : Option IntentResult) → is_some (recognize_at env now session input s o) ≡ true
    at_lem (some r) = refl
    at_lem none =
        new_lem _ _
          (classify_runes-is_some env.lower (trim_runes (runes input)) same keys s.rules _)
