-- ===== src/Intent/Cached.antt =====
-- intent_service.go: a request that is repeated while its entry in the cache lasts.
use ai_desktop_assistant.Common.{
  ℕ, ◌+◌, ◌≤◌, ◌≡◌, refl, sym, ◌∙◌, subst, String, Option, none, some, arith,
}
use ai_desktop_assistant.Common.Map.{lookup, lookup-insert_self}
use ai_desktop_assistant.Intent.{IntentResult}
use ai_desktop_assistant.Intent.Rules.{sourced}
use ai_desktop_assistant.Intent.Service.{
  IntentService, Surroundings, remember, decide, recognize, recognize_at, recognize_new, get_cache,
  put_cache, cache_key, update_context, get_context,
}

module _ (env : Surroundings) (session input : String) where
  abbrev key : String
  key = cache_key env session input

  -- What the cache gives while its entry is the one that was put there, as long as it lasts.
  put_cache-get_cache :
      (now later : ℕ) (r : IntentResult) (s u : IntentService)
      → later ≤ now + s.cache_ttl
      → lookup key u.cache ≡ lookup key (put_cache now key r s).cache
      → get_cache later key u ≡ some r
  unfolding get_cache put_cache
  put_cache-get_cache now later r s u h same = rw (same, lookup-insert_self) (ground (arith, h))

  cache_hit :
      (later : ℕ) (s : IntentService) (r : IntentResult)
      → get_cache later key s ≡ some r
      → recognize env later session input s ≡ some (sourced "cache" r, s)
  unfolding recognize
  cache_hit later s r h = rw h refl

  stored_new :
      (now later : ℕ) (u t v : IntentService) (r : IntentResult) (o : Option IntentResult)
      → recognize_new env now session input u o ≡ some (r, t)
      → later ≤ now + u.cache_ttl
      → lookup key v.cache ≡ lookup key t.cache
      → get_cache later key v ≡ some r
  unfolding remember update_context
  stored_new now later u t v r none h l same = ground (arith, h)
  stored_new now later u t v r (some q) h l same =
      let d = decide env session input q u in
      subst (λ p. lookup key v.cache ≡ lookup key p.1.cache → get_cache later key v ≡ some p.0)
        (some-inj h) (put_cache-get_cache now later d (update_context session d input u) v l) same
    where
      some-inj : {x y : IntentResult × IntentService} → some x ≡ some y → x ≡ y
      some-inj g = ground (arith, g)

  miss :
      (now : ℕ) (s : IntentService)
      → get_cache now key s ≡ none
      → recognize env now session input s ≡ recognize_at env now session input s none
  unfolding recognize
  miss now s m = rw m refl

  -- After a recognition that did not find its request in the cache, the same request of the session gives the same
  -- result again, marked as cached, and changes nothing, whatever the service has become in the meantime, its
  -- contexts included, as long as its cache holds that recognition's entry and the entry has not expired.
  pub recognize-cached :
      (now later : ℕ) (s t u : IntentService) (r : IntentResult)
      → get_cache now key s ≡ none
      → recognize env now session input s ≡ some (r, t)
      → later ≤ now + s.cache_ttl
      → lookup key u.cache ≡ lookup key t.cache
      → recognize env later session input u ≡ some (sourced "cache" r, u)
  unfolding get_context
  recognize-cached now later s t u r m h l same =
      cache_hit later u r
        (stored_new now later (get_context session s) t u r _ (sym (miss now s m) ∙ h) l same)
