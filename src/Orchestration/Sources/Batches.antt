-- ===== src/Orchestration/Sources/Batches.antt =====
-- src/orchestration/application/refresh_cached_sources.py and review_source_freshness.py, the batch
-- jobs over the sources of a tenant. Their steps take the source as it was listed.
mod Writes
mod Rounds
mod Refresh
mod Review
mod Jobs
mod Failures
mod Successes
mod Tests
use ai_augmented_generation.Prelude.{
  ℕ, String, Bool, true, false, not, ◌&&◌, ◌||◌, Option, none, some, List, [], ◌∷◌, Eq, nat_eq,
  string_eq, pair_eq, ◌==◌, leb, if◌then◌else◌,
}
use ai_augmented_generation.Prelude.Dict.{insert}
use ai_augmented_generation.Orchestration.Stores.{Store}
use ai_augmented_generation.Orchestration.Stores.Expiring.{Expiring, preload_until, contains}
use ai_augmented_generation.Orchestration.Freshness.{
  IngestionRoute, rag_only, cag_with_rag_backup, mag, DataSource, MigrationDecision,
  decide_migration,
}
use ai_augmented_generation.Orchestration.Sources.{
  Tables, record_cached_until, migrate, version_times, current_content, is_null, list_sources,
}
use ai_augmented_generation.Orchestration.Sources.Ingestion.{
  World, Settings, drop_cached, expires_at, is_user,
}
use ai_augmented_generation.Orchestration.Sources.Ingestion.Changes.{is_cached_route}

abbrev pub is_rag_only : IngestionRoute → Bool
is_rag_only rag_only = true
is_rag_only cag_with_rag_backup = false
is_rag_only mag = false

-- `expires_at is not None and expires_at <= now`
abbrev pub is_past : ℕ → Option ℕ → Bool
is_past now none = false
is_past now (some until) = leb until now

module _ {Uuid F S H : Type 0} ⦃ids : Eq Uuid⦄ (settings : Settings Uuid F)
    (store : Store (ℕ × Uuid) S H) where
  abbrev pub recorded : World Uuid S → ℕ → Uuid → Tables Uuid × Bool → World Uuid S × Bool
  recorded w tenant_id i (tables, true) = (record w { tables = tables }, true)
  recorded w tenant_id i (tables, false) =
      (drop_cached settings store (record w { tables = tables }) tenant_id i, false)

  -- The pre-load of a content that was confirmed, and the write that it depends on.
  pub preload_source : World Uuid S → ℕ → DataSource Uuid → String → Option ℕ → World Uuid S × Bool
  preload_source w tenant_id source content until =
      let w' = record w {
        cache = preload_until store w.cache (tenant_id, source.id) content until;
        warmed = insert (tenant_id, source.id) content w.warmed;
      } in
      recorded w' tenant_id source.id
        (record_cached_until w'.tables tenant_id source.id source.content_hash until)

  pub preload_current :
      World Uuid S → ℕ → DataSource Uuid → Option ℕ → Option String → World Uuid S × Bool
  preload_current w tenant_id source until none = (w, false)
  preload_current w tenant_id source until (some content) =
      if settings.content_hash content == source.content_hash
      then preload_source w tenant_id source content until
      else (w, false)

  pub refresh_uncached :
      World Uuid S → ℕ → DataSource Uuid → ℕ → Expiring (ℕ × Uuid) S × Bool → World Uuid S × Bool
  refresh_uncached w tenant_id source now (cache, true) = (record w { cache = cache }, false)
  refresh_uncached w tenant_id source now (cache, false) =
      let w' = record w { cache = cache } in
      let until = expires_at settings store source source.last_ingested_at in
      if is_past now until
      then (w', false)
      else preload_current w' tenant_id source until (current_content w'.tables tenant_id source.id)

  -- one round of `RefreshCachedSources.run`
  pub refresh_source : World Uuid S → ℕ → DataSource Uuid → ℕ → World Uuid S × Bool
  refresh_source w tenant_id source now =
      if is_cached_route source.route && is_null source.pending_hash
      then refresh_uncached w tenant_id source now
          (contains store now w.cache (tenant_id, source.id))
      else (w, false)

  pub refresh_all : World Uuid S → ℕ → List (DataSource Uuid) → ℕ → World Uuid S × List String
  refresh_all w tenant_id [] now = (w, [])
  refresh_all w tenant_id (source ∷ sources) now =
      let (w', preloaded) = refresh_source w tenant_id source now in
      let (w'', source_keys) = refresh_all w' tenant_id sources now in
      (w'', if preloaded then source.source_key ∷ source_keys else source_keys)

  -- `RefreshCachedSources.run`
  pub refresh : World Uuid S → ℕ → ℕ → World Uuid S × List String
  refresh w tenant_id now = refresh_all w tenant_id (list_sources w.tables tenant_id) now

  abbrev pub migrated_to : World Uuid S → ℕ → Uuid → Bool → Tables Uuid × Bool → World Uuid S × Bool
  migrated_to w tenant_id i demoted (tables, false) = (record w { tables = tables }, false)
  migrated_to w tenant_id i demoted (tables, true) =
      let w' = record w { tables = tables } in
      (if demoted then drop_cached settings store w' tenant_id i else w', true)

  abbrev pub review_decided :
      World Uuid S → ℕ → DataSource Uuid → Option MigrationDecision → World Uuid S × Bool
  review_decided w tenant_id source none = (w, false)
  review_decided w tenant_id source (some d) =
      let demoted = is_rag_only d.to_route in
      migrated_to w tenant_id source.id demoted (
        migrate w.tables tenant_id source.id source.content_hash d.to_route d.interval
          (if demoted then none else source.cached_until))

  -- one round of `ReviewSourceFreshness.run`
  pub review_source : World Uuid S → ℕ → DataSource Uuid → ℕ → World Uuid S × Bool
  review_source w tenant_id source now =
      if is_user source.scope || not (is_null source.pending_hash)
      then (w, false)
      else review_decided w tenant_id source
          (decide_migration settings.policy source (version_times w.tables tenant_id source.id) now)

  pub review_all : World Uuid S → ℕ → List (DataSource Uuid) → ℕ → World Uuid S × List String
  review_all w tenant_id [] now = (w, [])
  review_all w tenant_id (source ∷ sources) now =
      let (w', migrated) = review_source w tenant_id source now in
      let (w'', source_keys) = review_all w' tenant_id sources now in
      (w'', if migrated then source.source_key ∷ source_keys else source_keys)

  -- `ReviewSourceFreshness.run`, with the keys of what migrated
  pub review : World Uuid S → ℕ → ℕ → World Uuid S × List String
  review w tenant_id now = review_all w tenant_id (list_sources w.tables tenant_id) now
