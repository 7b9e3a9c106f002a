-- ===== src/Orchestration/Sources/Ingestion.antt =====
-- src/orchestration/application/ingest_data_source.py, over the tables, RAG's index, an expiring
-- cache and the warmed memo. A call that fails is a `Fault`. The embedding that the memo stores is
-- left out. The expiring cache reads its own clock in the source; here it reads the time of the
-- call.
pub mod Changes
pub mod Effects
pub mod Fresh
mod Known
pub mod Rows
pub mod Marks
pub mod Consistency
pub mod Tests
use ai_augmented_generation.Prelude.{
  ℕ, ◌+◌, String, Bool, true, false, not, ◌&&◌, ◌||◌, Option, none, some, List, [], ◌∷◌, ◌++◌, Eq,
  nat_eq, string_eq, pair_eq, ◌==◌, leb, if◌then◌else◌, Outcome, ok, raise, value_error,
  runtime_error, scope_mismatch,
}
use ai_augmented_generation.Prelude.Dict.{Dict, lookup, insert, remove}
use ai_augmented_generation.Orchestration.Stores.{Store, is_some}
use ai_augmented_generation.Orchestration.Stores.Expiring.{
  Expiring, renew, preload_until, evict, contains,
}
use ai_augmented_generation.Orchestration.Freshness.{
  SourceScope, tenant, user, IngestionRoute, rag_only, cag_with_rag_backup, mag, DataSourceProfile,
  FreshnessPolicy, DataSource, MigrationDecision, cache_ttl, decide_migration,
}
use ai_augmented_generation.Orchestration.Sources.{
  Tables, SourceVersion, get, save, mark_pending, record_cached_until, migrate, version_times,
  current_content, is_null,
}

pub record IngestionResult (Uuid : Type 0) : Type 0 where
  pub source_id : Uuid
  pub route : IngestionRoute
  pub changed : Bool

-- What the use cases act on. `rag` is the one document of a source, `warmed` the memo of
-- CacheWarmedRetrieve, and `facts` what was given to the fact writer.
pub record World (Uuid S : Type 0) : Type 0 where
  pub tables : Tables Uuid
  pub rag : Dict (ℕ × Uuid) String
  pub cache : Expiring (ℕ × Uuid) S
  pub warmed : Dict (ℕ × Uuid) String
  pub facts : List (ℕ × (ℕ × (String × String)))

-- A call on the way that raises: mark_pending; an effect of the route, with what it left of RAG's
-- document and whether the cached copy is evicted by then; or save.
pub data Fault : Type 0 where
  nothing_fails mark_fails save_fails : Fault
  effects_fail : Option String → Bool → Fault

abbrev pub is_mag : IngestionRoute → Bool
is_mag mag = true
is_mag rag_only = false
is_mag cag_with_rag_backup = false

abbrev pub is_user : SourceScope → Bool
is_user user = true
is_user tenant = false

abbrev pub agree : Bool → Bool → Bool
agree true b = b
agree false b = not b

-- What the use cases are given: `uuid5` over the key of a source, the hash, `timedelta * float`,
-- the policies, and the flag.
pub record Settings (Uuid F : Type 0) : Type 0 where
  pub source_id_for : ℕ → String → Option ℕ → Uuid
  pub content_hash : String → String
  pub scale : ℕ → F → ℕ
  pub policy : FreshnessPolicy F
  pub route_policy : DataSourceProfile → FreshnessPolicy F → IngestionRoute
  pub permit_user_scope_outside_mag : Bool

module _ {Uuid F S H : Type 0} ⦃ids : Eq Uuid⦄ (settings : Settings Uuid F)
    (store : Store (ℕ × Uuid) S H) where
  -- `now + ttl`
  abbrev pub expiry_after : ℕ → Option ℕ → Option ℕ
  expiry_after now none = none
  expiry_after now (some ttl) = some (now + ttl)

  unfoldable pub expires_at : DataSource Uuid → ℕ → Option ℕ
  expires_at source from =
      expiry_after from (cache_ttl settings.scale source.expected_change_interval settings.policy)

  abbrev pub replace : World Uuid S → ℕ → Uuid → String → World Uuid S
  replace w tenant_id i content = record w { rag = insert (tenant_id, i) content w.rag }

  -- `cache.evict` and `warmed.forget`
  unfoldable pub drop_cached : World Uuid S → ℕ → Uuid → World Uuid S
  drop_cached w tenant_id i = record w {
    cache = evict store w.cache (tenant_id, i);
    warmed = remove (tenant_id, i) w.warmed;
  }

  abbrev pub write_fact : World Uuid S → DataSource Uuid → String → Option ℕ → World Uuid S
  write_fact w source content none = w
  write_fact w source content (some user_id) = record w {
    facts = w.facts ++ (source.tenant_id, (user_id, (source.source_key, content))) ∷ [];
  }

  pub renew_cached : World Uuid S → DataSource Uuid → ℕ → World Uuid S × Option ℕ
  renew_cached w source now =
      let until = expires_at source now in
      let (cache, renewed) = renew store now w.cache (source.tenant_id, source.id) until in
      (record w { cache = cache }, if renewed then until else none)

  -- `_apply_route`
  unfoldable pub apply_route :
      World Uuid S → DataSource Uuid → String → Bool → ℕ → IngestionRoute → World Uuid S × Option ℕ
  apply_route w source content reapply now mag =
      (if reapply then write_fact w source content source.user_id else w, none)
  apply_route w source content reapply now rag_only =
      (if reapply then replace w source.tenant_id source.id content else w, none)
  apply_route w source content true now cag_with_rag_backup =
      (drop_cached (replace w source.tenant_id source.id content) source.tenant_id source.id, none)
  apply_route w source content false now cag_with_rag_backup = renew_cached w source now

  abbrev pub left_in : Dict (ℕ × Uuid) String → ℕ × Uuid → Option String → Dict (ℕ × Uuid) String
  left_in rag k none = remove k rag
  left_in rag k (some content) = insert k content rag

  -- The effects of a route, broken off.
  unfoldable pub break_off :
      World Uuid S → DataSource Uuid → Option String → Bool → IngestionRoute → World Uuid S
  break_off w source left evicted mag = w
  break_off w source left evicted rag_only = record w {
    rag = left_in w.rag (source.tenant_id, source.id) left;
  }
  break_off w source left evicted cag_with_rag_backup =
      let w' = record w { rag = left_in w.rag (source.tenant_id, source.id) left } in
      if evicted then drop_cached w' source.tenant_id source.id else w'

  abbrev pub version_of : DataSource Uuid → String → Bool → Option (SourceVersion Uuid)
  version_of source content false = none
  version_of source content true = some (record {
    data_source_id = source.id;
    tenant_id = source.tenant_id;
    content_hash = source.content_hash;
    content = if is_mag source.route then none else some content;
    ingested_at = source.last_changed_at;
  })

  -- the end of `execute`, past the marking
  unfoldable pub finish :
      World Uuid S
      → DataSource Uuid
      → String
      → Bool
      → Bool
      → ℕ
      → Fault
      → World Uuid S × Outcome (IngestionResult Uuid)
  finish w source content changed reapply now (effects_fail left evicted) =
      (if reapply then break_off w source left evicted source.route else w, raise runtime_error)
  finish w source content changed reapply now save_fails =
      ((apply_route w source content reapply now source.route).0, raise runtime_error)
  finish w source content changed reapply now _ =
      let (w', until) = apply_route w source content reapply now source.route in
      (
        record w' {
          tables =
              save w'.tables (record source { cached_until = until })
                (version_of source content changed);
        },
        ok (record { source_id = source.id; route = source.route; changed = changed }),
      )

  abbrev pub fails_to_mark : Fault → Bool
  fails_to_mark mark_fails = true
  fails_to_mark nothing_fails = false
  fails_to_mark save_fails = false
  fails_to_mark (effects_fail left evicted) = false

  unfoldable pub ingest_known :
      World Uuid S
      → DataSource Uuid
      → String
      → ℕ
      → Fault
      → World Uuid S × Outcome (IngestionResult Uuid)
  ingest_known w existing content now fault =
      let digest = settings.content_hash content in
      let changed = not (existing.content_hash == digest) in
      let reapply = changed || not (is_null existing.pending_hash) in
      let source = record existing {
        content_hash = digest;
        last_ingested_at = now;
        last_changed_at = if changed then now else existing.last_changed_at;
        pending_hash = none;
      } in
      if reapply
      then (if fails_to_mark fault
          then (w, raise runtime_error)
          else finish
              (record w { tables = mark_pending w.tables source.tenant_id existing.id digest })
              source content changed true now fault)
      else finish w source content changed false now fault

  -- `_new_source`
  unfoldable pub new_source :
      ℕ → DataSourceProfile → String → ℕ → Option ℕ → Outcome (DataSource Uuid)
  new_source tenant_id profile digest now user_id =
      let route = settings.route_policy profile settings.policy in
      if is_mag route && not (is_user profile.scope)
      then raise value_error
      else if is_user profile.scope
          && not (is_mag route)
          && not settings.permit_user_scope_outside_mag
      then raise value_error
      else ok (record {
        id = settings.source_id_for tenant_id profile.source_key user_id;
        tenant_id = tenant_id;
        user_id = user_id;
        source_key = profile.source_key;
        scope = profile.scope;
        expected_change_interval = profile.expected_change_interval;
        route = route;
        content_hash = digest;
        last_changed_at = now;
        last_ingested_at = now;
        cached_until = none;
        pending_hash = none;
      })

  abbrev pub ingest_new :
      World Uuid S
      → String
      → ℕ
      → Fault
      → Outcome (DataSource Uuid)
      → World Uuid S × Outcome (IngestionResult Uuid)
  ingest_new w content now fault (raise e) = (w, raise e)
  ingest_new w content now fault (ok source) = finish w source content true true now fault

  unfoldable pub ingest_found :
      World Uuid S
      → ℕ
      → DataSourceProfile
      → String
      → ℕ
      → Option ℕ
      → Fault
      → Option (DataSource Uuid)
      → World Uuid S × Outcome (IngestionResult Uuid)
  ingest_found w tenant_id profile content now user_id fault none =
      ingest_new w content now fault
        (new_source tenant_id profile (settings.content_hash content) now user_id)
  ingest_found w tenant_id profile content now user_id fault (some existing) =
      ingest_known w existing content now fault

  -- `IngestDataSource.execute`
  unfoldable pub ingest :
      World Uuid S
      → ℕ
      → DataSourceProfile
      → String
      → ℕ
      → Option ℕ
      → Fault
      → World Uuid S × Outcome (IngestionResult Uuid)
  ingest w tenant_id profile content now user_id fault =
      if agree (is_user profile.scope) (is_some user_id)
      then ingest_found w tenant_id profile content now user_id fault
          (get w.tables tenant_id profile.source_key user_id)
      else (w, raise scope_mismatch)
