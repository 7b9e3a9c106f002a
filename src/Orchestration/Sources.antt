-- ===== src/Orchestration/Sources.antt =====
-- src/orchestration/infrastructure/postgres_data_source_repository.py: the two tables, and what
-- each statement does to their rows. Row-level security, and the order of list_sources, are left
-- out.
pub mod Ingestion
mod Batches
use ai_augmented_generation.Prelude.{
  ℕ, String, Bool, true, false, ◌&&◌, Option, none, some, List, [], ◌∷◌, ◌++◌, Eq, nat_eq,
  string_eq, ◌==◌, if◌then◌else◌,
}
use ai_augmented_generation.Prelude.Dict.{Dict, lookup, insert}
use ai_augmented_generation.Orchestration.Freshness.{DataSource, IngestionRoute, in_order}

-- `SourceVersion`, as a row
pub record SourceVersion (Uuid : Type 0) : Type 0 where
  pub data_source_id : Uuid
  pub tenant_id : ℕ
  pub content_hash : String
  pub content : Option String
  pub ingested_at : ℕ

pub record Tables (Uuid : Type 0) : Type 0 where
  pub data_sources : Dict Uuid (DataSource Uuid)
  pub data_source_versions : List (SourceVersion Uuid)

-- `IS NOT DISTINCT FROM`
abbrev pub same_user : Option ℕ → Option ℕ → Bool
same_user none none = true
same_user (some a) (some b) = a == b
same_user _ _ = false

-- `pending_content_hash IS NULL`
abbrev pub is_null : Option String → Bool
is_null none = true
is_null (some h) = false

abbrev pub or_else : Option String → Option String → Option String
or_else none found = found
or_else (some content) found = some content

module _ {Uuid : Type 0} where
  pub find_row : ℕ → String → Option ℕ → Dict Uuid (DataSource Uuid) → Option (DataSource Uuid)
  find_row tenant_id source_key user_id [] = none
  find_row tenant_id source_key user_id ((i, row) ∷ rows) =
      if (row.tenant_id == tenant_id)
        && (row.source_key == source_key)
        && same_user row.user_id user_id
      then some row
      else find_row tenant_id source_key user_id rows

  pub get : Tables Uuid → ℕ → String → Option ℕ → Option (DataSource Uuid)
  get t tenant_id source_key user_id = find_row tenant_id source_key user_id t.data_sources

  abbrev pub add_version :
      List (SourceVersion Uuid) → Option (SourceVersion Uuid) → List (SourceVersion Uuid)
  add_version versions none = versions
  add_version versions (some version) = versions ++ version ∷ []

module _ {Uuid : Type 0} ⦃ids : Eq Uuid⦄ where
  -- `INSERT … ON CONFLICT (id) DO UPDATE`: of an old row the route and the interval stay.
  abbrev pub upserted : DataSource Uuid → Option (DataSource Uuid) → DataSource Uuid
  upserted source none = source
  upserted source (some row) = record row {
    content_hash = source.content_hash;
    last_changed_at = source.last_changed_at;
    last_ingested_at = source.last_ingested_at;
    cached_until = source.cached_until;
    pending_hash = source.pending_hash;
  }

  pub save : Tables Uuid → DataSource Uuid → Option (SourceVersion Uuid) → Tables Uuid
  save t source version = record {
    data_sources =
        insert source.id (upserted source (lookup source.id t.data_sources)) t.data_sources;
    data_source_versions = add_version t.data_source_versions version;
  }

  abbrev pub pending_row : Tables Uuid → Uuid → ℕ → String → Option (DataSource Uuid) → Tables Uuid
  pending_row t i tenant_id hash none = t
  pending_row t i tenant_id hash (some row) =
      if row.tenant_id == tenant_id
      then record t {
        data_sources = insert i (record row { pending_hash = some hash }) t.data_sources;
      }
      else t

  pub mark_pending : Tables Uuid → ℕ → Uuid → String → Tables Uuid
  mark_pending t tenant_id i hash = pending_row t i tenant_id hash (lookup i t.data_sources)

  -- `_UNCHANGED`
  abbrev pub is_unchanged : ℕ → String → DataSource Uuid → Bool
  is_unchanged tenant_id expected_hash row =
      (row.tenant_id == tenant_id)
      && (row.content_hash == expected_hash)
      && is_null row.pending_hash

  abbrev pub cached_row :
      Tables Uuid → Uuid → ℕ → String → Option ℕ → Option (DataSource Uuid) → Tables Uuid × Bool
  cached_row t i tenant_id expected_hash cached_until none = (t, false)
  cached_row t i tenant_id expected_hash cached_until (some row) =
      if is_unchanged tenant_id expected_hash row
      then (
        record t {
          data_sources = insert i (record row { cached_until = cached_until }) t.data_sources;
        },
        true,
      )
      else (t, false)

  pub record_cached_until : Tables Uuid → ℕ → Uuid → String → Option ℕ → Tables Uuid × Bool
  record_cached_until t tenant_id i expected_hash cached_until =
      cached_row t i tenant_id expected_hash cached_until (lookup i t.data_sources)

  abbrev pub migrated_row :
      Tables Uuid
      → Uuid
      → ℕ
      → String
      → IngestionRoute
      → ℕ
      → Option ℕ
      → Option (DataSource Uuid)
      → Tables Uuid × Bool
  migrated_row t i tenant_id expected_hash route interval cached_until none = (t, false)
  migrated_row t i tenant_id expected_hash route interval cached_until (some row) =
      if is_unchanged tenant_id expected_hash row
      then (
        record t {
          data_sources =
              insert i
                (record row {
                  route = route;
                  expected_change_interval = interval;
                  cached_until = cached_until;
                })
                t.data_sources;
        },
        true,
      )
      else (t, false)

  pub migrate : Tables Uuid → ℕ → Uuid → String → IngestionRoute → ℕ → Option ℕ → Tables Uuid × Bool
  migrate t tenant_id i expected_hash route interval cached_until =
      migrated_row t i tenant_id expected_hash route interval cached_until (lookup i t.data_sources)

  abbrev pub is_of : ℕ → Uuid → SourceVersion Uuid → Bool
  is_of tenant_id i version = (version.tenant_id == tenant_id) && (version.data_source_id == i)

  pub times_of : ℕ → Uuid → List (SourceVersion Uuid) → List ℕ
  times_of tenant_id i [] = []
  times_of tenant_id i (version ∷ versions) =
      if is_of tenant_id i version
      then version.ingested_at ∷ times_of tenant_id i versions
      else times_of tenant_id i versions

  pub version_times : Tables Uuid → ℕ → Uuid → List ℕ
  version_times t tenant_id i = in_order (times_of tenant_id i t.data_source_versions)

  -- the content of the last version that has one
  pub last_content : ℕ → Uuid → Option String → List (SourceVersion Uuid) → Option String
  last_content tenant_id i found [] = found
  last_content tenant_id i found (version ∷ versions) =
      last_content tenant_id i
        (if is_of tenant_id i version then or_else version.content found else found) versions

  pub current_content : Tables Uuid → ℕ → Uuid → Option String
  current_content t tenant_id i = last_content tenant_id i none t.data_source_versions

module _ {Uuid : Type 0} where
  pub rows_of : ℕ → Dict Uuid (DataSource Uuid) → List (DataSource Uuid)
  rows_of tenant_id [] = []
  rows_of tenant_id ((i, row) ∷ rows) =
      if row.tenant_id == tenant_id then row ∷ rows_of tenant_id rows else rows_of tenant_id rows

  pub list_sources : Tables Uuid → ℕ → List (DataSource Uuid)
  list_sources t tenant_id = rows_of tenant_id t.data_sources
