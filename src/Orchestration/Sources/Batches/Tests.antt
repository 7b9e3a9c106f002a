-- ===== src/Orchestration/Sources/Batches/Tests.antt =====
-- The batch jobs on the sources of Ingestion/Tests.
use ai_augmented_generation.Prelude.{
  ◌≡◌, ◌⊎◌, refl, true, false, none, some, List, [], ◌∷◌, take, nat_eq, string_eq, pair_eq,
  option_eq,
}
use ai_augmented_generation.Prelude.Dict.{lookup, insert, remove, IsDistinct}
use ai_augmented_generation.Orchestration.Stores.{hf_view}
use ai_augmented_generation.Orchestration.Stores.Expiring.{
  evict, contains, contains_kept, expire_if_due, preload_until, begin_preload, finish_preload,
}
use ai_augmented_generation.Orchestration.Freshness.{
  DataSource, tenant, cag_with_rag_backup, route_for, cache_ttl,
}
use ai_augmented_generation.Orchestration.Sources.{
  get, find_row, save, mark_pending, list_sources, rows_of, current_content, last_content,
  record_cached_until,
}
use ai_augmented_generation.Orchestration.Sources.Ingestion.{
  nothing_fails, effects_fail, ingest, ingest_found, ingest_known, new_source, finish, apply_route,
  break_off, drop_cached, expires_at, is_mag,
}
use ai_augmented_generation.Orchestration.Sources.Batches.{
  refresh, refresh_all, refresh_source, refresh_uncached, preload_current, preload_source,
}
use ai_augmented_generation.Orchestration.Sources.Ingestion.Tests.{
  added, added_consistent, Key, key, settings, cache, hit, cache_laws, hash_of, empty, prices, Good,
  empty_consistent, keys_differ,
}
use ai_augmented_generation.Orchestration.Sources.Batches.Jobs.{
  Job, ingested, refreshed, reviewed, after_job, after_jobs, after_jobs-Consistent,
}
use ai_augmented_generation.Orchestration.Sources.Ingestion.Changes.{HoldsText}
use ai_augmented_generation.Orchestration.Sources.Batches.Failures.{Waits, failed_change-Waits}
use ai_augmented_generation.Orchestration.Sources.Batches.Successes.{Records, ingest-Records}

-- A price is added and cached, and changes while RAG fails; what is cached stays until the change
-- is applied, and the new text is cached then.
abbrev jobs : List Job
jobs =
    ingested 1 prices "ten" 5 none nothing_fails
    ∷ refreshed 1 6
    ∷ ingested 1 prices "eleven" 9 none (effects_fail none false)
    ∷ refreshed 1 10
    ∷ ingested 1 prices "eleven" 11 none nothing_fails
    ∷ refreshed 1 12
    ∷ reviewed 1 13
    ∷ []

after_jobs-Consistent_example : Good (after_jobs settings cache empty jobs)
after_jobs-Consistent_example =
    after_jobs-Consistent settings cache hit IsDistinct hf_view cache_laws hash_of (λ text. refl)
      keys_differ empty jobs empty_consistent

cached_first :
    lookup (1, key 1 "prices" none) (after_jobs settings cache empty (take 2 jobs)).cache.inner
    ≡ some (hit "ten")
unfolding after_jobs after_job ingest ingest_found ingest_known new_source finish apply_route
    break_off drop_cached get find_row save mark_pending lookup insert remove evict route_for
    refresh refresh_all refresh_source refresh_uncached preload_current preload_source list_sources
    rows_of current_content last_content record_cached_until contains contains_kept expire_if_due
    expires_at cache_ttl preload_until begin_preload finish_preload
cached_first = refl

kept_while_pending :
    lookup (1, key 1 "prices" none) (after_jobs settings cache empty (take 4 jobs)).cache.inner
    ≡ some (hit "ten")
unfolding after_jobs after_job ingest ingest_found ingest_known new_source finish apply_route
    break_off drop_cached get find_row save mark_pending lookup insert remove evict route_for
    refresh refresh_all refresh_source refresh_uncached preload_current preload_source list_sources
    rows_of current_content last_content record_cached_until contains contains_kept expire_if_due
    expires_at cache_ttl preload_until begin_preload finish_preload
kept_while_pending = refl

cached_last :
    lookup (1, key 1 "prices" none) (after_jobs settings cache empty (take 6 jobs)).cache.inner
    ≡ some (hit "eleven")
unfolding after_jobs after_job ingest ingest_found ingest_known new_source finish apply_route
    break_off drop_cached get find_row save mark_pending lookup insert remove evict route_for
    refresh refresh_all refresh_source refresh_uncached preload_current preload_source list_sources
    rows_of current_content last_content record_cached_until contains contains_kept expire_if_due
    expires_at cache_ttl preload_until begin_preload finish_preload
cached_last = refl

abbrev row : DataSource Key
row = record {
  id = key 1 "prices" none;
  tenant_id = 1;
  user_id = none;
  source_key = "prices";
  scope = tenant;
  expected_change_interval = 200;
  route = cag_with_rag_backup;
  content_hash = "ten";
  last_changed_at = 5;
  last_ingested_at = 5;
  cached_until = none;
  pending_hash = none;
}

added_row : get added.tables 1 "prices" none ≡ some row
unfolding ingest ingest_found new_source finish apply_route drop_cached get find_row save lookup
    insert remove evict route_for
added_row = refl

failed_change-Waits_example :
    let r = ingest settings cache added 1 prices "eleven" 9 none (effects_fail none true) in
    Waits settings cache hit IsDistinct hf_view cache_laws hash_of "eleven" row (r.0) (r.1)
failed_change-Waits_example =
    failed_change-Waits settings cache hit IsDistinct hf_view cache_laws hash_of "eleven" row added
      1 prices 9 none (effects_fail none true) added_consistent tt refl added_row refl

ingest-Records_example :
    let (w', outcome) = ingest settings cache added 1 prices "eleven" 9 none nothing_fails in
    Records settings cache hit IsDistinct hf_view cache_laws hash_of "eleven" 9 row (w', outcome)
    × ((is_mag row.route ≡ true)
        ⊎ HoldsText settings cache hit IsDistinct hf_view cache_laws hash_of
            (lookup (row.tenant_id, row.id) w'.rag)
            (settings.content_hash "eleven"))
ingest-Records_example =
    ingest-Records settings cache hit IsDistinct hf_view cache_laws hash_of "eleven" 9 row
      keys_differ added 1 prices none added_consistent refl added_row
