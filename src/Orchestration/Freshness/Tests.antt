-- ===== src/Orchestration/Freshness/Tests.antt =====
-- The freshness router on concrete sources.
use ai_augmented_generation.Prelude.{◌≡◌, refl, ℕ, ◌≤◌, max, none, some, [], ◌∷◌, arith}
use ai_augmented_generation.Prelude.Sort.{place, sorted_desc}
use ai_augmented_generation.Orchestration.Freshness.{
  tenant, rag_only, cag_with_rag_backup, FreshnessPolicy, DataSource, DataSourceProfile, route_for,
  divide_timedelta, last_of, observed_change_interval, last_times, until, decide_for,
  decide_migration, min_interval,
}
use ai_augmented_generation.Orchestration.Freshness.Laws.{decide_migration_stable}
use ai_augmented_generation.Orchestration.Freshness.Intervals.{demotion_bounds}

-- A boundary of two seconds, and the other defaults.
abbrev policy : FreshnessPolicy ℕ
policy = record {
  volatile_below = 2000000;
  demote_after_changes = 3;
  promote_after_quiet_multiple = 7;
  ttl_factor = none;
}

abbrev source : DataSource ℕ
source = record {
  id = 1;
  tenant_id = 1;
  user_id = none;
  source_key = "prices";
  scope = tenant;
  expected_change_interval = 5000000;
  route = cag_with_rag_backup;
  content_hash = "h";
  last_changed_at = 0;
  last_ingested_at = 0;
  cached_until = none;
  pending_hash = none;
}

abbrev profile : ℕ → DataSourceProfile
profile interval = record {
  source_key = "prices";
  scope = tenant;
  expected_change_interval = interval;
}

-- The four last versions are too far apart.
calm : decide_migration policy source (100 ∷ 9000000 ∷ 5000000 ∷ 3000000 ∷ []) 9000000 ≡ none
unfolding decide_migration decide_for last_times until sorted_desc place observed_change_interval
    divide_timedelta last_of
calm = refl

busy :
    decide_migration policy source (5000000 ∷ 9000000 ∷ 7000000 ∷ 4000000 ∷ []) 9000000
    ≡ some (record { to_route = rag_only; interval = 1666667 })
unfolding decide_migration decide_for last_times until sorted_desc place observed_change_interval
    divide_timedelta last_of
busy = refl

quiet :
    decide_migration policy (record source { route = rag_only }) (1 ∷ 2 ∷ []) 14000002
    ≡ some (record { to_route = cag_with_rag_backup; interval = 14000000 })
unfolding decide_migration decide_for last_times until sorted_desc place observed_change_interval
    divide_timedelta last_of
quiet = refl

-- A mean gap that is a third of a microsecond under the boundary is rounded up to it, and the
-- interval that is learned routes back to the cache.
rounded :
    decide_migration policy source (3000001 ∷ 5000000 ∷ 7000000 ∷ 9000000 ∷ []) 9000000
    ≡ some (record { to_route = rag_only; interval = 2000000 })
unfolding decide_migration decide_for last_times until sorted_desc place observed_change_interval
    divide_timedelta last_of
rounded = refl

routed_back : route_for (profile 2000000) policy ≡ cag_with_rag_backup
unfolding route_for
routed_back = refl

decide_migration_stable_example :
    decide_migration policy
      (record source { route = rag_only })
      (5000000 ∷ 9000000 ∷ 7000000 ∷ 4000000 ∷ [])
      9000000
    ≡ none
decide_migration_stable_example =
    decide_migration_stable policy (omega arith) source (5000000 ∷ 9000000 ∷ 7000000 ∷ 4000000 ∷ [])
      9000000 (record { to_route = rag_only; interval = 1666667 }) busy

demotion_bounds_example : 1666667 ≤ max 2000000 min_interval
demotion_bounds_example =
    demotion_bounds policy (omega arith) source (5000000 ∷ 9000000 ∷ 7000000 ∷ 4000000 ∷ []) 9000000
      (record { to_route = rag_only; interval = 1666667 }) refl busy
