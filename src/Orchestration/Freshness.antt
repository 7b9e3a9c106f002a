-- ===== src/Orchestration/Freshness.antt =====
-- src/orchestration/domain/freshness_router.py, and the data sources of
-- src/orchestration/domain/entities.py. A time is a number of microseconds since the first
-- datetime, and a timedelta a number of them; a subtraction on one side of a comparison is an
-- addition on the other. `Uuid` is the type of UUIDs, `F` that of floats.
pub mod Laws
mod Intervals
mod Tests
use ai_augmented_generation.Prelude.{
  ℕ, ◌+◌, ◌-◌, ◌*◌, ◌/◌, ◌%◌, max, String, Bool, true, false, Option, none, some, List, [], ◌∷◌,
  ltb, leb, ◌==◌, nat_eq, if◌then◌else◌, length, drop,
}
use ai_augmented_generation.Prelude.Sort.{sorted_desc}

pub data SourceScope : Type 0 where
  tenant user : SourceScope

pub data IngestionRoute : Type 0 where
  rag_only cag_with_rag_backup mag : IngestionRoute

pub record DataSourceProfile : Type 0 where
  pub source_key : String
  pub scope : SourceScope
  pub expected_change_interval : ℕ

pub record FreshnessPolicy (F : Type 0) : Type 0 where
  pub volatile_below : ℕ
  pub demote_after_changes : ℕ
  pub promote_after_quiet_multiple : ℕ
  pub ttl_factor : Option F

pub record DataSource (Uuid : Type 0) : Type 0 where
  pub id : Uuid
  pub tenant_id : ℕ
  pub user_id : Option ℕ
  pub source_key : String
  pub scope : SourceScope
  pub expected_change_interval : ℕ
  pub route : IngestionRoute
  pub content_hash : String
  pub last_changed_at : ℕ
  pub last_ingested_at : ℕ
  pub cached_until : Option ℕ
  pub pending_hash : Option String

pub record MigrationDecision : Type 0 where
  pub to_route : IngestionRoute
  pub interval : ℕ

-- `_MIN_INTERVAL`
abbrev pub min_interval : ℕ
min_interval = 1000000

abbrev pub route_by_interval : SourceScope → ℕ → ℕ → IngestionRoute
route_by_interval user interval volatile_below = mag
route_by_interval tenant interval volatile_below =
    if ltb interval volatile_below then rag_only else cag_with_rag_backup

module _ {F : Type 0} where
  unfoldable pub route_for : DataSourceProfile → FreshnessPolicy F → IngestionRoute
  route_for profile policy =
      route_by_interval profile.scope profile.expected_change_interval policy.volatile_below

  -- `interval * policy.ttl_factor`; `scale` multiplies a timedelta by a float.
  abbrev pub scaled : (ℕ → F → ℕ) → ℕ → Option F → Option ℕ
  scaled scale interval none = none
  scaled scale interval (some factor) = some (scale interval factor)

  unfoldable pub cache_ttl : (ℕ → F → ℕ) → ℕ → FreshnessPolicy F → Option ℕ
  cache_ttl scale interval policy = scaled scale interval policy.ttl_factor

-- A timedelta over an int, rounded to the nearest, and half to the even.
pub divide_timedelta : ℕ → ℕ → ℕ
divide_timedelta a n =
    let q = a / n in
    let r = a % n in if ltb (2 * r) n then q else if ltb n (2 * r) then q + 1 else q + q % 2

-- `sorted(times)`
abbrev pub in_order : List ℕ → List ℕ
in_order times = sorted_desc ltb times

-- `times[-1]`, where there is a first
pub last_of : ℕ → List ℕ → ℕ
last_of t [] = t
last_of t (t' ∷ times) = last_of t' times

abbrev pub mean_gap : List ℕ → Option ℕ
mean_gap [] = none
mean_gap (t ∷ []) = none
mean_gap (t ∷ t' ∷ times) =
    some (divide_timedelta (last_of t (t' ∷ times) - t) (length (t' ∷ times)))

pub observed_change_interval : List ℕ → Option ℕ
observed_change_interval times = mean_gap (in_order times)

-- `history[-needed:]`
pub last_times : ℕ → List ℕ → List ℕ
last_times needed history = drop (length history - needed) history

-- `t for t in version_times if t <= now`
pub until : ℕ → List ℕ → List ℕ
until now [] = []
until now (t ∷ times) = if leb t now then t ∷ until now times else until now times

-- the decision to demote, with the interval that was observed
abbrev pub demotion : Option ℕ → Option MigrationDecision
demotion none = none
demotion (some interval) =
    some (record { to_route = rag_only; interval = max interval min_interval })

abbrev pub demote_recent : ℕ → ℕ → ℕ → List ℕ → Option MigrationDecision
demote_recent needed window now [] = none
demote_recent needed window now (t ∷ times) =
    if ltb (length (t ∷ times)) needed
    then none
    else if leb (t + window) now
    then none
    else demotion (observed_change_interval (t ∷ times))

abbrev pub promote_quiet : ℕ → ℕ → List ℕ → Option MigrationDecision
promote_quiet window now [] = none
promote_quiet window now (t ∷ times) =
    let quiet = now - last_of t times in
    if leb window quiet
    then some (record { to_route = cag_with_rag_backup; interval = quiet })
    else none

module _ {F : Type 0} (policy : FreshnessPolicy F) where
  pub decide_for : IngestionRoute → List ℕ → ℕ → Option MigrationDecision
  decide_for mag history now = none
  decide_for cag_with_rag_backup history now =
      demote_recent (policy.demote_after_changes + 1)
        (policy.volatile_below * policy.demote_after_changes) now
        (last_times (policy.demote_after_changes + 1) history)
  decide_for rag_only history now =
      promote_quiet (policy.volatile_below * policy.promote_after_quiet_multiple) now history

  pub decide_migration : {Uuid : Type 0} → DataSource Uuid → List ℕ → ℕ → Option MigrationDecision
  decide_migration source version_times now =
      decide_for source.route (in_order (until now version_times)) now
