-- ===== src/Orchestration/AccessCounter.antt =====
-- src/orchestration/infrastructure/_sliding_window_counter.py: how often a key was accessed within
-- a window of time. A time is the number of ticks since the first datetime, and `cutoff <= at` is
-- written without a subtraction.
pub mod Laws
pub mod Runs
mod Tests
use ai_augmented_generation.Prelude.{
  ℕ, ◌+◌, Bool, true, false, ◌&&◌, Option, none, some, List, [], ◌∷◌, ◌++◌, map, leb, Eq,
  if◌then◌else◌,
}
use ai_augmented_generation.Prelude.Dict.{Dict, lookup, insert, remove}

-- `[at for at in events if at >= now - retention]`
unfoldable pub retained : ℕ → ℕ → List ℕ → List ℕ
retained retention now [] = []
retained retention now (at ∷ events) =
    let rest = retained retention now events in if leb now (at + retention) then at ∷ rest else rest

-- `sum(1 for at in events if now - window <= at <= now)`
unfoldable pub count_events : ℕ → ℕ → List ℕ → ℕ
count_events window now [] = 0
count_events window now (at ∷ events) =
    (if leb now (at + window) && leb at now then 1 else 0) + count_events window now events

abbrev pub or_empty : Option (List ℕ) → List ℕ
or_empty none = []
or_empty (some events) = events

module _ {K : Type 0} ⦃keys_eq : Eq K⦄ where
  -- `self._events.get(key, [])`, and what the defaultdict gives
  unfoldable pub events_of : K → Dict K (List ℕ) → List ℕ
  events_of k d = or_empty (lookup k d)

  -- `if kept: … else: …`
  unfoldable pub keep : Dict K (List ℕ) → K → List ℕ → Dict K (List ℕ)
  keep d k [] = remove k d
  keep d k (at ∷ events) = insert k (at ∷ events) d

  unfoldable pub prune_found : ℕ → Dict K (List ℕ) → K → ℕ → Option (List ℕ) → Dict K (List ℕ)
  prune_found retention d k now none = d
  prune_found retention d k now (some events) = keep d k (retained retention now events)

  -- `_prune`
  unfoldable pub prune : ℕ → Dict K (List ℕ) → K → ℕ → Dict K (List ℕ)
  prune retention d k now = prune_found retention d k now (lookup k d)

  -- `record`
  pub record_event : ℕ → Dict K (List ℕ) → K → ℕ → Dict K (List ℕ)
  record_event retention d k at = prune retention (insert k (events_of k d ++ at ∷ []) d) k at

  unfoldable pub count : ℕ → Dict K (List ℕ) → K → ℕ → ℕ → Dict K (List ℕ) × ℕ
  count retention d k window now =
      let pruned = prune retention d k now in (pruned, count_events window now (events_of k pruned))

-- `keys`
unfoldable pub keys : {K : Type 0} → Dict K (List ℕ) → List K
keys [] = []
keys ((k, events) ∷ d) = k ∷ keys d
