-- ===== src/Orchestration/Cascade.antt =====
-- src/orchestration/application/latency_cascade.py: which tiers a query tries, and what is
-- collected of them. What a tier does within its timeout is the parameter `replies`. The elapsed
-- times, the access tracker and what goes on in the background after the answer are left out, and
-- so is the cancellation of the whole run.
pub mod Laws
mod Tests
use ai_augmented_generation.Prelude.{
  Bool, true, false, not, ◌&&◌, ◌||◌, Option, none, some, List, [], ◌∷◌, ◌++◌, if◌then◌else◌,
}
use ai_augmented_generation.Orchestration.Entities.{
  Paradigm, cag, mag, rag, paradigm_order, same, contains, RoutingMode, cascade, parallel,
  TierOutcome, hit, partial, miss, timeout, error, ContextItem,
}

pub record TierResult (F : Type 0) : Type 0 where
  pub outcome : TierOutcome
  pub items : List (ContextItem F)

-- `TierAttempt`, but for the time
pub record TierAttempt : Type 0 where
  pub paradigm : Paradigm
  pub outcome : TierOutcome

-- What comes of waiting for a tier: its result, a timeout, or an exception.
pub data Reply (F : Type 0) : Type 0 where
  answered : TierResult F → Reply F
  timed_out raised : Reply F

-- `RoutingDecision`, but for the scores
pub record RoutingDecision : Type 0 where
  pub paradigms : List Paradigm
  pub mode : RoutingMode

-- `_Collector`, and the `CascadeResult` that it makes
pub record Collector (F : Type 0) : Type 0 where
  pub items : List (ContextItem F)
  pub attempts : List TierAttempt
  pub satisfied : List Paradigm
  pub degraded : Bool

abbrev pub is_hit : TierOutcome → Bool
is_hit hit = true
is_hit partial = false
is_hit miss = false
is_hit timeout = false
is_hit error = false

-- `routed <= collector.satisfied`
pub all_in : List Paradigm → List Paradigm → Bool
all_in [] satisfied = true
all_in (p ∷ ps) satisfied = contains satisfied p && all_in ps satisfied

-- `[p for p in PARADIGM_ORDER if p in self._tiers and (p in decision.paradigms or p is RAG)]`
pub eligible : List Paradigm → List Paradigm → List Paradigm → List Paradigm
eligible tiers routed [] = []
eligible tiers routed (p ∷ ps) =
    let rest = eligible tiers routed ps in
    if contains tiers p && (contains routed p || same p rag) then p ∷ rest else rest

module _ {F : Type 0} where
  abbrev pub nothing : Collector F
  nothing = record { items = []; attempts = []; satisfied = []; degraded = false }

  -- `_attempt`
  pub attempt : Paradigm → Reply F → TierAttempt × Option (TierResult F)
  attempt p (answered result) = (record { paradigm = p; outcome = result.outcome }, some result)
  attempt p timed_out = (record { paradigm = p; outcome = timeout }, none)
  attempt p raised = (record { paradigm = p; outcome = error }, none)

  -- `_Collector.add`
  pub add : Collector F → TierAttempt → Option (TierResult F) → Collector F
  add c a none = record c { attempts = c.attempts ++ a ∷ []; degraded = true }
  add c a (some result) = record c {
    attempts = c.attempts ++ a ∷ [];
    items = c.items ++ result.items;
    satisfied = if is_hit result.outcome then a.paradigm ∷ c.satisfied else c.satisfied;
  }

  pub try_tier : (Paradigm → Reply F) → Collector F → Paradigm → Collector F
  try_tier replies c p = let (a, result) = attempt p (replies p) in add c a result

  abbrev pub is_hit_reply : Reply F → Bool
  is_hit_reply (answered result) = is_hit result.outcome
  is_hit_reply timed_out = false
  is_hit_reply raised = false

  -- `_run_unrouted`, over the rest of the order
  pub run_unrouted :
      (Paradigm → Reply F) → List Paradigm → List Paradigm → Collector F → Collector F
  run_unrouted replies tiers [] c = c
  run_unrouted replies tiers (p ∷ ps) c =
      let skipped = run_unrouted replies tiers ps c in
      let tried = try_tier replies c p in
      let further = run_unrouted replies tiers ps tried in
      if contains tiers p then (if is_hit_reply (replies p) then tried else further) else skipped

  -- `_run_routed`, over the rest of the eligible paradigms
  pub run_routed : (Paradigm → Reply F) → List Paradigm → List Paradigm → Collector F → Collector F
  run_routed replies routed [] c = c
  run_routed replies routed (p ∷ ps) c =
      let further = run_routed replies routed ps (try_tier replies c p) in
      if all_in routed c.satisfied then c else further

  -- `_run_parallel`: the outcomes are added in the order of the eligible paradigms
  pub run_parallel : (Paradigm → Reply F) → List Paradigm → Collector F → Collector F
  run_parallel replies [] c = c
  run_parallel replies (p ∷ ps) c = run_parallel replies ps (try_tier replies c p)

  pub run_mode : (Paradigm → Reply F) → List Paradigm → RoutingMode → List Paradigm → Collector F
  run_mode replies routed parallel ps = run_parallel replies ps nothing
  run_mode replies routed cascade ps = run_routed replies routed ps nothing

  -- `LatencyCascade.run`, where `tiers` are the paradigms that have one
  pub run : (Paradigm → Reply F) → List Paradigm → Option RoutingDecision → Collector F
  run replies tiers none = run_unrouted replies tiers paradigm_order nothing
  run replies tiers (some decision) =
      run_mode replies decision.paradigms decision.mode
        (eligible tiers decision.paradigms paradigm_order)
