-- ===== src/Orchestration/Cascade/Tests.antt =====
-- The cascade on concrete replies.
use ai_augmented_generation.Prelude.{◌≡◌, refl, ℕ, ◌⊎◌, true, none, some, [], ◌∷◌, All}
use ai_augmented_generation.Orchestration.Entities.{
  Paradigm, cag, mag, rag, paradigm_order, cascade, hit, miss,
}
use ai_augmented_generation.Orchestration.Cascade.{
  Reply, answered, timed_out, RoutingDecision, attempt, add, try_tier, run_unrouted, all_in,
  run_routed, eligible, run_mode, run,
}
use ai_augmented_generation.Orchestration.Cascade.Laws.{
  IsTold, IsEligible, is_reportable, tried, run-IsTold, run_scope, run_settles,
}

-- The memory times out, and the documents are a hit.
abbrev slow_memory : Paradigm → Reply ℕ
slow_memory cag = answered (record { outcome = miss; items = [] })
slow_memory mag = timed_out
slow_memory rag = answered (record { outcome = hit; items = [] })

abbrev memory_first : RoutingDecision
memory_first = record { paradigms = mag ∷ []; mode = cascade }

abbrev documents_only : RoutingDecision
documents_only = record { paradigms = rag ∷ []; mode = cascade }

unrouted_example : tried slow_memory (run slow_memory paradigm_order none) ≡ cag ∷ mag ∷ rag ∷ []
unfolding run run_unrouted try_tier attempt add
unrouted_example = refl

routed_example :
    tried slow_memory (run slow_memory paradigm_order (some memory_first)) ≡ mag ∷ rag ∷ []
unfolding run run_mode run_routed eligible all_in try_tier attempt add
routed_example = refl

degraded_example : (run slow_memory paradigm_order (some memory_first)).degraded ≡ true
unfolding run run_mode run_routed eligible all_in try_tier attempt add
degraded_example = refl

documents_example : (run slow_memory paradigm_order (some documents_only)).satisfied ≡ rag ∷ []
unfolding run run_mode run_routed eligible all_in try_tier attempt add
documents_example = refl

slow_memory_reportable : (p : Paradigm) → is_reportable slow_memory (slow_memory p) ≡ true
slow_memory_reportable cag = refl
slow_memory_reportable mag = refl
slow_memory_reportable rag = refl

run-IsTold_example : IsTold slow_memory (run slow_memory paradigm_order none)
run-IsTold_example = run-IsTold slow_memory slow_memory_reportable paradigm_order none

run_scope_example :
    All
      (λ a. IsEligible paradigm_order (mag ∷ []) a.paradigm)
      (run slow_memory paradigm_order (some memory_first)).attempts
run_scope_example = run_scope slow_memory paradigm_order memory_first

run_settles_example :
    (all_in (mag ∷ []) (run slow_memory paradigm_order (some memory_first)).satisfied ≡ true)
    ⊎ (tried slow_memory (run slow_memory paradigm_order (some memory_first))
        ≡ eligible paradigm_order (mag ∷ []) paradigm_order)
run_settles_example = run_settles slow_memory paradigm_order memory_first
