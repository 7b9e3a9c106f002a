-- ===== src/Orchestration/Tiering/Tests.antt =====
-- The policies on a concrete history.
use ai_augmented_generation.Prelude.{
  ◌≡◌, refl, ℕ, String, true, false, List, [], ◌∷◌, ok, raise, value_error, arith, nat_eq, pair_eq,
}
use ai_augmented_generation.Prelude.Dict.{Dict, IsDistinct, lookup, insert}
use ai_augmented_generation.Prelude.Sort.{sorted_desc, place}
use ai_augmented_generation.Orchestration.AccessCounter.{
  count_events, count, keys, prune, prune_found, keep, events_of, retained,
}
use ai_augmented_generation.Orchestration.AccessCounter.Laws.{Call, recorded}
use ai_augmented_generation.Orchestration.AccessCounter.Runs.{after_calls, accesses}
use ai_augmented_generation.Orchestration.Stores.{
  Store, IsStore, CacheHit, hit_of, hf_store, hf_view, hf_store-IsStore,
}
use ai_augmented_generation.Orchestration.Tiering.{
  TierDecision, promoted, demoted, SharedKey, decide, evaluate, accessed, user_counts_of,
  user_most_accessed,
}
use ai_augmented_generation.Orchestration.Tiering.Laws.{Settles}
use ai_augmented_generation.Orchestration.Tiering.Policies.{evaluate-Settles}

abbrev same_text : String → String
same_text t = t

abbrev no_prefill : String → ℕ
no_prefill t = 0

abbrev shared_cache : Store SharedKey (Dict SharedKey (CacheHit ℕ)) (CacheHit ℕ)
shared_cache = hf_store same_text no_prefill

abbrev shared_laws : IsStore shared_cache (hit_of same_text no_prefill) IsDistinct hf_view
shared_laws = hf_store-IsStore same_text no_prefill

-- Tenant 1 accesses the document 7 twice.
abbrev visits : List (Call SharedKey)
visits = recorded (1, 7) 4 ∷ recorded (2, 7) 5 ∷ recorded (1, 7) 6 ∷ []

abbrev texts : ℕ → String
texts document_id = "text"

promotes : (decide shared_cache [] (1, 7) "text" 2 1 3 false).1 ≡ promoted
unfolding decide
promotes = refl

demotes :
    (decide shared_cache
      (((1, 7), hit_of same_text no_prefill "text") ∷ [])
      (1, 7)
      "text"
      2
      1
      0
      true).1
    ≡ demoted
unfolding decide
demotes = refl

refuses : evaluate shared_cache 30 [] [] 1 7 texts 1 2 10 8 ≡ raise value_error
unfolding evaluate
refuses = refl

evaluate-Settles_example :
    (result : (Dict SharedKey (List ℕ) × Dict SharedKey (CacheHit ℕ)) × TierDecision) × (evaluate
        shared_cache 30
        (after_calls 30 [] visits)
        []
        1
        7
        texts
        2
        1
        10
        8
      ≡ ok result)
    × Settles shared_cache
        (hit_of same_text no_prefill)
        IsDistinct
        hf_view
        shared_laws
        2
        1
        (count_events 10 8 (accesses (1, 7) visits))
        (1, 7)
        "text"
        []
        (result.0.1, result.1)
evaluate-Settles_example =
    evaluate-Settles 30 10 8 2 1 (omega arith) (omega arith) shared_cache
      (hit_of same_text no_prefill) IsDistinct hf_view shared_laws visits [] 1 7 texts
      (omega arith, (omega arith, (omega arith, tt))) tt

user_ranking :
    (user_most_accessed 30
      (((1, (3, 7)), 4 ∷ []) ∷ ((1, (4, 7)), 6 ∷ []) ∷ ((1, (3, 8)), 5 ∷ 6 ∷ []) ∷ [])
      1
      3
      5
      10
      8).1
    ≡ 8 ∷ 7 ∷ []
unfolding user_most_accessed user_counts_of accessed sorted_desc place count keys count_events prune
    prune_found keep events_of retained lookup insert
user_ranking = refl
