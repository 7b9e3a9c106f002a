-- ===== src/Orchestration/Warmed/Tests.antt =====
-- A query on two warmed documents, of which one was cached again with another content.
use ai_augmented_generation.Prelude.{
  ◌≡◌, refl, ℕ, String, List, [], ◌∷◌, nat_eq, string_eq, pair_eq, ◌==◌, if◌then◌else◌, arith,
  Outcome, ok,
}
use ai_augmented_generation.Prelude.Float.{wholes}
use ai_augmented_generation.Prelude.Dict.{Dict, lookup, insert, IsDistinct}
use ai_augmented_generation.Prelude.Sort.{IsTotal, sorted_desc, place}
use ai_augmented_generation.Orchestration.Stores.{
  Store, IsStore, CacheHit, hit_of, hf_store, hf_view, hf_store-IsStore,
}
use ai_augmented_generation.Orchestration.Warmed.{
  SearchResult, Warmed, note_warmed, retrieve, best_warmed_match, score_all, cosine_similarity,
  dot_from, first_confirmed, answer,
}
use ai_augmented_generation.Orchestration.Warmed.Laws.{has_greater_score}
use ai_augmented_generation.Orchestration.Warmed.Retrieval.{
  IsWarmed, note_warmed-IsWarmed, Retrieves, retrieve-Retrieves,
}

-- Norms are 1, and an embedding is one number.
abbrev unit_root : ℕ → ℕ
unit_root a = 1

abbrev embed : String → List ℕ
embed text = (if text == "eleven" then 5 else 2) ∷ []

abbrev same_text : String → String
same_text t = t

abbrev no_prefill : String → ℕ
no_prefill t = 0

abbrev cache : Store (ℕ × ℕ) (Dict (ℕ × ℕ) (CacheHit ℕ)) (CacheHit ℕ)
cache = hf_store same_text no_prefill

abbrev hit : String → CacheHit ℕ
hit = hit_of same_text no_prefill

abbrev cache_laws : IsStore cache hit IsDistinct hf_view
cache_laws = hf_store-IsStore same_text no_prefill

abbrev entries : Dict (ℕ × ℕ) (CacheHit ℕ)
entries = ((7, 1), hit "ten") ∷ ((7, 2), hit "twelve") ∷ []

distinct : IsDistinct entries
unfolding lookup
distinct = (refl, (refl, tt))

abbrev fallback : ℕ → String → ℕ → Outcome (List (SearchResult ℕ ℕ))
fallback tenant_id query top_k = ok []

abbrev cold : Warmed ℕ ℕ
cold = record { warmed = []; hits = 0; misses = 0 }

abbrev one : Warmed ℕ ℕ
one = note_warmed embed cold 7 1 "ten"

abbrev two : Warmed ℕ ℕ
two = note_warmed embed one 7 2 "eleven"

two-IsWarmed : IsWarmed embed two
two-IsWarmed =
    note_warmed-IsWarmed embed one 7 2 "eleven" (note_warmed-IsWarmed embed cold 7 1 "ten" tt)

ltb-IsTotal :
    IsTotal (has_greater_score wholes unit_root same_text cache hit IsDistinct hf_view cache_laws)
ltb-IsTotal = record { asym = λ x y e. ground arith; at_most_trans = λ x y z e f. ground arith }

stale_is_skipped :
    (retrieve wholes unit_root same_text cache embed fallback 3 two entries 7 "twelve" 5).1.1
    ≡ ok (record { document_id = 1; chunk_id = 1; content = "ten"; score = 4 } ∷ [])
unfolding retrieve best_warmed_match score_all cosine_similarity dot_from first_confirmed answer
    note_warmed lookup insert sorted_desc place
stale_is_skipped = refl

retrieve-Retrieves_example :
    let (w', (s', outcome)) =
      retrieve wholes unit_root same_text cache embed fallback 3 two entries 7 "twelve" 5 in
    ((k : ℕ × ℕ) → hf_view s' k ≡ hf_view entries k)
    × Retrieves wholes unit_root same_text cache hit IsDistinct hf_view cache_laws embed fallback 3
        two entries 7 "twelve" 5 w' outcome
retrieve-Retrieves_example =
    retrieve-Retrieves wholes unit_root same_text cache hit IsDistinct hf_view cache_laws embed
      fallback 3 two entries 7 "twelve" 5 (λ a b c e f. ground arith) 1 (λ text. refl) ltb-IsTotal
      distinct two-IsWarmed
