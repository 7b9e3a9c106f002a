-- ===== src/Orchestration/Stores/Expiring/Tests.antt =====
-- The frozen cache with a time to live, on concrete calls.
use ai_augmented_generation.Prelude.{
  ◌≡◌, refl, ℕ, String, true, false, none, some, List, [], ◌∷◌, arith, nat_eq,
}
use ai_augmented_generation.Prelude.Dict.{Dict, lookup, insert, remove, IsDistinct}
use ai_augmented_generation.Orchestration.Stores.{
  Store, IsStore, CacheHit, hit_of, hf_store, hf_view, hf_store-IsStore,
}
use ai_augmented_generation.Orchestration.Stores.Expiring.{
  Expiring, expire_if_due, begin_preload, finish_preload, preload_until, renew, renew_kept,
  renew_present, lookup_kept, find, contains_kept, contains, expiring_store,
}
use ai_augmented_generation.Orchestration.Stores.Expiring.Laws.{
  IsSoundExpiring, live, expiring_store-IsStore,
}
use ai_augmented_generation.Orchestration.Stores.Expiring.Runs.{
  Call, begun, finished, looked_up, asked, renewed, after_call, after_calls,
}
use ai_augmented_generation.Orchestration.Stores.Expiring.Lifetime.{
  expired_is_not_served, slow_preload_never_expires,
}

-- The hash of a content is the content, and nothing is computed of it.
abbrev same_text : String → String
same_text t = t

abbrev no_prefill : String → ℕ
no_prefill t = 0

abbrev cache : Store ℕ (Dict ℕ (CacheHit ℕ)) (CacheHit ℕ)
cache = hf_store same_text no_prefill

abbrev hit : String → CacheHit ℕ
hit = hit_of same_text no_prefill

abbrev cache_laws : IsStore cache hit IsDistinct hf_view
cache_laws = hf_store-IsStore same_text no_prefill

abbrev empty : Expiring ℕ (Dict ℕ (CacheHit ℕ))
empty = record { inner = []; expiry = [] }

abbrev calls : List (Call ℕ)
calls = begun 4 none ∷ looked_up 5 7 ∷ finished 4 "other" ∷ asked 12 4 ∷ renewed 13 4 (some 20) ∷ []

abbrev filled : Expiring ℕ (Dict ℕ (CacheHit ℕ))
filled = preload_until cache empty 7 "text" (some 10)

found_in_time : (find cache 9 (after_calls cache filled calls) 7).1 ≡ some (hit "text")
unfolding find expire_if_due lookup_kept preload_until begin_preload finish_preload after_calls
    after_call contains contains_kept renew renew_kept renew_present lookup insert remove
found_in_time = refl

renewed_in_time : (renew cache 9 filled 7 (some 30)).1 ≡ true
unfolding expire_if_due preload_until begin_preload finish_preload renew renew_kept renew_present
    lookup insert
renewed_in_time = refl

renewed_too_late : (renew cache 10 filled 7 (some 30)).1 ≡ false
unfolding expire_if_due preload_until begin_preload finish_preload renew renew_kept renew_present
    lookup insert
renewed_too_late = refl

expired_is_not_served_example : (find cache 10 (after_calls cache filled calls) 7).1 ≡ none
expired_is_not_served_example =
    expired_is_not_served cache hit IsDistinct hf_view cache_laws empty 7 "text" 10 10 calls
      (tt, tt) (refl, (refl, (refl, (refl, (refl, tt))))) (omega arith)

slow_preload_never_expires_example :
    (find cache 999
      (finish_preload cache ((find cache 10 (begin_preload empty 7 (some 10)) 7).0) 7 "text")
      7).1
    ≡ some (hit "text")
slow_preload_never_expires_example =
    slow_preload_never_expires cache hit IsDistinct hf_view cache_laws empty 7 "text" 10 10 999
      (tt, tt) (omega arith)

expiring_store-IsStore_example :
    IsStore
      (expiring_store cache 10)
      hit
      (IsSoundExpiring cache hit IsDistinct hf_view cache_laws)
      (live 10 hf_view)
expiring_store-IsStore_example = expiring_store-IsStore cache hit IsDistinct hf_view cache_laws 10
