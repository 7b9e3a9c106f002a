-- ===== src/Orchestration/Sync/Tests.antt =====
-- The cycles and the warming on concrete stores.
use ai_augmented_generation.Prelude.{
  ◌≡◌, refl, ℕ, ◌≤◌, String, false, none, [], ◌∷◌, map, All, nat_eq, pair_eq, string_eq, length,
  if◌then◌else◌,
}
use ai_augmented_generation.Prelude.Dict.{Dict, IsDistinct, lookup, insert, remove}
use ai_augmented_generation.Orchestration.Stores.{
  Store, IsStore, CacheHit, hit_of, hf_store, hf_view, hf_store-IsStore,
}
use ai_augmented_generation.Orchestration.Tiering.{SharedKey, cache_key}
use ai_augmented_generation.Orchestration.Sync.{
  reconcile, visit, sync_all, sync_cycle, cag_mag_sync_cycle, shared_key, itself, execute, warm_all,
}
use ai_augmented_generation.Orchestration.Sync.Laws.{is_stale, any_stale, conflicts_of}
use ai_augmented_generation.Orchestration.Sync.Cycles.{sync_cycle_fresh, cag_mag_sync_cycle_reports}
use ai_augmented_generation.Orchestration.Sync.Warming.{AllWarm, execute-AllWarm}

abbrev same_text : String → String
same_text t = t

abbrev no_prefill : String → ℕ
no_prefill t = 0

abbrev hash_of : CacheHit ℕ → String
hash_of hit = hit.content_hash

abbrev cache : Store SharedKey (Dict SharedKey (CacheHit ℕ)) (CacheHit ℕ)
cache = hf_store same_text no_prefill

abbrev hit : String → CacheHit ℕ
hit = hit_of same_text no_prefill

abbrev cache_laws : IsStore cache hit IsDistinct hf_view
cache_laws = hf_store-IsStore same_text no_prefill

abbrev entries : Dict SharedKey (CacheHit ℕ)
entries = ((1, 7), hit "old") ∷ ((1, 8), hit "new") ∷ ((2, 7), hit "old") ∷ []

abbrev fresh : ℕ → String
fresh document_id = "new"

-- The stale entry is evicted and reported once, the others stay.
cycle_run : sync_cycle cache hash_of same_text entries 1 (7 ∷ 8 ∷ 7 ∷ 9 ∷ []) fresh ≡ (
  ((1, 8), hit "new") ∷ ((2, 7), hit "old") ∷ [],
  record { document_id = 7; cached_content_hash = "old"; authoritative_content_hash = "new" } ∷ [],
)
unfolding sync_cycle sync_all visit reconcile lookup remove
cycle_run = refl

warm_run :
    map (λ entry. entry.0) (warm_all cache entries 1 fresh (7 ∷ 9 ∷ []))
    ≡ (1, 7) ∷ (1, 8) ∷ (2, 7) ∷ (1, 9) ∷ []
unfolding warm_all lookup insert
warm_run = refl

distinct : IsDistinct entries
unfolding lookup
distinct = (refl, (refl, (refl, tt)))

sync_cycle_fresh_example :
    let (s', conflicts) = sync_cycle cache hash_of same_text entries 1 (7 ∷ 8 ∷ []) fresh in
    All
      (λ document_id.
        is_stale hash_of same_text (hf_view s' (1, document_id)) (fresh document_id) ≡ false)
      (7 ∷ 8 ∷ [])
    × ((j : SharedKey)
        → hf_view s' j ≡ (
            if any_stale hash_of same_text itself
              (shared_key 1)
              fresh
              (7 ∷ 8 ∷ [])
              j
              (hf_view entries j)
            then none
            else hf_view entries j))
sync_cycle_fresh_example =
    sync_cycle_fresh hit hash_of same_text cache IsDistinct hf_view cache_laws entries 1
      (7 ∷ 8 ∷ []) fresh distinct

abbrev seven : String → ℕ
seven name = 7

abbrev no_digits : ℕ → String
no_digits n = ""

abbrev newest : String → String
newest key = "new"

cag_mag_sync_cycle_reports_example :
    let (s', conflicts) =
      cag_mag_sync_cycle cache hash_of same_text seven no_digits entries 1 3
        ("a" ∷ "a" ∷ [])
        newest in
    let stale =
      any_stale hash_of same_text
        (cache_key seven no_digits 3)
        (shared_key 1)
        newest
        ("a" ∷ "a" ∷ [])
        (1, 7)
        (hf_view entries (1, 7)) in
    (hf_view s' (1, 7) ≡ (if stale then none else hf_view entries (1, 7)))
    × (conflicts_of (cache_key seven no_digits 3) (shared_key 1) (1, 7) conflicts
        ≡ (if stale then 1 else 0))
cag_mag_sync_cycle_reports_example =
    cag_mag_sync_cycle_reports hit hash_of same_text cache IsDistinct hf_view cache_laws seven
      no_digits entries 1 3 ("a" ∷ "a" ∷ []) newest distinct (1, 7)

execute-AllWarm_example :
    let ((d', s'), top_n) = execute cache 30 (((1, 9), 4 ∷ []) ∷ []) entries 1 2 10 8 fresh in
    (length top_n ≤ 2) × AllWarm cache hit IsDistinct hf_view cache_laws 1 fresh entries top_n s'
execute-AllWarm_example =
    execute-AllWarm cache hit IsDistinct hf_view cache_laws 1 fresh 30 2 10 8
      (((1, 9), 4 ∷ []) ∷ []) entries distinct
