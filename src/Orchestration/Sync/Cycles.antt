-- ===== src/Orchestration/Sync/Cycles.antt =====
-- The three cycles.
use ai_augmented_generation.Prelude.{
  ◌≡◌, ℕ, String, false, Option, none, List, All, pair_eq, nat_eq, if◌then◌else◌,
}
use ai_augmented_generation.Orchestration.Stores.{Store, IsStore}
use ai_augmented_generation.Orchestration.Tiering.{SharedKey, UserKey, cache_key}
use ai_augmented_generation.Orchestration.Sync.{
  sync_cycle, mag_sync_cycle, cag_mag_sync_cycle, shared_key, user_key, itself,
}
use ai_augmented_generation.Orchestration.Sync.Laws.{
  is_stale, any_stale, conflicts_of, view-sync_all, sync_all_fresh, conflicts_of-sync_all,
}

module _ {H : Type 0} (hit_of : String → H) (hash_of : H → String)
    (content_hash : String → String) where
  module _ {S : Type 0} (store : Store SharedKey S H) (IsSound : S → Type 0)
      (view : S → SharedKey → Option H) (laws : IsStore store hit_of IsSound view) where
    -- After a run of SyncCycle none of the documents is cached by another hash than that of its
    -- content now, and of all keys exactly those are evicted that a document of the run showed to
    -- be stale.
    pub sync_cycle_fresh :
        (s : S) (tenant_id : ℕ) (document_ids : List ℕ) (authoritative_content : ℕ → String)
        → IsSound s
        → let (s', conflicts) =
            sync_cycle store hash_of content_hash s tenant_id document_ids authoritative_content in
          All
            (λ document_id.
              is_stale hash_of content_hash
                (view s' (tenant_id, document_id))
                (authoritative_content document_id)
              ≡ false)
            document_ids
          × ((j : SharedKey)
              → view s' j ≡ (
                  if any_stale hash_of content_hash itself
                    (shared_key tenant_id)
                    authoritative_content
                    document_ids
                    j
                    (view s j)
                  then none
                  else view s j))
    unfolding sync_cycle
    sync_cycle_fresh s tenant_id document_ids authoritative_content sound = (
      sync_all_fresh store hit_of IsSound view laws hash_of content_hash itself
          (shared_key tenant_id) authoritative_content document_ids s sound,
      view-sync_all store hit_of IsSound view laws hash_of content_hash itself
          (shared_key tenant_id) authoritative_content document_ids s sound,
    )

    -- A run of CagMagSyncCycle evicts the entries that one of the contents showed to be stale and
    -- no others, and reports one conflict of each of them, also where the contents repeat, and none
    -- of other entries.
    pub cag_mag_sync_cycle_reports :
        (uuid5 : String → ℕ) (str : ℕ → String) (s : S) (tenant_id user_id : ℕ)
        (mag_content_keys : List String) (authoritative_content : String → String)
        → IsSound s
        → (j : SharedKey)
        → let (s', conflicts) =
            cag_mag_sync_cycle store hash_of content_hash uuid5 str s tenant_id user_id
              mag_content_keys authoritative_content in
          let stale =
            any_stale hash_of content_hash
              (cache_key uuid5 str user_id)
              (shared_key tenant_id)
              authoritative_content
              mag_content_keys
              j
              (view s j) in
          (view s' j ≡ (if stale then none else view s j))
          × (conflicts_of (cache_key uuid5 str user_id) (shared_key tenant_id) j conflicts
              ≡ (if stale then 1 else 0))
    unfolding cag_mag_sync_cycle
    cag_mag_sync_cycle_reports uuid5 str s tenant_id user_id mag_content_keys authoritative_content
          sound j =
        (
          view-sync_all store hit_of IsSound view laws hash_of content_hash
              (cache_key uuid5 str user_id) (shared_key tenant_id) authoritative_content
              mag_content_keys s sound j,
          conflicts_of-sync_all store hit_of IsSound view laws hash_of content_hash
              (cache_key uuid5 str user_id) (shared_key tenant_id) authoritative_content
              mag_content_keys s sound j,
        )

  module _ {S : Type 0} (store : Store UserKey S H) (IsSound : S → Type 0)
      (view : S → UserKey → Option H) (laws : IsStore store hit_of IsSound view) where
    -- After a run of MagSyncCycle none of the documents is in the user's warm tier by another hash
    -- than that of its content now.
    pub mag_sync_cycle_fresh :
        (s : S) (tenant_id user_id : ℕ) (document_ids : List ℕ) (authoritative_content : ℕ → String)
        → IsSound s
        → All
            (λ document_id.
              is_stale hash_of content_hash
                (view
                  ((mag_sync_cycle store hash_of content_hash s tenant_id user_id document_ids
                    authoritative_content).0)
                  (tenant_id, (user_id, document_id)))
                (authoritative_content document_id)
              ≡ false)
            document_ids
    unfolding mag_sync_cycle
    mag_sync_cycle_fresh s tenant_id user_id document_ids authoritative_content sound =
        sync_all_fresh store hit_of IsSound view laws hash_of content_hash itself
          (user_key tenant_id user_id) authoritative_content document_ids s sound
