-- ===== src/Orchestration/Sync.antt =====
-- The sync mixer: src/orchestration/domain/sync_mixer.py, and the cycles on it,
-- src/orchestration/application/sync_cycle.py, mag_sync_cycle.py and cag_mag_sync_cycle.py; and
-- warm_cache.py. SHA-256 is the parameter `content_hash`.
pub mod Laws
mod Warming
mod Cycles
mod Tests
use ai_augmented_generation.Prelude.{
  ℕ, String, Bool, true, false, Option, none, some, List, [], ◌∷◌, map, string_eq, ◌==◌,
  if◌then◌else◌,
}
use ai_augmented_generation.Prelude.Dict.{Dict}
use ai_augmented_generation.Orchestration.Stores.{Store}
use ai_augmented_generation.Orchestration.Tiering.{SharedKey, UserKey, cache_key, most_accessed}

pub record SyncConflict : Type 0 where
  pub document_id : ℕ
  pub cached_content_hash : String
  pub authoritative_content_hash : String

module _ (content_hash : String → String) where
  pub reconcile : Option String → String → ℕ → Option SyncConflict
  reconcile none authoritative_content document_id = none
  reconcile (some cached_content_hash) authoritative_content document_id =
      if cached_content_hash == content_hash authoritative_content
      then none
      else some (record {
        document_id = document_id;
        cached_content_hash = cached_content_hash;
        authoritative_content_hash = content_hash authoritative_content;
      })

-- `hit.content_hash if hit is not None else None`
abbrev pub hash_found : {H : Type 0} → (H → String) → Option H → Option String
hash_found hash_of none = none
hash_found hash_of (some hit) = some (hash_of hit)

abbrev pub noted :
    {A : Type 0} → A → Option SyncConflict → List (A × SyncConflict) → List (A × SyncConflict)
noted item none conflicts = conflicts
noted item (some conflict) conflicts = (item, conflict) ∷ conflicts

module _ {K S H : Type 0} (store : Store K S H) where
  abbrev pub resolve : S → K → Option SyncConflict → S
  resolve s k none = s
  resolve s k (some conflict) = store.evict s k

module _ {K S H : Type 0} (store : Store K S H) (hash_of : H → String)
    (content_hash : String → String) where
  -- one round of a cycle
  pub visit : S → K → ℕ → String → S × Option SyncConflict
  visit s k document_id content =
      let (s', found) = store.lookup s k in
      let conflict = reconcile content_hash (hash_found hash_of found) content document_id in
      (resolve store s' k conflict, conflict)

  -- The loop that the three cycles share, over items that are documents by `document_of`.
  pub sync_all :
      {A : Type 0} → (A → ℕ) → (ℕ → K) → (A → String) → S → List A → S × List (A × SyncConflict)
  sync_all document_of key authoritative_content s [] = (s, [])
  sync_all document_of key authoritative_content s (item ∷ items) =
      let (s', conflict) =
        visit s (key (document_of item)) (document_of item) (authoritative_content item) in
      let (s'', conflicts) = sync_all document_of key authoritative_content s' items in
      (s'', noted item conflict conflicts)

abbrev pub shared_key : ℕ → ℕ → SharedKey
shared_key tenant_id document_id = (tenant_id, document_id)

abbrev pub user_key : ℕ → ℕ → ℕ → UserKey
user_key tenant_id user_id document_id = (tenant_id, (user_id, document_id))

abbrev pub itself : ℕ → ℕ
itself document_id = document_id

abbrev pub conflict_of : {A : Type 0} → A × SyncConflict → SyncConflict
conflict_of entry = entry.1

module _ {S H : Type 0} (store : Store SharedKey S H) (hash_of : H → String)
    (content_hash : String → String) where
  -- `SyncCycle.run`
  pub sync_cycle : S → ℕ → List ℕ → (ℕ → String) → S × List SyncConflict
  sync_cycle s tenant_id document_ids authoritative_content =
      let (s', conflicts) =
        sync_all store hash_of content_hash itself (shared_key tenant_id) authoritative_content s
          document_ids in
      (s', map conflict_of conflicts)

  -- `CagMagSyncCycle.run`
  pub cag_mag_sync_cycle :
      (String → ℕ)
      → (ℕ → String)
      → S
      → ℕ
      → ℕ
      → List String
      → (String → String)
      → S × List (String × SyncConflict)
  cag_mag_sync_cycle uuid5 str s tenant_id user_id mag_content_keys authoritative_content =
      sync_all store hash_of content_hash (cache_key uuid5 str user_id) (shared_key tenant_id)
        authoritative_content s mag_content_keys

module _ {S H : Type 0} (store : Store UserKey S H) (hash_of : H → String)
    (content_hash : String → String) where
  -- `MagSyncCycle.run`
  pub mag_sync_cycle : S → ℕ → ℕ → List ℕ → (ℕ → String) → S × List SyncConflict
  mag_sync_cycle s tenant_id user_id document_ids authoritative_content =
      let (s', conflicts) =
        sync_all store hash_of content_hash itself (user_key tenant_id user_id)
          authoritative_content s document_ids in
      (s', map conflict_of conflicts)

-- the loop of `WarmCache.execute`, over what the tracker ranks
module _ {S H : Type 0} (store : Store SharedKey S H) where
  abbrev pub warm_one : S × Bool → SharedKey → String → S
  warm_one (s, true) k content = s
  warm_one (s, false) k content = store.preload s k content

  pub warm_all : S → ℕ → (ℕ → String) → List ℕ → S
  warm_all s tenant_id content_provider [] = s
  warm_all s tenant_id content_provider (document_id ∷ top_n) =
      warm_all
        (warm_one (store.contains s (tenant_id, document_id)) (tenant_id, document_id)
          (content_provider document_id))
        tenant_id content_provider top_n

  -- `WarmCache.execute`
  pub execute :
      ℕ
      → Dict SharedKey (List ℕ)
      → S
      → ℕ
      → ℕ
      → ℕ
      → ℕ
      → (ℕ → String)
      → (Dict SharedKey (List ℕ) × S) × List ℕ
  execute retention d s tenant_id n window now content_provider =
      let (d', top_n) = most_accessed retention d tenant_id n window now in
      ((d', warm_all s tenant_id content_provider top_n), top_n)
