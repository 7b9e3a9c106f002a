-- ===== src/Orchestration/Tiering.antt =====
-- The policies that move content between a slow and a fast store by how often it is accessed:
-- src/orchestration/application/tiering_policy.py, mag_tiering_policy.py and
-- cag_mag_tiering_policy.py, with the counters of src/orchestration/infrastructure/
-- in_memory_access_tracker.py and in_memory_user_scoped_access_tracker.py, and the keys of
-- src/orchestration/domain/cag_mag_keys.py. A UUID is its number; `uuid5` is a parameter.
pub mod Laws
mod Policies
mod Tests
use Prim.Native.String.{◌++◌ as append}
use ai_augmented_generation.Prelude.{
  ℕ, String, Bool, true, false, List, [], ◌∷◌, take, ◌==◌, ltb, leb, not, ◌&&◌, Eq, pair_eq, nat_eq,
  if◌then◌else◌, Outcome, ok, raise, value_error,
}
use ai_augmented_generation.Prelude.Dict.{Dict}
use ai_augmented_generation.Orchestration.AccessCounter.{record_event, count, keys}
use ai_augmented_generation.Prelude.Sort.{sorted_desc}
use ai_augmented_generation.Orchestration.Stores.{Store}

pub data TierDecision : Type 0 where
  promoted demoted unchanged : TierDecision

-- (tenant_id, document_id), and (tenant_id, user_id, document_id)
abbrev pub SharedKey : Type 0
SharedKey = ℕ × ℕ

abbrev pub UserKey : Type 0
UserKey = ℕ × (ℕ × ℕ)

-- `InMemoryAccessFrequencyTracker.record_access` and `access_count`
pub record_access : ℕ → Dict SharedKey (List ℕ) → ℕ → ℕ → ℕ → Dict SharedKey (List ℕ)
record_access retention d tenant_id document_id at =
    record_event retention d (tenant_id, document_id) at

pub access_count : ℕ → Dict SharedKey (List ℕ) → ℕ → ℕ → ℕ → ℕ → Dict SharedKey (List ℕ) × ℕ
access_count retention d tenant_id document_id window now =
    count retention d (tenant_id, document_id) window now

-- the counts in `most_accessed`, over the keys that the counter had at first
pub counts_of :
    ℕ
    → Dict SharedKey (List ℕ)
    → ℕ
    → ℕ
    → ℕ
    → List SharedKey
    → Dict SharedKey (List ℕ) × List (ℕ × ℕ)
counts_of retention d tenant_id window now [] = (d, [])
counts_of retention d tenant_id window now ((tid, document_id) ∷ ks) =
    let (d', n) = count retention d (tid, document_id) window now in
    let (d'', counts) =
      counts_of retention (if tid == tenant_id then d' else d) tenant_id window now ks in
    (d'', if tid == tenant_id then (document_id, n) ∷ counts else counts)

abbrev pub more_accessed : ℕ × ℕ → ℕ × ℕ → Bool
more_accessed (a, m) (b, n) = ltb n m

-- `[document_id for document_id, count in ranked if count > 0]`
pub accessed : List (ℕ × ℕ) → List ℕ
accessed [] = []
accessed ((document_id, n) ∷ ranked) =
    if ltb 0 n then document_id ∷ accessed ranked else accessed ranked

-- `InMemoryAccessFrequencyTracker.most_accessed`
pub most_accessed : ℕ → Dict SharedKey (List ℕ) → ℕ → ℕ → ℕ → ℕ → Dict SharedKey (List ℕ) × List ℕ
most_accessed retention d tenant_id n window now =
    let (d', counts) = counts_of retention d tenant_id window now (keys d) in
    (d', take n (accessed (sorted_desc more_accessed counts)))

-- `InMemoryUserScopedAccessFrequencyTracker.record_access` and `access_count`
pub record_user_access : ℕ → Dict UserKey (List ℕ) → ℕ → ℕ → ℕ → ℕ → Dict UserKey (List ℕ)
record_user_access retention d tenant_id user_id document_id at =
    record_event retention d (tenant_id, (user_id, document_id)) at

pub user_access_count : ℕ → Dict UserKey (List ℕ) → ℕ → ℕ → ℕ → ℕ → ℕ → Dict UserKey (List ℕ) × ℕ
user_access_count retention d tenant_id user_id document_id window now =
    count retention d (tenant_id, (user_id, document_id)) window now

-- the counts in the user-scoped `most_accessed`, over the keys that the counter had at first
pub user_counts_of :
    ℕ → Dict UserKey (List ℕ) → ℕ → ℕ → ℕ → ℕ → List UserKey → Dict UserKey (List ℕ) × List (ℕ × ℕ)
user_counts_of retention d tenant_id user_id window now [] = (d, [])
user_counts_of retention d tenant_id user_id window now ((tid, (uid, document_id)) ∷ ks) =
    let is_users = (tid == tenant_id) && (uid == user_id) in
    let (d', n) = count retention d (tid, (uid, document_id)) window now in
    let (d'', counts) =
      user_counts_of retention (if is_users then d' else d) tenant_id user_id window now ks in
    (d'', if is_users then (document_id, n) ∷ counts else counts)

-- `InMemoryUserScopedAccessFrequencyTracker.most_accessed`
pub user_most_accessed :
    ℕ → Dict UserKey (List ℕ) → ℕ → ℕ → ℕ → ℕ → ℕ → Dict UserKey (List ℕ) × List ℕ
user_most_accessed retention d tenant_id user_id n window now =
    let (d', counts) = user_counts_of retention d tenant_id user_id window now (keys d) in
    (d', take n (accessed (sorted_desc more_accessed counts)))

module _ {K S H : Type 0} (store : Store K S H) where
  -- The part of `evaluate` that the three policies share: the two tests, once the count and the
  -- membership are known.
  pub decide : S → K → String → ℕ → ℕ → ℕ → Bool → S × TierDecision
  decide s k content promote_threshold demote_threshold n is_there =
      if leb promote_threshold n && not is_there
      then (store.preload s k content, promoted)
      else if ltb n demote_threshold && is_there
      then (store.evict s k, demoted)
      else (s, unchanged)

  abbrev pub decide_found : K → String → ℕ → ℕ → ℕ → S × Bool → S × TierDecision
  decide_found k content promote_threshold demote_threshold n (s, is_there) =
      decide s k content promote_threshold demote_threshold n is_there

module _ {S H : Type 0} (store : Store SharedKey S H) (retention : ℕ) where
  -- `TieringPolicy.evaluate`
  pub evaluate :
      Dict SharedKey (List ℕ)
      → S
      → ℕ
      → ℕ
      → (ℕ → String)
      → ℕ
      → ℕ
      → ℕ
      → ℕ
      → Outcome ((Dict SharedKey (List ℕ) × S) × TierDecision)
  evaluate d s tenant_id document_id content_provider promote_threshold demote_threshold window
        now =
      if ltb promote_threshold demote_threshold
      then raise value_error
      else (let (d', n) = access_count retention d tenant_id document_id window now in
          let found = store.contains s (tenant_id, document_id) in
          let (s', decision) =
            decide_found store (tenant_id, document_id) (content_provider document_id)
              promote_threshold demote_threshold n found in
          ok ((d', s'), decision))

module _ {S H : Type 0} (store : Store UserKey S H) (retention : ℕ) where
  -- `MagTieringPolicy.evaluate`
  pub mag_evaluate :
      Dict UserKey (List ℕ)
      → S
      → ℕ
      → ℕ
      → ℕ
      → (ℕ → String)
      → ℕ
      → ℕ
      → ℕ
      → ℕ
      → Outcome ((Dict UserKey (List ℕ) × S) × TierDecision)
  mag_evaluate d s tenant_id user_id document_id content_provider promote_threshold demote_threshold
        window now =
      if ltb promote_threshold demote_threshold
      then raise value_error
      else (let (d', n) = user_access_count retention d tenant_id user_id document_id window now in
          let found = store.contains s (tenant_id, (user_id, document_id)) in
          let (s', decision) =
            decide_found store (tenant_id, (user_id, document_id)) (content_provider document_id)
              promote_threshold demote_threshold n found in
          ok ((d', s'), decision))

-- `cag_mag_keys`; `uuid5` is that of Python in the namespace OID, `str` prints a UUID.
module _ (uuid5 : String → ℕ) (str : ℕ → String) where
  pub cache_key : ℕ → String → ℕ
  cache_key user_id mag_content_key = uuid5 (append (str user_id) (append ":" mag_content_key))

module _ (uuid5 : String → ℕ) where
  pub tracker_key : String → ℕ
  tracker_key mag_content_key = uuid5 mag_content_key

module _ {S H : Type 0} (store : Store SharedKey S H) (retention : ℕ) (uuid5 : String → ℕ)
    (str : ℕ → String) where
  -- `CagMagTieringPolicy.evaluate`
  pub cag_mag_evaluate :
      Dict UserKey (List ℕ)
      → S
      → ℕ
      → ℕ
      → String
      → (String → String)
      → ℕ
      → ℕ
      → ℕ
      → ℕ
      → Outcome ((Dict UserKey (List ℕ) × S) × TierDecision)
  cag_mag_evaluate d s tenant_id user_id mag_content_key content_provider promote_threshold
        demote_threshold window now =
      if ltb promote_threshold demote_threshold
      then raise value_error
      else (let (d', n) =
            user_access_count retention d tenant_id user_id (tracker_key uuid5 mag_content_key)
              window now in
          let cache_id = cache_key uuid5 str user_id mag_content_key in
          let found = store.contains s (tenant_id, cache_id) in
          let (s', decision) =
            decide_found store (tenant_id, cache_id) (content_provider mag_content_key)
              promote_threshold demote_threshold n found in
          ok ((d', s'), decision))
