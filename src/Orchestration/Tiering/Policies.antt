-- ===== src/Orchestration/Tiering/Policies.antt =====
-- The three policies, after any history of accesses.
use ai_augmented_generation.Prelude.{
  ◌≡◌, refl, ℕ, ◌≤◌, String, Option, List, [], All, ltb-false, pair_eq, nat_eq, ok,
}
use ai_augmented_generation.Prelude.Dict.{Dict}
use ai_augmented_generation.Orchestration.AccessCounter.{count, count_events}
use ai_augmented_generation.Orchestration.AccessCounter.Laws.{Call, time_of}
use ai_augmented_generation.Orchestration.AccessCounter.Runs.{
  after_calls, accesses, count-after_calls,
}
use ai_augmented_generation.Orchestration.Stores.{Store, IsStore}
use ai_augmented_generation.Orchestration.Tiering.{
  TierDecision, SharedKey, UserKey, access_count, user_access_count, decide_found, evaluate,
  mag_evaluate, cag_mag_evaluate, cache_key, tracker_key,
}
use ai_augmented_generation.Orchestration.Tiering.Laws.{Settles, found-Settles}

module _ (retention window now promote_threshold demote_threshold : ℕ) (fits : window ≤ retention)
    (band : demote_threshold ≤ promote_threshold) where
  module _ {S H : Type 0} (store : Store SharedKey S H) (hit_of : String → H) (IsSound : S → Type 0)
      (view : S → SharedKey → Option H) (laws : IsStore store hit_of IsSound view) where
    -- Where the demotion threshold is at most the promotion threshold, the retention covers the
    -- window, and no access has a later time, TieringPolicy does not raise, and settles the
    -- document by the number of all its accesses in the window.
    pub evaluate-Settles :
        (calls : List (Call SharedKey)) (s : S) (tenant_id document_id : ℕ)
        (content_provider : ℕ → String)
        → All (λ c. time_of c ≤ now) calls
        → IsSound s
        → (result : (Dict SharedKey (List ℕ) × S) × TierDecision) × (evaluate store retention
              (after_calls retention [] calls)
              s
              tenant_id
              document_id
              content_provider
              promote_threshold
              demote_threshold
              window
              now
            ≡ ok result)
          × Settles store hit_of IsSound view laws promote_threshold demote_threshold
              (count_events window now (accesses (tenant_id, document_id) calls))
              (tenant_id, document_id)
              (content_provider document_id)
              s
              (result.0.1, result.1)
    unfolding evaluate access_count
    evaluate-Settles calls s tenant_id document_id content_provider past sound =
        let key : SharedKey = (tenant_id, document_id) in
        let (d, n) = count retention (after_calls retention [] calls) key window now in
        let (s', decision) =
          decide_found store key (content_provider document_id) promote_threshold demote_threshold n
            (store.contains s key) in
        (
          ((d, s'), decision),
          rw (ltb-false promote_threshold demote_threshold band) refl,
          found-Settles store hit_of IsSound view laws promote_threshold demote_threshold n
              (count_events window now (accesses key calls)) key (content_provider document_id) s
              band sound (count-after_calls window retention now key calls fits past),
        )

  module _ {S H : Type 0} (store : Store UserKey S H) (hit_of : String → H) (IsSound : S → Type 0)
      (view : S → UserKey → Option H) (laws : IsStore store hit_of IsSound view) where
    -- Where the demotion threshold is at most the promotion threshold, the retention covers the
    -- window, and no access has a later time, MagTieringPolicy does not raise, and settles the
    -- document in the user's warm tier by the number of all the accesses of that user to it in the
    -- window.
    pub mag_evaluate-Settles :
        (calls : List (Call UserKey)) (s : S) (tenant_id user_id document_id : ℕ)
        (content_provider : ℕ → String)
        → All (λ c. time_of c ≤ now) calls
        → IsSound s
        → (result : (Dict UserKey (List ℕ) × S) × TierDecision) × (mag_evaluate store retention
              (after_calls retention [] calls)
              s
              tenant_id
              user_id
              document_id
              content_provider
              promote_threshold
              demote_threshold
              window
              now
            ≡ ok result)
          × Settles store hit_of IsSound view laws promote_threshold demote_threshold
              (count_events window now (accesses (tenant_id, (user_id, document_id)) calls))
              (tenant_id, (user_id, document_id))
              (content_provider document_id)
              s
              (result.0.1, result.1)
    unfolding mag_evaluate user_access_count
    mag_evaluate-Settles calls s tenant_id user_id document_id content_provider past sound =
        let key : UserKey = (tenant_id, (user_id, document_id)) in
        let (d, n) = count retention (after_calls retention [] calls) key window now in
        let (s', decision) =
          decide_found store key (content_provider document_id) promote_threshold demote_threshold n
            (store.contains s key) in
        (
          ((d, s'), decision),
          rw (ltb-false promote_threshold demote_threshold band) refl,
          found-Settles store hit_of IsSound view laws promote_threshold demote_threshold n
              (count_events window now (accesses key calls)) key (content_provider document_id) s
              band sound (count-after_calls window retention now key calls fits past),
        )

  module _ {S H : Type 0} (store : Store SharedKey S H) (hit_of : String → H) (IsSound : S → Type 0)
      (view : S → SharedKey → Option H) (laws : IsStore store hit_of IsSound view)
      (uuid5 : String → ℕ) (str : ℕ → String) where
    -- Where the demotion threshold is at most the promotion threshold, the retention covers the
    -- window, and no access has a later time, CagMagTieringPolicy does not raise, and settles the
    -- entry whose key is made of the user and the content by the number of all the accesses of that
    -- user to the content in the window.
    pub cag_mag_evaluate-Settles :
        (calls : List (Call UserKey)) (s : S) (tenant_id user_id : ℕ) (mag_content_key : String)
        (content_provider : String → String)
        → All (λ c. time_of c ≤ now) calls
        → IsSound s
        → (result : (Dict UserKey (List ℕ) × S) × TierDecision) × (cag_mag_evaluate store retention
              uuid5 str
              (after_calls retention [] calls)
              s
              tenant_id
              user_id
              mag_content_key
              content_provider
              promote_threshold
              demote_threshold
              window
              now
            ≡ ok result)
          × Settles store hit_of IsSound view laws promote_threshold demote_threshold
              (count_events window now
                (accesses (tenant_id, (user_id, tracker_key uuid5 mag_content_key)) calls))
              (tenant_id, cache_key uuid5 str user_id mag_content_key)
              (content_provider mag_content_key)
              s
              (result.0.1, result.1)
    unfolding cag_mag_evaluate user_access_count
    cag_mag_evaluate-Settles calls s tenant_id user_id mag_content_key content_provider past sound =
        let key : UserKey = (tenant_id, (user_id, tracker_key uuid5 mag_content_key)) in
        let (d, n) = count retention (after_calls retention [] calls) key window now in
        let cache_id : SharedKey = (tenant_id, cache_key uuid5 str user_id mag_content_key) in
        let (s', decision) =
          decide_found store cache_id (content_provider mag_content_key) promote_threshold
            demote_threshold n (store.contains s cache_id) in
        (
          ((d, s'), decision),
          rw (ltb-false promote_threshold demote_threshold band) refl,
          found-Settles store hit_of IsSound view laws promote_threshold demote_threshold n
              (count_events window now (accesses key calls)) cache_id
              (content_provider mag_content_key) s band sound
              (count-after_calls window retention now key calls fits past),
        )
