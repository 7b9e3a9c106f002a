-- ===== src/Orchestration/Sources/Batches/Jobs.antt =====
-- Ingestions, refreshes and reviews, one after the other.
use ai_augmented_generation.Prelude.{◌≡◌, ℕ, String, Option, List, [], ◌∷◌, Eq, nat_eq, pair_eq}
use ai_augmented_generation.Orchestration.Stores.{Store, IsStore}
use ai_augmented_generation.Orchestration.Freshness.{DataSourceProfile}
use ai_augmented_generation.Orchestration.Sources.Ingestion.{World, Settings, Fault, ingest}
use ai_augmented_generation.Orchestration.Sources.Ingestion.Fresh.{Consistent}
use ai_augmented_generation.Orchestration.Sources.Ingestion.Consistency.{ingest-Consistent}
use ai_augmented_generation.Orchestration.Sources.Batches.{refresh, review}
use ai_augmented_generation.Orchestration.Sources.Batches.Refresh.{refresh-Consistent}
use ai_augmented_generation.Orchestration.Sources.Batches.Review.{review-Consistent}

-- A call of one of the three use cases, with the time at which it is made.
pub data Job : Type 0 where
  ingested : ℕ → DataSourceProfile → String → ℕ → Option ℕ → Fault → Job
  refreshed reviewed : ℕ → ℕ → Job

module _ {Uuid F S H : Type 0} ⦃ids : Eq Uuid⦄ (settings : Settings Uuid F)
    (store : Store (ℕ × Uuid) S H) where
  unfoldable pub after_job : World Uuid S → Job → World Uuid S
  after_job w (ingested tenant_id profile content now user_id fault) =
      (ingest settings store w tenant_id profile content now user_id fault).0
  after_job w (refreshed tenant_id now) = (refresh settings store w tenant_id now).0
  after_job w (reviewed tenant_id now) = (review settings store w tenant_id now).0

  unfoldable pub after_jobs : World Uuid S → List Job → World Uuid S
  after_jobs w [] = w
  after_jobs w (job ∷ jobs) = after_jobs (after_job w job) jobs

  module _ (hit_of : String → H) (IsSound : S → Type 0) (view : S → ℕ × Uuid → Option H)
      (laws : IsStore store hit_of IsSound view) (hash_of : H → String)
      (hashes : (text : String) → hash_of (hit_of text) ≡ settings.content_hash text)
      (injective : (t t' : ℕ) (k k' : String) (u u' : Option ℕ)
        → settings.source_id_for t k u ≡ settings.source_id_for t' k' u'
        → (t ≡ t') × (k ≡ k') × (u ≡ u')) where
    abbrev Good : World Uuid S → Type 0
    Good w = Consistent settings store hit_of IsSound view laws hash_of w

    after_job-Consistent : (w : World Uuid S) (job : Job) → Good w → Good (after_job w job)
    unfolding after_job
    after_job-Consistent w (ingested tenant_id profile content now user_id fault) h =
        ingest-Consistent settings store hit_of IsSound view laws hash_of injective w tenant_id
          profile content now user_id fault h
    after_job-Consistent w (refreshed tenant_id now) h =
        refresh-Consistent settings store hit_of IsSound view laws hash_of hashes tenant_id now w h
    after_job-Consistent w (reviewed tenant_id now) h =
        review-Consistent settings store hit_of IsSound view laws hash_of tenant_id now w h

    -- Where the ids of different sources differ, and an entry of the cache has the hash of its
    -- content, the stores are in agreement after any sequence of ingestions, whatever fails in
    -- them, of refreshes and of reviews, if they were before: of each source with no pending change
    -- that is not MAG's, RAG holds a text of the recorded hash, and the cache holds no text of
    -- another hash, and none of a source that is not a cached one.
    pub after_jobs-Consistent :
        (w : World Uuid S) (jobs : List Job) → Good w → Good (after_jobs w jobs)
    unfolding after_jobs
    after_jobs-Consistent w [] h = h
    after_jobs-Consistent w (job ∷ jobs) h =
        after_jobs-Consistent (after_job w job) jobs (after_job-Consistent w job h)
