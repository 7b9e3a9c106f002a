-- ===== src/Orchestration/Sources/Batches/Failures.antt =====
-- What a failed ingestion leaves, and what the batch jobs make of it.
use ai_augmented_generation.Prelude.{
  ◌≡◌, refl, ap, sym, ◌∙◌, subst, inl, inr, ℕ, String, Bool, true, false, not, ◌||◌, Option, none,
  some, Eq, nat_eq, string_eq, pair_eq, ◌==◌, if◌then◌else◌, Bool-cases, Outcome, raise,
  runtime_error,
}
use ai_augmented_generation.Prelude.Dict.{lookup}
use ai_augmented_generation.Orchestration.Stores.{Store, IsStore, is_some}
use ai_augmented_generation.Orchestration.Freshness.{DataSource, DataSourceProfile}
use ai_augmented_generation.Orchestration.Sources.{get, mark_pending, is_null}
use ai_augmented_generation.Orchestration.Sources.Ingestion.{
  World, Settings, Fault, nothing_fails, mark_fails, save_fails, effects_fail, IngestionResult,
  is_user, agree, finish, ingest_known, ingest_found, ingest, fails_to_mark,
}
use ai_augmented_generation.Orchestration.Sources.Ingestion.Changes.{is_cached_route}
use ai_augmented_generation.Orchestration.Sources.Ingestion.Effects.{settle_route, settle_broken}
use ai_augmented_generation.Orchestration.Sources.Ingestion.Fresh.{Consistent}
use ai_augmented_generation.Orchestration.Sources.Ingestion.Rows.{find_row-some}
use ai_augmented_generation.Orchestration.Sources.Ingestion.Marks.{mark_found, marked-Consistent}
use ai_augmented_generation.Orchestration.Sources.Batches.{refresh_source, review_source}

-- The failure comes after the change was marked.
abbrev pub IsLate : Fault → Type 0
IsLate save_fails = Unit
IsLate (effects_fail left evicted) = Unit
IsLate nothing_fails = ⊥
IsLate mark_fails = ⊥

module _ {Uuid F S H : Type 0} ⦃ids : Eq Uuid⦄ (settings : Settings Uuid F)
    (store : Store (ℕ × Uuid) S H) where
  marks : (fault : Fault) → IsLate fault → fails_to_mark settings store fault ≡ false
  marks save_fails late = refl
  marks (effects_fail left evicted) late = refl
  marks nothing_fails late = absurd late
  marks mark_fails late = absurd late

  pub ingest_step :
      (w : World Uuid S) (tenant_id : ℕ) (profile : DataSourceProfile) (content : String) (now : ℕ)
      (user_id : Option ℕ) (fault : Fault) (existing : DataSource Uuid)
      → agree (is_user profile.scope) (is_some user_id) ≡ true
      → get w.tables tenant_id profile.source_key user_id ≡ some existing
      → ingest settings store w tenant_id profile content now user_id fault
        ≡ ingest_known settings store w existing content now fault
  unfolding ingest ingest_found
  ingest_step w tenant_id profile content now user_id fault existing scoped found =
      rw (scoped, found) refl

  waits_for_refresh :
      (w : World Uuid S) (tenant_id : ℕ) (row : DataSource Uuid) (hash : String) (now : ℕ)
      → row.pending_hash ≡ some hash
      → refresh_source settings store w tenant_id row now ≡ (w, false)
  unfolding refresh_source
  waits_for_refresh w tenant_id row hash now pending =
      rw pending (elim (Bool-cases (is_cached_route row.route)) [
        | inl cached ↦ rw cached refl
        | inr other ↦ rw other refl
      ])

  waits_for_review :
      (w : World Uuid S) (tenant_id : ℕ) (row : DataSource Uuid) (hash : String) (now : ℕ)
      → row.pending_hash ≡ some hash
      → review_source settings store w tenant_id row now ≡ (w, false)
  unfolding review_source
  waits_for_review w tenant_id row hash now pending =
      rw pending (elim (Bool-cases (is_user row.scope)) [
        | inl users ↦ rw users refl
        | inr other ↦ rw other refl
      ])

  module _ (hit_of : String → H) (IsSound : S → Type 0) (view : S → ℕ × Uuid → Option H)
      (laws : IsStore store hit_of IsSound view) (hash_of : H → String) where
    finish_raises :
        (w : World Uuid S) (source : DataSource Uuid) (content : String) (changed : Bool) (now : ℕ)
        (fault : Fault)
        → Consistent settings store hit_of IsSound view laws hash_of w
        → IsLate fault
        → let (w', outcome) = finish settings store w source content changed true now fault in
          (w'.tables ≡ w.tables) × (outcome ≡ raise runtime_error)
    unfolding finish
    finish_raises w source content changed now save_fails h late = (
      (settle_route settings store hit_of IsSound view laws hash_of w h.well_formed source content
          now true source.route).tables,
      refl,
    )
    finish_raises w source content changed now (effects_fail left evicted) h late = (
      (settle_broken settings store hit_of IsSound view laws hash_of w h.well_formed source content
          now left evicted source.route).tables,
      refl,
    )
    finish_raises w source content changed now nothing_fails h late = absurd late
    finish_raises w source content changed now mark_fails h late = absurd late

    module _ (content : String) (existing : DataSource Uuid) where
      -- The row that waits for the change.
      abbrev marked : DataSource Uuid
      marked = record existing { pending_hash = some (settings.content_hash content) }

      -- The ingestion raised, and the row waits for the change.
      abbrev pub Waits : World Uuid S → Outcome (IngestionResult Uuid) → Type 0
      Waits w' outcome =
          (outcome ≡ raise runtime_error)
          × (lookup existing.id w'.tables.data_sources ≡ some marked)
          × ((tenant_id now : ℕ)
              → refresh_source settings store w' tenant_id marked now ≡ (w', false))
          × ((tenant_id now : ℕ)
              → review_source settings store w' tenant_id marked now ≡ (w', false))

      Waits-when :
          (w w' : World Uuid S) (outcome : Outcome (IngestionResult Uuid))
          → lookup existing.id w.tables.data_sources ≡ some marked
          → (w'.tables ≡ w.tables) × (outcome ≡ raise runtime_error)
          → Waits w' outcome
      Waits-when w w' outcome there (same, raised) =
          let hash = settings.content_hash content in
          (
            raised,
            ap (λ t. lookup existing.id t.data_sources) same ∙ there,
            λ tenant_id now. waits_for_refresh w' tenant_id marked hash now refl,
            λ tenant_id now. waits_for_review w' tenant_id marked hash now refl,
          )

      known-Waits :
          (w : World Uuid S) (now : ℕ) (fault : Fault)
          → Consistent settings store hit_of IsSound view laws hash_of w
          → IsLate fault
          → lookup existing.id w.tables.data_sources ≡ some existing
          → (not (existing.content_hash == settings.content_hash content)
              || not (is_null existing.pending_hash))
            ≡ true
          → let r = ingest_known settings store w existing content now fault in Waits (r.0) (r.1)
      unfolding ingest_known
      known-Waits w now fault h late there again =
          let digest = settings.content_hash content in
          let changed = not (existing.content_hash == digest) in
          let w1 = record w {
            tables = mark_pending w.tables existing.tenant_id existing.id digest;
          } in
          let source : DataSource Uuid = record existing {
            content_hash = digest;
            last_ingested_at = now;
            last_changed_at = if changed then now else existing.last_changed_at;
            pending_hash = none;
          } in
          let (w', outcome) = finish settings store w1 source content changed true now fault in
          rw (again, marks fault late)
            (Waits-when w1 w' outcome
              (mark_found settings store hit_of IsSound view laws hash_of w.tables existing digest
                there)
              (finish_raises w1 source content changed now fault
                (marked-Consistent settings store hit_of IsSound view laws hash_of w h existing
                  digest there)
                late))

      -- Where the stores are in agreement, an ingestion of a changed content of a known source, or
      -- of one with a pending change, that fails after the marking raises, and changes of the
      -- source's row only the marker, which is now the hash of that content; a round of a refresh
      -- or of a review on that row does nothing.
      pub failed_change-Waits :
          (w : World Uuid S) (tenant_id : ℕ) (profile : DataSourceProfile) (now : ℕ)
          (user_id : Option ℕ) (fault : Fault)
          → Consistent settings store hit_of IsSound view laws hash_of w
          → IsLate fault
          → agree (is_user profile.scope) (is_some user_id) ≡ true
          → get w.tables tenant_id profile.source_key user_id ≡ some existing
          → (not (existing.content_hash == settings.content_hash content)
              || not (is_null existing.pending_hash))
            ≡ true
          → let r = ingest settings store w tenant_id profile content now user_id fault in
            Waits (r.0) (r.1)
      unfolding get
      failed_change-Waits w tenant_id profile now user_id fault h late scoped found again =
          let (i, there) =
            find_row-some tenant_id profile.source_key user_id w.tables.data_sources existing
              h.well_formed.rows_distinct found in
          subst (λ r. Waits (r.0) (r.1))
            (sym (ingest_step w tenant_id profile content now user_id fault existing scoped found))
            (known-Waits w now fault h late
              (subst (λ j. lookup j w.tables.data_sources ≡ some existing)
                (sym (((h.agrees i).keyed existing there).0)) there)
              again)
