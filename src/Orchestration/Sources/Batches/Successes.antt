-- ===== src/Orchestration/Sources/Batches/Successes.antt =====
-- What an ingestion records that nothing fails in.
use ai_augmented_generation.Prelude.{
  ◌≡◌, ◌⊎◌, refl, ap, sym, ◌∙◌, subst, inl, inr, ℕ, String, Bool, true, false, not, ◌||◌, Option,
  none, some, Eq, nat_eq, string_eq, pair_eq, ◌==◌, if◌then◌else◌, Bool-cases, Outcome, ok,
}
use ai_augmented_generation.Prelude.Dict.{lookup}
use ai_augmented_generation.Orchestration.Stores.{Store, IsStore, is_some}
use ai_augmented_generation.Orchestration.Freshness.{DataSource, DataSourceProfile}
use ai_augmented_generation.Orchestration.Sources.{get, mark_pending, is_null, upserted}
use ai_augmented_generation.Orchestration.Sources.Ingestion.{
  World, Settings, nothing_fails, IngestionResult, is_mag, is_user, agree, apply_route, finish,
  ingest_known, ingest, version_of,
}
use ai_augmented_generation.Orchestration.Sources.Ingestion.Changes.{HoldsText}
use ai_augmented_generation.Orchestration.Sources.Ingestion.Effects.{settle_route}
use ai_augmented_generation.Orchestration.Sources.Ingestion.Fresh.{Consistent, save_row}
use ai_augmented_generation.Orchestration.Sources.Ingestion.Rows.{find_row-some}
use ai_augmented_generation.Orchestration.Sources.Ingestion.Marks.{mark_found, marked-Consistent}
use ai_augmented_generation.Orchestration.Sources.Ingestion.Consistency.{ingest-Consistent}
use ai_augmented_generation.Orchestration.Sources.Batches.Failures.{ingest_step}

module _ {Uuid F S H : Type 0} ⦃ids : Eq Uuid⦄ (settings : Settings Uuid F)
    (store : Store (ℕ × Uuid) S H) (hit_of : String → H) (IsSound : S → Type 0)
    (view : S → ℕ × Uuid → Option H) (laws : IsStore store hit_of IsSound view)
    (hash_of : H → String) where
  abbrev Good : World Uuid S → Type 0
  Good w = Consistent settings store hit_of IsSound view laws hash_of w

  finish_records :
      (w : World Uuid S) (source row : DataSource Uuid) (content : String) (changed reapply : Bool)
      (now : ℕ)
      → Good w
      → lookup source.id w.tables.data_sources ≡ some row
      → let (w', outcome) =
          finish settings store w source content changed reapply now nothing_fails in
        (outcome ≡ ok (record { source_id = source.id; route = source.route; changed = changed }))
        × ((cached_until : Option ℕ) × (lookup source.id w'.tables.data_sources
              ≡ some (upserted (record source { cached_until = cached_until }) (some row))))
  unfolding finish
  finish_records w source row content changed reapply now h there =
      let (w', cached_until) =
        apply_route settings store w source content reapply now source.route in
      let saved = record source { cached_until = cached_until } in
      let settling =
        settle_route settings store hit_of IsSound view laws hash_of w h.well_formed source content
          now reapply source.route in
      (
        refl,
        (
          cached_until,
          save_row settings store hit_of IsSound view laws hash_of w'.tables saved
                (version_of settings store source content changed)
              ∙ ap (λ found. some (upserted saved found))
                  (ap (λ t. lookup source.id t.data_sources) settling.tables ∙ there),
        ),
      )

  module _ (content : String) (now : ℕ) (existing : DataSource Uuid) where
    abbrev changes : Bool
    changes = not (existing.content_hash == settings.content_hash content)

    abbrev confirmed_row : Option ℕ → DataSource Uuid
    confirmed_row cached_until = record existing {
      content_hash = settings.content_hash content;
      last_ingested_at = now;
      last_changed_at = if changes then now else existing.last_changed_at;
      cached_until = cached_until;
      pending_hash = none;
    }

    -- The result says whether the content changed, and the row has the hash and no marker.
    abbrev pub Records : World Uuid S × Outcome (IngestionResult Uuid) → Type 0
    Records (w', outcome) =
        (outcome
          ≡ ok (record { source_id = existing.id; route = existing.route; changed = changes }))
        × ((cached_until : Option ℕ) × (lookup existing.id w'.tables.data_sources
              ≡ some (confirmed_row cached_until)))

    known-Records :
        (w : World Uuid S)
        → Good w
        → lookup existing.id w.tables.data_sources ≡ some existing
        → Records (ingest_known settings store w existing content now nothing_fails)
    unfolding ingest_known
    known-Records w h there =
        let digest = settings.content_hash content in
        let source = confirmed_row existing.cached_until in
        elim (Bool-cases (changes || not (is_null existing.pending_hash))) [
          | inl again ↦ rw again (
              finish_records
                (record w { tables = mark_pending w.tables existing.tenant_id existing.id digest })
                source (record existing { pending_hash = some digest }) content changes true now
                (marked-Consistent settings store hit_of IsSound view laws hash_of w h existing
                  digest there)
                (mark_found settings store hit_of IsSound view laws hash_of w.tables existing digest
                  there))
          | inr confirmed ↦
              rw confirmed (finish_records w source existing content changes false now h there)
        ]

    module _
        (injective : (t t' : ℕ) (k k' : String) (u u' : Option ℕ)
          → settings.source_id_for t k u ≡ settings.source_id_for t' k' u'
          → (t ≡ t') × (k ≡ k') × (u ≡ u')) where
      -- Where the stores are in agreement and the ids of different sources differ, an ingestion of
      -- a known source in which nothing fails returns, and says whether the hash differs from the
      -- recorded one; the source's row then has the hash of the content, no marker, and the route
      -- and interval that it had; and if it is not MAG that holds the source, RAG holds a text with
      -- that hash.
      pub ingest-Records :
          (w : World Uuid S) (tenant_id : ℕ) (profile : DataSourceProfile) (user_id : Option ℕ)
          → Good w
          → agree (is_user profile.scope) (is_some user_id) ≡ true
          → get w.tables tenant_id profile.source_key user_id ≡ some existing
          → let (w', outcome) =
              ingest settings store w tenant_id profile content now user_id nothing_fails in
            Records (w', outcome)
            × ((is_mag existing.route ≡ true)
                ⊎ HoldsText settings store hit_of IsSound view laws hash_of
                    (lookup (existing.tenant_id, existing.id) w'.rag)
                    (settings.content_hash content))
      unfolding get
      ingest-Records w tenant_id profile user_id h scoped found =
          let (i, there) =
            find_row-some tenant_id profile.source_key user_id w.tables.data_sources existing
              h.well_formed.rows_distinct found in
          let recorded : Records
              (ingest settings store w tenant_id profile content now user_id nothing_fails) =
            subst Records
              (sym (
                ingest_step settings store w tenant_id profile content now user_id nothing_fails
                  existing scoped found))
              (known-Records w h (
                subst (λ j. lookup j w.tables.data_sources ≡ some existing)
                  (sym (((h.agrees i).keyed existing there).0)) there)) in
          let (returned, (cached_until, there')) = recorded in
          let h' =
            ingest-Consistent settings store hit_of IsSound view laws hash_of injective w tenant_id
              profile content now user_id nothing_fails h in
          (
            recorded,
            elim (Bool-cases (is_mag existing.route)) [
              | inl facts ↦ inl facts
              | inr stored ↦
                  inr
                    ((h'.agrees existing.id).in_rag (confirmed_row cached_until) there' refl stored)
            ],
          )
