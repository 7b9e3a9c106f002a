-- ===== src/Orchestration/Sources/Batches/Review.antt =====
-- A review keeps the stores in agreement.
use ai_augmented_generation.Prelude.{
  ◌≡◌, ◌≢◌, ◌⊎◌, refl, sym, ◌∙◌, subst, inl, inr, ℕ, String, Bool, true, false, not, ◌||◌, Option,
  none, some, List, [], ◌∷◌, Eq, nat_eq, string_eq, pair_eq, ==_refl, Bool-cases, All,
}
use ai_augmented_generation.Prelude.Dict.{remove}
use ai_augmented_generation.Orchestration.Stores.{Store, IsStore}
use ai_augmented_generation.Orchestration.Stores.Expiring.{evict}
use ai_augmented_generation.Orchestration.Stores.Expiring.Inner.{view-evict, evict-Keeps}
use ai_augmented_generation.Orchestration.Freshness.{
  DataSource, IngestionRoute, rag_only, cag_with_rag_backup, mag, MigrationDecision,
  decide_migration,
}
use ai_augmented_generation.Orchestration.Freshness.Laws.{decide_migration-routes}
use ai_augmented_generation.Orchestration.Sources.{
  Tables, migrate, list_sources, version_times, is_null,
}
use ai_augmented_generation.Orchestration.Sources.Ingestion.{
  World, Settings, drop_cached, is_mag, is_user,
}
use ai_augmented_generation.Orchestration.Sources.Ingestion.Changes.{
  touch_row, touch_cache, Touches-trans,
}
use ai_augmented_generation.Orchestration.Sources.Ingestion.Effects.{kept_everywhere}
use ai_augmented_generation.Orchestration.Sources.Ingestion.Fresh.{Consistent}
use ai_augmented_generation.Orchestration.Sources.Batches.{
  migrated_to, review_decided, review_source, review_all, review,
}
use ai_augmented_generation.Orchestration.Sources.Batches.Rounds.{
  Round, Routed, Round-All, Round-same, Round-row, new_row-Consistent, hit_of_row, listed-Routed,
}
use ai_augmented_generation.Orchestration.Sources.Batches.Writes.{Wrote, migrate-Wrote}

not_mag : (route : IngestionRoute) → route ≢ mag → is_mag route ≡ false
not_mag mag h = absurd (h refl)
not_mag rag_only h = refl
not_mag cag_with_rag_backup h = refl

module _ {Uuid F S H : Type 0} ⦃ids : Eq Uuid⦄ (settings : Settings Uuid F)
    (store : Store (ℕ × Uuid) S H) (hit_of : String → H) (IsSound : S → Type 0)
    (view : S → ℕ × Uuid → Option H) (laws : IsStore store hit_of IsSound view)
    (hash_of : H → String) where
  abbrev Good : World Uuid S → Type 0
  Good w = Consistent settings store hit_of IsSound view laws hash_of w

  abbrev Reviewed : World Uuid S → World Uuid S → Type 0
  Reviewed w w' = Round settings store hit_of IsSound view laws hash_of is_mag w w'

  abbrev RoutedIn : DataSource Uuid → World Uuid S → Type 0
  RoutedIn source w = Routed settings store hit_of IsSound view laws hash_of is_mag source w

  unmoved : (w : World Uuid S) → Good w → Reviewed w w
  unmoved w h = Round-same settings store hit_of IsSound view laws hash_of is_mag w w h refl

  module _ (w : World Uuid S) (h : Good w) (tenant_id : ℕ) (source : DataSource Uuid)
      (routed : RoutedIn source w) (stays : is_mag source.route ≡ false) where
    module _ (interval : ℕ) (until : Option ℕ) where
      abbrev rerouted : IngestionRoute → DataSource Uuid → DataSource Uuid
      rerouted route row = record row {
        route = route;
        expected_change_interval = interval;
        cached_until = until;
      }

      demoted-Round :
          (r : Tables Uuid × Bool)
          → Wrote w.tables source.id tenant_id source.content_hash (rerouted rag_only) r
          → Reviewed w ((migrated_to settings store w tenant_id source.id true r).0)
      unfolding drop_cached
      demoted-Round (t, false) wrote =
          subst (λ s. Reviewed w (record w { tables = s })) (sym wrote) (unmoved w h)
      demoted-Round (t, true) (row, there, (its_tenant, its_hash, settled), written) =
          let i = source.id in
          let k : ℕ × Uuid = (tenant_id, i) in
          let c = evict store w.cache k in
          let warmed = remove k w.warmed in
          let row' : DataSource Uuid = rerouted rag_only row in
          let w' = record w { tables = t } in
          let touched =
            touch_row settings store hit_of IsSound view laws hash_of i w h.well_formed row' t
              written in
          let keeps = evict-Keeps store hit_of IsSound view laws k w.cache h.well_formed.sound in
          Round-row settings store hit_of IsSound view laws hash_of is_mag w
            (record w { tables = t; cache = c; warmed = warmed }) i row row'
            (new_row-Consistent settings store hit_of IsSound view laws hash_of w h i row row' there
              t written refl refl refl refl refl settled (λ stored. routed row there ∙ stays) c
              warmed
              (Touches-trans settings store hit_of IsSound view laws hash_of i w w'
                (record w { tables = t; cache = c; warmed = warmed }) touched
                (touch_cache settings store hit_of IsSound view laws hash_of i w'
                  touched.well_formed tenant_id c warmed keeps))
              (λ tenant_id' hit held.
                let (its_tenant', its_route, fresh) =
                  hit_of_row settings store hit_of IsSound view laws hash_of w h i row row' there t
                    written tenant_id' hit
                    (kept_everywhere settings store hit_of IsSound view laws hash_of k w.cache c
                      keeps (tenant_id', i) hit held) in
                absurd (gone tenant_id' hit (sym its_tenant ∙ its_tenant') held)))
            there written (sym (routed row there ∙ stays))
        where
          gone :
              (tenant_id' : ℕ) (hit : H)
              → tenant_id ≡ tenant_id'
              → view (evict store w.cache (tenant_id, source.id)).inner (tenant_id', source.id)
                ≡ some hit
              → ⊥
          gone tenant_id' hit same held =
              let k : ℕ × Uuid = (tenant_id, source.id) in
              let dropped : view (evict store w.cache k).inner k ≡ none =
                view-evict store hit_of IsSound view laws k w.cache h.well_formed.sound k
                ∙ rw (==_refl k) refl in
              let again : view (evict store w.cache k).inner k ≡ some hit =
                subst (λ t. view (evict store w.cache k).inner (t, source.id) ≡ some hit) (sym same)
                  held in
              cc (dropped, again)

      promoted-Round :
          (r : Tables Uuid × Bool)
          → Wrote w.tables source.id tenant_id source.content_hash (rerouted cag_with_rag_backup) r
          → Reviewed w ((migrated_to settings store w tenant_id source.id false r).0)
      promoted-Round (t, false) wrote =
          subst (λ s. Reviewed w (record w { tables = s })) (sym wrote) (unmoved w h)
      promoted-Round (t, true) (row, there, (its_tenant, its_hash, settled), written) =
          let i = source.id in
          let row' : DataSource Uuid = rerouted cag_with_rag_backup row in
          Round-row settings store hit_of IsSound view laws hash_of is_mag w
            (record w { tables = t }) i row row'
            (new_row-Consistent settings store hit_of IsSound view laws hash_of w h i row row' there
              t written refl refl refl refl refl settled (λ stored. routed row there ∙ stays)
              w.cache w.warmed
              (touch_row settings store hit_of IsSound view laws hash_of i w h.well_formed row' t
                written)
              (λ tenant_id' hit held.
                let (its_tenant', its_route, fresh) =
                  hit_of_row settings store hit_of IsSound view laws hash_of w h i row row' there t
                    written tenant_id' hit held in
                (its_tenant', refl, fresh settled)))
            there written (sym (routed row there ∙ stays))

    review_decided-Round :
        (decision : Option MigrationDecision)
        → ((d : MigrationDecision)
            → decision ≡ some d
            → (d.to_route ≡ rag_only) ⊎ (d.to_route ≡ cag_with_rag_backup))
        → Reviewed w ((review_decided settings store w tenant_id source decision).0)
    review_decided-Round none known = unmoved w h
    review_decided-Round (some d) known = elim (known d refl) [
      | inl demoted ↦ rw demoted (
          demoted-Round d.interval none
            (migrate w.tables tenant_id source.id source.content_hash rag_only d.interval none)
            (migrate-Wrote w.tables source.id tenant_id source.content_hash rag_only d.interval
              none))
      | inr promoted ↦ rw promoted (
          promoted-Round d.interval source.cached_until
            (migrate w.tables tenant_id source.id source.content_hash cag_with_rag_backup d.interval
              source.cached_until)
            (migrate-Wrote w.tables source.id tenant_id source.content_hash cag_with_rag_backup
              d.interval source.cached_until))
    ]

  module _ (tenant_id now : ℕ) where
    decided-Round :
        (w : World Uuid S) (source : DataSource Uuid) (decision : Option MigrationDecision)
        → Good w
        → RoutedIn source w
        → decide_migration settings.policy source (version_times w.tables tenant_id source.id) now
          ≡ decision
        → Reviewed w ((review_decided settings store w tenant_id source decision).0)
    decided-Round w source none h routed e = unmoved w h
    decided-Round w source (some d) h routed e =
        let (leaves, known) =
          decide_migration-routes settings.policy source
            (version_times w.tables tenant_id source.id) now d e in
        review_decided-Round w h tenant_id source routed (not_mag source.route leaves) (some d)
          (λ d' same.
            subst
              (λ (x : MigrationDecision).
                (x.to_route ≡ rag_only) ⊎ (x.to_route ≡ cag_with_rag_backup))
              (some_inj d d' same) known)
      where
        some_inj : (a b : MigrationDecision) → some a ≡ some b → a ≡ b
        some_inj a b same = cc

    review_source-Round :
        (w : World Uuid S) (source : DataSource Uuid)
        → Good w
        → RoutedIn source w
        → Reviewed w ((review_source settings store w tenant_id source now).0)
    unfolding review_source
    review_source-Round w source h routed =
        elim (Bool-cases (is_user source.scope || not (is_null source.pending_hash))) [
          | inl skipped ↦ rw skipped (unmoved w h)
          | inr due ↦ rw due (
              decided-Round w source
                (decide_migration settings.policy source
                  (version_times w.tables tenant_id source.id) now)
                h routed refl)
        ]

    review_all-Consistent :
        (w : World Uuid S) (sources : List (DataSource Uuid))
        → Good w
        → All (λ source. RoutedIn source w) sources
        → Good ((review_all settings store w tenant_id sources now).0)
    unfolding review_all
    review_all-Consistent w [] h every = h
    review_all-Consistent w (source ∷ sources) h every =
        let w' = (review_source settings store w tenant_id source now).0 in
        let first = review_source-Round w source h (every.0) in
        review_all-Consistent w' sources first.consistent (
          Round-All settings store hit_of IsSound view laws hash_of is_mag w w' first sources
            (every.1))

    -- A review keeps the stores in agreement.
    pub review-Consistent :
        (w : World Uuid S) → Good w → Good ((review settings store w tenant_id now).0)
    unfolding review
    review-Consistent w h =
        review_all-Consistent w (list_sources w.tables tenant_id) h
          (listed-Routed settings store hit_of IsSound view laws hash_of is_mag w h tenant_id)
