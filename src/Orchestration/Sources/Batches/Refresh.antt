-- ===== src/Orchestration/Sources/Batches/Refresh.antt =====
-- A refresh keeps the stores in agreement.
use ai_augmented_generation.Prelude.{
  ◌≡◌, refl, ap, sym, ◌∙◌, subst, inl, inr, ℕ, String, Bool, true, false, ◌&&◌, Option, none, some,
  List, [], ◌∷◌, Eq, nat_eq, string_eq, pair_eq, ◌==◌, ==_iff, Bool-cases, arith, All,
}
use ai_augmented_generation.Prelude.Dict.{lookup, insert, remove}
use ai_augmented_generation.Orchestration.Stores.{Store, IsStore}
use ai_augmented_generation.Orchestration.Stores.Expiring.{Expiring, preload_until, evict, contains}
use ai_augmented_generation.Orchestration.Stores.Expiring.Inner.{
  contains-Keeps, view-preload_until, preload_evict-Keeps,
}
use ai_augmented_generation.Orchestration.Freshness.{DataSource}
use ai_augmented_generation.Orchestration.Sources.{
  Tables, record_cached_until, list_sources, current_content, is_null,
}
use ai_augmented_generation.Orchestration.Sources.Ingestion.{
  World, Settings, drop_cached, expires_at,
}
use ai_augmented_generation.Orchestration.Sources.Ingestion.Changes.{is_cached_route}
use ai_augmented_generation.Orchestration.Sources.Ingestion.Fresh.{Consistent}
use ai_augmented_generation.Orchestration.Sources.Batches.{
  is_past, recorded, preload_source, preload_current, refresh_uncached, refresh_source, refresh_all,
  refresh,
}
use ai_augmented_generation.Orchestration.Sources.Batches.Rounds.{
  Round, Routed, Round-same, Round-row, kept-Consistent, touch_preload, new_row-Consistent,
  hit_of_row, Round-trans, Round-All, listed-Routed,
}
use ai_augmented_generation.Orchestration.Sources.Batches.Writes.{Wrote, record_cached_until-Wrote}

module _ {Uuid F S H : Type 0} ⦃ids : Eq Uuid⦄ (settings : Settings Uuid F)
    (store : Store (ℕ × Uuid) S H) (hit_of : String → H) (IsSound : S → Type 0)
    (view : S → ℕ × Uuid → Option H) (laws : IsStore store hit_of IsSound view)
    (hash_of : H → String)
    (hashes : (text : String) → hash_of (hit_of text) ≡ settings.content_hash text) where
  abbrev Good : World Uuid S → Type 0
  Good w = Consistent settings store hit_of IsSound view laws hash_of w

  abbrev Refreshed : World Uuid S → World Uuid S → Type 0
  Refreshed w w' = Round settings store hit_of IsSound view laws hash_of is_cached_route w w'

  abbrev RoutedIn : DataSource Uuid → World Uuid S → Type 0
  RoutedIn source w =
      Routed settings store hit_of IsSound view laws hash_of is_cached_route source w

  unmoved : (w : World Uuid S) → Good w → Refreshed w w
  unmoved w h =
      Round-same settings store hit_of IsSound view laws hash_of is_cached_route w w h refl

  module _ (w : World Uuid S) (h : Good w) (tenant_id : ℕ) (source : DataSource Uuid)
      (routed : RoutedIn source w) (cached : is_cached_route source.route ≡ true) where
    module _ (content : String) (until : Option ℕ)
        (same : settings.content_hash content ≡ source.content_hash) where
      abbrev filled : World Uuid S
      filled = record w {
        cache = preload_until store w.cache (tenant_id, source.id) content until;
        warmed = insert (tenant_id, source.id) content w.warmed;
      }

      held :
          (t : Tables Uuid) (row : DataSource Uuid)
          → lookup source.id w.tables.data_sources ≡ some row
          → t.data_sources
            ≡ insert source.id (record row { cached_until = until }) w.tables.data_sources
          → row.tenant_id ≡ tenant_id
          → row.content_hash ≡ source.content_hash
          → row.pending_hash ≡ none
          → (tenant_id' : ℕ) (hit : H) → view filled.cache.inner (tenant_id', source.id) ≡ some hit
          → (row.tenant_id ≡ tenant_id')
            × (is_cached_route row.route ≡ true)
            × (hash_of hit ≡ row.content_hash)
      held t row there written its_tenant its_hash settled tenant_id' hit e =
          let k : ℕ × Uuid = (tenant_id, source.id) in
          let j : ℕ × Uuid = (tenant_id', source.id) in
          let viewed =
            sym (
              view-preload_until store hit_of IsSound view laws k w.cache h.well_formed.sound
                content until j)
            ∙ e in
          elim (Bool-cases (k == j)) [
            | inl here ↦
                let is_hit = rw here at viewed in
                (
                  its_tenant ∙ ap (λ (p : ℕ × Uuid). p.0) ((==_iff k j).0 here),
                  routed row there ∙ cached,
                  sym (ap hash_of (some_inj (hit_of content) hit is_hit))
                      ∙ hashes content
                      ∙ same
                      ∙ sym its_hash,
                )
            | inr other ↦
                let (its_tenant', its_route, fresh) =
                  hit_of_row settings store hit_of IsSound view laws hash_of w h source.id row
                    (record row { cached_until = until }) there t written tenant_id' hit
                    (rw other at viewed) in
                (its_tenant', its_route, fresh settled)
          ]
        where
          some_inj : (a b : H) → some a ≡ some b → a ≡ b
          some_inj a b e' = cc

      recorded-Round :
          (r : Tables Uuid × Bool)
          → Wrote w.tables source.id tenant_id source.content_hash
              (λ row. record row { cached_until = until })
              r
          → Refreshed w ((recorded settings store filled tenant_id source.id r).0)
      unfolding drop_cached
      recorded-Round (t, false) wrote =
          let k : ℕ × Uuid = (tenant_id, source.id) in
          let c = evict store (filled.cache) k in
          subst
            (λ s. Refreshed w (record w { tables = s; cache = c; warmed = remove k filled.warmed }))
            (sym wrote)
            (Round-same settings store hit_of IsSound view laws hash_of is_cached_route w
              (record w { cache = c; warmed = remove k filled.warmed })
              (kept-Consistent settings store hit_of IsSound view laws hash_of k w c
                (remove k filled.warmed) h
                (preload_evict-Keeps store hit_of IsSound view laws k w.cache content until
                  h.well_formed.sound))
              refl)
      recorded-Round (t, true) (row, there, (its_tenant, its_hash, settled), written) =
          let row' : DataSource Uuid = record row { cached_until = until } in
          Round-row settings store hit_of IsSound view laws hash_of is_cached_route w
            (record filled { tables = t }) source.id row row'
            (new_row-Consistent settings store hit_of IsSound view laws hash_of w h source.id row
              row' there t written refl refl refl refl refl settled (λ stored. stored) filled.cache
              filled.warmed
              (touch_preload settings store hit_of IsSound view laws hash_of w h source.id row row'
                there t written tenant_id content until filled.warmed)
              (held t row there written its_tenant its_hash settled))
            there written refl

      preload_source-Round :
          Refreshed w ((preload_source settings store w tenant_id source content until).0)
      unfolding preload_source
      preload_source-Round =
          recorded-Round
            (record_cached_until w.tables tenant_id source.id source.content_hash until)
            (record_cached_until-Wrote w.tables source.id tenant_id source.content_hash until)

    preload_current-Round :
        (until : Option ℕ) (found : Option String)
        → Refreshed w ((preload_current settings store w tenant_id source until found).0)
    unfolding preload_current
    preload_current-Round until none = unmoved w h
    preload_current-Round until (some content) =
        elim (Bool-cases (settings.content_hash content == source.content_hash)) [
          | inl same ↦ rw same (
              preload_source-Round content until
                ((==_iff (settings.content_hash content) source.content_hash).0 same))
          | inr other ↦ rw other (unmoved w h)
        ]

  module _ (tenant_id now : ℕ) where
    refresh_uncached-Round :
        (w : World Uuid S) (source : DataSource Uuid) (found : Expiring (ℕ × Uuid) S × Bool)
        → Good w
        → Good (record w { cache = found.0 })
        → RoutedIn source w
        → is_cached_route source.route ≡ true
        → Refreshed w ((refresh_uncached settings store w tenant_id source now found).0)
    unfolding refresh_uncached
    refresh_uncached-Round w source (c, true) h h' routed cached =
        Round-same settings store hit_of IsSound view laws hash_of is_cached_route w
          (record w { cache = c }) h' refl
    refresh_uncached-Round w source (c, false) h h' routed cached =
        let w' = record w { cache = c } in
        let until = expires_at settings store source source.last_ingested_at in
        let looked =
          Round-same settings store hit_of IsSound view laws hash_of is_cached_route w w' h' refl in
        elim (Bool-cases (is_past now until)) [
          | inl past ↦ rw past looked
          | inr fresh ↦ rw fresh (
              Round-trans settings store hit_of IsSound view laws hash_of is_cached_route w w'
                ((preload_current settings store w' tenant_id source until
                  (current_content w'.tables tenant_id source.id)).0)
                looked
                (preload_current-Round w' h' tenant_id source routed cached until
                  (current_content w'.tables tenant_id source.id)))
        ]

    refresh_source-Round :
        (w : World Uuid S) (source : DataSource Uuid)
        → Good w
        → RoutedIn source w
        → Refreshed w ((refresh_source settings store w tenant_id source now).0)
    unfolding refresh_source
    refresh_source-Round w source h routed =
        let k : ℕ × Uuid = (tenant_id, source.id) in
        elim (Bool-cases (is_cached_route source.route && is_null source.pending_hash)) [
          | inr skipped ↦ rw skipped (unmoved w h)
          | inl due ↦ rw due (
              refresh_uncached-Round w source (contains store now w.cache k) h
                (kept-Consistent settings store hit_of IsSound view laws hash_of k w
                  ((contains store now w.cache k).0) w.warmed h
                  (contains-Keeps store hit_of IsSound view laws k w.cache h.well_formed.sound now))
                routed (ground arith))
        ]

    refresh_all-Consistent :
        (w : World Uuid S) (sources : List (DataSource Uuid))
        → Good w
        → All (λ source. RoutedIn source w) sources
        → Good ((refresh_all settings store w tenant_id sources now).0)
    unfolding refresh_all
    refresh_all-Consistent w [] h every = h
    refresh_all-Consistent w (source ∷ sources) h every =
        let w' = (refresh_source settings store w tenant_id source now).0 in
        let first = refresh_source-Round w source h (every.0) in
        refresh_all-Consistent w' sources first.consistent (
          Round-All settings store hit_of IsSound view laws hash_of is_cached_route w w' first
            sources (every.1))

    -- A refresh keeps the stores in agreement.
    pub refresh-Consistent :
        (w : World Uuid S) → Good w → Good ((refresh settings store w tenant_id now).0)
    unfolding refresh list_sources
    refresh-Consistent w h = refresh_all-Consistent w (list_sources w.tables tenant_id) h (
        listed-Routed settings store hit_of IsSound view laws hash_of is_cached_route w h tenant_id)
