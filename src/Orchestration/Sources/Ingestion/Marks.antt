-- ===== src/Orchestration/Sources/Ingestion/Marks.antt =====
-- A marker leaves the stores in agreement.
use ai_augmented_generation.Prelude.{
  ◌≡◌, refl, ap, sym, ◌∙◌, ℕ, String, Option, some, Eq, nat_eq, string_eq, pair_eq, ==_refl,
}
use ai_augmented_generation.Prelude.Dict.{lookup, insert, lookup-insert}
use ai_augmented_generation.Orchestration.Stores.{Store, IsStore}
use ai_augmented_generation.Orchestration.Freshness.{DataSource}
use ai_augmented_generation.Orchestration.Sources.{Tables, mark_pending}
use ai_augmented_generation.Orchestration.Sources.Ingestion.{World, Settings}
use ai_augmented_generation.Orchestration.Sources.Ingestion.Changes.{
  is_cached_route, IsConsistent-by, touch_row,
}
use ai_augmented_generation.Orchestration.Sources.Ingestion.Fresh.{Consistent, Agrees-by}

module _ {Uuid F S H : Type 0} ⦃ids : Eq Uuid⦄ (settings : Settings Uuid F)
    (store : Store (ℕ × Uuid) S H) (hit_of : String → H) (IsSound : S → Type 0)
    (view : S → ℕ × Uuid → Option H) (laws : IsStore store hit_of IsSound view)
    (hash_of : H → String) where
  abbrev Good : World Uuid S → Type 0
  Good w = Consistent settings store hit_of IsSound view laws hash_of w

  mark_row :
      (t : Tables Uuid) (row : DataSource Uuid) (hash : String)
      → lookup row.id t.data_sources ≡ some row
      → mark_pending t row.tenant_id row.id hash ≡ record t {
        data_sources = insert row.id (record row { pending_hash = some hash }) t.data_sources;
      }
  unfolding mark_pending
  mark_row t row hash there = rw (there, ==_refl row.tenant_id) refl

  pub mark_found :
      (t : Tables Uuid) (row : DataSource Uuid) (hash : String)
      → lookup row.id t.data_sources ≡ some row
      → lookup row.id (mark_pending t row.tenant_id row.id hash).data_sources
        ≡ some (record row { pending_hash = some hash })
  mark_found t row hash there =
      ap (λ (s : Tables Uuid). lookup row.id s.data_sources) (mark_row t row hash there)
      ∙ lookup-insert row.id row.id (record row { pending_hash = some hash }) t.data_sources
      ∙ rw (==_refl row.id) refl

  pub marked-Consistent :
      (w : World Uuid S) (h : Good w) (row : DataSource Uuid) (hash : String)
      → lookup row.id w.tables.data_sources ≡ some row
      → Good (record w { tables = mark_pending w.tables row.tenant_id row.id hash })
  marked-Consistent w h row hash there =
      let marked : DataSource Uuid = record row { pending_hash = some hash } in
      let t = mark_pending w.tables row.tenant_id row.id hash in
      let rows_are : t.data_sources ≡ insert row.id marked w.tables.data_sources =
        ap (λ (s : Tables Uuid). s.data_sources) (mark_row w.tables row hash there) in
      IsConsistent-by settings store hit_of IsSound view laws hash_of row.id w
        (record w { tables = t }) h
        (touch_row settings store hit_of IsSound view laws hash_of row.id w h.well_formed marked t
          rows_are)
        (Agrees-by settings store hit_of IsSound view laws hash_of row.id (record w { tables = t })
          marked (mark_found w.tables row hash there) ((h.agrees row.id).keyed row there)
          (λ settled. absurd (cc settled))
          (λ tenant_id hit e.
            let (found, there', its_tenant, routed, fresh) =
              (h.agrees row.id).in_cache tenant_id hit e in
            let same : found ≡ row = cc (there, there') in
            (
              sym (ap (λ (r : DataSource Uuid). r.tenant_id) same) ∙ its_tenant,
              sym (ap (λ (r : DataSource Uuid). is_cached_route r.route) same) ∙ routed,
              λ settled. absurd (cc settled),
            )))
