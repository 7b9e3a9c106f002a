-- ===== src/Orchestration/Sources/Ingestion/Fresh.antt =====
-- When the stores agree, and that they do after a source was added, or was not.
use ai_augmented_generation.Prelude.{
  ◌≡◌, refl, ap, sym, ◌∙◌, subst, ℕ, String, true, false, Option, none, some, Eq, nat_eq, string_eq,
  pair_eq, ==_refl,
}
use ai_augmented_generation.Prelude.Dict.{lookup, lookup-insert}
use ai_augmented_generation.Orchestration.Stores.{Store, IsStore}
use ai_augmented_generation.Orchestration.Freshness.{DataSource}
use ai_augmented_generation.Orchestration.Sources.{Tables, SourceVersion, save, upserted}
use ai_augmented_generation.Orchestration.Sources.Ingestion.{World, Settings, is_mag, apply_route}
use ai_augmented_generation.Orchestration.Sources.Ingestion.Changes.{
  is_cached_route, HoldsText, AgreesOn, IsConsistent, Touches, Touches-trans, IsConsistent-by,
  touch_row,
}
use ai_augmented_generation.Orchestration.Sources.Ingestion.Effects.{
  Settling, settle_route, held_again,
}

module _ {Uuid F S H : Type 0} ⦃ids : Eq Uuid⦄ (settings : Settings Uuid F)
    (store : Store (ℕ × Uuid) S H) (hit_of : String → H) (IsSound : S → Type 0)
    (view : S → ℕ × Uuid → Option H) (laws : IsStore store hit_of IsSound view)
    (hash_of : H → String) where
  abbrev pub Agrees : Uuid → World Uuid S → Type 0
  Agrees i w = AgreesOn settings store hit_of IsSound view laws hash_of i w

  abbrev pub Consistent : World Uuid S → Type 0
  Consistent w = IsConsistent settings store hit_of IsSound view laws hash_of w

  -- It is enough to look at the row that the source has.
  pub Agrees-by :
      (i : Uuid) (w : World Uuid S) (row : DataSource Uuid)
      → lookup i w.tables.data_sources ≡ some row
      → (row.id ≡ i) × (i ≡ settings.source_id_for row.tenant_id row.source_key row.user_id)
      → (row.pending_hash ≡ none
          → is_mag row.route ≡ false
          → HoldsText settings store hit_of IsSound view laws hash_of
              (lookup (row.tenant_id, i) w.rag)
              row.content_hash)
      → ((tenant_id : ℕ) (hit : H)
          → view w.cache.inner (tenant_id, i) ≡ some hit
          → (row.tenant_id ≡ tenant_id)
            × (is_cached_route row.route ≡ true)
            × (row.pending_hash ≡ none → hash_of hit ≡ row.content_hash))
      → Agrees i w
  Agrees-by i w row there keyed in_rag in_cache = record {
    keyed = λ row' e.
        subst (λ r. (r.id ≡ i) × (i ≡ settings.source_id_for r.tenant_id r.source_key r.user_id))
          (same row' e) keyed;
    in_rag = λ row' e.
        subst
          (λ r.
            r.pending_hash ≡ none
            → is_mag r.route ≡ false
            → HoldsText settings store hit_of IsSound view laws hash_of
                (lookup (r.tenant_id, i) w.rag) r.content_hash)
          (same row' e) in_rag;
    in_cache = λ tenant_id hit e.
        let (its_tenant, routed, fresh) = in_cache tenant_id hit e in
        (row, there, its_tenant, routed, fresh);
  }
    where
      same : (row' : DataSource Uuid) → lookup i w.tables.data_sources ≡ some row' → row ≡ row'
      same row' e = cc

  pub save_row :
      (t : Tables Uuid) (source : DataSource Uuid) (version : Option (SourceVersion Uuid))
      → lookup source.id (save t source version).data_sources
        ≡ some (upserted source (lookup source.id t.data_sources))
  unfolding save
  save_row t source version =
      lookup-insert source.id source.id (upserted source (lookup source.id t.data_sources))
        t.data_sources
      ∙ rw (==_refl source.id) refl

  abbrev Touched : Uuid → World Uuid S → World Uuid S → Type 0
  Touched i w w' = Touches settings store hit_of IsSound view laws hash_of i w w'

  -- A row that is saved after the effects.
  pub save-Consistent :
      (w w' : World Uuid S) (source : DataSource Uuid) (version : Option (SourceVersion Uuid))
      → Consistent w
      → Touched source.id w w'
      → Agrees source.id (record w' { tables = save w'.tables source version })
      → Consistent (record w' { tables = save w'.tables source version })
  unfolding save
  save-Consistent w w' source version h touched here =
      let t = save w'.tables source version in
      IsConsistent-by settings store hit_of IsSound view laws hash_of source.id w
        (record w' { tables = t }) h
        (Touches-trans settings store hit_of IsSound view laws hash_of source.id w w'
          (record w' { tables = t }) touched
          (touch_row settings store hit_of IsSound view laws hash_of source.id w'
            touched.well_formed (upserted source (lookup source.id w'.tables.data_sources)) t refl))
        here

  module _ (w : World Uuid S) (h : Consistent w) (source : DataSource Uuid) (content : String)
      (now : ℕ) where
    -- A source that has no row yet.
    module _ (absent : lookup source.id w.tables.data_sources ≡ none) where
      never_cached :
          (tenant_id : ℕ) (hit : H) → view w.cache.inner (tenant_id, source.id) ≡ some hit → ⊥
      never_cached tenant_id hit e =
          let (row, there, its_tenant, routed, fresh) =
            (h.agrees source.id).in_cache tenant_id hit e in
          cc (absent, there)

      pub absent-Consistent :
          (w' : World Uuid S)
          → Settling settings store hit_of IsSound view laws hash_of source.id w w'
          → Consistent w'
      absent-Consistent w' settling =
          IsConsistent-by settings store hit_of IsSound view laws hash_of source.id w w' h
            settling.touched
            (record {
              keyed = λ row e. absurd (no_row row e);
              in_rag = λ row e. absurd (no_row row e);
              in_cache = λ tenant_id hit e.
                  absurd (
                    never_cached tenant_id hit (settling.nothing_new (tenant_id, source.id) hit e));
            })
        where
          no_row : (row : DataSource Uuid) → lookup source.id w'.tables.data_sources ≡ some row → ⊥
          no_row row e = cc (absent, settling.tables, e)

      pub saved_new :
          (until : Option ℕ) (version : Option (SourceVersion Uuid))
          → source.id ≡ settings.source_id_for source.tenant_id source.source_key source.user_id
          → source.content_hash ≡ settings.content_hash content
          → let w' = (apply_route settings store w source content true now source.route).0 in
            Consistent (record w' {
              tables = save w'.tables (record source { cached_until = until }) version;
            })
      saved_new until version keyed hashed =
          let settling =
            settle_route settings store hit_of IsSound view laws hash_of w h.well_formed source
              content now true source.route in
          let w' = (apply_route settings store w source content true now source.route).0 in
          let row = record source { cached_until = until } in
          save-Consistent w w' row version h settling.touched (
            Agrees-by source.id (record w' { tables = save w'.tables row version }) row
              (save_row w'.tables row version
                ∙ ap (λ found. some (upserted row found))
                    (ap (λ t. lookup source.id t.data_sources) settling.tables ∙ absent))
              (refl, keyed)
              (λ settled stored.
                rw
                  (held_again settings store hit_of IsSound view laws hash_of w h.well_formed source
                    content now source.route stored)
                  (sym hashed))
              (λ tenant_id hit e.
                absurd
                  (never_cached tenant_id hit (settling.nothing_new (tenant_id, source.id) hit e))))
