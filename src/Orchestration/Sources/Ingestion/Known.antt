-- ===== src/Orchestration/Sources/Ingestion/Known.antt =====
-- An ingestion of a source that has a row leaves the stores in agreement.
use ai_augmented_generation.Prelude.{
  ◌≡◌, refl, ap, sym, ◌∙◌, subst, ℕ, String, true, false, Option, none, some, Eq, nat_eq, string_eq,
  pair_eq,
}
use ai_augmented_generation.Prelude.Dict.{lookup}
use ai_augmented_generation.Orchestration.Stores.{Store, IsStore}
use ai_augmented_generation.Orchestration.Freshness.{DataSource}
use ai_augmented_generation.Orchestration.Sources.{SourceVersion, save, upserted}
use ai_augmented_generation.Orchestration.Sources.Ingestion.{World, Settings, is_mag, apply_route}
use ai_augmented_generation.Orchestration.Sources.Ingestion.Changes.{
  is_cached_route, HoldsText, IsConsistent-by,
}
use ai_augmented_generation.Orchestration.Sources.Ingestion.Effects.{
  Settling, settle_route, held_again, held_before, dropped_again,
}
use ai_augmented_generation.Orchestration.Sources.Ingestion.Fresh.{
  Consistent, Agrees-by, save_row, save-Consistent,
}

module _ {Uuid F S H : Type 0} ⦃ids : Eq Uuid⦄ (settings : Settings Uuid F)
    (store : Store (ℕ × Uuid) S H) (hit_of : String → H) (IsSound : S → Type 0)
    (view : S → ℕ × Uuid → Option H) (laws : IsStore store hit_of IsSound view)
    (hash_of : H → String) where
  abbrev Good : World Uuid S → Type 0
  Good w = Consistent settings store hit_of IsSound view laws hash_of w

  -- A source that has a row, whose change is pending.
  module _ (w : World Uuid S) (h : Good w) (row : DataSource Uuid) (hash content : String) (now : ℕ)
      (there : lookup row.id w.tables.data_sources ≡ some row)
      (pending : row.pending_hash ≡ some hash) where
    its_row :
        (tenant_id : ℕ) (hit : H)
        → view w.cache.inner (tenant_id, row.id) ≡ some hit
        → (row.tenant_id ≡ tenant_id) × (is_cached_route row.route ≡ true)
    its_row tenant_id hit e =
        let (found, there', its_tenant, routed, fresh) =
          (h.agrees row.id).in_cache tenant_id hit e in
        let same : found ≡ row = cc (there, there') in
        (
          sym (ap (λ (r : DataSource Uuid). r.tenant_id) same) ∙ its_tenant,
          sym (ap (λ (r : DataSource Uuid). is_cached_route r.route) same) ∙ routed,
        )

    pub pending-Consistent :
        (w' : World Uuid S)
        → Settling settings store hit_of IsSound view laws hash_of row.id w w'
        → Good w'
    pending-Consistent w' settling =
        IsConsistent-by settings store hit_of IsSound view laws hash_of row.id w w' h
          settling.touched
          (Agrees-by settings store hit_of IsSound view laws hash_of row.id w' row
            (ap (λ t. lookup row.id t.data_sources) settling.tables ∙ there)
            ((h.agrees row.id).keyed row there) (λ settled stored. absurd (cc (settled, pending)))
            (λ tenant_id hit e.
              let (its_tenant, routed) =
                its_row tenant_id hit (settling.nothing_new (tenant_id, row.id) hit e) in
              (its_tenant, routed, λ settled. absurd (cc (settled, pending)))))

    pub saved_pending :
        (source : DataSource Uuid) (until : Option ℕ) (version : Option (SourceVersion Uuid))
        → source.id ≡ row.id
        → source.tenant_id ≡ row.tenant_id
        → source.route ≡ row.route
        → source.content_hash ≡ settings.content_hash content
        → let w' = (apply_route settings store w source content true now source.route).0 in
          Good
            (record w' { tables = save w'.tables (record source { cached_until = until }) version })
    saved_pending source until version ids_same tenants routes hashed =
        let settling =
          settle_route settings store hit_of IsSound view laws hash_of w h.well_formed source
            content now true source.route in
        let w' = (apply_route settings store w source content true now source.route).0 in
        let saved = record source { cached_until = until } in
        save-Consistent settings store hit_of IsSound view laws hash_of w w' saved version h
          settling.touched
          (Agrees-by settings store hit_of IsSound view laws hash_of source.id
            (record w' { tables = save w'.tables saved version }) (upserted saved (some row))
            (save_row settings store hit_of IsSound view laws hash_of w'.tables saved version
              ∙ ap (λ found. some (upserted saved found))
                  (ap (λ t. lookup source.id t.data_sources) settling.tables
                    ∙ ap (λ i. lookup i w.tables.data_sources) ids_same
                    ∙ there))
            (sym ids_same, ids_same ∙ ((h.agrees row.id).keyed row there).1)
            (λ settled stored.
              subst
                (λ t.
                  HoldsText settings store hit_of IsSound view laws hash_of
                    (lookup (t, source.id) w'.rag) source.content_hash)
                tenants
                (rw
                  (held_again settings store hit_of IsSound view laws hash_of w h.well_formed source
                    content now source.route (ap is_mag routes ∙ stored))
                  (sym hashed)))
            (λ tenant_id hit e.
              let (its_tenant, routed) = its_row tenant_id hit (
                subst (λ i. view w.cache.inner (tenant_id, i) ≡ some hit) ids_same
                  (settling.nothing_new (tenant_id, source.id) hit e)) in
              absurd (
                none-ne hit (
                  sym (
                    dropped_again settings store hit_of IsSound view laws hash_of w h.well_formed
                      source content now source.route (ap is_cached_route routes ∙ routed))
                  ∙ subst (λ t. view w'.cache.inner (t, source.id) ≡ some hit)
                      (sym (tenants ∙ its_tenant)) e))))
      where
        none-ne : (hit : H) → none ≡ some hit → ⊥
        none-ne hit e = cc

  -- A source that has a row, whose content is confirmed.
  module _ (w : World Uuid S) (h : Good w) (row : DataSource Uuid) (content : String) (now : ℕ)
      (there : lookup row.id w.tables.data_sources ≡ some row)
      (settled_row : row.pending_hash ≡ none) (source : DataSource Uuid)
      (ids_same : source.id ≡ row.id) where
    its_hit :
        (tenant_id : ℕ) (hit : H)
        → view w.cache.inner (tenant_id, row.id) ≡ some hit
        → (row.tenant_id ≡ tenant_id)
          × (is_cached_route row.route ≡ true)
          × (hash_of hit ≡ row.content_hash)
    its_hit tenant_id hit e =
        let (found, there', its_tenant, routed, fresh) =
          (h.agrees row.id).in_cache tenant_id hit e in
        let same : found ≡ row = cc (there, there') in
        subst
          (λ (r : DataSource Uuid).
            (r.tenant_id ≡ tenant_id)
            × (is_cached_route r.route ≡ true)
            × (hash_of hit ≡ r.content_hash))
          same
          (
            its_tenant,
            routed,
            fresh (ap (λ (r : DataSource Uuid). r.pending_hash) same ∙ settled_row),
          )

    confirming :
        Settling settings store hit_of IsSound view laws hash_of source.id w
          ((apply_route settings store w source content false now source.route).0)
    confirming =
        settle_route settings store hit_of IsSound view laws hash_of w h.well_formed source content
          now false source.route

    hit_before :
        (tenant_id : ℕ) (hit : H)
        → view
            (apply_route settings store w source content false now source.route).0.cache.inner
            (tenant_id, source.id)
          ≡ some hit
        → (row.tenant_id ≡ tenant_id)
          × (is_cached_route row.route ≡ true)
          × (hash_of hit ≡ row.content_hash)
    hit_before tenant_id hit e = its_hit tenant_id hit (
        subst (λ i. view w.cache.inner (tenant_id, i) ≡ some hit) ids_same
          (confirming.nothing_new (tenant_id, source.id) hit e))

    confirmed_rag :
        (hash : String)
        → hash ≡ row.content_hash
        → is_mag row.route ≡ false
        → HoldsText settings store hit_of IsSound view laws hash_of
            (lookup
              (row.tenant_id, source.id)
              (apply_route settings store w source content false now source.route).0.rag)
            hash
    confirmed_rag hash same stored =
        rw
          (
            held_before settings store hit_of IsSound view laws hash_of w h.well_formed source
                content now source.route,
            same,
            ids_same,
          )
          ((h.agrees row.id).in_rag row there settled_row stored)

    pub saved_confirmed :
        (until : Option ℕ) (version : Option (SourceVersion Uuid))
        → source.content_hash ≡ row.content_hash
        → let w' = (apply_route settings store w source content false now source.route).0 in
          Good
            (record w' { tables = save w'.tables (record source { cached_until = until }) version })
    saved_confirmed until version hashes =
        let w' = (apply_route settings store w source content false now source.route).0 in
        let saved = record source { cached_until = until } in
        save-Consistent settings store hit_of IsSound view laws hash_of w w' saved version h
          confirming.touched
          (Agrees-by settings store hit_of IsSound view laws hash_of source.id
            (record w' { tables = save w'.tables saved version }) (upserted saved (some row))
            (save_row settings store hit_of IsSound view laws hash_of w'.tables saved version
              ∙ ap (λ found. some (upserted saved found))
                  (ap (λ t. lookup source.id t.data_sources) confirming.tables
                    ∙ ap (λ i. lookup i w.tables.data_sources) ids_same
                    ∙ there))
            (sym ids_same, ids_same ∙ ((h.agrees row.id).keyed row there).1)
            (λ settled stored. confirmed_rag source.content_hash hashes stored)
            (λ tenant_id hit e.
              let (its_tenant, routed, fresh) = hit_before tenant_id hit e in
              (its_tenant, routed, λ settled. fresh ∙ sym hashes)))

    pub confirmed-Consistent :
        Good ((apply_route settings store w source content false now source.route).0)
    confirmed-Consistent =
        let w' = (apply_route settings store w source content false now source.route).0 in
        IsConsistent-by settings store hit_of IsSound view laws hash_of source.id w w' h
          confirming.touched
          (Agrees-by settings store hit_of IsSound view laws hash_of source.id w' row
            (ap (λ t. lookup source.id t.data_sources) confirming.tables
              ∙ ap (λ i. lookup i w.tables.data_sources) ids_same
              ∙ there)
            (sym ids_same, ids_same ∙ ((h.agrees row.id).keyed row there).1)
            (λ settled stored. confirmed_rag row.content_hash refl stored)
            (λ tenant_id hit e.
              let (its_tenant, routed, fresh) = hit_before tenant_id hit e in
              (its_tenant, routed, λ settled. fresh)))
