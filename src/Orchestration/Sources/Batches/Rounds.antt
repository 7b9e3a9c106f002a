-- ===== src/Orchestration/Sources/Batches/Rounds.antt =====
-- What one round of a batch job does to the stores.
use ai_augmented_generation.Prelude.{
  ◌≡◌, refl, ap, sym, ◌∙◌, subst, inl, inr, ℕ, String, Bool, true, false, Option, none, some, List,
  [], ◌∷◌, Eq, nat_eq, string_eq, pair_eq, ◌==◌, ==_refl, if◌then◌else◌, Bool-cases, All,
}
use ai_augmented_generation.Prelude.Dict.{Dict, lookup, insert, lookup-insert}
use ai_augmented_generation.Orchestration.Stores.{Store, IsStore}
use ai_augmented_generation.Orchestration.Stores.Expiring.{Expiring, preload_until, evict}
use ai_augmented_generation.Orchestration.Stores.Expiring.Inner.{
  Keeps, evict-Keeps, view-preload_until, preload_until-IsSound,
}
use ai_augmented_generation.Orchestration.Freshness.{DataSource, IngestionRoute}
use ai_augmented_generation.Orchestration.Sources.{Tables, list_sources}
use ai_augmented_generation.Orchestration.Sources.Ingestion.{World, Settings, is_mag, drop_cached}
use ai_augmented_generation.Orchestration.Sources.Ingestion.Changes.{
  is_cached_route, IsConsistent-by, Touches, touch_row, apart,
}
use ai_augmented_generation.Orchestration.Sources.Ingestion.Effects.{kept_everywhere}
use ai_augmented_generation.Orchestration.Sources.Ingestion.Fresh.{Consistent, Agrees-by}
use ai_augmented_generation.Orchestration.Sources.Batches.Writes.{rows_of-All}

module _ {Uuid F S H : Type 0} ⦃ids : Eq Uuid⦄ (settings : Settings Uuid F)
    (store : Store (ℕ × Uuid) S H) (hit_of : String → H) (IsSound : S → Type 0)
    (view : S → ℕ × Uuid → Option H) (laws : IsStore store hit_of IsSound view)
    (hash_of : H → String) where
  abbrev Good : World Uuid S → Type 0
  Good w = Consistent settings store hit_of IsSound view laws hash_of w

  -- The cache may lose what it held.
  pub kept-Consistent :
      (k : ℕ × Uuid) (w : World Uuid S) (c : Expiring (ℕ × Uuid) S)
      (warmed : Dict (ℕ × Uuid) String)
      → Good w
      → Keeps store hit_of IsSound view laws k w.cache c
      → Good (record w { cache = c; warmed = warmed })
  kept-Consistent k w c warmed h keeps = record {
    well_formed = record {
      rows_distinct = h.well_formed.rows_distinct;
      rag_distinct = h.well_formed.rag_distinct;
      sound = keeps.sound;
    };
    agrees = λ i. record {
      keyed = λ row e. (h.agrees i).keyed row e;
      in_rag = λ row e settled stored. (h.agrees i).in_rag row e settled stored;
      in_cache = λ tenant_id hit e. (h.agrees i).in_cache tenant_id hit (
          kept_everywhere settings store hit_of IsSound view laws hash_of k w.cache c keeps
            (tenant_id, i) hit e);
    };
  }

  pub drop-Consistent :
      (tenant_id : ℕ) (i : Uuid) (w : World Uuid S)
      → Good w
      → Good (drop_cached settings store w tenant_id i)
  unfolding drop_cached
  drop-Consistent tenant_id i w h =
      kept-Consistent (tenant_id, i) w (evict store w.cache (tenant_id, i))
        ((drop_cached settings store w tenant_id i).warmed) h
        (evict-Keeps store hit_of IsSound view laws (tenant_id, i) w.cache h.well_formed.sound)

  -- A row of the same source, with the same hash and marker, and a route that fits what is held.
  module _ (w : World Uuid S) (h : Good w) (i : Uuid) (row row' : DataSource Uuid)
      (there : lookup i w.tables.data_sources ≡ some row) (t : Tables Uuid)
      (e : t.data_sources ≡ insert i row' w.tables.data_sources) where
    pub row_there : lookup i t.data_sources ≡ some row'
    row_there = ap (lookup i) e ∙ lookup-insert i i row' w.tables.data_sources ∙ rw (==_refl i) refl

    pub hit_of_row :
        (tenant_id : ℕ) (hit : H)
        → view w.cache.inner (tenant_id, i) ≡ some hit
        → (row.tenant_id ≡ tenant_id)
          × (is_cached_route row.route ≡ true)
          × (row.pending_hash ≡ none → hash_of hit ≡ row.content_hash)
    hit_of_row tenant_id hit held =
        let (found, there', its_tenant, routed, fresh) = (h.agrees i).in_cache tenant_id hit held in
        let same : found ≡ row = cc (there, there') in
        subst
          (λ (r : DataSource Uuid).
            (r.tenant_id ≡ tenant_id)
            × (is_cached_route r.route ≡ true)
            × (r.pending_hash ≡ none → hash_of hit ≡ r.content_hash))
          same (its_tenant, routed, fresh)

    module _ (id_same : row'.id ≡ row.id) (tenant_same : row'.tenant_id ≡ row.tenant_id)
        (key_same : row'.source_key ≡ row.source_key) (user_same : row'.user_id ≡ row.user_id)
        (hash_same : row'.content_hash ≡ row.content_hash) (settled : row.pending_hash ≡ none)
        (not_mag : is_mag row'.route ≡ false → is_mag row.route ≡ false) where
      pub new_row-Consistent :
          (c : Expiring (ℕ × Uuid) S) (warmed : Dict (ℕ × Uuid) String)
          → Touches settings store hit_of IsSound view laws hash_of i w
              (record w { tables = t; cache = c; warmed = warmed })
          → ((tenant_id : ℕ) (hit : H)
              → view c.inner (tenant_id, i) ≡ some hit
              → (row.tenant_id ≡ tenant_id)
                × (is_cached_route row'.route ≡ true)
                × (hash_of hit ≡ row.content_hash))
          → Good (record w { tables = t; cache = c; warmed = warmed })
      new_row-Consistent c warmed touched held =
          IsConsistent-by settings store hit_of IsSound view laws hash_of i w
            (record w { tables = t; cache = c; warmed = warmed }) h touched
            (Agrees-by settings store hit_of IsSound view laws hash_of i
              (record w { tables = t; cache = c; warmed = warmed }) row' row_there
              (let (its_id, its_key) = (h.agrees i).keyed row there in
                (id_same ∙ its_id, rw (tenant_same, key_same, user_same) its_key))
              (λ pending stored.
                rw (tenant_same, hash_same)
                  ((h.agrees i).in_rag row there settled (not_mag stored)))
              (λ tenant_id hit kept.
                let (its_tenant, routed, fresh) = held tenant_id hit kept in
                (tenant_same ∙ its_tenant, routed, λ pending. fresh ∙ sym hash_same)))

    pub touch_preload :
        (tenant_id : ℕ) (content : String) (until : Option ℕ) (warmed : Dict (ℕ × Uuid) String)
        → Touches settings store hit_of IsSound view laws hash_of i w (record w {
          tables = t;
          cache = preload_until store w.cache (tenant_id, i) content until;
          warmed = warmed;
        })
    touch_preload tenant_id content until warmed =
        let row_only =
          touch_row settings store hit_of IsSound view laws hash_of i w h.well_formed row' t e in
        record {
          well_formed = record {
            rows_distinct = row_only.well_formed.rows_distinct;
            rag_distinct = h.well_formed.rag_distinct;
            sound =
                preload_until-IsSound store hit_of IsSound view laws (tenant_id, i) w.cache
                  h.well_formed.sound content until;
          };
          rows = row_only.rows;
          rag = λ tenant_id' j other. refl;
          cached = λ tenant_id' j other.
              view-preload_until store hit_of IsSound view laws (tenant_id, i) w.cache
                h.well_formed.sound content until (tenant_id', j)
              ∙ rw
                  (apart settings store hit_of IsSound view laws hash_of i w h.well_formed tenant_id
                    tenant_id' j other)
                  refl;
        }

  module _ (p : IngestionRoute → Bool) where
    -- The row of the source, if it has one, is routed as it is, as far as `p` can tell.
    abbrev pub Routed : DataSource Uuid → World Uuid S → Type 0
    Routed source w =
        (row : DataSource Uuid)
        → lookup source.id w.tables.data_sources ≡ some row
        → p row.route ≡ p source.route

    -- The stores are in agreement, and every row is one from before, routed as it was.
    pub record Round (w w' : World Uuid S) : Type 0 where
      pub consistent : Good w'
      pub routes :
          (j : Uuid) (row' : DataSource Uuid)
          → lookup j w'.tables.data_sources ≡ some row'
          → (row : DataSource Uuid) × (lookup j w.tables.data_sources ≡ some row)
            × (p row'.route ≡ p row.route)

    pub Round-same : (w w' : World Uuid S) → Good w' → w'.tables ≡ w.tables → Round w w'
    Round-same w w' h same = record {
      consistent = h;
      routes = λ j row' e. (row', sym (ap (λ t. lookup j t.data_sources) same) ∙ e, refl);
    }

    pub Round-row :
        (w w' : World Uuid S) (i : Uuid) (row row' : DataSource Uuid)
        → Good w'
        → lookup i w.tables.data_sources ≡ some row
        → w'.tables.data_sources ≡ insert i row' w.tables.data_sources
        → p row'.route ≡ p row.route
        → Round w w'
    Round-row w w' i row row' h there written routed = record {
      consistent = h;
      routes = λ j found e.
          let e' : (if i == j then some row' else lookup j w.tables.data_sources) ≡ some found =
            sym (lookup-insert i j row' w.tables.data_sources) ∙ sym (ap (lookup j) written) ∙ e in
          elim (Bool-cases (i == j)) [
            | inl same ↦ (
              row,
              subst (λ k. lookup k w.tables.data_sources ≡ some row) ((ids.eqb_iff i j).0 same)
                  there,
              subst (λ (r : DataSource Uuid). p r.route ≡ p row.route) (found_is same found e')
                  routed,
            )
            | inr other ↦ (found, rw other at e', refl)
          ];
    }
      where
        found_is :
            {j : Uuid}
            → (i == j) ≡ true
            → (found : DataSource Uuid)
            → (if i == j then some row' else lookup j w.tables.data_sources) ≡ some found
            → row' ≡ found
        found_is same found e' = cc (rw same at e')

    pub Round-Routed :
        (w w' : World Uuid S) (source : DataSource Uuid)
        → Round w w'
        → Routed source w
        → Routed source w'
    Round-Routed w w' source r routed row' e =
        let (row, there, same) = r.routes source.id row' e in same ∙ routed row there

    pub Round-All :
        (w w' : World Uuid S)
        → Round w w'
        → (sources : List (DataSource Uuid)) → All (λ source. Routed source w) sources
        → All (λ source. Routed source w') sources
    Round-All w w' r [] every = tt
    Round-All w w' r (source ∷ sources) every =
        (Round-Routed w w' source r (every.0), Round-All w w' r sources (every.1))

    pub Round-trans : (w w' w'' : World Uuid S) → Round w w' → Round w' w'' → Round w w''
    Round-trans w w' w'' first second = record {
      consistent = second.consistent;
      routes = λ j row'' e.
          let (row', there', same') = second.routes j row'' e in
          let (row, there, same) = first.routes j row' there' in (row, there, same' ∙ same);
    }

    -- A source is routed as it is listed.
    pub listed-Routed :
        (w : World Uuid S)
        → Good w
        → (tenant_id : ℕ) → All (λ source. Routed source w) (list_sources w.tables tenant_id)
    unfolding list_sources
    listed-Routed w h tenant_id =
        rows_of-All (λ source. Routed source w) tenant_id w.tables.data_sources
          h.well_formed.rows_distinct
          (λ i row there row' there'.
            ap (λ (r : DataSource Uuid). p r.route)
              (same i row there row' (((h.agrees i).keyed row there).0) there'))
      where
        same :
            (i : Uuid) (row : DataSource Uuid)
            → lookup i w.tables.data_sources ≡ some row
            → (row' : DataSource Uuid) → row.id ≡ i
            → lookup row.id w.tables.data_sources ≡ some row'
            → row' ≡ row
        same i row there row' named there' = cc
