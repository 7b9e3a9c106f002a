-- ===== src/Orchestration/Sources/Ingestion/Changes.antt =====
-- When the stores agree on the sources, and what an operation on one source leaves alone.
use ai_augmented_generation.Prelude.{
  ◌≡◌, refl, ap, sym, ◌∙◌, subst, inl, inr, ℕ, String, Bool, true, false, ◌&&◌, Option, none, some,
  Eq, nat_eq, pair_eq, ◌==◌, Bool-cases,
}
use ai_augmented_generation.Prelude.Dict.{
  Dict, lookup, insert, remove, IsDistinct, lookup-insert, lookup-remove, insert-IsDistinct,
  remove-IsDistinct,
}
use ai_augmented_generation.Orchestration.Stores.{Store, IsStore}
use ai_augmented_generation.Orchestration.Stores.Expiring.{Expiring}
use ai_augmented_generation.Orchestration.Stores.Expiring.Laws.{IsSoundExpiring}
use ai_augmented_generation.Orchestration.Stores.Expiring.Inner.{Keeps}
use ai_augmented_generation.Orchestration.Freshness.{
  IngestionRoute, rag_only, cag_with_rag_backup, mag, DataSource,
}
use ai_augmented_generation.Orchestration.Sources.{Tables}
use ai_augmented_generation.Orchestration.Sources.Ingestion.{World, Settings, is_mag}

abbrev pub is_cached_route : IngestionRoute → Bool
is_cached_route cag_with_rag_backup = true
is_cached_route rag_only = false
is_cached_route mag = false

and-false : (b : Bool) → (b && false) ≡ false
and-false true = refl
and-false false = refl

module _ {Uuid F S H : Type 0} ⦃ids : Eq Uuid⦄ (settings : Settings Uuid F)
    (store : Store (ℕ × Uuid) S H) (hit_of : String → H) (IsSound : S → Type 0)
    (view : S → ℕ × Uuid → Option H) (laws : IsStore store hit_of IsSound view)
    (hash_of : H → String) where
  -- RAG holds a text with this hash.
  abbrev pub HoldsText : Option String → String → Type 0
  HoldsText none hash = ⊥
  HoldsText (some text) hash = settings.content_hash text ≡ hash

  -- What the stores hold of a source: its row has its key; unless a change is pending, RAG holds
  -- the text of the row's hash, if it is not MAG that holds it; and what is cached is of a cached
  -- source of that tenant, and has the row's hash unless a change is pending.
  pub record AgreesOn (i : Uuid) (w : World Uuid S) : Type 0 where
    pub keyed :
        (row : DataSource Uuid)
        → lookup i w.tables.data_sources ≡ some row
        → (row.id ≡ i) × (i ≡ settings.source_id_for row.tenant_id row.source_key row.user_id)
    pub in_rag :
        (row : DataSource Uuid)
        → lookup i w.tables.data_sources ≡ some row
        → row.pending_hash ≡ none
        → is_mag row.route ≡ false
        → HoldsText (lookup (row.tenant_id, i) w.rag) row.content_hash
    pub in_cache :
        (tenant_id : ℕ) (hit : H)
        → view w.cache.inner (tenant_id, i) ≡ some hit
        → (row : DataSource Uuid) × (lookup i w.tables.data_sources ≡ some row)
          × (row.tenant_id ≡ tenant_id)
          × (is_cached_route row.route ≡ true)
          × (row.pending_hash ≡ none → hash_of hit ≡ row.content_hash)

  pub record IsWellFormed (w : World Uuid S) : Type 0 where
    pub rows_distinct : IsDistinct w.tables.data_sources
    pub rag_distinct : IsDistinct w.rag
    pub sound : IsSoundExpiring store hit_of IsSound view laws w.cache

  -- No source is in disagreement.
  pub record IsConsistent (w : World Uuid S) : Type 0 where
    pub well_formed : IsWellFormed w
    pub agrees : (i : Uuid) → AgreesOn i w

  -- Only the source `i` was touched.
  pub record Touches (i : Uuid) (w w' : World Uuid S) : Type 0 where
    pub well_formed : IsWellFormed w'
    pub rows :
        (j : Uuid)
        → (i == j) ≡ false
        → lookup j w'.tables.data_sources ≡ lookup j w.tables.data_sources
    pub rag :
        (tenant_id : ℕ) (j : Uuid)
        → (i == j) ≡ false
        → lookup (tenant_id, j) w'.rag ≡ lookup (tenant_id, j) w.rag
    pub cached :
        (tenant_id : ℕ) (j : Uuid)
        → (i == j) ≡ false
        → view w'.cache.inner (tenant_id, j) ≡ view w.cache.inner (tenant_id, j)

  other_agrees :
      (i j : Uuid) (w w' : World Uuid S)
      → (i == j) ≡ false
      → Touches i w w'
      → AgreesOn j w
      → AgreesOn j w'
  other_agrees i j w w' other touched a = record {
    keyed = λ row e. a.keyed row (sym (touched.rows j other) ∙ e);
    in_rag = λ row e settled stored.
        subst (λ text. HoldsText text row.content_hash) (sym (touched.rag row.tenant_id j other))
          (a.in_rag row (sym (touched.rows j other) ∙ e) settled stored);
    in_cache = λ tenant_id hit e.
        let (row, there, its_tenant, routed, fresh) =
          a.in_cache tenant_id hit (sym (touched.cached tenant_id j other) ∙ e) in
        (row, touched.rows j other ∙ there, its_tenant, routed, fresh);
  }

  -- It is enough to look at the source that was touched.
  pub IsConsistent-by :
      (i : Uuid) (w w' : World Uuid S)
      → IsConsistent w
      → Touches i w w'
      → AgreesOn i w'
      → IsConsistent w'
  IsConsistent-by i w w' h touched here = record {
    well_formed = touched.well_formed;
    agrees = λ j. elim (Bool-cases (i == j)) [
      | inl same ↦ subst (λ k. AgreesOn k w') ((ids.eqb_iff i j).0 same) here
      | inr other ↦ other_agrees i j w w' other touched (h.agrees j)
    ];
  }

  pub Touches-trans :
      (i : Uuid) (w w' w'' : World Uuid S) → Touches i w w' → Touches i w' w'' → Touches i w w''
  Touches-trans i w w' w'' first second = record {
    well_formed = second.well_formed;
    rows = λ j other. second.rows j other ∙ first.rows j other;
    rag = λ t j other. second.rag t j other ∙ first.rag t j other;
    cached = λ t j other. second.cached t j other ∙ first.cached t j other;
  }

  module _ (i : Uuid) (w : World Uuid S) (h : IsWellFormed w) where
    pub touch_nothing : Touches i w w
    touch_nothing = record {
      well_formed = h;
      rows = λ j other. refl;
      rag = λ t j other. refl;
      cached = λ t j other. refl;
    }

    pub touch_row :
        (row : DataSource Uuid) (t : Tables Uuid)
        → t.data_sources ≡ insert i row w.tables.data_sources
        → Touches i w (record w { tables = t })
    touch_row row t e = record {
      well_formed = record {
        rows_distinct =
            subst IsDistinct (sym e)
              (insert-IsDistinct i row w.tables.data_sources h.rows_distinct);
        rag_distinct = h.rag_distinct;
        sound = h.sound;
      };
      rows =
          λ j other. ap (lookup j) e ∙ lookup-insert i j row w.tables.data_sources ∙ rw other refl;
      rag = λ tenant_id j other. refl;
      cached = λ tenant_id j other. refl;
    }

    pub apart :
        (tenant_id tenant_id' : ℕ) (j : Uuid)
        → (i == j) ≡ false
        → ◌==◌ {A = ℕ × Uuid} (tenant_id, i) (tenant_id', j) ≡ false
    apart tenant_id tenant_id' j other = rw other (and-false (tenant_id == tenant_id'))

    pub touch_rag :
        (tenant_id : ℕ) (text : String)
        → Touches i w (record w { rag = insert (tenant_id, i) text w.rag })
    touch_rag tenant_id text = record {
      well_formed = record {
        rows_distinct = h.rows_distinct;
        rag_distinct = insert-IsDistinct (tenant_id, i) text w.rag h.rag_distinct;
        sound = h.sound;
      };
      rows = λ j other. refl;
      rag = λ tenant_id' j other.
          lookup-insert (tenant_id, i) (tenant_id', j) text w.rag
          ∙ rw (apart tenant_id tenant_id' j other) refl;
      cached = λ tenant_id' j other. refl;
    }

    pub untouch_rag : (tenant_id : ℕ) → Touches i w (record w { rag = remove (tenant_id, i) w.rag })
    untouch_rag tenant_id = record {
      well_formed = record {
        rows_distinct = h.rows_distinct;
        rag_distinct = remove-IsDistinct (tenant_id, i) w.rag h.rag_distinct;
        sound = h.sound;
      };
      rows = λ j other. refl;
      rag = λ tenant_id' j other.
          lookup-remove (tenant_id, i) (tenant_id', j) w.rag h.rag_distinct
          ∙ rw (apart tenant_id tenant_id' j other) refl;
      cached = λ tenant_id' j other. refl;
    }

    pub touch_cache :
        (tenant_id : ℕ) (c : Expiring (ℕ × Uuid) S) (warmed : Dict (ℕ × Uuid) String)
        → Keeps store hit_of IsSound view laws (tenant_id, i) w.cache c
        → Touches i w (record w { cache = c; warmed = warmed })
    touch_cache tenant_id c warmed keeps = record {
      well_formed = record {
        rows_distinct = h.rows_distinct;
        rag_distinct = h.rag_distinct;
        sound = keeps.sound;
      };
      rows = λ j other. refl;
      rag = λ tenant_id' j other. refl;
      cached =
          λ tenant_id' j other. keeps.others (tenant_id', j) (apart tenant_id tenant_id' j other);
    }
