-- ===== src/Orchestration/Sources/Ingestion/Effects.antt =====
-- What the effects of a route do, whole or broken off.
use ai_augmented_generation.Prelude.{
  ◌≡◌, refl, sym, ◌∙◌, subst, inl, inr, ℕ, String, Bool, true, false, Option, none, some, Eq,
  nat_eq, pair_eq, ◌==◌, ==_refl, Bool-cases,
}
use ai_augmented_generation.Prelude.Dict.{Dict, lookup, remove, lookup-insert}
use ai_augmented_generation.Orchestration.Stores.{Store, IsStore}
use ai_augmented_generation.Orchestration.Stores.Expiring.{Expiring, renew, evict}
use ai_augmented_generation.Orchestration.Stores.Expiring.Inner.{
  Keeps, view-evict, evict-Keeps, renew-Keeps,
}
use ai_augmented_generation.Orchestration.Freshness.{
  IngestionRoute, rag_only, cag_with_rag_backup, mag, DataSource,
}
use ai_augmented_generation.Orchestration.Sources.Ingestion.{
  World, Settings, is_mag, replace, drop_cached, write_fact, expires_at, renew_cached, apply_route,
  left_in, break_off,
}
use ai_augmented_generation.Orchestration.Sources.Ingestion.Changes.{
  is_cached_route, IsWellFormed, Touches, Touches-trans, touch_nothing, touch_rag, untouch_rag,
  touch_cache,
}

module _ {Uuid F S H : Type 0} ⦃ids : Eq Uuid⦄ (settings : Settings Uuid F)
    (store : Store (ℕ × Uuid) S H) (hit_of : String → H) (IsSound : S → Type 0)
    (view : S → ℕ × Uuid → Option H) (laws : IsStore store hit_of IsSound view)
    (hash_of : H → String) where
  -- Only the source `i` was touched, its row was not, and nothing new is cached.
  pub record Settling (i : Uuid) (w w' : World Uuid S) : Type 0 where
    pub touched : Touches settings store hit_of IsSound view laws hash_of i w w'
    pub tables : w'.tables ≡ w.tables
    pub nothing_new :
        (k : ℕ × Uuid) (hit : H)
        → view w'.cache.inner k ≡ some hit
        → view w.cache.inner k ≡ some hit

  Settling-trans :
      (i : Uuid) (w w' w'' : World Uuid S) → Settling i w w' → Settling i w' w'' → Settling i w w''
  Settling-trans i w w' w'' first second = record {
    touched =
        Touches-trans settings store hit_of IsSound view laws hash_of i w w' w'' first.touched
          second.touched;
    tables = second.tables ∙ first.tables;
    nothing_new = λ k hit e. first.nothing_new k hit (second.nothing_new k hit e);
  }

  pub kept_everywhere :
      (k : ℕ × Uuid) (c c' : Expiring (ℕ × Uuid) S)
      → Keeps store hit_of IsSound view laws k c c'
      → (j : ℕ × Uuid) (hit : H) → view c'.inner j ≡ some hit
      → view c.inner j ≡ some hit
  kept_everywhere k c c' keeps j hit e = elim (Bool-cases (k == j)) [
    | inr other ↦ sym (keeps.others j other) ∙ e
    | inl same ↦
        let k-is : k ≡ j = (pair_eq.eqb_iff k j).0 same in
        subst (λ i. view c.inner i ≡ some hit) k-is
          (keeps.nothing_new hit (subst (λ i. view c'.inner i ≡ some hit) (sym k-is) e))
  ]

  module _ (w : World Uuid S) (h : IsWellFormed settings store hit_of IsSound view laws hash_of w)
      (tenant_id : ℕ) (i : Uuid) where
    settle_nothing : Settling i w w
    settle_nothing = record {
      touched = touch_nothing settings store hit_of IsSound view laws hash_of i w h;
      tables = refl;
      nothing_new = λ k hit e. e;
    }

    settle_rag : (text : String) → Settling i w (replace settings store w tenant_id i text)
    settle_rag text = record {
      touched = touch_rag settings store hit_of IsSound view laws hash_of i w h tenant_id text;
      tables = refl;
      nothing_new = λ k hit e. e;
    }

    settle_left :
        (left : Option String)
        → Settling i w (record w { rag = left_in settings store w.rag (tenant_id, i) left })
    settle_left none = record {
      touched = untouch_rag settings store hit_of IsSound view laws hash_of i w h tenant_id;
      tables = refl;
      nothing_new = λ k hit e. e;
    }
    settle_left (some text) = settle_rag text

    settle_cache :
        (c : Expiring (ℕ × Uuid) S) (warmed : Dict (ℕ × Uuid) String)
        → Keeps store hit_of IsSound view laws (tenant_id, i) w.cache c
        → Settling i w (record w { cache = c; warmed = warmed })
    settle_cache c warmed keeps = record {
      touched =
          touch_cache settings store hit_of IsSound view laws hash_of i w h tenant_id c warmed
            keeps;
      tables = refl;
      nothing_new = kept_everywhere (tenant_id, i) w.cache c keeps;
    }

    pub settle_drop : Settling i w (drop_cached settings store w tenant_id i)
    unfolding drop_cached
    settle_drop =
        settle_cache (evict store w.cache (tenant_id, i)) (remove (tenant_id, i) w.warmed)
          (evict-Keeps store hit_of IsSound view laws (tenant_id, i) w.cache h.sound)

    pub dropped : view (drop_cached settings store w tenant_id i).cache.inner (tenant_id, i) ≡ none
    unfolding drop_cached
    dropped =
        view-evict store hit_of IsSound view laws (tenant_id, i) w.cache h.sound (tenant_id, i)
        ∙ rw (==_refl {A = ℕ × Uuid} (tenant_id, i)) refl

  module _ (w : World Uuid S) (h : IsWellFormed settings store hit_of IsSound view laws hash_of w)
      (source : DataSource Uuid) (content : String) (now : ℕ) where
    settle_fact :
        (user_id : Option ℕ)
        → Settling source.id w (write_fact settings store w source content user_id)
    settle_fact none = settle_nothing w h source.tenant_id source.id
    settle_fact (some user_id) = record {
      touched = record {
        well_formed = record {
          rows_distinct = h.rows_distinct;
          rag_distinct = h.rag_distinct;
          sound = h.sound;
        };
        rows = λ j other. refl;
        rag = λ t j other. refl;
        cached = λ t j other. refl;
      };
      tables = refl;
      nothing_new = λ k hit e. e;
    }

    pub settle_route :
        (reapply : Bool) (route : IngestionRoute)
        → Settling source.id w ((apply_route settings store w source content reapply now route).0)
    unfolding apply_route renew_cached
    settle_route true mag = settle_fact source.user_id
    settle_route false mag = settle_nothing w h source.tenant_id source.id
    settle_route true rag_only = settle_rag w h source.tenant_id source.id content
    settle_route false rag_only = settle_nothing w h source.tenant_id source.id
    settle_route true cag_with_rag_backup =
        let first = settle_rag w h source.tenant_id source.id content in
        let w' = replace settings store w source.tenant_id source.id content in
        Settling-trans source.id w w' (drop_cached settings store w' source.tenant_id source.id)
          first (settle_drop w' first.touched.well_formed source.tenant_id source.id)
    settle_route false cag_with_rag_backup =
        settle_cache w h source.tenant_id source.id
          ((renew store now w.cache (source.tenant_id, source.id)
            (expires_at settings store source now)).0)
          w.warmed
          (renew-Keeps store hit_of IsSound view laws (source.tenant_id, source.id) w.cache h.sound
            now (expires_at settings store source now))

    pub settle_broken :
        (left : Option String) (evicted : Bool) (route : IngestionRoute)
        → Settling source.id w (break_off settings store w source left evicted route)
    unfolding break_off
    settle_broken left evicted mag = settle_nothing w h source.tenant_id source.id
    settle_broken left evicted rag_only = settle_left w h source.tenant_id source.id left
    settle_broken left false cag_with_rag_backup = settle_left w h source.tenant_id source.id left
    settle_broken left true cag_with_rag_backup =
        let w' = record w {
          rag = left_in settings store w.rag (source.tenant_id, source.id) left;
        } in
        let first = settle_left w h source.tenant_id source.id left in
        Settling-trans source.id w w' (drop_cached settings store w' source.tenant_id source.id)
          first (settle_drop w' first.touched.well_formed source.tenant_id source.id)

    -- What a route that is applied again leaves in RAG and in the cache.
    pub held_again :
        (route : IngestionRoute)
        → is_mag route ≡ false
        → lookup
            (source.tenant_id, source.id)
            (apply_route settings store w source content true now route).0.rag
          ≡ some content
    unfolding apply_route drop_cached
    held_again mag e = cc
    held_again rag_only e =
        lookup-insert (source.tenant_id, source.id) (source.tenant_id, source.id) content w.rag
        ∙ rw (==_refl {A = ℕ × Uuid} (source.tenant_id, source.id)) refl
    held_again cag_with_rag_backup e =
        lookup-insert (source.tenant_id, source.id) (source.tenant_id, source.id) content w.rag
        ∙ rw (==_refl {A = ℕ × Uuid} (source.tenant_id, source.id)) refl

    pub held_before :
        (route : IngestionRoute)
        → (apply_route settings store w source content false now route).0.rag ≡ w.rag
    unfolding apply_route renew_cached
    held_before mag = refl
    held_before rag_only = refl
    held_before cag_with_rag_backup = refl

    pub dropped_again :
        (route : IngestionRoute)
        → is_cached_route route ≡ true
        → view
            (apply_route settings store w source content true now route).0.cache.inner
            (source.tenant_id, source.id)
          ≡ none
    unfolding apply_route
    dropped_again mag e = cc
    dropped_again rag_only e = cc
    dropped_again cag_with_rag_backup e =
        let first = settle_rag w h source.tenant_id source.id content in
        dropped (replace settings store w source.tenant_id source.id content)
          first.touched.well_formed source.tenant_id source.id
