-- ===== src/Orchestration/Sources/Ingestion/Consistency.antt =====
-- Every ingestion keeps the stores in agreement.
use ai_augmented_generation.Prelude.{
  ◌≡◌, refl, sym, subst, inl, inr, ℕ, String, Bool, true, false, not, ◌||◌, ◌&&◌, Option, none,
  some, Eq, nat_eq, string_eq, pair_eq, ◌==◌, if◌then◌else◌, Bool-cases, Option-cases,
}
use ai_augmented_generation.Prelude.Dict.{lookup}
use ai_augmented_generation.Orchestration.Stores.{Store, IsStore, is_some}
use ai_augmented_generation.Orchestration.Freshness.{DataSource, DataSourceProfile}
use ai_augmented_generation.Orchestration.Sources.{get, mark_pending, is_null}
use ai_augmented_generation.Orchestration.Sources.Ingestion.{
  World, Settings, Fault, nothing_fails, mark_fails, save_fails, effects_fail, is_mag, is_user,
  apply_route, break_off, finish, fails_to_mark, ingest_known, new_source, ingest_new, ingest_found,
  ingest, version_of, agree,
}
use ai_augmented_generation.Orchestration.Sources.Ingestion.Effects.{
  Settling, settle_route, settle_broken,
}
use ai_augmented_generation.Orchestration.Sources.Ingestion.Fresh.{
  Consistent, absent-Consistent, saved_new,
}
use ai_augmented_generation.Orchestration.Sources.Ingestion.Known.{
  pending-Consistent, saved_pending, saved_confirmed, confirmed-Consistent,
}
use ai_augmented_generation.Orchestration.Sources.Ingestion.Rows.{
  find_row-some, find_row-none, null_of, same_of,
}
use ai_augmented_generation.Orchestration.Sources.Ingestion.Marks.{mark_found, marked-Consistent}

module _ {Uuid F S H : Type 0} ⦃ids : Eq Uuid⦄ (settings : Settings Uuid F)
    (store : Store (ℕ × Uuid) S H) (hit_of : String → H) (IsSound : S → Type 0)
    (view : S → ℕ × Uuid → Option H) (laws : IsStore store hit_of IsSound view)
    (hash_of : H → String) where
  abbrev Good : World Uuid S → Type 0
  Good w = Consistent settings store hit_of IsSound view laws hash_of w

  finish_new :
      (w : World Uuid S) (source : DataSource Uuid) (content : String) (now : ℕ) (fault : Fault)
      → Good w
      → lookup source.id w.tables.data_sources ≡ none
      → source.id ≡ settings.source_id_for source.tenant_id source.source_key source.user_id
      → source.content_hash ≡ settings.content_hash content
      → Good ((finish settings store w source content true true now fault).0)
  unfolding finish
  finish_new w source content now (effects_fail left evicted) h absent keyed hashed =
      absent-Consistent settings store hit_of IsSound view laws hash_of w h source content now
        absent (break_off settings store w source left evicted source.route)
        (settle_broken settings store hit_of IsSound view laws hash_of w h.well_formed source
          content now left evicted source.route)
  finish_new w source content now save_fails h absent keyed hashed =
      absent-Consistent settings store hit_of IsSound view laws hash_of w h source content now
        absent ((apply_route settings store w source content true now source.route).0)
        (settle_route settings store hit_of IsSound view laws hash_of w h.well_formed source content
          now true source.route)
  finish_new w source content now nothing_fails h absent keyed hashed =
      saved_new settings store hit_of IsSound view laws hash_of w h source content now absent
        ((apply_route settings store w source content true now source.route).1)
        (version_of settings store source content true) keyed hashed
  finish_new w source content now mark_fails h absent keyed hashed =
      saved_new settings store hit_of IsSound view laws hash_of w h source content now absent
        ((apply_route settings store w source content true now source.route).1)
        (version_of settings store source content true) keyed hashed

  module _ (w : World Uuid S) (h : Good w) (row source : DataSource Uuid) (content : String)
      (now : ℕ) (there : lookup row.id w.tables.data_sources ≡ some row)
      (ids_same : source.id ≡ row.id) where
    still_pending :
        (hash : String)
        → row.pending_hash ≡ some hash
        → (w' : World Uuid S)
        → Settling settings store hit_of IsSound view laws hash_of source.id w w'
        → Good w'
    still_pending hash pending w' settling =
        pending-Consistent settings store hit_of IsSound view laws hash_of w h row hash content now
          there pending w'
          (subst (λ i. Settling settings store hit_of IsSound view laws hash_of i w w') ids_same
            settling)

    finish_pending :
        (hash : String) (changed : Bool) (fault : Fault)
        → row.pending_hash ≡ some hash
        → source.tenant_id ≡ row.tenant_id
        → source.route ≡ row.route
        → source.content_hash ≡ settings.content_hash content
        → Good ((finish settings store w source content changed true now fault).0)
    unfolding finish
    finish_pending hash changed (effects_fail left evicted) pending tenants routes hashed =
        still_pending hash pending (break_off settings store w source left evicted source.route) (
          settle_broken settings store hit_of IsSound view laws hash_of w h.well_formed source
            content now left evicted source.route)
    finish_pending hash changed save_fails pending tenants routes hashed =
        still_pending hash pending
          ((apply_route settings store w source content true now source.route).0)
          (settle_route settings store hit_of IsSound view laws hash_of w h.well_formed source
            content now true source.route)
    finish_pending hash changed nothing_fails pending tenants routes hashed =
        saved_pending settings store hit_of IsSound view laws hash_of w h row hash content now there
          pending source ((apply_route settings store w source content true now source.route).1)
          (version_of settings store source content changed) ids_same tenants routes hashed
    finish_pending hash changed mark_fails pending tenants routes hashed =
        saved_pending settings store hit_of IsSound view laws hash_of w h row hash content now there
          pending source ((apply_route settings store w source content true now source.route).1)
          (version_of settings store source content changed) ids_same tenants routes hashed

    finish_confirmed :
        (changed : Bool) (fault : Fault)
        → row.pending_hash ≡ none
        → source.content_hash ≡ row.content_hash
        → Good ((finish settings store w source content changed false now fault).0)
    unfolding finish
    finish_confirmed changed (effects_fail left evicted) settled hashes = h
    finish_confirmed changed save_fails settled hashes =
        confirmed-Consistent settings store hit_of IsSound view laws hash_of w h row content now
          there settled source ids_same
    finish_confirmed changed nothing_fails settled hashes =
        saved_confirmed settings store hit_of IsSound view laws hash_of w h row content now there
          settled source ids_same
          ((apply_route settings store w source content false now source.route).1)
          (version_of settings store source content changed) hashes
    finish_confirmed changed mark_fails settled hashes =
        saved_confirmed settings store hit_of IsSound view laws hash_of w h row content now there
          settled source ids_same
          ((apply_route settings store w source content false now source.route).1)
          (version_of settings store source content changed) hashes

  ingest_known-Consistent :
      (w : World Uuid S) (existing : DataSource Uuid) (content : String) (now : ℕ) (fault : Fault)
      → Good w
      → lookup existing.id w.tables.data_sources ≡ some existing
      → Good ((ingest_known settings store w existing content now fault).0)
  unfolding ingest_known
  ingest_known-Consistent w existing content now fault h there =
      let digest = settings.content_hash content in
      let changed = not (existing.content_hash == digest) in
      let source : DataSource Uuid = record existing {
        content_hash = digest;
        last_ingested_at = now;
        last_changed_at = if changed then now else existing.last_changed_at;
        pending_hash = none;
      } in
      elim (Bool-cases (changed || not (is_null existing.pending_hash))) [
        | inl again ↦ rw again (elim (Bool-cases (fails_to_mark settings store fault)) [
          | inl unmarked ↦ rw unmarked h
          | inr marked ↦ rw marked (
              finish_pending
                (record w { tables = mark_pending w.tables existing.tenant_id existing.id digest })
                (marked-Consistent settings store hit_of IsSound view laws hash_of w h existing
                  digest there)
                (record existing { pending_hash = some digest }) source content now
                (mark_found settings store hit_of IsSound view laws hash_of w.tables existing digest
                  there)
                refl digest changed fault refl refl refl refl)
        ])
        | inr confirmed ↦ rw confirmed (
            finish_confirmed w h existing source content now there refl changed fault
              (null_of existing.pending_hash changed confirmed)
              (same_of existing.content_hash digest (not (is_null existing.pending_hash))
                confirmed))
      ]

  module _
      (injective : (t t' : ℕ) (k k' : String) (u u' : Option ℕ)
        → settings.source_id_for t k u ≡ settings.source_id_for t' k' u'
        → (t ≡ t') × (k ≡ k') × (u ≡ u')) where
    no_row :
        (w : World Uuid S) (tenant_id : ℕ) (source_key : String) (user_id : Option ℕ)
        → Good w
        → get w.tables tenant_id source_key user_id ≡ none
        → lookup (settings.source_id_for tenant_id source_key user_id) w.tables.data_sources ≡ none
    unfolding get
    no_row w tenant_id source_key user_id h missing =
        let i = settings.source_id_for tenant_id source_key user_id in
        elim (Option-cases (lookup i w.tables.data_sources)) [
          | inl e ↦ e
          | inr (row, there) ↦
              let (t, k, u) =
                injective tenant_id row.tenant_id source_key row.source_key user_id row.user_id
                  (((h.agrees i).keyed row there).1) in
              absurd (
                find_row-none tenant_id source_key user_id w.tables.data_sources i row missing there
                  (sym t, sym k, sym u))
        ]

    ingest_new-Consistent :
        (w : World Uuid S) (tenant_id : ℕ) (profile : DataSourceProfile) (content : String)
        (now : ℕ) (user_id : Option ℕ) (fault : Fault)
        → Good w
        → get w.tables tenant_id profile.source_key user_id ≡ none
        → Good (
            (ingest_new settings store w content now fault (
              new_source settings store tenant_id profile
                (settings.content_hash content)
                now
                user_id)).0)
    unfolding new_source
    ingest_new-Consistent w tenant_id profile content now user_id fault h missing =
        let route = settings.route_policy profile settings.policy in
        let source : DataSource Uuid = record {
          id = settings.source_id_for tenant_id profile.source_key user_id;
          tenant_id = tenant_id;
          user_id = user_id;
          source_key = profile.source_key;
          scope = profile.scope;
          expected_change_interval = profile.expected_change_interval;
          route = route;
          content_hash = settings.content_hash content;
          last_changed_at = now;
          last_ingested_at = now;
          cached_until = none;
          pending_hash = none;
        } in
        elim (Bool-cases (is_mag route && not (is_user profile.scope))) [
          | inl refused ↦ rw refused h
          | inr allowed ↦
              elim (Bool-cases (
                is_user profile.scope
                && not (is_mag route)
                && not settings.permit_user_scope_outside_mag)) [
                  | inl refused ↦ rw (allowed, refused) h
                  | inr permitted ↦
                      rw (allowed, permitted)
                        (finish_new w source content now fault h
                          (no_row w tenant_id profile.source_key user_id h missing) refl refl)
                ]
        ]

    ingest_found-Consistent :
        (w : World Uuid S) (tenant_id : ℕ) (profile : DataSourceProfile) (content : String)
        (now : ℕ) (user_id : Option ℕ) (fault : Fault) (found : Option (DataSource Uuid))
        → Good w
        → get w.tables tenant_id profile.source_key user_id ≡ found
        → Good ((ingest_found settings store w tenant_id profile content now user_id fault found).0)
    unfolding ingest_found get
    ingest_found-Consistent w tenant_id profile content now user_id fault none h e =
        ingest_new-Consistent w tenant_id profile content now user_id fault h e
    ingest_found-Consistent w tenant_id profile content now user_id fault (some existing) h e =
        let (i, there) =
          find_row-some tenant_id profile.source_key user_id w.tables.data_sources existing
            h.well_formed.rows_distinct e in
        ingest_known-Consistent w existing content now fault h (
          subst (λ j. lookup j w.tables.data_sources ≡ some existing)
            (sym (((h.agrees i).keyed existing there).0)) there)

    -- Where the ids of different sources differ, an ingestion keeps the stores in agreement,
    -- whichever of its calls fails, and whatever a failed one leaves in RAG.
    pub ingest-Consistent :
        (w : World Uuid S) (tenant_id : ℕ) (profile : DataSourceProfile) (content : String)
        (now : ℕ) (user_id : Option ℕ) (fault : Fault)
        → Good w
        → Good ((ingest settings store w tenant_id profile content now user_id fault).0)
    unfolding ingest
    ingest-Consistent w tenant_id profile content now user_id fault h =
        elim (Bool-cases (agree (is_user profile.scope) (is_some user_id))) [
          | inl e ↦ rw e (
              ingest_found-Consistent w tenant_id profile content now user_id fault
                (get w.tables tenant_id profile.source_key user_id) h refl)
          | inr e ↦ rw e h
        ]
