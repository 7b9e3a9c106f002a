-- ===== src/Orchestration/Sources/Batches/Writes.antt =====
-- The conditional writes of src/orchestration/infrastructure/postgres_data_source_repository.py,
-- and the rows that a listing gives.
use ai_augmented_generation.Prelude.{
  ◌≡◌, refl, inl, inr, ℕ, String, Bool, true, false, ◌&&◌, Option, none, some, [], ◌∷◌, Eq, nat_eq,
  string_eq, ◌==◌, ==_refl, ==_iff, Bool-cases, Option-cases, arith, All,
}
use ai_augmented_generation.Prelude.Dict.{Dict, lookup, insert, IsDistinct}
use ai_augmented_generation.Orchestration.Freshness.{DataSource, IngestionRoute}
use ai_augmented_generation.Orchestration.Sources.{
  Tables, is_unchanged, is_null, cached_row, record_cached_until, migrated_row, migrate, rows_of,
}

unchanged_lem :
    {Uuid : Type 0} ⦃ids : Eq Uuid⦄ (tenant_id : ℕ) (hash : String) (row : DataSource Uuid)
    → is_unchanged tenant_id hash row ≡ true
    → (row.tenant_id ≡ tenant_id) × (row.content_hash ≡ hash) × (row.pending_hash ≡ none)
unchanged_lem tenant_id hash row e = (
  ground (arith, ==_iff row.tenant_id tenant_id),
  ground (arith, ==_iff row.content_hash hash),
  elim (Option-cases row.pending_hash) [
    | inl settled ↦ settled
    | inr (pending, marked) ↦
        absurd
          (marks (row.tenant_id == tenant_id) (row.content_hash == hash) pending (rw marked at e))
  ],
)
  where
    marks : (a b : Bool) (pending : String) → (a && b && is_null (some pending)) ≡ true → ⊥
    marks a b pending e = ground arith

module _ {Uuid : Type 0} ⦃ids : Eq Uuid⦄ (t : Tables Uuid) (i : Uuid) (tenant_id : ℕ)
    (hash : String) where
  -- A conditional write: it wrote nothing, or the row was unchanged and is what `change` makes of
  -- it.
  abbrev pub Wrote : (DataSource Uuid → DataSource Uuid) → Tables Uuid × Bool → Type 0
  Wrote change (t', false) = t' ≡ t
  Wrote change (t', true) =
      (row : DataSource Uuid) × (lookup i t.data_sources ≡ some row)
      × ((row.tenant_id ≡ tenant_id) × (row.content_hash ≡ hash) × (row.pending_hash ≡ none))
      × (t'.data_sources ≡ insert i (change row) t.data_sources)

  cached_row-Wrote :
      (until : Option ℕ) (found : Option (DataSource Uuid))
      → lookup i t.data_sources ≡ found
      → Wrote
          (λ row. record row { cached_until = until })
          (cached_row t i tenant_id hash until found)
  cached_row-Wrote until none e = refl
  cached_row-Wrote until (some row) e = elim (Bool-cases (is_unchanged tenant_id hash row)) [
    | inl same ↦ rw same (row, e, unchanged_lem tenant_id hash row same, refl)
    | inr changed ↦ rw changed refl
  ]

  pub record_cached_until-Wrote :
      (until : Option ℕ)
      → Wrote
          (λ row. record row { cached_until = until })
          (record_cached_until t tenant_id i hash until)
  unfolding record_cached_until
  record_cached_until-Wrote until = cached_row-Wrote until (lookup i t.data_sources) refl

  migrated_row-Wrote :
      (route : IngestionRoute) (interval : ℕ) (until : Option ℕ) (found : Option (DataSource Uuid))
      → lookup i t.data_sources ≡ found
      → Wrote
          (λ row. record row {
            route = route;
            expected_change_interval = interval;
            cached_until = until;
          })
          (migrated_row t i tenant_id hash route interval until found)
  migrated_row-Wrote route interval until none e = refl
  migrated_row-Wrote route interval until (some row) e =
      elim (Bool-cases (is_unchanged tenant_id hash row)) [
        | inl same ↦ rw same (row, e, unchanged_lem tenant_id hash row same, refl)
        | inr changed ↦ rw changed refl
      ]

  pub migrate-Wrote :
      (route : IngestionRoute) (interval : ℕ) (until : Option ℕ)
      → Wrote
          (λ row. record row {
            route = route;
            expected_change_interval = interval;
            cached_until = until;
          })
          (migrate t tenant_id i hash route interval until)
  unfolding migrate
  migrate-Wrote route interval until =
      migrated_row-Wrote route interval until (lookup i t.data_sources) refl

-- What holds of every row holds of the rows of a tenant.
pub rows_of-All :
    {Uuid : Type 0} ⦃ids : Eq Uuid⦄ (P : DataSource Uuid → Type 0) (tenant_id : ℕ)
    (rows : Dict Uuid (DataSource Uuid))
    → IsDistinct rows
    → ((i : Uuid) (row : DataSource Uuid) → lookup i rows ≡ some row → P row)
    → All P (rows_of tenant_id rows)
unfolding rows_of lookup
rows_of-All P tenant_id [] h every = tt
rows_of-All P tenant_id ((i, row) ∷ rows) h every =
    let rest = rows_of-All P tenant_id rows (h.1) (λ j row' there.
      every j row' (elim (Bool-cases (i == j)) [
        | inr other ↦ rw other there
        | inl same ↦ absurd (only_once j row' same there)
      ])) in
    elim (Bool-cases (row.tenant_id == tenant_id)) [
      | inl its ↦ rw its (every i row (rw (==_refl i) refl), rest)
      | inr other ↦ rw other rest
    ]
  where
    only_once : (j : _) (row' : DataSource _) → (i == j) ≡ true → lookup j rows ≡ some row' → ⊥
    only_once j row' same there = cc ((==_iff i j).0 same, h.0, there)
