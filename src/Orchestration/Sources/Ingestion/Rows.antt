-- ===== src/Orchestration/Sources/Ingestion/Rows.antt =====
-- The row that `get` finds.
use ai_augmented_generation.Prelude.{
  ◌≡◌, refl, ap, sym, subst, inl, inr, ℕ, String, Bool, true, false, not, ◌||◌, ◌&&◌, Option, none,
  some, [], ◌∷◌, Eq, nat_eq, string_eq, pair_eq, ◌==◌, ==_refl, ==_iff, Bool-cases, arith,
}
use ai_augmented_generation.Prelude.Dict.{Dict, lookup, IsDistinct}
use ai_augmented_generation.Orchestration.Freshness.{DataSource}
use ai_augmented_generation.Orchestration.Sources.{find_row, same_user, is_null}

pub same_user_iff : (u v : Option ℕ) → same_user u v ≡ true → u ≡ v
same_user_iff none none e = refl
same_user_iff none (some b) e = cc
same_user_iff (some a) none e = cc
same_user_iff (some a) (some b) e = ap some ((==_iff a b).0 e)

pub same_user_self : (u : Option ℕ) → same_user u u ≡ true
same_user_self none = refl
same_user_self (some a) = ==_refl a

pub null_of : (hash : Option String) (b : Bool) → (b || not (is_null hash)) ≡ false → hash ≡ none
null_of none b e = refl
null_of (some h) b e = ground arith

pub same_of : (a b : String) (c : Bool) → (not (a == b) || c) ≡ false → b ≡ a
same_of a b c e = ground (arith, ==_iff a b)

module _ {Uuid : Type 0} ⦃ids : Eq Uuid⦄ (tenant_id : ℕ) (source_key : String)
    (user_id : Option ℕ) where
  pub find_row-some :
      (rows : Dict Uuid (DataSource Uuid)) (row : DataSource Uuid)
      → IsDistinct rows
      → find_row tenant_id source_key user_id rows ≡ some row
      → (i : Uuid) × (lookup i rows ≡ some row)
  unfolding find_row lookup
  find_row-some [] row h e = cc
  find_row-some ((i, r) ∷ rows) row h e =
      elim (Bool-cases (
        (r.tenant_id == tenant_id)
        && (r.source_key == source_key)
        && same_user r.user_id user_id)) [
          | inl found ↦ (i, ground (arith, ==_refl i))
          | inr other ↦
              let (j, there) = find_row-some rows row (h.1) (ground arith) in
              (j, ground (arith, there, h.0, ids.eqb_iff i j))
        ]

  pub find_row-none :
      (rows : Dict Uuid (DataSource Uuid)) (i : Uuid) (row : DataSource Uuid)
      → find_row tenant_id source_key user_id rows ≡ none
      → lookup i rows ≡ some row
      → (row.tenant_id ≡ tenant_id) × (row.source_key ≡ source_key) × (row.user_id ≡ user_id)
      → ⊥
  unfolding find_row lookup
  find_row-none [] i row e there same = cc
  find_row-none ((j, r) ∷ rows) i row e there same =
      elim (Bool-cases (
        (r.tenant_id == tenant_id)
        && (r.source_key == source_key)
        && same_user r.user_id user_id)) [
          | inl found ↦ ground arith
          | inr other ↦ elim (Bool-cases (j == i)) [
            | inr apart ↦ find_row-none rows i row (ground arith) (ground arith) same
            | inl here ↦ unmatched r other (subst (Matching) (sym (is_row here)) same)
          ]
        ]
    where
      Matching : DataSource Uuid → Type 0
      Matching r = (r.tenant_id ≡ tenant_id) × (r.source_key ≡ source_key) × (r.user_id ≡ user_id)

      is_row : (j == i) ≡ true → r ≡ row
      is_row here = cc (rw here at there)

      unmatched :
          (r : DataSource Uuid)
          → ((r.tenant_id == tenant_id)
              && (r.source_key == source_key)
              && same_user r.user_id user_id)
            ≡ false
          → Matching r
          → ⊥
      unmatched r other (t, k, u) = ground (
        arith,
        (==_iff r.tenant_id tenant_id).1 t,
        (==_iff r.source_key source_key).1 k,
        subst (λ v. same_user v user_id ≡ true) (sym u) (same_user_self user_id),
        other,
      )
