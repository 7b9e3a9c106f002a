-- ===== src/Prelude/Dict.antt =====
-- A Python dict: an association list in insertion order. Writing an old key replaces its value in
-- place, a new key goes to the end.
use Prim.Native.Nat.{◌+◌}
use mathlib.Core.Path.{◌≡◌, refl}
use mathlib.Core.Logic.{◌≢◌, ◌⊎◌, inl, inr}
use mathlib.Core.List.{List, [], ◌∷◌}
use mathlib.Core.Option.{Option, none, some}
use native.Mathlib.Omega.{arith}
use ai_augmented_generation.Prelude.Tests.{if◌then◌else◌, ◌==◌, Eq, Bool-cases}
use ai_augmented_generation.Prelude.Lists.{length}

abbrev pub Dict {ℓ κ} : Type ℓ → Type κ → Type (ℓ ⊔ κ)
Dict K V = List (K × V)

module _ {ℓ κ} {K : Type ℓ} {V : Type κ} ⦃e : Eq K⦄ where
  -- `d.get(k)`
  unfoldable pub lookup : K → Dict K V → Option V
  lookup k [] = none
  lookup k ((j, v) ∷ d) = if j == k then some v else lookup k d

  -- `d[k] = v`
  unfoldable pub insert : K → V → Dict K V → Dict K V
  insert k v [] = (k, v) ∷ []
  insert k v ((j, w) ∷ d) = if j == k then (j, v) ∷ d else (j, w) ∷ insert k v d

  -- `d.pop(k, None)`
  unfoldable pub remove : K → Dict K V → Dict K V
  remove k [] = []
  remove k ((j, w) ∷ d) = if j == k then d else (j, w) ∷ remove k d

  -- No key stands twice.
  abbrev pub IsDistinct : Dict K V → Type κ
  IsDistinct [] = Unit
  IsDistinct ((k, v) ∷ d) = (lookup k d ≡ none) × IsDistinct d

module _ {ℓ κ} {K : Type ℓ} {V : Type κ} ⦃e : Eq K⦄ where
  pub lookup-insert :
      (k j : K) (v : V) (d : Dict K V)
      → lookup j (insert k v d) ≡ (if k == j then some v else lookup j d)
  unfolding lookup insert
  lookup-insert k j v [] = refl
  lookup-insert k j v ((i, w) ∷ d) =
      ground (arith, e.eqb_iff k j, e.eqb_iff i k, e.eqb_iff i j, lookup-insert k j v d)

  pub lookup-remove :
      (k j : K) (d : Dict K V)
      → IsDistinct d
      → lookup j (remove k d) ≡ (if k == j then none else lookup j d)
  unfolding lookup remove
  lookup-remove k j [] h = ground arith
  lookup-remove k j ((i, w) ∷ d) h =
      ground (arith, e.eqb_iff k j, e.eqb_iff i k, e.eqb_iff i j, lookup-remove k j d h.1, h.0)

  pub insert-IsDistinct : (k : K) (v : V) (d : Dict K V) → IsDistinct d → IsDistinct (insert k v d)
  unfolding lookup insert
  insert-IsDistinct k v [] h = (refl, tt)
  insert-IsDistinct k v ((i, w) ∷ d) h =
      ground
        (arith, e.eqb_iff i k, e.eqb_iff k i, lookup-insert k i v d, insert-IsDistinct k v d h.1)

  pub remove-IsDistinct : (k : K) (d : Dict K V) → IsDistinct d → IsDistinct (remove k d)
  unfolding lookup remove
  remove-IsDistinct k [] h = tt
  remove-IsDistinct k ((i, w) ∷ d) h =
      ground
        (arith, e.eqb_iff i k, e.eqb_iff k i, lookup-remove k i d h.1, remove-IsDistinct k d h.1)

  pub length-insert :
      (k : K) (v : V) (d : Dict K V)
      → length (insert k v d) ≡ length d + elim (lookup k d) [ none ↦ 1 | some _ ↦ 0 ]
  unfolding lookup insert
  length-insert k v [] = omega arith
  length-insert k v ((i, w) ∷ d) = ground (arith, length-insert k v d)

  pub length-remove :
      (k : K) (d : Dict K V)
      → length (remove k d) + elim (lookup k d) [ none ↦ 0 | some _ ↦ 1 ] ≡ length d
  unfolding lookup remove
  length-remove k [] = omega arith
  length-remove k ((i, w) ∷ d) = ground (arith, length-remove k d)

  -- What a dict holds after a write is the new value at the new key, or was there.
  pub found-insert :
      (k j : K) (v w : V) (d : Dict K V)
      → lookup j (insert k v d) ≡ some w
      → ((k ≡ j) × (v ≡ w)) ⊎ ((k ≢ j) × (lookup j d ≡ some w))
  found-insert k j v w d h = elim (Bool-cases (k == j)) [
    | inl e' ↦ inl ((e.eqb_iff k j).0 e', ground (arith, lookup-insert k j v d, e'))
    | inr e' ↦
        inr (λ same. ground (arith, e.eqb_iff k j), ground (arith, lookup-insert k j v d, e'))
  ]

  pub found-remove :
      (k j : K) (w : V) (d : Dict K V)
      → IsDistinct d
      → lookup j (remove k d) ≡ some w
      → (k ≢ j) × (lookup j d ≡ some w)
  found-remove k j w d distinct h = (
    λ same. ground (arith, lookup-remove k j d distinct, e.eqb_iff k j),
    ground (arith, lookup-remove k j d distinct, e.eqb_iff k j),
  )
