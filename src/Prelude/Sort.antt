-- ===== src/Prelude/Sort.antt =====
-- Python's `sorted(xs, key=…, reverse=True)`: stable, largest key first. `above x y` says that the
-- key of `x` is greater than that of `y`. Python leaves open what comes out where the keys are not
-- totally ordered (NaN), so the laws of the order are hypotheses of what needs them.
use mathlib.Core.Path.{◌≡◌, refl}
use mathlib.Core.Bool.{Bool, true, false}
use mathlib.Core.List.{List, [], ◌∷◌, Perm}
use mathlib.Core.List.Perm
use mathlib.Core.Logic.{inl, inr}
use Prim.Native.Nat.{ℕ, zero, suc}
use native.Mathlib.Omega.{arith}
use ai_augmented_generation.Prelude.Tests.{if◌then◌else◌, Bool-cases}
use ai_augmented_generation.Prelude.Lists.{length, take, drop, All}

-- The order of the keys is total: what is not above is at most, and that is transitive.
pub record IsTotal {ℓ} {A : Type ℓ} (above : A → A → Bool) : Type ℓ where
  pub asym : (x y : A) → above x y ≡ true → above y x ≡ false
  pub at_most_trans : (x y z : A) → above y x ≡ false → above z y ≡ false → above z x ≡ false

module _ {ℓ} {A : Type ℓ} (above : A → A → Bool) where
  unfoldable pub place : A → List A → List A
  place x [] = x ∷ []
  place x (y ∷ ys) = if above y x then y ∷ place x ys else x ∷ y ∷ ys

  unfoldable pub sorted_desc : List A → List A
  unfolding place
  sorted_desc [] = []
  sorted_desc (x ∷ xs) = place x (sorted_desc xs)

  -- No element is above one that stands before it.
  abbrev pub IsDescending : List A → Type 0
  IsDescending [] = Unit
  IsDescending (x ∷ xs) = All (λ y. above y x ≡ false) xs × IsDescending xs

module _ {ℓ} {A : Type ℓ} (above : A → A → Bool) where
  place-perm : (x : A) (ys : List A) → Perm (place above x ys) (x ∷ ys)
  unfolding place
  place-perm x [] = Perm.refl (x ∷ [])
  place-perm x (y ∷ ys) = elim (Bool-cases (above y x)) [
    | inl e ↦ rw e (Perm.trans (Perm.cons y (place-perm x ys)) (Perm.swap x y ys))
    | inr e ↦ rw e (Perm.refl (x ∷ y ∷ ys))
  ]

  pub sorted_desc-perm : (xs : List A) → Perm (sorted_desc above xs) xs
  unfolding sorted_desc
  sorted_desc-perm [] = Perm.refl []
  sorted_desc-perm (x ∷ xs) =
      Perm.trans (place-perm x (sorted_desc above xs)) (Perm.cons x (sorted_desc-perm xs))

  length-place : (x : A) (ys : List A) → length (place above x ys) ≡ suc (length ys)
  unfolding place
  length-place x [] = refl
  length-place x (y ∷ ys) = ground (arith, length-place x ys)

  pub length-sorted_desc : (xs : List A) → length (sorted_desc above xs) ≡ length xs
  unfolding sorted_desc
  length-sorted_desc [] = refl
  length-sorted_desc (x ∷ xs) =
      omega (arith, length-place x (sorted_desc above xs), length-sorted_desc xs)

  pub All-place {κ} :
      (P : A → Type κ) (x : A) (ys : List A) → P x → All P ys → All P (place above x ys)
  unfolding place
  All-place P x [] p h = (p, tt)
  All-place P x (y ∷ ys) p h = elim (Bool-cases (above y x)) [
    | inl e ↦ rw e (h.0, All-place P x ys p h.1)
    | inr e ↦ rw e (p, h)
  ]

  pub All-sorted_desc {κ} : (P : A → Type κ) (xs : List A) → All P xs → All P (sorted_desc above xs)
  unfolding sorted_desc
  All-sorted_desc P [] h = tt
  All-sorted_desc P (x ∷ xs) h = All-place P x (sorted_desc above xs) h.0 (All-sorted_desc P xs h.1)

  unplace_past {κ} :
      (P : A → Type κ) (x y : A) (ys : List A)
      → above y x ≡ true
      → All P (place above x (y ∷ ys))
      → (All P (place above x ys) → P x × All P ys)
      → P x × All P (y ∷ ys)
  unfolding place
  unplace_past P x y ys e h rest =
      let h' = rw e at h in let both = rest (h'.1) in (both.0, (h'.0, both.1))

  unplace_here {κ} :
      (P : A → Type κ) (x y : A) (ys : List A)
      → above y x ≡ false
      → All P (place above x (y ∷ ys))
      → P x × All P (y ∷ ys)
  unfolding place
  unplace_here P x y ys e h = rw e at h

  All-unplace {κ} :
      (P : A → Type κ) (x : A) (ys : List A) → All P (place above x ys) → P x × All P ys
  unfolding place
  All-unplace P x [] h = h
  All-unplace P x (y ∷ ys) h = elim (Bool-cases (above y x)) [
    | inl e ↦ unplace_past P x y ys e h (All-unplace P x ys)
    | inr e ↦ unplace_here P x y ys e h
  ]

  pub All-unsorted_desc {κ} :
      (P : A → Type κ) (xs : List A) → All P (sorted_desc above xs) → All P xs
  unfolding sorted_desc
  All-unsorted_desc P [] h = tt
  All-unsorted_desc P (x ∷ xs) h =
      let both = All-unplace P x (sorted_desc above xs) h in (both.0, All-unsorted_desc P xs both.1)

  module _ (total : IsTotal above) where
    at_most :
        (x y : A) (ys : List A)
        → above y x ≡ false
        → All (λ z. above z y ≡ false) ys
        → All (λ z. above z x ≡ false) ys
    at_most x y [] h a = tt
    at_most x y (z ∷ ys) h a = (total.at_most_trans x y z h a.0, at_most x y ys h a.1)

    place-IsDescending :
        (x : A) (ys : List A) → IsDescending above ys → IsDescending above (place above x ys)
    unfolding place
    place-IsDescending x [] h = (tt, tt)
    place-IsDescending x (y ∷ ys) h = elim (Bool-cases (above y x)) [
      | inl e ↦ rw e (
        All-place (λ z. above z y ≡ false) x ys (total.asym y x e) h.0,
        place-IsDescending x ys h.1,
      )
      | inr e ↦ rw e ((e, at_most x y ys e h.0), h)
    ]

    pub sorted_desc-IsDescending : (xs : List A) → IsDescending above (sorted_desc above xs)
    unfolding sorted_desc
    sorted_desc-IsDescending [] = tt
    sorted_desc-IsDescending (x ∷ xs) =
        place-IsDescending x (sorted_desc above xs) (sorted_desc-IsDescending xs)

-- In a descending list nothing past the first `n` is above anything among them.
pub take-above-drop {ℓ} :
    {A : Type ℓ} (above : A → A → Bool) (n : ℕ) (xs : List A)
    → IsDescending above xs
    → All (λ x. All (λ y. above y x ≡ false) (drop n xs)) (take n xs)
take-above-drop above zero xs h = tt
take-above-drop above (suc n) [] h = tt
take-above-drop {A} above (suc n) (x ∷ xs) h = (tail n xs h.0, take-above-drop above n xs h.1)
  where
    tail :
        (n : ℕ) (ys : List A)
        → All (λ y. above y x ≡ false) ys
        → All (λ y. above y x ≡ false) (drop n ys)
    tail zero ys a = a
    tail (suc n) [] a = tt
    tail (suc n) (y ∷ ys) a = tail n ys a.1
