-- ===== src/Cag/Eviction/Indices.antt =====
-- Sets of positions, by how often a position stands in a list.
use ai_augmented_generation.Prelude.{
  ℕ, zero, suc, ◌+◌, ◌-◌, ◌≤◌, ◌<◌, ◌≡◌, refl, ap, sym, subst, ◌∙◌, Bool, false, List, [], ◌∷◌,
  ◌++◌, length, count, count-append, All, ltb, ◌==◌, nat_eq, ==_iff, if◌then◌else◌, arith,
  Bool-cases, inl, inr, append-nil, append_assoc,
}
use ai_augmented_generation.Prelude.Sort.{
  place, sorted_desc, IsDescending, IsTotal, sorted_desc-IsDescending, length-sorted_desc,
}
use ai_augmented_generation.Cag.Eviction.{range_from, below, sorted, contains, without, union}

-- Each stands before the greater ones, and none twice.
abbrev pub IsAscending : List ℕ → Type 0
IsAscending [] = Unit
IsAscending (x ∷ xs) = All (λ y. x < y) xs × IsAscending xs

below-IsTotal : IsTotal below
below-IsTotal = record { asym = λ x y h. ground arith; at_most_trans = λ x y z h k. ground arith }

pub count-range_from :
    (i start n : ℕ)
    → count i (range_from start n) ≡ (if ltb i start then 0 else if ltb i (start + n) then 1 else 0)
unfolding range_from
count-range_from i start zero = ground arith
count-range_from i start (suc n) = ground (arith, count-range_from i (start + 1) n)

pub length-range_from : (start n : ℕ) → length (range_from start n) ≡ n
unfolding range_from
length-range_from start zero = refl
length-range_from start (suc n) = omega (arith, length-range_from (start + 1) n)

module _ (above : ℕ → ℕ → Bool) (i : ℕ) where
  count-place : (x : ℕ) (ys : List ℕ) → count i (place above x ys) ≡ count i (x ∷ ys)
  unfolding place
  count-place x [] = refl
  count-place x (y ∷ ys) = ground (arith, count-place x ys)

  pub count-sorted_desc : (xs : List ℕ) → count i (sorted_desc above xs) ≡ count i xs
  unfolding sorted_desc
  count-sorted_desc [] = refl
  count-sorted_desc (x ∷ xs) =
      omega (arith, count-place x (sorted_desc above xs), count-sorted_desc xs)

pub count-without :
    (i : ℕ) (excluded xs : List ℕ)
    → count i (without excluded xs) ≡ (if contains excluded i then 0 else count i xs)
unfolding without
count-without i excluded [] = ground arith
count-without i excluded (x ∷ xs) =
    ground (arith, count-without i excluded xs, ap (λ y. contains excluded y) {x = i} {y = x})

-- A predicate holds of every element that stands in the list.
pub at_count {κ} : (P : ℕ → Type κ) (i : ℕ) (xs : List ℕ) → All P xs → 0 < count i xs → P i
at_count P i [] h c = absurd (omega arith)
at_count P i (x ∷ xs) h c = elim (Bool-cases (i == x)) [
  | inl e ↦ subst P (sym ((==_iff i x).0 e)) (h.0)
  | inr e ↦ at_count P i xs (h.1) (ground arith)
]

-- Disjoint sets are joined as lists.
pub union_disjoint : (xs ys : List ℕ) → ((i : ℕ) → count i (xs ++ ys) ≤ 1) → union xs ys ≡ xs ++ ys
unfolding union
union_disjoint xs [] h = sym (append-nil xs)
union_disjoint xs (y ∷ ys) h =
    ap (λ old. union (if old then xs else xs ++ y ∷ []) ys) new
    ∙ union_disjoint (xs ++ y ∷ []) ys (λ i. subst (λ zs. count i zs ≤ 1) (sym regrouped) (h i))
    ∙ regrouped
  where
    new : contains xs y ≡ false
    new = ground (arith, h y, count-append y xs (y ∷ ys))

    regrouped : (xs ++ y ∷ []) ++ ys ≡ xs ++ y ∷ ys
    regrouped = append_assoc xs (y ∷ []) ys

past :
    (x : ℕ) (ys : List ℕ) → All (λ y. below y x ≡ false) ys → count x ys ≡ 0 → All (λ y. x < y) ys
past x [] h c = tt
past x (y ∷ ys) h c = (ground (arith, h.0), past x ys (h.1) (ground arith))

pub IsDescending→IsAscending :
    (xs : List ℕ) → IsDescending below xs → ((i : ℕ) → count i xs ≤ 1) → IsAscending xs
IsDescending→IsAscending [] h c = tt
IsDescending→IsAscending (x ∷ xs) h c = (
  past x xs (h.0) (ground (arith, c x)),
  IsDescending→IsAscending xs (h.1) (λ i. omega (arith, c i)),
)

-- A sorted set.
module _ (xs : List ℕ) (set : (i : ℕ) → count i xs ≤ 1) where
  pub sorted-IsAscending : IsAscending (sorted xs)
  unfolding sorted
  sorted-IsAscending =
      IsDescending→IsAscending (sorted_desc below xs)
        (sorted_desc-IsDescending below below-IsTotal xs)
        (λ i. omega (arith, set i, count-sorted_desc below i xs))

pub count-sorted : (i : ℕ) (xs : List ℕ) → count i (sorted xs) ≡ count i xs
unfolding sorted
count-sorted i xs = count-sorted_desc below i xs

pub length-sorted : (xs : List ℕ) → length (sorted xs) ≡ length xs
unfolding sorted
length-sorted xs = length-sorted_desc below xs

pub range_from-IsAscending : (start n : ℕ) → IsAscending (range_from start n)
unfolding range_from
range_from-IsAscending start zero = tt
range_from-IsAscending start (suc n) =
    (later start (start + 1) n (omega arith), range_from-IsAscending (start + 1) n)
  where
    later : (x start n : ℕ) → x < start → All (λ y. x < y) (range_from start n)
    later x start zero h = tt
    later x start (suc n) h = (h, later x (start + 1) n (omega arith))

-- The positions outside a window at the end.
pub length-without :
    (start size s k : ℕ)
    → s + k ≡ start + size
    → length (without (range_from start size) (range_from s k)) ≡ start - s
unfolding without range_from
length-without start size s zero h = omega arith
length-without start size s (suc k) h =
    ground (arith, count-range_from s start size, length-without start size (s + 1) k (omega arith))
