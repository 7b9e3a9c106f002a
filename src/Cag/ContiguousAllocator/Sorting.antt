-- ===== src/Cag/ContiguousAllocator/Sorting.antt =====
-- Sorted lists of regions.
use ai_augmented_generation.Prelude.{
  ℕ, ◌+◌, ◌≤◌, ◌≡◌, refl, ◌⊎◌, inl, inr, List, [], ◌∷◌, arith, nat_eq, max, All, Bool-cases,
}
use ai_augmented_generation.Cag.ContiguousAllocator.{
  Region, before, place, sorted, sum_lengths, runs_from,
}

-- The slots `start` up to `start + size` are outside the region.
abbrev pub IsApart : ℕ → ℕ → Region → Type 0
IsApart start size r = (start + size ≤ r.0) ⊎ (r.0 + r.1 ≤ start)

abbrev pub IsSorted : List Region → Type 0
IsSorted [] = Unit
IsSorted (r ∷ rs) = All (λ q. r.0 ≤ q.0) rs × IsSorted rs

pub All-map {ℓ κ} :
    {A : Type ℓ} {P Q : A → Type κ} → ((a : A) → P a → Q a) → (xs : List A) → All P xs → All Q xs
All-map f [] h = tt
All-map f (x ∷ xs) h = (f x h.0, All-map f xs h.1)

pub All-place :
    (P : Region → Type 0) (r : Region) (qs : List Region) → P r → All P qs → All P (place r qs)
unfolding place
All-place P r [] p h = (p, tt)
All-place P r (q ∷ qs) p h = elim (Bool-cases (before r q)) [
  | inl e ↦ rw e (p, h)
  | inr e ↦ rw e (h.0, All-place P r qs p h.1)
]

pub All-sorted : (P : Region → Type 0) (rs : List Region) → All P rs → All P (sorted rs)
unfolding sorted
All-sorted P [] h = tt
All-sorted P (r ∷ rs) h = All-place P r (sorted rs) h.0 (All-sorted P rs h.1)

All-of_place :
    (P : Region → Type 0) (r : Region) (qs : List Region) → All P (place r qs) → P r × All P qs
unfolding place
All-of_place P r [] h = h
All-of_place P r (q ∷ qs) h = elim (Bool-cases (before r q)) [
  | inl e ↦ rw e at h
  | inr e ↦
      let h' : P q × All P (place r qs) = rw e at h in
      let (p, rest) = All-of_place P r qs h'.1 in (p, (h'.0, rest))
]

pub All-of_sorted : (P : Region → Type 0) (rs : List Region) → All P (sorted rs) → All P rs
unfolding sorted
All-of_sorted P [] h = tt
All-of_sorted P (r ∷ rs) h =
    let (p, rest) = All-of_place P r (sorted rs) h in (p, All-of_sorted P rs rest)

place-IsSorted : (r : Region) (qs : List Region) → IsSorted qs → IsSorted (place r qs)
unfolding place
place-IsSorted r [] h = (tt, tt)
place-IsSorted r (q ∷ qs) h = elim (Bool-cases (before r q)) [
  | inl e ↦ rw e (
    let le : r.0 ≤ q.0 = ground (arith, e) in
        (le, All-map {Q = λ p. r.0 ≤ p.0} (λ p k. omega arith) qs h.0),
    h,
  )
  | inr e ↦ rw e (All-place (λ p. q.0 ≤ p.0) r qs (ground (arith, e)) h.0, place-IsSorted r qs h.1)
]

pub sorted-IsSorted : (rs : List Region) → IsSorted (sorted rs)
unfolding sorted
sorted-IsSorted [] = tt
sorted-IsSorted (r ∷ rs) = place-IsSorted r (sorted rs) (sorted-IsSorted rs)

-- Each region is apart from all that follow it.
abbrev pub IsScattered : List Region → Type 0
IsScattered [] = Unit
IsScattered (r ∷ rs) = All (IsApart r.0 r.1) rs × IsScattered rs

pub IsApart-sym : (r q : Region) → IsApart r.0 r.1 q → IsApart q.0 q.1 r
IsApart-sym r q (inl h) = inr h
IsApart-sym r q (inr h) = inl h

place-IsScattered :
    (r : Region) (qs : List Region)
    → All (IsApart r.0 r.1) qs
    → IsScattered qs
    → IsScattered (place r qs)
unfolding place
place-IsScattered r [] h s = (tt, tt)
place-IsScattered r (q ∷ qs) h s = elim (Bool-cases (before r q)) [
  | inl e ↦ rw e (h, s)
  | inr e ↦
      rw e
        (All-place (IsApart q.0 q.1) r qs (IsApart-sym r q h.0) s.0, place-IsScattered r qs h.1 s.1)
]

pub sorted-IsScattered : (rs : List Region) → IsScattered rs → IsScattered (sorted rs)
unfolding sorted
sorted-IsScattered [] h = tt
sorted-IsScattered (r ∷ rs) h =
    place-IsScattered r (sorted rs) (All-sorted (IsApart r.0 r.1) rs h.0)
      (sorted-IsScattered rs h.1)

sum_lengths-place :
    (r : Region) (qs : List Region) → sum_lengths (place r qs) ≡ r.1 + sum_lengths qs
unfolding sum_lengths place
sum_lengths-place r [] = refl
sum_lengths-place r (q ∷ qs) = ground (arith, sum_lengths-place r qs)

pub sum_lengths-sorted : (rs : List Region) → sum_lengths (sorted rs) ≡ sum_lengths rs
unfolding sum_lengths sorted
sum_lengths-sorted [] = refl
sum_lengths-sorted (r ∷ rs) = omega (arith, sum_lengths-place r (sorted rs), sum_lengths-sorted rs)

abbrev pub sum : List ℕ → ℕ
sum [] = 0
sum (n ∷ ns) = n + sum ns

-- The free runs past the cursor and the regions past it fill the pool.
pub sum-runs_from :
    (total cursor : ℕ) (rs : List Region)
    → cursor ≤ total
    → IsSorted rs
    → IsScattered rs
    → All (λ r. r.0 + r.1 ≤ total) rs
    → All (λ r. (cursor ≤ r.0) ⊎ (r.1 ≡ 0)) rs
    → sum (runs_from total cursor rs) + sum_lengths rs + cursor ≡ total
unfolding runs_from sum_lengths
sum-runs_from total cursor [] le ordered scattered bounded past = ground arith
sum-runs_from total cursor ((start, length) ∷ rs) le ordered scattered bounded past =
    let rest =
      sum-runs_from total (max cursor (start + length)) rs (omega arith) ordered.1 scattered.1
        bounded.1 (later rs ordered.0 scattered.0 past.1) in
    ground (arith, rest, past.0)
  where
    later :
        (qs : List Region)
        → All (λ q. start ≤ q.0) qs
        → All (IsApart start length) qs
        → All (λ r. (cursor ≤ r.0) ⊎ (r.1 ≡ 0)) qs
        → All (λ r. (max cursor (start + length) ≤ r.0) ⊎ (r.1 ≡ 0)) qs
    later [] o a p = tt
    later (q ∷ qs) o a p = (omega arith, later qs o.1 a.1 p.1)
