-- ===== src/Cag/ContiguousAllocator/Gaps.antt =====
-- The first-fit search of `ContiguousKVAllocator` over a sorted list of regions.
use ai_augmented_generation.Prelude.{
  ℕ, ◌+◌, ◌≤◌, ◌≡◌, inl, inr, false, none, some, List, [], ◌∷◌, arith, leb, nat_eq, max, All,
  Bool-cases,
}
use ai_augmented_generation.Cag.ContiguousAllocator.{Region, find_gap, blocked}
use ai_augmented_generation.Cag.ContiguousAllocator.Sorting.{IsApart, IsSorted, All-map}

-- What `find_gap` finds lies past the cursor, in the pool, and apart from every region.
pub find_gap_sound :
    (total size cursor : ℕ) (occupied : List Region) {found : ℕ}
    → IsSorted occupied
    → All (λ r. r.0 + r.1 ≤ total) occupied
    → find_gap total size cursor occupied ≡ some found
    → (cursor ≤ found) × (found + size ≤ total) × All (IsApart found size) occupied
unfolding find_gap
find_gap_sound total size cursor [] ordered bounded h = ground arith
find_gap_sound total size cursor ((start, length) ∷ occupied) {found} ordered bounded h =
    elim (Bool-cases (leb (cursor + size) start)) [
      | inl fits ↦
          let e : cursor ≡ found = ground (arith, fits, h) in
          (
            omega arith,
            ground (arith, fits),
            (
              inl (ground (arith, fits)),
              All-map (λ q k. inl (ground (arith, fits))) occupied ordered.0,
            ),
          )
      | inr tight ↦
          let (past, inside, apart) =
            find_gap_sound total size (max cursor (start + length)) occupied {found = found}
              ordered.1 bounded.1 (ground (arith, tight, h)) in
          (omega arith, inside, (inr (omega arith), apart))
    ]

-- Where `find_gap` finds nothing, no run of that size past the cursor is apart from all regions.
pub find_gap_complete :
    (total size cursor : ℕ) (occupied : List Region)
    → 1 ≤ size
    → find_gap total size cursor occupied ≡ none
    → (c : ℕ) → cursor ≤ c
    → c + size ≤ total
    → ¬ All (IsApart c size) occupied
unfolding find_gap
find_gap_complete total size cursor [] pos h c past inside = λ _. ground arith
find_gap_complete total size cursor ((start, length) ∷ occupied) pos h c past inside =
    elim (Bool-cases (leb (cursor + size) start)) [
      | inl fits ↦ λ _. ground (arith, fits, h)
      | inr tight ↦ λ apart. elim apart.0 [
        | inl left ↦ ground (arith, tight)
        | inr right ↦
            find_gap_complete total size (max cursor (start + length)) occupied pos
              (ground (arith, tight, h)) c (omega arith) inside apart.1
      ]
    ]

-- `blocked` is the negation of being apart from every neighbour.
pub blocked-false :
    (start target : ℕ) (neighbours : List Region)
    → blocked start target neighbours ≡ false
    → All (IsApart start target) neighbours
unfolding blocked
blocked-false start target [] h = tt
blocked-false start target (r ∷ neighbours) h =
    (apart, blocked-false start target neighbours (ground (arith, h)))
  where
    apart : IsApart start target r
    apart = ground (arith, h)
