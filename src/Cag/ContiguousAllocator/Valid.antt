-- ===== src/Cag/ContiguousAllocator/Valid.antt =====
-- The invariant of `ContiguousKVAllocator`: the regions lie in the pool and are apart from one
-- another. Every operation keeps it.
use ai_augmented_generation.Prelude.{
  ℕ, ◌+◌, ◌≤◌, ◌≡◌, ◌≢◌, sym, ◌∙◌, subst, ◌⊎◌, inl, inr, String, true, false, Option, some, [], ◌∷◌,
  arith, string_eq, nat_eq, ==_iff, ◌==◌, All, Bool-cases,
}
use ai_augmented_generation.Prelude.Dict.{
  Dict, lookup, IsDistinct, found-insert, lookup-insert, insert-IsDistinct,
}
use ai_augmented_generation.Cag.ContiguousAllocator.{
  ContiguousKvAllocator, Region, is_ignored, regions_except, put,
}
use ai_augmented_generation.Cag.ContiguousAllocator.Sorting.{IsApart, IsApart-sym}

module _ (P : Region → Type 0) (ignoring : Option String) where
  pub All-regions_except :
      (d : Dict String Region)
      → IsDistinct d
      → ((j : String) (r : Region) → is_ignored ignoring j ≡ false → lookup j d ≡ some r → P r)
      → All P (regions_except ignoring d)
  unfolding regions_except lookup
  All-regions_except [] h f = tt
  All-regions_except ((key, region) ∷ d) h f =
      let rest =
        All-regions_except d h.1
          λ j r kept found. f j r kept (ground (arith, ==_iff {A = String} key j, found, h.0)) in
      elim (Bool-cases (is_ignored ignoring key)) [
        | inl e ↦ rw e rest
        | inr e ↦ rw e (f key region e (ground (arith, ==_iff {A = String} key key)), rest)
      ]

  pub of_All-regions_except :
      (d : Dict String Region)
      → All P (regions_except ignoring d)
      → (j : String) (r : Region) → is_ignored ignoring j ≡ false
      → lookup j d ≡ some r
      → P r
  unfolding regions_except lookup
  of_All-regions_except [] h j r kept found = ground arith
  of_All-regions_except ((key, region) ∷ d) h j r kept found = elim (Bool-cases (key == j)) [
    | inl same ↦
        let e : is_ignored ignoring key ≡ false = rw ((==_iff {A = String} key j).0 same) kept in
        let h' : P region × All P (regions_except ignoring d) = rw e at h in
        subst P (ground (arith, found, same)) h'.0
    | inr other ↦
        of_All-regions_except d (tail (Bool-cases (is_ignored ignoring key))) j r kept
          (ground (arith, found, other))
  ]
    where
      tail :
          (is_ignored ignoring key ≡ true) ⊎ (is_ignored ignoring key ≡ false)
          → All P (regions_except ignoring d)
      tail (inl e) = rw e at h
      tail (inr e) = let h' : P region × All P (regions_except ignoring d) = rw e at h in h'.1

pub record IsValid (s : ContiguousKvAllocator) : Type 0 where
  pub distinct : IsDistinct s.regions
  pub bounded : (k : String) (r : Region) → lookup k s.regions ≡ some r → r.0 + r.1 ≤ s.total_slots
  pub apart :
      (k j : String) (r q : Region)
      → k ≢ j
      → lookup k s.regions ≡ some r
      → lookup j s.regions ≡ some q
      → IsApart r.0 r.1 q

module _ (s : ContiguousKvAllocator) (v : IsValid s) where
  pub put-IsValid :
      (k : String) (start length : ℕ)
      → start + length ≤ s.total_slots
      → ((j : String) (q : Region) → k ≢ j → lookup j s.regions ≡ some q → IsApart start length q)
      → IsValid (put s k (start, length))
  unfolding put
  put-IsValid k start length inside clear = record {
    distinct = insert-IsDistinct k (start, length) s.regions v.distinct;
    bounded =
        λ j r found. ground (arith, lookup-insert k j (start, length) s.regions, v.bounded j r);
    apart = λ i j r q ne found found'.
        place_apart i j r q ne (found-insert k i (start, length) r s.regions found)
          (found-insert k j (start, length) q s.regions found');
  }
    where
      place_apart :
          (i j : String) (r q : Region)
          → i ≢ j
          → ((k ≡ i) × ((start, length) ≡ r)) ⊎ ((k ≢ i) × (lookup i s.regions ≡ some r))
          → ((k ≡ j) × ((start, length) ≡ q)) ⊎ ((k ≢ j) × (lookup j s.regions ≡ some q))
          → IsApart r.0 r.1 q
      place_apart i j r q ne (inl a) (inl b) = absurd (ne (sym a.0 ∙ b.0))
      place_apart i j r q ne (inl a) (inr b) =
          subst (λ p. IsApart p.0 p.1 q) a.1 (clear j q b.0 b.1)
      place_apart i j r q ne (inr a) (inl b) =
          IsApart-sym q r (subst (λ p. IsApart p.0 p.1 r) b.1 (clear i r a.0 a.1))
      place_apart i j r q ne (inr a) (inr b) = v.apart i j r q ne a.1 b.1
