-- ===== src/Cag/ContiguousAllocator/Runs.antt =====
-- `ContiguousKVAllocator` over whole runs, and what it reports.
use ai_augmented_generation.Prelude.{
  ℕ, ◌+◌, ◌≤◌, ◌≡◌, String, Bool, true, false, none, some, List, [], ◌∷◌, inl, inr, ◌≢◌, ◌⊎◌, ap,
  arith, Outcome, ok, raise, key_error, value_error, string_eq, nat_eq, ==_iff, Option-cases,
}
use ai_augmented_generation.Prelude.Dict.{
  Dict, lookup, remove, IsDistinct, found-remove, remove-IsDistinct,
}
use ai_augmented_generation.Prelude.Int.{ℤ, pos, negsuc}
use ai_augmented_generation.Cag.ContiguousAllocator.{
  ContiguousKvAllocator, Region, init, sorted, regions_except, allocate, extend, fork, free,
  physical_slots_used, free_runs,
}
use ai_augmented_generation.Cag.ContiguousAllocator.Sorting.{
  IsApart, IsScattered, All-sorted, sorted-IsSorted, sorted-IsScattered, sum_lengths-sorted, sum,
  sum-runs_from,
}
use ai_augmented_generation.Cag.ContiguousAllocator.Valid.{IsValid, All-regions_except}
use ai_augmented_generation.Cag.ContiguousAllocator.Calls.{
  Places, allocate-Places, extend-Places, fork-Places,
}

pub data Call : Type 0 where
  allocate_call : String → ℤ → Call
  extend_call : String → ℤ → Call
  fork_call : String → String → Call
  free_call : String → Call

abbrev after :
    ContiguousKvAllocator → Outcome (Bool × ContiguousKvAllocator) → ContiguousKvAllocator
after s (ok (done, s')) = s'
after s (raise e) = s

abbrev after_free : ContiguousKvAllocator → Outcome ContiguousKvAllocator → ContiguousKvAllocator
after_free s (ok s') = s'
after_free s (raise e) = s

-- The state after a call. A call that raises has written nothing: all its tests come first.
unfoldable pub step : ContiguousKvAllocator → Call → ContiguousKvAllocator
step s (allocate_call k n) = after s (allocate s k n)
step s (extend_call k n) = after s (extend s k n)
step s (fork_call parent child) = after s (fork s parent child)
step s (free_call k) = after_free s (free s k)

unfoldable pub run : ContiguousKvAllocator → List Call → ContiguousKvAllocator
run s [] = s
run s (c ∷ calls) = run (step s c) calls

module _ (s : ContiguousKvAllocator) (k : String) where
  allocate_known :
      (z : ℤ) {r : Region} → lookup k s.regions ≡ some r → allocate s k z ≡ raise value_error
  unfolding allocate
  allocate_known z known = ground (arith, known)

  allocate_negative :
      (n : ℕ) → lookup k s.regions ≡ none → allocate s k (negsuc n) ≡ raise value_error
  unfolding allocate
  allocate_negative n fresh = ground (arith, fresh)

  extend_unknown : (z : ℤ) → lookup k s.regions ≡ none → extend s k z ≡ raise key_error
  unfolding extend
  extend_unknown z fresh = ground (arith, fresh)

  extend_negative :
      (n : ℕ) {r : Region} → lookup k s.regions ≡ some r → extend s k (negsuc n) ≡ raise value_error
  unfolding extend
  extend_negative n known = ground (arith, known)

  fork_unknown : (child : String) → lookup k s.regions ≡ none → fork s k child ≡ raise key_error
  unfolding fork
  fork_unknown child fresh = ground (arith, fresh)

  fork_known :
      (child : String) {r q : Region}
      → lookup k s.regions ≡ some r
      → lookup child s.regions ≡ some q
      → fork s k child ≡ raise value_error
  unfolding fork
  fork_known child known taken = ground (arith, known, taken)

  free_unknown : lookup k s.regions ≡ none → free s k ≡ raise key_error
  unfolding free
  free_unknown fresh = ground (arith, fresh)

  free_known :
      {r : Region}
      → lookup k s.regions ≡ some r
      → free s k ≡ ok (record s { regions = remove k s.regions })
  unfolding free
  free_known known = ground (arith, known)

regions-IsScattered :
    (d : Dict String Region)
    → IsDistinct d
    → ((k j : String) (r q : Region)
        → k ≢ j
        → lookup k d ≡ some r
        → lookup j d ≡ some q
        → IsApart r.0 r.1 q)
    → IsScattered (regions_except none d)
unfolding regions_except lookup
regions-IsScattered [] h f = tt
regions-IsScattered ((key, region) ∷ d) h f = (
  All-regions_except (IsApart region.0 region.1) none d h.1 (λ j q kept found.
      f key j region q (λ e. ground (arith, h.0, ap (λ i. lookup i d) e))
        (ground (arith, ==_iff {A = String} key key))
        (ground (arith, ==_iff {A = String} key j, found, h.0))),
  regions-IsScattered d h.1 λ i j r q ne found found'.
      f i j r q ne (ground (arith, ==_iff {A = String} key i, found, h.0))
        (ground (arith, ==_iff {A = String} key j, found', h.0)),
)

module _ (s : ContiguousKvAllocator) (v : IsValid s) where
  placed-IsValid :
      (k : String) (size : ℕ) (r : Outcome (Bool × ContiguousKvAllocator))
      → Places s v k size r
      → IsValid (after s r)
  placed-IsValid k size (ok (true, s')) h = h.0
  placed-IsValid k size (ok (false, s')) h = rw h.0 v
  placed-IsValid k size (raise e) h = elim h [ ]

  step-IsValid : (c : Call) → IsValid (step s c)
  unfolding step
  step-IsValid (allocate_call k z) = elim (Option-cases (lookup k s.regions)) [
    | inr (r, known) ↦ rw (allocate_known s k z known) v
    | inl fresh ↦ sign z fresh
  ]
    where
      sign : (z : ℤ) → lookup k s.regions ≡ none → IsValid (after s (allocate s k z))
      sign (negsuc n) fresh = rw (allocate_negative s k n fresh) v
      sign (pos n) fresh = placed-IsValid k n (allocate s k (pos n)) (allocate-Places s v k n fresh)
  step-IsValid (extend_call k z) = elim (Option-cases (lookup k s.regions)) [
    | inl fresh ↦ rw (extend_unknown s k z fresh) v
    | inr (r, known) ↦ sign z r known
  ]
    where
      sign : (z : ℤ) (r : Region) → lookup k s.regions ≡ some r → IsValid (after s (extend s k z))
      sign (negsuc n) r known = rw (extend_negative s k n known) v
      sign (pos a) (start, length) known =
          placed-IsValid k (length + a) (extend s k (pos a))
            (extend-Places s v k start length a known)
  step-IsValid (fork_call parent child) = elim (Option-cases (lookup parent s.regions)) [
    | inl fresh ↦ rw (fork_unknown s parent child fresh) v
    | inr (r, known) ↦ elim (Option-cases (lookup child s.regions)) [
      | inr (q, taken) ↦ rw (fork_known s parent child known taken) v
      | inl fresh ↦
          placed-IsValid child r.1 (fork s parent child)
            (fork-Places s v child parent r known fresh)
    ]
  ]
  step-IsValid (free_call k) = elim (Option-cases (lookup k s.regions)) [
    | inl fresh ↦ rw (free_unknown s k fresh) v
    | inr (r, known) ↦ rw (free_known s k known) (record {
      distinct = remove-IsDistinct k s.regions v.distinct;
      bounded = λ j q found. v.bounded j q (found-remove k j q s.regions v.distinct found).1;
      apart = λ i j r q ne found found'.
          v.apart i j r q ne (found-remove k i r s.regions v.distinct found).1
            (found-remove k j q s.regions v.distinct found').1;
    })
  ]

  -- On a valid allocator the free runs and the slots in use add up to the pool: no slot is lost,
  -- and none is counted twice.
  pub sum-free_runs : sum (free_runs s) + physical_slots_used s ≡ s.total_slots
  unfolding free_runs physical_slots_used
  sum-free_runs =
      let held = regions_except none s.regions in
      let filled =
        sum-runs_from s.total_slots 0 (sorted held) (omega arith) (sorted-IsSorted held)
          (sorted-IsScattered held (regions-IsScattered s.regions v.distinct v.apart))
          (All-sorted (λ r. r.0 + r.1 ≤ s.total_slots) held
            (All-regions_except (λ r. r.0 + r.1 ≤ s.total_slots) none s.regions v.distinct
              (λ j r kept. v.bounded j r)))
          (All-sorted (λ r. (0 ≤ r.0) ⊎ (r.1 ≡ 0)) held
            (All-regions_except (λ r. (0 ≤ r.0) ⊎ (r.1 ≡ 0)) none s.regions v.distinct
              (λ j r kept found. inl (omega arith)))) in
      omega (arith, filled, sum_lengths-sorted held)

run-IsValid : (calls : List Call) (s : ContiguousKvAllocator) → IsValid s → IsValid (run s calls)
unfolding run
run-IsValid [] s v = v
run-IsValid (c ∷ calls) s v = run-IsValid calls (step s c) (step-IsValid s v c)

init-IsValid : (total : ℕ) {s : ContiguousKvAllocator} → init (pos total) ≡ ok s → IsValid s
unfolding init lookup
init-IsValid total {s} h = rw (← made) (record {
  distinct = tt;
  bounded = λ k r found. ground arith;
  apart = λ k j r q ne found. ground arith;
})
  where
    made : record { total_slots = total; regions = [] } ≡ s
    made = ground (arith, h)

-- Whatever calls are made on a new allocator, raising or refused ones too, every region lies in the
-- pool, and no slot belongs to two sequences.
pub run_keeps_apart :
    (total : ℕ) (calls : List Call) {s : ContiguousKvAllocator}
    → init (pos total) ≡ ok s
    → IsValid (run s calls)
run_keeps_apart total calls {s} h = run-IsValid calls s (init-IsValid total h)
