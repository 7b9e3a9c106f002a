-- ===== src/Cag/ContiguousAllocator/Calls.antt =====
-- What each operation of `ContiguousKVAllocator` does on a valid state.
use ai_augmented_generation.Prelude.{
  ℕ, ◌+◌, ◌≤◌, ◌≡◌, refl, inl, inr, String, Bool, true, false, not, ◌&&◌, Option, none, some, List,
  arith, Outcome, ok, raise, string_eq, nat_eq, ==_iff, ◌==◌, leb, Bool-cases, Option-cases,
}
use ai_augmented_generation.Prelude.Dict.{lookup}
use ai_augmented_generation.Prelude.Int.{pos}
use ai_augmented_generation.Cag.ContiguousAllocator.{
  ContiguousKvAllocator, Region, sorted, is_ignored, regions_except, find_run, put, blocked,
  allocate, extend, fork,
}
use ai_augmented_generation.Cag.ContiguousAllocator.Sorting.{
  IsApart, All-sorted, All-of_sorted, sorted-IsSorted,
}
use ai_augmented_generation.Cag.ContiguousAllocator.Gaps.{
  find_gap_sound, find_gap_complete, blocked-false,
}
use ai_augmented_generation.Cag.ContiguousAllocator.Valid.{
  All-regions_except, of_All-regions_except, IsValid, put-IsValid,
}

-- A run of `size` slots from `start` that every sequence but the ignored one leaves free.
abbrev pub IsRoom : ContiguousKvAllocator → Option String → ℕ → ℕ → Type 0
IsRoom s ignoring size start =
    (start + size ≤ s.total_slots)
    × ((j : String) (r : Region)
        → is_ignored ignoring j ≡ false
        → lookup j s.regions ≡ some r
        → IsApart start size r)

module _ (s : ContiguousKvAllocator) (v : IsValid s) (ignoring : Option String) (size : ℕ) where
  abbrev occupied : List Region
  occupied = sorted (regions_except ignoring s.regions)

  -- What `_find_run` finds is room.
  pub find_run-IsRoom :
      {start : ℕ} → find_run s size ignoring ≡ some start → IsRoom s ignoring size start
  unfolding find_run
  find_run-IsRoom {start} h = elim (Bool-cases (size == 0)) [
    | inl e ↦ (ground (arith, h, e), λ j r kept found. inl (ground (arith, h, e)))
    | inr e ↦
        let (past, inside, apart) =
          find_gap_sound s.total_slots size 0 occupied {found = start}
            (sorted-IsSorted (regions_except ignoring s.regions))
            (All-sorted (λ r. r.0 + r.1 ≤ s.total_slots) (regions_except ignoring s.regions)
              (All-regions_except (λ r. r.0 + r.1 ≤ s.total_slots) ignoring s.regions v.distinct
                (λ j r kept. v.bounded j r)))
            (ground (arith, h, e)) in
        (
          inside,
          of_All-regions_except (IsApart start size) ignoring s.regions
              (All-of_sorted (IsApart start size) (regions_except ignoring s.regions) apart),
        )
  ]

  -- Where `_find_run` finds nothing there is no room anywhere.
  pub find_run-none : find_run s size ignoring ≡ none → (start : ℕ) → ¬ IsRoom s ignoring size start
  unfolding find_run
  find_run-none h start room = elim (Bool-cases (size == 0)) [
    | inl e ↦ ground (arith, h, e)
    | inr e ↦
        find_gap_complete s.total_slots size 0 occupied (ground (arith, e)) (ground (arith, h, e))
          start (omega arith) room.0
          (All-sorted (IsApart start size) (regions_except ignoring s.regions)
            (All-regions_except (IsApart start size) ignoring s.regions v.distinct room.1))
  ]

module _ (s : ContiguousKvAllocator) (v : IsValid s) (k : String) where
  -- What a call that asks for `size` slots for the sequence `k` promises: it succeeds with a region
  -- that no other sequence has any part of, or there is no such region and nothing has changed.
  abbrev pub Places : ℕ → Outcome (Bool × ContiguousKvAllocator) → Type 0
  Places size (ok (true, s')) =
      IsValid s' × ((start : ℕ) × (s' ≡ put s k (start, size)) × IsRoom s (some k) size start)
  Places size (ok (false, s')) = (s' ≡ s) × ((start : ℕ) → ¬ IsRoom s (some k) size start)
  Places size (raise e) = ⊥

  placed :
      (size start : ℕ)
      → IsRoom s (some k) size start
      → Places size (ok (true, put s k (start, size)))
  placed size start room = (
    put-IsValid s v k start size room.0
        (λ j q ne. room.1 j q (ground (arith, ==_iff {A = String} j k))),
    (start, refl, room),
  )

  -- a sequence with no region leaves as much room as no sequence
  unignored :
      (size start : ℕ)
      → lookup k s.regions ≡ none
      → IsRoom s none size start
      → IsRoom s (some k) size start
  unignored size start fresh room = (room.0, λ j r kept. room.1 j r refl)

  ignored :
      (size start : ℕ)
      → lookup k s.regions ≡ none
      → IsRoom s (some k) size start
      → IsRoom s none size start
  ignored size start fresh room = (
    room.0,
    λ j r kept found. room.1 j r (ground (arith, ==_iff {A = String} j k, found, fresh)) found,
  )

  allocate_found :
      (n start : ℕ)
      → lookup k s.regions ≡ none
      → find_run s n none ≡ some start
      → allocate s k (pos n) ≡ ok (true, put s k (start, n))
  unfolding allocate
  allocate_found n start fresh h = ground (arith, fresh, h)

  allocate_full :
      (n : ℕ)
      → lookup k s.regions ≡ none
      → find_run s n none ≡ none
      → allocate s k (pos n) ≡ ok (false, s)
  unfolding allocate
  allocate_full n fresh h = ground (arith, fresh, h)

  -- On a valid allocator `allocate` of a new sequence with a number of tokens that is not negative
  -- does not raise: it gives the sequence a free run of that size, or there is none and nothing has
  -- changed.
  pub allocate-Places : (n : ℕ) → lookup k s.regions ≡ none → Places n (allocate s k (pos n))
  allocate-Places n fresh = elim (Option-cases (find_run s n none)) [
    | inl h ↦
        rw (allocate_full n fresh h)
          (refl, λ start room. find_run-none s v none n h start (ignored n start fresh room))
    | inr (start, h) ↦
        rw (allocate_found n start fresh h)
          (placed n start (unignored n start fresh (find_run-IsRoom s v none n h)))
  ]

  module _ (start length a : ℕ) (known : lookup k s.regions ≡ some (start, length)) where
    abbrev stays : Bool
    stays =
        not (blocked start (length + a) (regions_except (some k) s.regions))
        && leb (start + (length + a)) s.total_slots

    extend-stays : stays ≡ true → extend s k (pos a) ≡ ok (true, put s k (start, length + a))
    unfolding extend
    extend-stays h = ground (arith, known, h)

    extend_moves :
        (start' : ℕ)
        → stays ≡ false
        → find_run s (length + a) (some k) ≡ some start'
        → extend s k (pos a) ≡ ok (true, put s k (start', length + a))
    unfolding extend
    extend_moves start' h h' = ground (arith, known, h, h')

    extend_full :
        stays ≡ false → find_run s (length + a) (some k) ≡ none → extend s k (pos a) ≡ ok (false, s)
    unfolding extend
    extend_full h h' = ground (arith, known, h, h')

    -- On a valid allocator `extend` of a known sequence by a number of tokens that is not negative
    -- does not raise: it grows in place, or moves, or there is no room.
    pub extend-Places : Places (length + a) (extend s k (pos a))
    extend-Places = elim (Bool-cases stays) [
      | inl h ↦ rw (extend-stays h) (
          placed (length + a) start (
            ground (arith, h),
            of_All-regions_except (IsApart start (length + a)) (some k) s.regions (
                blocked-false start (length + a) (regions_except (some k) s.regions)
                  (ground (arith, h))),
          ))
      | inr h ↦ elim (Option-cases (find_run s (length + a) (some k))) [
        | inl h' ↦ rw (extend_full h h') (refl, find_run-none s v (some k) (length + a) h')
        | inr (start', h') ↦
            rw (extend_moves start' h h')
              (placed (length + a) start' (find_run-IsRoom s v (some k) (length + a) h'))
      ]
    ]

  -- `fork` copies: the child needs a run of the parent's length of its own.
  pub fork-Places :
      (parent : String) (r : Region)
      → lookup parent s.regions ≡ some r
      → lookup k s.regions ≡ none
      → Places r.1 (fork s parent k)
  fork-Places parent r known fresh = rw copies (allocate-Places r.1 fresh)
    where
      copies : fork s parent k ≡ allocate s k (pos r.1)
      copies = unfold fork in ground (arith, known, fresh)
