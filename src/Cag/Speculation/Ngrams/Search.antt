-- ===== src/Cag/Speculation/Ngrams/Search.antt =====
-- What the n-gram search finds.
use ai_augmented_generation.Prelude.{
  ℕ, zero, suc, ◌+◌, ◌-◌, ◌≤◌, ◌<◌, ◌≡◌, ◌⊎◌, refl, ap, sym, subst, ◌∙◌, min, true, false, Option,
  none, some, Option-cases, List, [], length, take, drop, ◌==◌, nat_eq, list_eq, ==_iff, arith,
  Bool-cases, inl, inr,
}
use native.Mathlib.Decide.{ℕ_discrete, dec_lt}
use ai_augmented_generation.Cag.Speculation.Ngrams.{
  suffix, find_start, try_sizes, ceiling, find_ngram_continuation,
}

-- The `size` tokens at `start` are the last `size` of the tail.
abbrev pub Matches : List ℕ → List ℕ → ℕ → ℕ → Type 0
Matches tail haystack size start = take size (drop start haystack) ≡ suffix size tail

-- What a search gives: the tokens after a match of `size` tokens at `start`.
abbrev pub continuation : List ℕ → ℕ → ℕ → ℕ → List ℕ
continuation haystack num size start = take num (drop (start + size) haystack)

ceiling-le :
    (max_start : Option ℕ) (haystack : List ℕ) → ceiling max_start haystack ≤ length haystack
unfolding ceiling
ceiling-le none haystack = omega arith
ceiling-le (some max_start) haystack = omega arith

module _ (ngram : List ℕ) (size : ℕ) (haystack : List ℕ) where
  find_start_match :
      (rounds : ℕ) {start : ℕ}
      → find_start ngram size haystack rounds ≡ some start
      → (start < rounds) × (take size (drop start haystack) ≡ ngram)
  unfolding find_start
  find_start_match zero h = cc h
  find_start_match (suc k) {start} h = elim (Bool-cases (take size (drop k haystack) == ngram)) [
    | inl hit ↦
        let same : k ≡ start = cc (rw hit at h) in
        (
          omega (arith, same),
          ap (λ i. take size (drop i haystack)) (sym same)
              ∙ (==_iff {A = List ℕ} (take size (drop k haystack)) ngram).0 hit,
        )
    | inr miss ↦ let found = find_start_match k (rw miss at h) in (omega (arith, found.0), found.1)
  ]

  -- A match is found, or one at a later position.
  find_start_latest :
      (rounds start : ℕ)
      → start < rounds
      → take size (drop start haystack) ≡ ngram
      → (found : ℕ) × (find_start ngram size haystack rounds ≡ some found) × (start ≤ found)
  unfolding find_start
  find_start_latest zero start h m = absurd (omega arith)
  find_start_latest (suc k) start h m = elim (Bool-cases (take size (drop k haystack) == ngram)) [
    | inl hit ↦ (k, here k hit, omega arith)
    | inr miss ↦ (elim (ℕ_discrete start k) [
      | yes same ↦ absurd (
          cc (
            miss,
            (==_iff {A = List ℕ} (take size (drop k haystack)) ngram).1
                (subst (λ i. take size (drop i haystack) ≡ ngram) same m),
          ))
      | no other ↦
          let (found, e, later) = find_start_latest k start (omega arith) m in
          (found, past k miss ∙ e, later)
    ])
  ]
    where
      here :
          (k : ℕ)
          → (take size (drop k haystack) == ngram) ≡ true
          → find_start ngram size haystack (suc k) ≡ some k
      here k hit = rw hit

      past :
          (k : ℕ)
          → (take size (drop k haystack) == ngram) ≡ false
          → find_start ngram size haystack (suc k) ≡ find_start ngram size haystack k
      past k miss = rw miss

module _ (tail haystack : List ℕ) (num min_size top : ℕ) where
  abbrev run : ℕ → List ℕ
  run = try_sizes tail haystack num min_size top

  abbrev starts : ℕ → Option ℕ
  starts k =
      find_start (suffix (min_size + k) tail) (min_size + k) haystack (top + 1 - (min_size + k))

  try_hit :
      (k : ℕ) {start : ℕ}
      → starts k ≡ some start
      → run (suc k) ≡ continuation haystack num (min_size + k) start
  unfolding try_sizes
  try_hit k e = ground (arith, e)

  try_miss : (k : ℕ) → starts k ≡ none → run (suc k) ≡ run k
  unfolding try_sizes
  try_miss k e = ground (arith, e)

  try_sizes_sound :
      (rounds : ℕ)
      → (run rounds ≡ [])
        ⊎ ((size : ℕ) × (start : ℕ) × (min_size ≤ size)
            × (size < min_size + rounds)
            × (start + size ≤ top)
            × Matches tail haystack size start
            × (run rounds ≡ continuation haystack num size start))
  try_sizes_sound zero = inl (unfold try_sizes in refl)
  try_sizes_sound (suc k) = elim (Option-cases (starts k)) [
    | inl e ↦ (elim (try_sizes_sound k) [
      | inl nothing ↦ inl (try_miss k e ∙ nothing)
      | inr (size, start, low, high, fits, m, eq) ↦
          inr (size, start, low, omega arith, fits, m, try_miss k e ∙ eq)
    ])
    | inr (start, e) ↦
        let found =
          find_start_match (suffix (min_size + k) tail) (min_size + k) haystack
            (top + 1 - (min_size + k)) e in
        inr (
          min_size + k,
          start,
          omega arith,
          omega arith,
          omega (arith, found.0),
          found.1,
          try_hit k e,
        )
  ]

  better :
      (k : ℕ) {size start start' : ℕ}
      → starts k ≡ some start'
      → Matches tail haystack size start
      → start + size ≤ top
      → size < min_size + suc k
      → (size < min_size + k) ⊎ ((size ≡ min_size + k) × (start ≤ start'))
  better k {size} {start} {start'} e m fits high = elim (ℕ_discrete size (min_size + k)) [
    | yes same ↦
        let (found, f, later) =
          find_start_latest (suffix (min_size + k) tail) (min_size + k) haystack
            (top + 1 - (min_size + k)) start (omega arith)
            (subst (λ n. Matches tail haystack n start) same m) in
        let last : found ≡ start' = cc (e, f) in inr (same, omega (arith, last))
    | no other ↦ inl (omega arith)
  ]

  -- A match makes the search give what follows one of the largest size, and of those the latest.
  try_sizes_best :
      (rounds size start : ℕ)
      → min_size ≤ size
      → size < min_size + rounds
      → start + size ≤ top
      → Matches tail haystack size start
      → (size' : ℕ) × (start' : ℕ) × ((size < size') ⊎ ((size ≡ size') × (start ≤ start')))
        × (size' < min_size + rounds)
        × (start' + size' ≤ top)
        × Matches tail haystack size' start'
        × (run rounds ≡ continuation haystack num size' start')
  try_sizes_best zero size start low high fits m = absurd (omega arith)
  try_sizes_best (suc k) size start low high fits m = elim (Option-cases (starts k)) [
    | inl e ↦ (elim (ℕ_discrete size (min_size + k)) [
      | yes same ↦
          let (found, f, _) =
            find_start_latest (suffix (min_size + k) tail) (min_size + k) haystack
              (top + 1 - (min_size + k)) start (omega arith)
              (subst (λ n. Matches tail haystack n start) same m) in
          absurd (cc (e, f))
      | no other ↦
          let (size', start', better, high', fits', m', eq) =
            try_sizes_best k size start low (omega arith) fits m in
          (size', start', better, omega arith, fits', m', try_miss k e ∙ eq)
    ])
    | inr (start', e) ↦
        let found =
          find_start_match (suffix (min_size + k) tail) (min_size + k) haystack
            (top + 1 - (min_size + k)) e in
        (
          min_size + k,
          start',
          better k e m fits high,
          omega arith,
          omega (arith, found.0),
          found.1,
          try_hit k e,
        )
  ]

module _ (tail haystack : List ℕ) (num_candidates max_size min_size : ℕ)
    (max_start : Option ℕ) where
  abbrev found_tokens : List ℕ
  found_tokens = find_ngram_continuation tail haystack num_candidates max_size min_size max_start

  abbrev tried : List ℕ
  tried =
      try_sizes tail haystack num_candidates min_size (ceiling max_start haystack)
        (min max_size (length tail) + 1 - min_size)

  nothing_to_search : (length tail ≡ 0) ⊎ (length haystack ≡ 0) → found_tokens ≡ []
  unfolding find_ngram_continuation
  nothing_to_search (inl h) = ground arith
  nothing_to_search (inr h) = ground arith

  searched : 0 < length tail → 0 < length haystack → found_tokens ≡ tried
  unfolding find_ngram_continuation
  searched h k = ground arith

  -- What `find_ngram_continuation` gives, if anything, follows an occurrence of the end of
  -- the tail: of a size that is allowed, and ending below the ceiling.
  pub find_ngram_continuation_sound :
      (found_tokens ≡ [])
      ⊎ ((size : ℕ) × (start : ℕ) × (min_size ≤ size)
          × (size ≤ min max_size (length tail))
          × (start + size ≤ ceiling max_start haystack)
          × Matches tail haystack size start
          × (found_tokens ≡ continuation haystack num_candidates size start))
  find_ngram_continuation_sound = elim (dec_lt 0 (length tail)) [
    | no h ↦ inl (nothing_to_search (inl (omega arith)))
    | yes h ↦ (elim (dec_lt 0 (length haystack)) [
      | no k ↦ inl (nothing_to_search (inr (omega arith)))
      | yes k ↦
          (elim (try_sizes_sound tail haystack num_candidates min_size (ceiling max_start haystack)
            (min max_size (length tail) + 1 - min_size)) [
              | inl nothing ↦ inl (searched h k ∙ nothing)
              | inr (size, start, low, high, fits, m, eq) ↦
                  inr (size, start, low, omega arith, fits, m, searched h k ∙ eq)
            ])
    ])
  ]

  -- If the end of the tail of an allowed size occurs below the ceiling, `find_ngram_continuation`
  -- gives what follows an occurrence of the largest allowed size, and the latest of that size: of
  -- all that end below the ceiling, where a size is allowed that is not 0, from the minimum to the
  -- lesser of the maximum and the length of the tail.
  pub find_ngram_continuation_best :
      (size start : ℕ)
      → 0 < size
      → min_size ≤ size
      → size ≤ min max_size (length tail)
      → start + size ≤ ceiling max_start haystack
      → Matches tail haystack size start
      → (size' : ℕ) × (start' : ℕ) × ((size < size') ⊎ ((size ≡ size') × (start ≤ start')))
        × (min_size ≤ size')
        × (size' ≤ min max_size (length tail))
        × (start' + size' ≤ ceiling max_start haystack)
        × Matches tail haystack size' start'
        × (found_tokens ≡ continuation haystack num_candidates size' start')
  find_ngram_continuation_best size start some_size low high fits m =
      let (size', start', best, high', fits', m', eq) =
        try_sizes_best tail haystack num_candidates min_size (ceiling max_start haystack)
          (min max_size (length tail) + 1 - min_size) size start low (omega arith) fits m in
      (
        size',
        start',
        best,
        ground arith,
        omega arith,
        fits',
        m',
        searched (omega arith) (omega (arith, ceiling-le max_start haystack)) ∙ eq,
      )
