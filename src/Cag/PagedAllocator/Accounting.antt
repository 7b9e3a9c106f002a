-- ===== src/Cag/PagedAllocator/Accounting.antt =====
-- What `physical_slots_used`, `logical_tokens_held` and `free_runs` report.
use ai_augmented_generation.Prelude.{
  ℕ, zero, suc, ◌+◌, ◌-◌, ◌*◌, ◌≤◌, ◌<◌, ◌≡◌, refl, ap, ◌∙◌, String, true, none, some, List, [],
  ◌∷◌, ◌≢◌, ◌==◌, Bool-cases, inl, inr, arith, ok, string_eq, nat_eq, length, count, ltb, min,
  if◌then◌else◌, ==_iff, ==_refl,
}
use ai_augmented_generation.Prelude.Dict.{
  Dict, lookup, insert, remove, lookup-insert, lookup-remove,
}
use ai_augmented_generation.Prelude.Int.{pos}
use ai_augmented_generation.Cag.PagedAllocator.{
  PagedKvAllocator, allocate, fork, free, physical_slots_used, logical_tokens_held, sum_counts,
  free_runs,
}
use ai_augmented_generation.Cag.PagedAllocator.Pool.{one_at}
use ai_augmented_generation.Cag.PagedAllocator.Tables.{refs, refs-insert, refs-remove}
use ai_augmented_generation.Cag.PagedAllocator.Valid.{
  IsValid, allocate-Keeps, allocated, table-known, table-unknown, count-unknown,
}
use ai_augmented_generation.Cag.PagedAllocator.Sharing.{fork_lem, free_lem}

-- f 0 + … + f (n - 1)
unfoldable pub sum_below : ℕ → (ℕ → ℕ) → ℕ
sum_below zero f = 0
sum_below (suc n) f = f n + sum_below n f

sum_below-ext :
    (n : ℕ) {f g : ℕ → ℕ} → ((b : ℕ) → b < n → f b ≡ g b) → sum_below n f ≡ sum_below n g
unfolding sum_below
sum_below-ext zero e = refl
sum_below-ext (suc n) e =
    omega (arith, e n (omega arith), sum_below-ext n (λ b h. e b (omega arith)))

sum_below-add : (n : ℕ) (f g : ℕ → ℕ) → sum_below n (λ b. f b + g b) ≡ sum_below n f + sum_below n g
unfolding sum_below
sum_below-add zero f g = omega arith
sum_below-add (suc n) f g = omega (arith, sum_below-add n f g)

sum_below-one_at : (n x : ℕ) → sum_below n (one_at x) ≡ (if ltb x n then 1 else 0)
unfolding sum_below
sum_below-one_at zero x = ground arith
sum_below-one_at (suc n) x = ground (arith, sum_below-one_at n x)

sum_below-zero : (n : ℕ) → sum_below n (λ b. 0) ≡ 0
unfolding sum_below
sum_below-zero zero = refl
sum_below-zero (suc n) = omega (arith, sum_below-zero n)

sum_below-one : (n : ℕ) → sum_below n (λ b. 1) ≡ n
unfolding sum_below
sum_below-one zero = refl
sum_below-one (suc n) = omega (arith, sum_below-one n)

-- The elements of a list of numbers below `n` are counted one number at a time.
sum_below-count :
    (n : ℕ) (xs : List ℕ)
    → ((b : ℕ) → n ≤ b → count b xs ≡ 0)
    → sum_below n (λ b. count b xs) ≡ length xs
sum_below-count n [] h = sum_below-zero n
sum_below-count n (x ∷ xs) h =
    sum_below-add n (one_at x) (λ b. count b xs)
    ∙ ground (arith, sum_below-one_at n x, h x, sum_below-count n xs (λ b k. omega (arith, h b k)))

module _ {total : ℕ} {s : PagedKvAllocator} (v : IsValid total s) where
  held_blocks : sum_below total (λ b. min 1 (refs b s.block_tables)) ≡ length s.refcounts
  held_blocks = omega (
    arith,
    v.pool.complete,
    all_blocks,
    sum_below-add total (λ b. count b s.free_blocks) (λ b. min 1 (refs b s.block_tables)),
    sum_below-count total s.free_blocks (λ b h. ground (arith, v.pool.placed b)),
  )
    where
      all_blocks :
          sum_below total (λ b. count b s.free_blocks + min 1 (refs b s.block_tables)) ≡ total
      all_blocks =
          sum_below-ext total (λ b h. ground (arith, v.pool.placed b)) ∙ sum_below-one total

  -- On a valid allocator `physical_slots_used` counts every block that some block table holds once,
  -- in slots, however many sequences share it, and `free_runs` reports one run with all the rest.
  pub physical_slots_used_lem :
      (physical_slots_used s ≡ sum_below total (λ b. min 1 (refs b s.block_tables)) * s.block_size)
      × (free_runs s
          ≡ (total - sum_below total (λ b. min 1 (refs b s.block_tables))) * s.block_size ∷ [])
  unfolding physical_slots_used free_runs
  physical_slots_used_lem = (
    rw held_blocks,
    let e : length s.free_blocks ≡ total - sum_below total (λ b. min 1 (refs b s.block_tables)) =
          omega (arith, held_blocks, v.pool.complete) in
        rw e,
  )

sum_counts-insert :
    (k : String) (n : ℕ) (counts : Dict String ℕ)
    → lookup k counts ≡ none
    → sum_counts (insert k n counts) ≡ sum_counts counts + n
unfolding sum_counts lookup insert
sum_counts-insert k n [] h = omega arith
sum_counts-insert k n ((j, m) ∷ counts) h = ground (arith, sum_counts-insert k n counts)

-- Where the tables hold the same blocks, the reports are the same.
reports-eq :
    {total : ℕ} (s s' : PagedKvAllocator)
    → IsValid total s
    → IsValid total s'
    → s'.block_size ≡ s.block_size
    → ((b : ℕ) → refs b s'.block_tables ≡ refs b s.block_tables)
    → (physical_slots_used s' ≡ physical_slots_used s) × (free_runs s' ≡ free_runs s)
reports-eq {total} s s' v v' size same =
    let held : sum_below total (λ b. min 1 (refs b s'.block_tables))
        ≡ sum_below total (λ b. min 1 (refs b s.block_tables)) =
      sum_below-ext total (λ b h. ap (min 1) (same b)) in
    (
      cc (size, held, (physical_slots_used_lem v).0, (physical_slots_used_lem v').0),
      cc (size, held, (physical_slots_used_lem v).1, (physical_slots_used_lem v').1),
    )

-- Forking a known sequence into an unused id of a valid allocator succeeds and costs no block: the
-- slots used and the free run stay as they were, while the tokens held grow by the parent's.
pub fork_accounting :
    {total : ℕ} (s : PagedKvAllocator) (parent child : String) {n : ℕ}
    → IsValid total s
    → lookup parent s.token_counts ≡ some n
    → lookup child s.token_counts ≡ none
    → (s' : PagedKvAllocator) × (fork s parent child ≡ ok (true, s'))
      × (physical_slots_used s' ≡ physical_slots_used s)
      × (free_runs s' ≡ free_runs s)
      × (logical_tokens_held s' ≡ logical_tokens_held s + n)
unfolding physical_slots_used free_runs logical_tokens_held
fork_accounting s parent child {n} v counted fresh =
    let (table, known) = table-known s parent v counted in
    let (s', done, valid, free, same, tables, size, counts) =
      fork_lem s parent child v known (table-unknown s child v fresh) in
    (
      s',
      done,
      rw (same, size),
      rw (free, size),
      rw (counts, counted) (sum_counts-insert child n s.token_counts fresh),
    )

remove-insert :
    {V : Type 0} (k : String) (v : V) (d : Dict String V)
    → lookup k d ≡ none
    → remove k (insert k v d) ≡ d
unfolding lookup insert remove
remove-insert k v [] h = rw (==_refl {A = String} k) refl
remove-insert k v ((j, u) ∷ d) h = elim (Bool-cases (j == k)) [
  | inl same ↦ absurd (some-ne-none (rw same at h))
  | inr other ↦
      rw other (rw other (ap (λ rest. (j, u) ∷ rest) (remove-insert k v d (rw other at h))))
]
  where
    some-ne-none : some u ≢ none
    some-ne-none e = cc

-- Where the allocator is valid, freeing a sequence right after it was allocated, which it was not
-- before, does not raise and undoes the allocation: the block tables read the same at every id, and
-- the token counts and the three reports are as before.
pub free-allocate :
    {total : ℕ} (s : PagedKvAllocator) (k : String) (n : ℕ) {s' : PagedKvAllocator}
    → IsValid total s
    → lookup k s.block_tables ≡ none
    → allocate s k (pos n) ≡ ok (true, s')
    → (s'' : PagedKvAllocator) × (free s' k ≡ ok s'')
      × ((j : String) → lookup j s''.block_tables ≡ lookup j s.block_tables)
      × (s''.token_counts ≡ s.token_counts)
      × (physical_slots_used s'' ≡ physical_slots_used s)
      × (logical_tokens_held s'' ≡ logical_tokens_held s)
      × (free_runs s'' ≡ free_runs s)
unfolding logical_tokens_held
free-allocate s k n {s'} v fresh done =
    let (table, tables, size, counts) = allocated s k n fresh done in
    let valid : IsValid _ s' = rw done at (allocate-Keeps s k (pos n) v) in
    let known : lookup k s'.block_tables ≡ some table =
      ground (arith, tables, lookup-insert k k table s.block_tables, ==_refl {A = String} k) in
    let (s'', freed, valid', size', tables', counts') = free_lem s' k valid known in
    let undone : (j : String) → lookup j s''.block_tables ≡ lookup j s.block_tables = λ j. ground (
      arith,
      tables',
      lookup-remove k j s'.block_tables valid.tables_distinct,
      tables,
      lookup-insert k j table s.block_tables,
      ==_iff {A = String} k j,
      fresh,
    ) in
    let (used, runs) = reports-eq s s'' v valid' (size' ∙ size) (λ b. ground (
      arith,
      tables',
      refs-remove b k s'.block_tables,
      known,
      tables,
      refs-insert b k table s.block_tables,
      fresh,
    )) in
    let recounted : s''.token_counts ≡ s.token_counts =
      counts'
      ∙ ap (remove k) counts
      ∙ remove-insert k n s.token_counts (count-unknown s k v fresh) in
    (s'', freed, undone, recounted, used, ap sum_counts recounted, runs)
