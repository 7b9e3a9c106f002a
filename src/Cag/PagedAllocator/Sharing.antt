-- ===== src/Cag/PagedAllocator/Sharing.antt =====
-- `fork` and `free` of `PagedKVAllocator` on a valid state.
use ai_augmented_generation.Prelude.{
  ℕ, ◌≡◌, refl, String, true, none, some, List, arith, ok, string_eq, nat_eq, length, Option-cases,
  inl, inr,
}
use ai_augmented_generation.Prelude.Dict.{lookup, insert, remove, lookup-remove, remove-IsDistinct}
use ai_augmented_generation.Cag.PagedAllocator.{PagedKvAllocator, store, read, fork, free}
use ai_augmented_generation.Cag.PagedAllocator.Pool.{
  or_zero, IsPool-ext, share_all-IsPool, release_all-IsPool,
}
use ai_augmented_generation.Cag.PagedAllocator.Tables.{refs, refs-remove}
use ai_augmented_generation.Cag.PagedAllocator.Valid.{
  IsValid, held-by-tables, Keeps, store-IsValid, table-sized,
}

module _ {total : ℕ} where
  -- `fork` of a known parent into a new child succeeds, and takes no block.
  pub fork_lem :
      (s : PagedKvAllocator) (parent child : String) {table : List ℕ}
      → IsValid total s
      → lookup parent s.block_tables ≡ some table
      → lookup child s.block_tables ≡ none
      → (s' : PagedKvAllocator) × (fork s parent child ≡ ok (true, s'))
        × IsValid total s'
        × (s'.free_blocks ≡ s.free_blocks)
        × (length s'.refcounts ≡ length s.refcounts)
        × (s'.block_tables ≡ insert child table s.block_tables)
        × (s'.block_size ≡ s.block_size)
        × (s'.token_counts ≡ insert child (or_zero (lookup parent s.token_counts)) s.token_counts)
  unfolding fork store read
  fork_lem s parent child {table} v known fresh =
      let (n, counted, fits) = table-sized s parent v known in
      let (r, shared, pool, same) =
        share_all-IsPool table s.free_blocks s.refcounts (λ b. refs b s.block_tables) v.pool
          (held-by-tables s parent known) in
      (
        store (record s { refcounts = r }) child table n,
        ground (arith, known, fresh, shared, counted),
        store-IsValid (record s { refcounts = r }) child table n _ v.has_size v.tables_distinct
            v.counts_distinct v.sized fits pool (λ b. rw fresh (omega arith)),
        refl,
        same,
        refl,
        refl,
        rw counted,
      )

  pub fork-Keeps :
      (s : PagedKvAllocator) (parent child : String)
      → IsValid total s
      → Keeps total (fork s parent child)
  fork-Keeps s parent child v = elim (Option-cases (lookup parent s.block_tables)) [
    | inl unknown ↦ unfold fork in ground (arith, unknown)
    | inr (table, known) ↦ elim (Option-cases (lookup child s.block_tables)) [
      | inr (t, taken) ↦ unfold fork in ground (arith, known, taken)
      | inl fresh ↦
          let (s', done, valid, _, _, _, _, _) = fork_lem s parent child v known fresh in
          rw done valid
    ]
  ]

  -- `free` of a known sequence succeeds.
  pub free_lem :
      (s : PagedKvAllocator) (k : String) {table : List ℕ}
      → IsValid total s
      → lookup k s.block_tables ≡ some table
      → (s' : PagedKvAllocator) × (free s k ≡ ok s')
        × IsValid total s'
        × (s'.block_size ≡ s.block_size)
        × (s'.block_tables ≡ remove k s.block_tables)
        × (s'.token_counts ≡ remove k s.token_counts)
  unfolding free read
  free_lem s k {table} v known =
      let (n, counted, fits) = table-sized s k v known in
      let ((r, f), released, pool) =
        release_all-IsPool table s.free_blocks s.refcounts (λ b. refs b s.block_tables) v.pool
          (held-by-tables s k known) in
      (
        record s {
          free_blocks = f;
          block_tables = remove k s.block_tables;
          token_counts = remove k s.token_counts;
          refcounts = r;
        },
        ground (arith, known, released, counted),
        record {
          has_size = v.has_size;
          tables_distinct = remove-IsDistinct k s.block_tables v.tables_distinct;
          counts_distinct = remove-IsDistinct k s.token_counts v.counts_distinct;
          sized = λ j. ground (
            arith,
            lookup-remove k j s.block_tables v.tables_distinct,
            lookup-remove k j s.token_counts v.counts_distinct,
            v.sized j,
          );
          pool = IsPool-ext (λ b. ground (arith, refs-remove b k s.block_tables, known)) pool;
        },
        refl,
        refl,
        refl,
      )
