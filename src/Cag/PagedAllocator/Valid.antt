-- ===== src/Cag/PagedAllocator/Valid.antt =====
-- The invariant of `PagedKVAllocator`, and that every operation keeps it.
use ai_augmented_generation.Prelude.{
  ℕ, ◌+◌, ◌≤◌, ◌≡◌, String, Bool, true, false, Option, none, some, List, arith, Outcome, ok, raise,
  string_eq, nat_eq, length, count, take, drop, length-take, leb, ltb, if◌then◌else◌, Option-cases,
  inl, inr,
}
use ai_augmented_generation.Prelude.Dict.{
  lookup, insert, IsDistinct, lookup-insert, insert-IsDistinct,
}
use ai_augmented_generation.Prelude.Int.{ℤ, pos, negsuc}
use ai_augmented_generation.Cag.PagedAllocator.{
  PagedKvAllocator, blocks_needed, take_blocks, hold_all, store, allocate,
}
use ai_augmented_generation.Cag.PagedAllocator.Pool.{IsPool, IsPool-ext, hold_all-IsPool}
use ai_augmented_generation.Cag.PagedAllocator.Tables.{refs, or_empty, refs-insert, count-le-refs}

-- A sequence has a table exactly if it has a token count, and then as many blocks as these need.
abbrev pub IsSized : ℕ → Option (List ℕ) → Option ℕ → Type 0
IsSized size none none = Unit
IsSized size (some table) (some num_tokens) = length table ≡ blocks_needed size num_tokens
IsSized size _ _ = ⊥

pub record IsValid (total : ℕ) (s : PagedKvAllocator) : Type 0 where
  pub has_size : 1 ≤ s.block_size
  pub tables_distinct : IsDistinct s.block_tables
  pub counts_distinct : IsDistinct s.token_counts
  pub sized :
      (k : String) → IsSized s.block_size (lookup k s.block_tables) (lookup k s.token_counts)
  pub pool : IsPool total s.free_blocks s.refcounts (λ b. refs b s.block_tables)

-- the state after `_take` has handed out `n` blocks
abbrev pub took : PagedKvAllocator → ℕ → PagedKvAllocator
took s n = record s {
  free_blocks = drop n s.free_blocks;
  refcounts = hold_all (take n s.free_blocks) s.refcounts;
}

pub take_blocks_fits :
    (s : PagedKvAllocator) (n : ℕ)
    → ltb (length s.free_blocks) n ≡ false
    → take_blocks s n ≡ some (take n s.free_blocks, took s n)
unfolding take_blocks
take_blocks_fits s n h = rw h

pub take_blocks_full :
    (s : PagedKvAllocator) (n : ℕ) → ltb (length s.free_blocks) n ≡ true → take_blocks s n ≡ none
unfolding take_blocks
take_blocks_full s n h = rw h

pub held-by-tables :
    (s : PagedKvAllocator) (k : String) {table : List ℕ}
    → lookup k s.block_tables ≡ some table
    → (b : ℕ) → count b table ≤ refs b s.block_tables
held-by-tables s k e b = ground (arith, count-le-refs b k s.block_tables)

-- What a call leaves behind is valid; a call that raises leaves the state as it was.
abbrev pub Keeps : ℕ → Outcome (Bool × PagedKvAllocator) → Type 0
Keeps total (ok (done, s)) = IsValid total s
Keeps total (raise e) = Unit

module _ {total : ℕ} where
  -- a state whose pool holds `taken` besides the tables, and then stores a table with them
  pub store-IsValid :
      (s : PagedKvAllocator) (k : String) (table : List ℕ) (num_tokens : ℕ) (holders : ℕ → ℕ)
      → 1 ≤ s.block_size
      → IsDistinct s.block_tables
      → IsDistinct s.token_counts
      → ((j : String) → IsSized s.block_size (lookup j s.block_tables) (lookup j s.token_counts))
      → length table ≡ blocks_needed s.block_size num_tokens
      → IsPool total s.free_blocks s.refcounts holders
      → ((b : ℕ)
          → holders b + count b (or_empty (lookup k s.block_tables))
            ≡ refs b s.block_tables + count b table)
      → IsValid total (store s k table num_tokens)
  unfolding store
  store-IsValid s k table n holders size dt dc sized fits pool held = record {
    has_size = size;
    tables_distinct = insert-IsDistinct k table s.block_tables dt;
    counts_distinct = insert-IsDistinct k n s.token_counts dc;
    sized = λ j. ground (
      arith,
      lookup-insert k j table s.block_tables,
      lookup-insert k j n s.token_counts,
      sized j,
    );
    pool = IsPool-ext (λ b. omega (arith, held b, refs-insert b k table s.block_tables)) pool;
  }

  -- the blocks that `_take` hands out become the table of a sequence that had none
  new_table-IsValid :
      (s : PagedKvAllocator) (k : String) (n : ℕ)
      → IsValid total s
      → lookup k s.block_tables ≡ none
      → ltb (length s.free_blocks) (blocks_needed s.block_size n) ≡ false
      → IsValid total (
          store
            (took s (blocks_needed s.block_size n))
            k
            (take (blocks_needed s.block_size n) s.free_blocks)
            n)
  new_table-IsValid s k n v fresh room =
      let needed = blocks_needed s.block_size n in
      store-IsValid (took s needed) k (take needed s.free_blocks) n
        (λ b. refs b s.block_tables + count b (take needed s.free_blocks)) v.has_size
        v.tables_distinct v.counts_distinct v.sized
        (ground (arith, length-take needed s.free_blocks))
        (hold_all-IsPool needed s.free_blocks s.refcounts _ v.pool) (λ b. rw fresh (omega arith))

  pub allocate-Keeps :
      (s : PagedKvAllocator) (k : String) (z : ℤ) → IsValid total s → Keeps total (allocate s k z)
  unfolding allocate
  allocate-Keeps s k (negsuc n) v = ground arith
  allocate-Keeps s k (pos n) v = ground (
    arith,
    new_table-IsValid s k n v,
    take_blocks_fits s (blocks_needed s.block_size n),
    take_blocks_full s (blocks_needed s.block_size n),
  )

  -- A known sequence has its blocks and its token count.
  pub table-sized :
      (s : PagedKvAllocator) (k : String) {table : List ℕ}
      → IsValid total s
      → lookup k s.block_tables ≡ some table
      → (n : ℕ) × (lookup k s.token_counts ≡ some n) × (length table ≡ blocks_needed s.block_size n)
  table-sized s k v e = elim (Option-cases (lookup k s.token_counts)) [
    | inl e' ↦ absurd (ground (arith, v.sized k))
    | inr (n, e') ↦ (n, e', ground (arith, v.sized k))
  ]

  -- A sequence with a token count has a table, one without has none.
  pub table-known :
      (s : PagedKvAllocator) (k : String) {n : ℕ}
      → IsValid total s
      → lookup k s.token_counts ≡ some n
      → (table : List ℕ) × (lookup k s.block_tables ≡ some table)
  table-known s k v e = elim (Option-cases (lookup k s.block_tables)) [
    | inl e' ↦ absurd (ground (arith, v.sized k))
    | inr (table, e') ↦ (table, e')
  ]

  pub count-unknown :
      (s : PagedKvAllocator) (k : String)
      → IsValid total s
      → lookup k s.block_tables ≡ none
      → lookup k s.token_counts ≡ none
  count-unknown s k v e = ground (arith, v.sized k)

  pub table-unknown :
      (s : PagedKvAllocator) (k : String)
      → IsValid total s
      → lookup k s.token_counts ≡ none
      → lookup k s.block_tables ≡ none
  table-unknown s k v e = ground (arith, v.sized k)

-- `allocate` of a new sequence succeeds exactly if enough blocks are free.
pub allocate_lem :
    (s : PagedKvAllocator) (k : String) (n : ℕ)
    → lookup k s.block_tables ≡ none
    → allocate s k (pos n) ≡ (
        let needed = blocks_needed s.block_size n in
        if leb needed (length s.free_blocks)
        then ok (true, store (took s needed) k (take needed s.free_blocks) n)
        else ok (false, s))
unfolding allocate
allocate_lem s k n fresh = ground (
  arith,
  fresh,
  take_blocks_fits s (blocks_needed s.block_size n),
  take_blocks_full s (blocks_needed s.block_size n),
)

-- What a successful `allocate` has stored.
pub allocated :
    (s : PagedKvAllocator) (k : String) (n : ℕ) {s' : PagedKvAllocator}
    → lookup k s.block_tables ≡ none
    → allocate s k (pos n) ≡ ok (true, s')
    → (table : List ℕ) × (s'.block_tables ≡ insert k table s.block_tables)
      × (s'.block_size ≡ s.block_size)
      × (s'.token_counts ≡ insert k n s.token_counts)
allocated s k n fresh done = (
  take (blocks_needed s.block_size n) s.free_blocks,
  unfold store in ground (arith, allocate_lem s k n fresh, done),
  unfold store in ground (arith, allocate_lem s k n fresh, done),
  unfold store in ground (arith, allocate_lem s k n fresh, done),
)
