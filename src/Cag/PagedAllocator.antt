-- ===== src/Cag/PagedAllocator.antt =====
-- src/cag/infrastructure/paged_allocator.py: `PagedKVAllocator`. Blocks are numbers, sequence ids
-- are strings. The free list is kept with its end first, since the code pops and appends there.
-- `math.ceil(n / block_size)` is the exact ceiling. A call returns the new state beside its result,
-- or raises.
pub mod Pool
pub mod Tables
pub mod Valid
pub mod Sharing
pub mod CopyOnWrite
pub mod Extend
pub mod Runs
pub mod Accounting
mod Tests
use Prim.Native.Nat.{suc}
use ai_augmented_generation.Prelude.{
  ℕ, zero, ◌+◌, ◌-◌, ◌*◌, ◌/◌, ◌%◌, String, Bool, true, false, ◌&&◌, not, Option, none, some, List,
  [], ◌∷◌, ◌++◌, Outcome, ok, raise, value_error, key_error, ◌>>=◌, ◌>>◌, nat_eq, string_eq, length,
  take, drop, ltb, ◌==◌, if◌then◌else◌,
}
use ai_augmented_generation.Prelude.Dict.{Dict, lookup, insert, remove}
use ai_augmented_generation.Prelude.Int.{ℤ, pos, ltb_ℤ, is_negative, pos_part}

pub record PagedKvAllocator : Type 0 where
  pub block_size : ℕ
  pub free_blocks : List ℕ
  pub block_tables : Dict String (List ℕ)
  pub token_counts : Dict String ℕ
  pub refcounts : Dict ℕ ℕ

-- `list(range(n))`, its end first
pub range_down : ℕ → List ℕ
range_down zero = []
range_down (suc n) = n ∷ range_down n

pub init : ℤ → ℤ → Outcome PagedKvAllocator
unfolding range_down
init total_blocks block_size =
    if ltb_ℤ total_blocks (pos 1)
    then raise value_error
    else if ltb_ℤ block_size (pos 1)
    then raise value_error
    else ok (record {
      block_size = pos_part block_size;
      free_blocks = range_down (pos_part total_blocks);
      block_tables = [];
      token_counts = [];
      refcounts = [];
    })

pub blocks_needed : ℕ → ℕ → ℕ
blocks_needed block_size num_tokens = (num_tokens + (block_size - 1)) / block_size

-- `for block in taken: self._refcounts[block] = 1`
pub hold_all : List ℕ → Dict ℕ ℕ → Dict ℕ ℕ
hold_all [] refcounts = refcounts
hold_all (block ∷ taken) refcounts = hold_all taken (insert block 1 refcounts)

-- `_take`
pub take_blocks : PagedKvAllocator → ℕ → Option (List ℕ × PagedKvAllocator)
take_blocks s count =
    if ltb (length s.free_blocks) count
    then none
    else (let taken = take count s.free_blocks in
        some (
          taken,
          record s {
            free_blocks = drop count s.free_blocks;
            refcounts = hold_all taken s.refcounts;
          },
        ))

abbrev pub is_some {ℓ} : {A : Type ℓ} → Option A → Bool
is_some none = false
is_some (some x) = true

-- the writes of `allocate` and of `extend` once the blocks are there
pub store : PagedKvAllocator → String → List ℕ → ℕ → PagedKvAllocator
store s sequence_id table num_tokens = record s {
  block_tables = insert sequence_id table s.block_tables;
  token_counts = insert sequence_id num_tokens s.token_counts;
}

pub allocate : PagedKvAllocator → String → ℤ → Outcome (Bool × PagedKvAllocator)
allocate s sequence_id num_tokens =
    if is_some (lookup sequence_id s.block_tables)
    then raise value_error
    else if is_negative num_tokens
    then raise value_error
    else elim (take_blocks s (blocks_needed s.block_size (pos_part num_tokens))) [
      | none ↦ ok (false, s)
      | some (taken, s') ↦ ok (true, store s' sequence_id taken (pos_part num_tokens))
    ]

pub last? : List ℕ → Option ℕ
last? [] = none
last? (x ∷ []) = some x
last? (x ∷ y ∷ xs) = last? (y ∷ xs)

-- `table[-1] = block`
pub set_last : ℕ → List ℕ → List ℕ
set_last block [] = []
set_last block (x ∷ []) = block ∷ []
set_last block (x ∷ y ∷ xs) = x ∷ set_last block (y ∷ xs)

-- `self._refcounts[block]`
pub read : {A : Type 0} → Option A → Outcome A
read none = raise key_error
read (some x) = ok x

-- The copy-on-write step of `extend`: the table and the state after it, or `none` where the pool
-- has no block for the copy.
pub copy_last :
    PagedKvAllocator → String → List ℕ → ℕ → Outcome (Option (List ℕ × PagedKvAllocator))
copy_last s sequence_id table last = elim (take_blocks s 1) [
  | none ↦ ok none
  | some (replacement, s') ↦ do
    shared ← read (lookup last s'.refcounts)
    new_block ← read (last? replacement)
    let table' = set_last new_block table
    ok (
        some (
          table',
          record s' {
            refcounts = insert last (shared - 1) s'.refcounts;
            block_tables = insert sequence_id table' s'.block_tables;
          },
        ))
]

pub make_private :
    PagedKvAllocator → String → List ℕ → ℕ → Outcome (Option (List ℕ × PagedKvAllocator))
make_private s sequence_id table current = elim (last? table) [
  | none ↦ ok (some (table, s))
  | some last ↦ do
    shared ← read (lookup last s.refcounts)
    if ltb 1 shared && not ((current % s.block_size) == 0)
        then copy_last s sequence_id table last
        else ok (some (table, s))
]

-- the rest of `extend`
pub grow : PagedKvAllocator → String → List ℕ → ℕ → Bool × PagedKvAllocator
grow s sequence_id table target =
    let needed = blocks_needed s.block_size target in
    if ltb (length table) needed
    then (elim (take_blocks s (needed - length table)) [
      | none ↦ (false, s)
      | some (taken, s') ↦ (true, store s' sequence_id (table ++ taken) target)
    ])
    else (true, record s { token_counts = insert sequence_id target s.token_counts })

pub extend : PagedKvAllocator → String → ℤ → Outcome (Bool × PagedKvAllocator)
extend s sequence_id additional_tokens = elim (lookup sequence_id s.block_tables) [
  | none ↦ raise key_error
  | some table ↦ if is_negative additional_tokens then raise value_error else do
    current ← read (lookup sequence_id s.token_counts)
    private ← make_private s sequence_id table current
    ok (elim private [
      | none ↦ (false, s)
      | some (table', s') ↦ grow s' sequence_id table' (current + pos_part additional_tokens)
    ])
]

-- `for block in table: self._refcounts[block] += 1`
pub share_all : List ℕ → Dict ℕ ℕ → Outcome (Dict ℕ ℕ)
share_all [] refcounts = ok refcounts
share_all (block ∷ table) refcounts = do
  held ← read (lookup block refcounts)
  share_all table (insert block (held + 1) refcounts)

pub fork : PagedKvAllocator → String → String → Outcome (Bool × PagedKvAllocator)
fork s parent_id child_id = elim (lookup parent_id s.block_tables) [
  | none ↦ raise key_error
  | some table ↦ if is_some (lookup child_id s.block_tables) then raise value_error else do
    refcounts ← share_all table s.refcounts
    num_tokens ← read (lookup parent_id s.token_counts)
    ok (true, store (record s { refcounts = refcounts }) child_id table num_tokens)
]

-- The loop of `free`. A stored count is never 0, so `- 1` does not stop at 0.
pub release_all : List ℕ → Dict ℕ ℕ → List ℕ → Outcome (Dict ℕ ℕ × List ℕ)
release_all [] refcounts free_blocks = ok (refcounts, free_blocks)
release_all (block ∷ table) refcounts free_blocks = do
  held ← read (lookup block refcounts)
  let last_holder = (held - 1) == 0
  release_all table
      (if last_holder then remove block refcounts else insert block (held - 1) refcounts)
      (if last_holder then block ∷ free_blocks else free_blocks)

pub free : PagedKvAllocator → String → Outcome PagedKvAllocator
free s sequence_id = elim (lookup sequence_id s.block_tables) [
  | none ↦ raise key_error
  | some table ↦ do
    (refcounts, free_blocks) ← release_all table s.refcounts s.free_blocks
    read (lookup sequence_id s.token_counts)
    ok (record s {
      free_blocks = free_blocks;
      block_tables = remove sequence_id s.block_tables;
      token_counts = remove sequence_id s.token_counts;
      refcounts = refcounts;
    })
]

pub physical_slots_used : PagedKvAllocator → ℕ
physical_slots_used s = length s.refcounts * s.block_size

pub sum_counts : Dict String ℕ → ℕ
sum_counts [] = 0
sum_counts ((k, n) ∷ counts) = n + sum_counts counts

pub logical_tokens_held : PagedKvAllocator → ℕ
logical_tokens_held s = sum_counts s.token_counts

pub free_runs : PagedKvAllocator → List ℕ
free_runs s = (length s.free_blocks * s.block_size) ∷ []
