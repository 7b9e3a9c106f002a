-- ===== src/Cag/PagedAllocator/Runs.antt =====
-- `PagedKVAllocator` over whole runs: any calls, on known and unknown sequences.
use ai_augmented_generation.Prelude.{
  ℕ, zero, suc, ◌+◌, ◌≤◌, ◌≡◌, refl, String, Bool, true, false, none, some, List, [], ◌∷◌, arith,
  Outcome, ok, raise, key_error, value_error, string_eq, nat_eq, length, count, ltb, if◌then◌else◌,
  Option-cases, inl, inr,
}
use ai_augmented_generation.Prelude.Dict.{lookup}
use ai_augmented_generation.Prelude.Int.{ℤ, pos, negsuc}
use ai_augmented_generation.Cag.PagedAllocator.{
  PagedKvAllocator, init, range_down, allocate, extend, fork, free,
}
use ai_augmented_generation.Cag.PagedAllocator.Tables.{refs}
use ai_augmented_generation.Cag.PagedAllocator.Valid.{IsValid, Keeps, allocate-Keeps, table-sized}
use ai_augmented_generation.Cag.PagedAllocator.Sharing.{fork-Keeps, free_lem}
use ai_augmented_generation.Cag.PagedAllocator.Extend.{Extends, extend-Extends}

pub data Call : Type 0 where
  allocate_call : String → ℤ → Call
  extend_call : String → ℤ → Call
  fork_call : String → String → Call
  free_call : String → Call

-- The state after a call. A call that raises has written nothing: all its tests come first.
abbrev pub after : PagedKvAllocator → Outcome (Bool × PagedKvAllocator) → PagedKvAllocator
after s (ok (done, s')) = s'
after s (raise e) = s

abbrev pub after_free : PagedKvAllocator → Outcome PagedKvAllocator → PagedKvAllocator
after_free s (ok s') = s'
after_free s (raise e) = s

unfoldable pub step : PagedKvAllocator → Call → PagedKvAllocator
step s (allocate_call k n) = after s (allocate s k n)
step s (extend_call k n) = after s (extend s k n)
step s (fork_call parent child) = after s (fork s parent child)
step s (free_call k) = after_free s (free s k)

unfoldable pub run : PagedKvAllocator → List Call → PagedKvAllocator
run s [] = s
run s (c ∷ calls) = run (step s c) calls

count-range_down : (b n : ℕ) → count b (range_down n) ≡ (if ltb b n then 1 else 0)
unfolding range_down
count-range_down b zero = ground arith
count-range_down b (suc n) = ground (arith, count-range_down b n)

length-range_down : (n : ℕ) → length (range_down n) ≡ n
unfolding range_down
length-range_down zero = refl
length-range_down (suc n) = omega (arith, length-range_down n)

pub init-IsValid :
    (total size : ℕ) {s : PagedKvAllocator} → init (pos total) (pos size) ≡ ok s → IsValid total s
unfolding init lookup refs
init-IsValid total size {s} h = rw (← made.1) (record {
  has_size = made.0;
  tables_distinct = tt;
  counts_distinct = tt;
  sized = λ k. tt;
  pool = record {
    distinct = tt;
    counted = λ b. refl;
    positive = λ b. cc;
    placed = λ b. ground (arith, count-range_down b total);
    complete = omega (arith, length-range_down total);
  };
})
  where
    made :
        (1 ≤ size)
        × (record {
          block_size = size;
          free_blocks = range_down total;
          block_tables = [];
          token_counts = [];
          refcounts = [];
        }
            ≡ s)
    made = ground (arith, h)

extend_unknown :
    (s : PagedKvAllocator) (k : String) (z : ℤ)
    → lookup k s.block_tables ≡ none
    → extend s k z ≡ raise key_error
unfolding extend
extend_unknown s k z unknown = ground (arith, unknown)

extend_negative :
    (s : PagedKvAllocator) (k : String) (n : ℕ) {table : List ℕ}
    → lookup k s.block_tables ≡ some table
    → extend s k (negsuc n) ≡ raise value_error
unfolding extend
extend_negative s k n known = ground (arith, known)

free_unknown :
    (s : PagedKvAllocator) (k : String)
    → lookup k s.block_tables ≡ none
    → free s k ≡ raise key_error
unfolding free
free_unknown s k unknown = ground (arith, unknown)

module _ {total : ℕ} (s : PagedKvAllocator) (v : IsValid total s) where
  after-IsValid :
      (r : Outcome (Bool × PagedKvAllocator)) → Keeps total r → IsValid total (after s r)
  after-IsValid (ok (done, s')) h = h
  after-IsValid (raise e) h = v

  extend-Keeps : (k : String) (z : ℤ) → Keeps total (extend s k z)
  extend-Keeps k z = elim (Option-cases (lookup k s.block_tables)) [
    | inl unknown ↦ rw (extend_unknown s k z unknown) tt
    | inr (table, known) ↦ sign known z
  ]
    where
      keep :
          (table : List ℕ) (current target : ℕ) (r : Outcome (Bool × PagedKvAllocator))
          → Extends total s k table current target r
          → Keeps total r
      keep table current target (ok (true, s')) h = h.valid
      keep table current target (ok (false, s')) h = h.valid
      keep table current target (raise e) h = elim h [ ]

      sign :
          {table : List ℕ}
          → lookup k s.block_tables ≡ some table
          → (z : ℤ) → Keeps total (extend s k z)
      sign known (negsuc n) = rw (extend_negative s k n known) tt
      sign {table} known (pos a) =
          let (n, counted, fits) = table-sized s k v known in
          keep table n (n + a) (extend s k (pos a)) (extend-Extends s k a v known counted)

  free-Keeps : (k : String) → IsValid total (after_free s (free s k))
  free-Keeps k = elim (Option-cases (lookup k s.block_tables)) [
    | inl unknown ↦ rw (free_unknown s k unknown) v
    | inr (table, known) ↦ let (s', done, valid, _, _, _) = free_lem s k v known in rw done valid
  ]

  step-IsValid : (c : Call) → IsValid total (step s c)
  unfolding step
  step-IsValid (allocate_call k n) = after-IsValid (allocate s k n) (allocate-Keeps s k n v)
  step-IsValid (extend_call k n) = after-IsValid (extend s k n) (extend-Keeps k n)
  step-IsValid (fork_call parent child) =
      after-IsValid (fork s parent child) (fork-Keeps s parent child v)
  step-IsValid (free_call k) = free-Keeps k

pub run-IsValid :
    {total : ℕ} (calls : List Call) (s : PagedKvAllocator)
    → IsValid total s
    → IsValid total (run s calls)
unfolding run
run-IsValid [] s v = v
run-IsValid (c ∷ calls) s v = run-IsValid calls (step s c) (step-IsValid s v c)

-- Whatever calls are made on a new allocator, raising or refused ones too, each of its blocks is
-- either once in the free list and in no block table, or not in the free list and in some table;
-- the reference count of a block is the number of its places in the tables (and absent at 0); and
-- a sequence that has a token count of `n` has exactly `ceil(n / block_size)` blocks.
pub run_accounts :
    (total size : ℕ) (calls : List Call) {s : PagedKvAllocator}
    → init (pos total) (pos size) ≡ ok s
    → IsValid total (run s calls)
run_accounts total size calls {s} h = run-IsValid calls s (init-IsValid total size h)
