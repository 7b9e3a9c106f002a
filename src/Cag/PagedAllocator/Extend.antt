-- ===== src/Cag/PagedAllocator/Extend.antt =====
-- `extend` of `PagedKVAllocator` on a valid state.
use ai_augmented_generation.Prelude.{
  ℕ, ◌+◌, ◌-◌, ◌%◌, ◌≤◌, ◌≡◌, refl, String, Bool, true, false, Option, none, some, List, [], ◌++◌,
  arith, Outcome, ok, raise, string_eq, nat_eq, length, count, count-append, take, length-take,
  length-append, get_elem?, count-take-le, ltb, Bool-cases, inl, inr, ==_iff, ==_refl, ◌≢◌,
  append-nil, ◌∙◌,
}
use ai_augmented_generation.Prelude.Dict.{lookup, insert, lookup-insert, insert-IsDistinct}
use ai_augmented_generation.Prelude.Int.{pos}
use ai_augmented_generation.Cag.PagedAllocator.{
  PagedKvAllocator, blocks_needed, store, last?, read, make_private, grow, read, extend,
}
use ai_augmented_generation.Cag.PagedAllocator.Pool.{hold_all-IsPool}
use ai_augmented_generation.Cag.PagedAllocator.Tables.{
  refs, or_empty, refs-insert, blocks_needed_mono, get_elem?-last, last?-some, blocks_needed_pos,
}
use ai_augmented_generation.Cag.PagedAllocator.Valid.{
  IsValid, took, take_blocks_fits, take_blocks_full, store-IsValid, table-sized,
}
use ai_augmented_generation.Cag.PagedAllocator.CopyOnWrite.{
  IsPrepared, Prepares, make_private-Prepares,
}

-- What a successful `extend` by some tokens, up to `target`, promises. A partly filled last block,
-- into which the new tokens go, is then in this sequence's table alone.
pub record IsExtended (total : ℕ) (s : PagedKvAllocator) (k : String) (table : List ℕ)
    (current target : ℕ) (s' : PagedKvAllocator) : Type 0 where
  pub valid : IsValid total s'
  pub counted : lookup k s'.token_counts ≡ some target
  pub others : (j : String) → k ≢ j → lookup j s'.block_tables ≡ lookup j s.block_tables
  pub private_block :
      (b : ℕ)
      → get_elem? (or_empty (lookup k s'.block_tables)) (length table - 1) ≡ some b
      → current % s.block_size ≢ 0
      → refs b s'.block_tables ≡ 1

-- What a refused `extend` promises.
pub record IsRefused (total : ℕ) (s : PagedKvAllocator) (k : String) (s' : PagedKvAllocator)
    : Type 0 where
  pub valid : IsValid total s'
  pub same_counts : s'.token_counts ≡ s.token_counts
  pub others : (j : String) → k ≢ j → lookup j s'.block_tables ≡ lookup j s.block_tables

abbrev pub Extends :
    ℕ → PagedKvAllocator → String → List ℕ → ℕ → ℕ → Outcome (Bool × PagedKvAllocator) → Type 0
Extends total s k table current target (ok (true, s')) =
    IsExtended total s k table current target s'
Extends total s k table current target (ok (false, s')) = IsRefused total s k s'
Extends total s k table current target (raise e) = ⊥

module _ {total : ℕ} (s : PagedKvAllocator) (k : String) (table : List ℕ) (current target : ℕ)
    (v : IsValid total s) (known : lookup k s.block_tables ≡ some table)
    (counted : lookup k s.token_counts ≡ some current) (grows : current ≤ target) where
  abbrev extra : ℕ
  extra = blocks_needed s.block_size target - length table

  -- the table is long enough already
  recount-IsValid :
      ltb (length table) (blocks_needed s.block_size target) ≡ false
      → IsValid total (record s { token_counts = insert k target s.token_counts })
  recount-IsValid enough = record {
    has_size = v.has_size;
    tables_distinct = v.tables_distinct;
    counts_distinct = insert-IsDistinct k target s.token_counts v.counts_distinct;
    sized = λ j. ground (
      arith,
      lookup-insert k j target s.token_counts,
      ==_iff {A = String} k j,
      v.sized j,
      v.sized k,
      blocks_needed_mono s.block_size current target v.has_size grows,
    );
    pool = v.pool;
  }

  grown-IsValid :
      ltb (length table) (blocks_needed s.block_size target) ≡ true
      → ltb (length s.free_blocks) extra ≡ false
      → IsValid total (store (took s extra) k (table ++ take extra s.free_blocks) target)
  grown-IsValid short room =
      store-IsValid (took s extra) k (table ++ take extra s.free_blocks) target
        (λ b. refs b s.block_tables + count b (take extra s.free_blocks)) v.has_size
        v.tables_distinct v.counts_distinct v.sized
        (ground
          (arith, length-take extra s.free_blocks, length-append table (take extra s.free_blocks)))
        (hold_all-IsPool extra s.free_blocks s.refcounts _ v.pool)
        (λ b. rw known (omega (arith, count-append b table (take extra s.free_blocks))))

  -- a partly filled sequence has a last block
  partly_filled : current % s.block_size ≢ 0 → (last : ℕ) × (last? table ≡ some last)
  partly_filled inside =
      let (n, counted', fits) = table-sized s k v known in
      let some_tokens : 1 ≤ current = grind arith in
      last?-some table
        (ground (arith, blocks_needed_pos s.block_size current v.has_size some_tokens, v.sized k))

  module _
      (private : (last : ℕ)
        → last? table ≡ some last
        → current % s.block_size ≢ 0
        → refs last s.block_tables ≡ 1) where
    grown-private :
        (b : ℕ)
        → get_elem? (table ++ take extra s.free_blocks) (length table - 1) ≡ some b
        → current % s.block_size ≢ 0
        → refs b (insert k (table ++ take extra s.free_blocks) s.block_tables) ≡ 1
    grown-private b at inside =
        let taken = take extra s.free_blocks in
        let (last, ends) = partly_filled inside in
        ground (
          arith,
          get_elem?-last last table taken ends,
          private last ends inside,
          refs-insert last k (table ++ taken) s.block_tables,
          known,
          count-append last table taken,
          v.pool.placed last,
          count-take-le last extra s.free_blocks,
        )

    recount-private :
        (b : ℕ)
        → get_elem? table (length table - 1) ≡ some b
        → current % s.block_size ≢ 0
        → refs b s.block_tables ≡ 1
    recount-private b at inside =
        let (last, ends) = partly_filled inside in
        ground
          (arith, get_elem?-last last table [] ends, append-nil table, private last ends inside)

    pub grow-Extends : Extends total s k table current target (ok (grow s k table target))
    unfolding store
    grow-Extends = elim (Bool-cases (ltb (length table) (blocks_needed s.block_size target))) [
      | inr enough ↦ rw (unchanged enough) (record {
        valid = recount-IsValid enough;
        counted = rw lookup-insert (rw (==_refl {A = String} k) refl);
        others = λ j ne. refl;
        private_block = λ b. rw known (recount-private b);
      })
      | inl short ↦ elim (Bool-cases (ltb (length s.free_blocks) extra)) [
        | inl full ↦
            rw (refused short full)
              (record { valid = v; same_counts = refl; others = λ j ne. refl })
        | inr room ↦ rw (grown short room) (record {
          valid = grown-IsValid short room;
          counted = ground (arith, lookup-insert k k target s.token_counts, ==_refl {A = String} k);
          others = λ j ne. ground (
            arith,
            lookup-insert k j (table ++ take extra s.free_blocks) s.block_tables,
            ==_iff {A = String} k j,
          );
          private_block = λ b. rw lookup-insert (rw (==_refl {A = String} k) (grown-private b));
        })
      ]
    ]
      where
        unchanged :
            ltb (length table) (blocks_needed s.block_size target) ≡ false
            → grow s k table target
              ≡ (true, record s { token_counts = insert k target s.token_counts })
        unchanged e = unfold grow in ground (arith, e)

        refused :
            ltb (length table) (blocks_needed s.block_size target) ≡ true
            → ltb (length s.free_blocks) extra ≡ true
            → grow s k table target ≡ (false, s)
        refused e f = unfold grow in ground (arith, e, take_blocks_full s extra f)

        grown :
            ltb (length table) (blocks_needed s.block_size target) ≡ true
            → ltb (length s.free_blocks) extra ≡ false
            → grow s k table target
              ≡ (true, store (took s extra) k (table ++ take extra s.free_blocks) target)
        grown e f = unfold grow in ground (arith, e, take_blocks_fits s extra f)

module _ {total : ℕ} (s : PagedKvAllocator) (k : String) (a : ℕ) {table : List ℕ} {current : ℕ}
    (v : IsValid total s) (known : lookup k s.block_tables ≡ some table)
    (counted : lookup k s.token_counts ≡ some current) where
  prepared-Extends :
      (table' : List ℕ) (s' : PagedKvAllocator)
      → IsPrepared total s k table current table' s'
      → Extends total s k table current (current + a) (ok (grow s' k table' (current + a)))
  prepared-Extends table' s' p = rebase (grow s' k table' (current + a)) (
      grow-Extends s' k table' current (current + a) p.valid p.known (rw p.same_counts counted)
        (omega arith) (rw p.same_size p.private_last))
    where
      rebase :
          (r : Bool × PagedKvAllocator)
          → Extends total s' k table' current (current + a) (ok r)
          → Extends total s k table current (current + a) (ok r)
      rebase (true, t) h = record {
        valid = h.valid;
        counted = h.counted;
        others = λ j ne. h.others j ne ∙ p.others j ne;
        private_block = λ b. rw (← p.same_length, ← p.same_size) (h.private_block b);
      }
      rebase (false, t) h = record {
        valid = h.valid;
        same_counts = h.same_counts ∙ p.same_counts;
        others = λ j ne. h.others j ne ∙ p.others j ne;
      }

  refused-Extends : Extends total s k table current (current + a) (ok (false, s))
  refused-Extends = record { valid = v; same_counts = refl; others = λ j ne. refl }

  -- On a valid allocator `extend` of a known sequence by a number of tokens that is not negative
  -- does not raise, keeps the allocator valid and touches no other table. Where it succeeds, the
  -- tokens are counted, and a last block that was partly filled is in that sequence's table alone;
  -- where it does not, the counts are as before.
  pub extend-Extends : Extends total s k table current (current + a) (extend s k (pos a))
  unfolding extend read
  extend-Extends =
      go (make_private s k table current) refl (make_private-Prepares s k table current v known)
    where
      go :
          (r : Outcome (Option (List ℕ × PagedKvAllocator)))
          → make_private s k table current ≡ r
          → Prepares total s k table current r
          → Extends total s k table current (current + a) (extend s k (pos a))
      go (ok none) e h = rw (steps e) refused-Extends
        where
          steps : make_private s k table current ≡ ok none → extend s k (pos a) ≡ ok (false, s)
          steps e = ground (arith, known, counted, e)
      go (ok (some (t, s'))) e h = rw (steps e) (prepared-Extends t s' h)
        where
          steps :
              make_private s k table current ≡ ok (some (t, s'))
              → extend s k (pos a) ≡ ok (grow s' k t (current + a))
          steps e = ground (arith, known, counted, e)
      go (raise x) e h = elim h [ ]
