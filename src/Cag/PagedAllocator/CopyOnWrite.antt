-- ===== src/Cag/PagedAllocator/CopyOnWrite.antt =====
-- The copy-on-write step of `PagedKVAllocator.extend` on a valid state.
use ai_augmented_generation.Prelude.{
  ℕ, ◌+◌, ◌-◌, ◌%◌, ◌≤◌, ◌<◌, ◌≡◌, refl, ap, String, true, false, Option, none, some, List, [], ◌∷◌,
  arith, Outcome, ok, raise, string_eq, nat_eq, ◌==◌, length, drop, ltb, not, ◌&&◌, Option-cases,
  Bool-cases, inl, inr, ==_iff, ==_refl, ◌≢◌,
}
use ai_augmented_generation.Prelude.Dict.{Dict, lookup, insert, lookup-insert, insert-IsDistinct}
use ai_augmented_generation.Cag.PagedAllocator.{
  PagedKvAllocator, take_blocks, hold_all, last?, set_last, copy_last, read, make_private,
}
use ai_augmented_generation.Cag.PagedAllocator.Pool.{
  hold-IsPool, held-found, IsPool, IsPool-ext, one_at, release-IsPool,
}
use ai_augmented_generation.Cag.PagedAllocator.Tables.{
  refs, refs-insert, count-set_last, last?-set_last, count-last?, length-set_last,
}
use ai_augmented_generation.Cag.PagedAllocator.Valid.{IsValid, held-by-tables}

-- The state after copy-on-write has put the free block `x` in the place of `last`.
abbrev pub copied : PagedKvAllocator → String → List ℕ → ℕ → ℕ → ℕ → PagedKvAllocator
copied s k table last held x = record s {
  free_blocks = drop 1 s.free_blocks;
  refcounts = insert last (held - 1) (insert x 1 s.refcounts);
  block_tables = insert k (set_last x table) s.block_tables;
}

-- The first free block.
abbrev pub next_free : List ℕ → ℕ
next_free [] = 0
next_free (x ∷ free) = x

module _ {total : ℕ} where
  -- a free block is in no table
  free-unheld :
      (x : ℕ) (free : List ℕ) {refcounts : Dict ℕ ℕ} {holders : ℕ → ℕ}
      → IsPool total (x ∷ free) refcounts holders
      → holders x ≡ 0
  free-unheld x free p = ground (arith, p.placed x)

  copied-IsPool :
      (x last held : ℕ) (free : List ℕ) (refcounts : Dict ℕ ℕ) (holders : ℕ → ℕ)
      → IsPool total (x ∷ free) refcounts holders
      → lookup last refcounts ≡ some held
      → 1 < held
      → (lookup last (insert x 1 refcounts) ≡ some held)
        × IsPool total free
            (insert last (held - 1) (insert x 1 refcounts))
            (λ b. holders b + one_at x b - one_at last b)
  copied-IsPool x last held free refcounts holders p e h =
      let kept : lookup last (insert x 1 refcounts) ≡ some held =
        ground (arith, lookup-insert x last 1 refcounts, free-unheld x free p, p.counted x) in
      let stays : ((held - 1) == 0) ≡ false = ground arith in
      (
        kept,
        rw stays at (
            release-IsPool last held free (insert x 1 refcounts) (λ b. holders b + one_at x b) kept
              (hold-IsPool x free refcounts holders p)),
      )

  copied-IsValid :
      (s : PagedKvAllocator) (k : String) (x last held : ℕ) (free : List ℕ) {table : List ℕ}
      → IsValid total s
      → lookup k s.block_tables ≡ some table
      → last? table ≡ some last
      → s.free_blocks ≡ x ∷ free
      → lookup last s.refcounts ≡ some held
      → 1 < held
      → IsValid total (copied s k table last held x)
  copied-IsValid s k x last held free {table} v known ends e found shared = record {
    has_size = v.has_size;
    tables_distinct = insert-IsDistinct k (set_last x table) s.block_tables v.tables_distinct;
    counts_distinct = v.counts_distinct;
    sized = λ j. ground (
      arith,
      lookup-insert k j (set_last x table) s.block_tables,
      v.sized j,
      v.sized k,
      length-set_last x table,
      ==_iff {A = String} k j,
    );
    pool = rw e (
        IsPool-ext
          (λ b. ground (
            arith,
            refs-insert b k (set_last x table) s.block_tables,
            known,
            count-set_last b x last table ends,
            held-by-tables s k known b,
          ))
          (copied-IsPool x last held free s.refcounts _ (rw e at v.pool) found shared).1);
  }

  copy_last-copied :
      (s : PagedKvAllocator) (k : String) (x last held : ℕ) (free table : List ℕ)
      → IsValid total s
      → s.free_blocks ≡ x ∷ free
      → lookup last s.refcounts ≡ some held
      → 1 < held
      → copy_last s k table last ≡ ok (some (set_last x table, copied s k table last held x))
  unfolding copy_last read last? hold_all take_blocks
  copy_last-copied s k x last held free table v e found shared =
      ground
        (arith, e, (copied-IsPool x last held free s.refcounts _ (rw e at v.pool) found shared).0)

-- What copy-on-write promises of the table and the state that it gives.
pub record IsPrepared (total : ℕ) (s : PagedKvAllocator) (k : String) (table : List ℕ) (current : ℕ)
    (table' : List ℕ) (s' : PagedKvAllocator) : Type 0 where
  pub valid : IsValid total s'
  pub known : lookup k s'.block_tables ≡ some table'
  pub same_size : s'.block_size ≡ s.block_size
  pub same_counts : s'.token_counts ≡ s.token_counts
  pub same_length : length table' ≡ length table
  pub others : (j : String) → k ≢ j → lookup j s'.block_tables ≡ lookup j s.block_tables
  pub private_last :
      (last : ℕ)
      → last? table' ≡ some last
      → current % s.block_size ≢ 0
      → refs last s'.block_tables ≡ 1

abbrev pub Prepares :
    ℕ
    → PagedKvAllocator
    → String
    → List ℕ
    → ℕ
    → Outcome (Option (List ℕ × PagedKvAllocator))
    → Type 0
Prepares total s k table current (ok none) = length s.free_blocks ≡ 0
Prepares total s k table current (ok (some (table', s'))) =
    IsPrepared total s k table current table' s'
Prepares total s k table current (raise e) = ⊥

module _ {total : ℕ} (s : PagedKvAllocator) (k : String) (table : List ℕ) (current : ℕ)
    (v : IsValid total s) (known : lookup k s.block_tables ≡ some table) where
  copied-IsPrepared :
      (x last held : ℕ) (free : List ℕ)
      → last? table ≡ some last
      → s.free_blocks ≡ x ∷ free
      → lookup last s.refcounts ≡ some held
      → 1 < held
      → IsPrepared total s k table current (set_last x table) (copied s k table last held x)
  copied-IsPrepared x last held free ends e found shared = record {
    valid = copied-IsValid s k x last held free v known ends e found shared;
    known = rw lookup-insert (rw (==_refl {A = String} k) refl);
    same_size = refl;
    same_counts = refl;
    same_length = length-set_last x table;
    others = λ j ne.
        ground
          (arith, lookup-insert k j (set_last x table) s.block_tables, ==_iff {A = String} k j);
    private_last = λ l ends' inside. ground (
      arith,
      last?-set_last x last table ends,
      refs-insert x k (set_last x table) s.block_tables,
      known,
      count-set_last x x last table ends,
      v.pool.counted last,
      free-unheld x free (rw e at v.pool),
      held-by-tables s k known x,
    );
  }

  kept-IsPrepared :
      ((last : ℕ)
        → last? table ≡ some last
        → current % s.block_size ≢ 0
        → refs last s.block_tables ≡ 1)
      → IsPrepared total s k table current table s
  kept-IsPrepared private = record {
    valid = v;
    known = known;
    same_size = refl;
    same_counts = refl;
    same_length = refl;
    others = λ j ne. refl;
    private_last = private;
  }

  make_private-copies :
      (last : ℕ) (held : ℕ)
      → last? table ≡ some last
      → lookup last s.refcounts ≡ some held
      → ltb 1 held ≡ true
      → ((current % s.block_size) == 0) ≡ false
      → make_private s k table current ≡ copy_last s k table last
  unfolding make_private read
  make_private-copies last held ends found shared inside =
      ground (arith, ends, found, shared, inside)

  make_private-keeps :
      (last : ℕ) (held : ℕ)
      → last? table ≡ some last
      → lookup last s.refcounts ≡ some held
      → (ltb 1 held && not ((current % s.block_size) == 0)) ≡ false
      → make_private s k table current ≡ ok (some (table, s))
  unfolding make_private read
  make_private-keeps last held ends found alone = ground (arith, ends, found, alone)

  copy_last-Prepares :
      (last held : ℕ)
      → last? table ≡ some last
      → lookup last s.refcounts ≡ some held
      → 1 < held
      → (blocks : List ℕ) → s.free_blocks ≡ blocks
      → Prepares total s k table current (copy_last s k table last)
  copy_last-Prepares last held ends found shared [] e = rw full (ap length e)
    where
      full : copy_last s k table last ≡ ok none
      full = unfold copy_last take_blocks in ground (arith, e)
  copy_last-Prepares last held ends found shared (x ∷ blocks) e =
      rw (copy_last-copied s k x last held blocks table v e found shared)
        (copied-IsPrepared x last held blocks ends e found shared)

  -- Copy-on-write never raises on a valid state, and gives up only if no block is free.
  pub make_private-Prepares : Prepares total s k table current (make_private s k table current)
  make_private-Prepares = elim (Option-cases (last? table)) [
    | inl e ↦ rw (empty e) (kept-IsPrepared (λ last h. cc))
    | inr (last, ends) ↦ nonempty last ends
  ]
    where
      empty : last? table ≡ none → make_private s k table current ≡ ok (some (table, s))
      empty e = unfold make_private in ground (arith, e)

      nonempty :
          (last : ℕ)
          → last? table ≡ some last
          → Prepares total s k table current (make_private s k table current)
      nonempty last ends =
          let one : 1 ≤ refs last s.block_tables =
            omega (arith, count-last? last table ends, held-by-tables s k known last) in
          let (held, found, eq) = held-found last v.pool one in
          elim (Bool-cases (ltb 1 held && not ((current % s.block_size) == 0))) [
            | inl shared ↦
                rw
                  (make_private-copies last held ends found (ground (arith, shared))
                    (ground (arith, shared)))
                  (copy_last-Prepares last held ends found (ground (arith, shared)) s.free_blocks
                    refl)
            | inr alone ↦
                rw (make_private-keeps last held ends found alone)
                  (kept-IsPrepared (λ l ends' inside. ground (arith, alone, eq, ends, one)))
          ]
