-- ===== src/Cag/PagedAllocator/Pool.antt =====
-- The pool of `PagedKVAllocator`: free blocks and reference counts, against the number of places in
-- the block tables that hold each block.
use ai_augmented_generation.Prelude.{
  ℕ, zero, suc, ◌+◌, ◌-◌, ◌≤◌, ◌≡◌, ◌≢◌, refl, Option, none, some, List, [], ◌∷◌, arith, ok, nat_eq,
  ◌==◌, length, take, drop, count, ltb, if◌then◌else◌, min, Option-cases, inl, inr,
}
use ai_augmented_generation.Prelude.Dict.{
  Dict, lookup, insert, remove, IsDistinct, lookup-insert, lookup-remove, insert-IsDistinct,
  remove-IsDistinct, length-insert, length-remove,
}
use ai_augmented_generation.Cag.PagedAllocator.{hold_all, share_all, release_all, read}

abbrev pub or_zero : Option ℕ → ℕ
or_zero none = 0
or_zero (some n) = n

-- `holders b` places hold the block `b`. Each of the `total` blocks is free once, or held.
pub record IsPool (total : ℕ) (free : List ℕ) (refcounts : Dict ℕ ℕ) (holders : ℕ → ℕ)
    : Type 0 where
  pub distinct : IsDistinct refcounts
  pub counted : (b : ℕ) → or_zero (lookup b refcounts) ≡ holders b
  pub positive : (b : ℕ) → lookup b refcounts ≢ some 0
  pub placed : (b : ℕ) → count b free + min 1 (holders b) ≡ (if ltb b total then 1 else 0)
  pub complete : length free + length refcounts ≡ total

abbrev pub one_at : ℕ → ℕ → ℕ
one_at x b = if b == x then 1 else 0

-- the counts after a block of a freed table has been looked at
abbrev pub dropped_counts : ℕ → ℕ → Dict ℕ ℕ → Dict ℕ ℕ
dropped_counts x held refcounts =
    if (held - 1) == 0 then remove x refcounts else insert x (held - 1) refcounts

abbrev pub dropped_free : ℕ → ℕ → List ℕ → List ℕ
dropped_free x held free = if (held - 1) == 0 then x ∷ free else free

module _ {total : ℕ} where
  pub IsPool-ext :
      {free : List ℕ} {refcounts : Dict ℕ ℕ} {holders holders' : ℕ → ℕ}
      → ((b : ℕ) → holders b ≡ holders' b)
      → IsPool total free refcounts holders
      → IsPool total free refcounts holders'
  IsPool-ext e p = record {
    distinct = p.distinct;
    counted = λ b. omega (arith, p.counted b, e b);
    positive = p.positive;
    placed = λ b. ground (arith, p.placed b, e b);
    complete = p.complete;
  }

  pub hold-IsPool :
      (x : ℕ) (free : List ℕ) (refcounts : Dict ℕ ℕ) (holders : ℕ → ℕ)
      → IsPool total (x ∷ free) refcounts holders
      → IsPool total free (insert x 1 refcounts) (λ b. holders b + one_at x b)
  hold-IsPool x free refcounts holders p = record {
    distinct = insert-IsDistinct x 1 refcounts p.distinct;
    counted =
        λ b. ground (arith, lookup-insert x b 1 refcounts, p.counted b, p.placed b, p.placed x);
    positive = λ b. ground (arith, lookup-insert x b 1 refcounts, p.positive b);
    placed = λ b. ground (arith, p.placed b, p.placed x);
    complete =
        ground
          (arith, length-insert x 1 refcounts, p.complete, p.counted x, p.positive x, p.placed x);
  }

  share-IsPool :
      (x held : ℕ) (free : List ℕ) (refcounts : Dict ℕ ℕ) (holders : ℕ → ℕ)
      → lookup x refcounts ≡ some held
      → IsPool total free refcounts holders
      → IsPool total free (insert x (held + 1) refcounts) (λ b. holders b + one_at x b)
  share-IsPool x held free refcounts holders h p = record {
    distinct = insert-IsDistinct x (held + 1) refcounts p.distinct;
    counted = λ b. ground (arith, lookup-insert x b (held + 1) refcounts, p.counted b, p.counted x);
    positive = λ b. ground (arith, lookup-insert x b (held + 1) refcounts, p.positive b);
    placed = λ b. ground (arith, p.placed b, p.counted x, p.positive x);
    complete = ground (arith, length-insert x (held + 1) refcounts, p.complete);
  }

  pub release-IsPool :
      (x held : ℕ) (free : List ℕ) (refcounts : Dict ℕ ℕ) (holders : ℕ → ℕ)
      → lookup x refcounts ≡ some held
      → IsPool total free refcounts holders
      → IsPool total
          (dropped_free x held free)
          (dropped_counts x held refcounts)
          (λ b. holders b - one_at x b)
  release-IsPool x held free refcounts holders h p = record {
    distinct = ground (
      arith,
      insert-IsDistinct x (held - 1) refcounts p.distinct,
      remove-IsDistinct x refcounts p.distinct,
    );
    counted = λ b. ground (
      arith,
      lookup-insert x b (held - 1) refcounts,
      lookup-remove x b refcounts p.distinct,
      p.counted b,
      p.counted x,
      p.positive x,
    );
    positive = λ b. ground (
      arith,
      lookup-insert x b (held - 1) refcounts,
      lookup-remove x b refcounts p.distinct,
      p.positive b,
      p.positive x,
    );
    placed = λ b. ground (arith, p.placed b, p.placed x, p.counted x, p.positive x);
    complete =
        ground (arith, length-insert x (held - 1) refcounts, length-remove x refcounts, p.complete);
  }

  pub hold_all-IsPool :
      (n : ℕ) (free : List ℕ) (refcounts : Dict ℕ ℕ) (holders : ℕ → ℕ)
      → IsPool total free refcounts holders
      → IsPool total
          (drop n free)
          (hold_all (take n free) refcounts)
          (λ b. holders b + count b (take n free))
  unfolding hold_all
  hold_all-IsPool zero free refcounts holders p = IsPool-ext (λ b. omega arith) p
  hold_all-IsPool (suc n) [] refcounts holders p = IsPool-ext (λ b. omega arith) p
  hold_all-IsPool (suc n) (x ∷ free) refcounts holders p =
      IsPool-ext (λ b. omega arith)
        (hold_all-IsPool n free (insert x 1 refcounts) (λ b. holders b + one_at x b)
          (hold-IsPool x free refcounts holders p))

  -- a held block has a count
  pub held-found :
      (x : ℕ) {free : List ℕ} {refcounts : Dict ℕ ℕ} {holders : ℕ → ℕ}
      → IsPool total free refcounts holders
      → 1 ≤ holders x
      → (held : ℕ) × (lookup x refcounts ≡ some held) × (held ≡ holders x)
  held-found x {refcounts = r} p h = elim (Option-cases (lookup x r)) [
    | inl e ↦ absurd (ground (arith, p.counted x))
    | inr (n, e) ↦ (n, e, ground (arith, p.counted x))
  ]

  pub share_all-IsPool :
      (table free : List ℕ) (refcounts : Dict ℕ ℕ) (holders : ℕ → ℕ)
      → IsPool total free refcounts holders
      → ((b : ℕ) → count b table ≤ holders b)
      → (refcounts' : Dict ℕ ℕ) × (share_all table refcounts ≡ ok refcounts')
        × IsPool total free refcounts' (λ b. holders b + count b table)
        × (length refcounts' ≡ length refcounts)
  unfolding share_all read
  share_all-IsPool [] free refcounts holders p h =
      (refcounts, refl, IsPool-ext (λ b. omega arith) p, refl)
  share_all-IsPool (x ∷ table) free refcounts holders p h =
      let (held, found, _) = held-found x p (ground (arith, h x)) in
      let (r, e, q, l) =
        share_all-IsPool table free (insert x (held + 1) refcounts) (λ b. holders b + one_at x b)
          (share-IsPool x held free refcounts holders found p) (λ b. omega (arith, h b)) in
      (
        r,
        rw found e,
        IsPool-ext (λ b. omega arith) q,
        ground (arith, l, length-insert x (held + 1) refcounts),
      )

  pub release_all-IsPool :
      (table free : List ℕ) (refcounts : Dict ℕ ℕ) (holders : ℕ → ℕ)
      → IsPool total free refcounts holders
      → ((b : ℕ) → count b table ≤ holders b)
      → (after : Dict ℕ ℕ × List ℕ) × (release_all table refcounts free ≡ ok after)
        × IsPool total after.1 after.0 (λ b. holders b - count b table)
  unfolding release_all read
  release_all-IsPool [] free refcounts holders p h =
      ((refcounts, free), refl, IsPool-ext (λ b. omega arith) p)
  release_all-IsPool (x ∷ table) free refcounts holders p h =
      let (held, found, _) = held-found x p (ground (arith, h x)) in
      let (after, e, q) =
        release_all-IsPool table (dropped_free x held free) (dropped_counts x held refcounts)
          (λ b. holders b - one_at x b) (release-IsPool x held free refcounts holders found p)
          (λ b. omega (arith, h b)) in
      (after, rw found e, IsPool-ext (λ b. omega arith) q)
