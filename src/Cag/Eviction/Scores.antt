-- ===== src/Cag/Eviction/Scores.antt =====
-- The evictors that compute their scores: the pooling of SnapKV and the fusion of MorphKV.
use ai_augmented_generation.Prelude.{
  ℕ, zero, suc, ◌+◌, ◌-◌, ◌/◌, ◌≤◌, ◌<◌, ◌≡◌, refl, subst, min, true, some, List, [], ◌∷◌, length,
  get_elem?, take, drop, length-take, length-drop, count-take-le, ok, nat_eq, arith,
}
use native.Mathlib.Decide.{dec_lt}
use ai_augmented_generation.Prelude.Int.{pos}
use ai_augmented_generation.Prelude.Float.{Floats}
use ai_augmented_generation.Prelude.Sort.{sorted_desc, length-sorted_desc}
use ai_augmented_generation.Cag.Eviction.{
  EvictionDecision, range_from, decision, heavier, max_of, greatest, keep_windowed, pooled_from,
  snapkv_select, column, sum_of, fused_from, same_lengths, keep_top, morphkv_select,
}
use ai_augmented_generation.Cag.Eviction.Indices.{
  count-range_from, length-range_from, count-sorted_desc,
}
use ai_augmented_generation.Cag.Eviction.Laws.{
  Selects, sorted-Selects, all-Selects, keep_windowed-Selects,
}

get_elem?-lt {ℓ} :
    {A : Type ℓ} (xs : List A) (i : ℕ) → i < length xs → (x : A) × (get_elem? xs i ≡ some x)
get_elem?-lt [] i h = absurd (omega arith)
get_elem?-lt (x ∷ xs) zero h = (x, refl)
get_elem?-lt (x ∷ xs) (suc i) h = get_elem?-lt xs i (omega arith)

module _ (fl : Floats) where
  max_of_lem : (xs : List fl.Float) → 0 < length xs → (x : fl.Float) × (max_of fl xs ≡ ok x)
  unfolding max_of
  max_of_lem [] h = absurd (omega arith)
  max_of_lem (x ∷ xs) h = (greatest fl x xs, refl)

  module _ (half : ℕ) (scores : List fl.Float) where
    -- Each position is in its own pool, so pooling does not raise.
    pooled_from_lem :
        (i n : ℕ)
        → i + n ≤ length scores
        → (pooled : List fl.Float) × (pooled_from fl half scores i n ≡ ok pooled)
          × (length pooled ≡ n)
    unfolding pooled_from
    pooled_from_lem i zero h = ([], refl, refl)
    pooled_from_lem i (suc n) h =
        let width = min (length scores) (i + half + 1) - (i - half) in
        let (best, e) = max_of_lem (take width (drop (i - half) scores)) (
          omega
            (arith, length-take width (drop (i - half) scores), length-drop (i - half) scores)) in
        let (rest, r, k) = pooled_from_lem (i + 1) n (omega arith) in
        (best ∷ rest, rw e (rw r), omega arith)

  -- On a cache and a budget that are not empty, `snapkv_select` does not raise: it keeps as many
  -- positions as the budget allows, in order and none twice, and counts the others as evicted.
  pub snapkv_select-Selects :
      (pool_kernel_size recent_window : ℕ) (scores : List fl.Float) (budget : ℕ)
      → 0 < length scores
      → 0 < budget
      → (d : EvictionDecision) × (snapkv_select fl pool_kernel_size recent_window scores budget
          ≡ ok d)
        × Selects (length scores) budget d
  unfolding snapkv_select
  snapkv_select-Selects pool_kernel_size recent_window scores budget h k =
      let (pooled, e, same) =
        pooled_from_lem (pool_kernel_size / 2) scores 0 (length scores) (omega arith) in
      (
        decision (length scores) (keep_windowed fl pooled recent_window budget),
        ground (arith, e),
        subst (λ n. Selects n budget (decision n (keep_windowed fl pooled recent_window budget)))
            same (keep_windowed-Selects fl pooled recent_window budget),
      )

  column_nonempty :
      (first : List fl.Float) (windows : List (List fl.Float)) (i : ℕ) {x : fl.Float}
      → get_elem? first i ≡ some x
      → 0 < length (column fl (first ∷ windows) i)
  unfolding column
  column_nonempty first windows i e = ground (arith, e)

  fused_from_lem :
      (first : List fl.Float) (windows : List (List fl.Float)) (i n : ℕ)
      → i + n ≤ length first
      → (fused : List fl.Float) × (fused_from fl (first ∷ windows) i n ≡ ok fused)
  unfolding fused_from
  fused_from_lem first windows i zero h = ([], refl)
  fused_from_lem first windows i (suc n) h =
      let (x, e) = get_elem?-lt first i (omega arith) in
      let (most, m) =
        max_of_lem (column fl (first ∷ windows) i) (column_nonempty first windows i e) in
      let (rest, r) = fused_from_lem first windows (i + 1) n (omega arith) in
      (
        fl.add (sum_of fl (fl.of_int (pos 0)) (column fl (first ∷ windows) i)) most ∷ rest,
        rw m (rw r),
      )

  keep_top-Selects :
      (fused : List fl.Float) (seq_len budget : ℕ)
      → budget ≤ seq_len
      → Selects seq_len budget (decision seq_len (keep_top fl fused seq_len budget))
  unfolding keep_top
  keep_top-Selects fused seq_len budget h =
      let ranked = sorted_desc (heavier fl fused) (range_from 0 seq_len) in
      sorted-Selects seq_len budget (take budget ranked)
        (λ i. ground (
          arith,
          count-take-le i budget ranked,
          count-sorted_desc (heavier fl fused) i (range_from 0 seq_len),
          count-range_from i 0 seq_len,
        ))
        (omega (
          arith,
          length-take budget ranked,
          length-sorted_desc (heavier fl fused) (range_from 0 seq_len),
          length-range_from 0 seq_len,
        ))

  module _ (first : List fl.Float) (windows : List (List fl.Float)) (budget : ℕ)
      (some_score : 0 < length first)
      (same : same_lengths fl (length first) (first ∷ windows) ≡ true)
      (some_budget : 0 < budget) where
    morphkv_all :
        length first ≤ budget
        → morphkv_select fl (first ∷ windows) budget
          ≡ ok (decision (length first) (range_from 0 (length first)))
    unfolding morphkv_select
    morphkv_all h = rw same (ground arith)

    morphkv_some :
        {fused : List fl.Float}
        → budget < length first
        → fused_from fl (first ∷ windows) 0 (length first) ≡ ok fused
        → morphkv_select fl (first ∷ windows) budget
          ≡ ok (decision (length first) (keep_top fl fused (length first) budget))
    unfolding morphkv_select
    morphkv_some h e = rw same (ground (arith, e))

  -- On windows that are all of one length, which is not 0, and a budget that is not 0,
  -- `morphkv_select` does not raise: it keeps as many positions as the budget allows, in order and
  -- none twice, and counts the others as evicted.
  pub morphkv_select-Selects :
      (first : List fl.Float) (windows : List (List fl.Float)) (budget : ℕ)
      → 0 < length first
      → same_lengths fl (length first) (first ∷ windows) ≡ true
      → 0 < budget
      → (d : EvictionDecision) × (morphkv_select fl (first ∷ windows) budget ≡ ok d)
        × Selects (length first) budget d
  morphkv_select-Selects first windows budget h same k = elim (dec_lt budget (length first)) [
    | no all ↦ (
      decision (length first) (range_from 0 (length first)),
      morphkv_all first windows budget h same k (omega arith),
      all-Selects (length first) budget (omega arith),
    )
    | yes few ↦
        let (fused, e) = fused_from_lem first windows 0 (length first) (omega arith) in
        (
          decision (length first) (keep_top fl fused (length first) budget),
          morphkv_some first windows budget h same k few e,
          keep_top-Selects fused (length first) budget (omega arith),
        )
  ]
