-- ===== src/Cag/Eviction.antt =====
-- Which positions of the cache survive a budget: src/cag/infrastructure/h2o_evictor.py,
-- snapkv_evictor.py and morphkv_evictor.py. Positions and budgets are numbers: a negative budget is
-- refused as 0 is. A set of positions is a list without repetitions.
pub mod Indices
pub mod Laws
pub mod Scores
mod Tests
use ai_augmented_generation.Prelude.{
  ℕ, zero, suc, ◌+◌, ◌-◌, ◌*◌, ◌/◌, min, Bool, true, false, not, ◌&&◌, Option, none, some, List, [],
  ◌∷◌, ◌++◌, map, length, get_elem?, take, drop, count, Outcome, ok, raise, value_error, ◌>>=◌,
  ◌==◌, nat_eq, ltb, leb, if◌then◌else◌,
}
use ai_augmented_generation.Prelude.Int.{ℤ, pos, is_negative, pos_part}
use ai_augmented_generation.Prelude.Float.{Floats}
use ai_augmented_generation.Prelude.Sort.{sorted_desc}

-- `EvictionDecision`, but for the name of the method
pub record EvictionDecision : Type 0 where
  pub keep_indices : List ℕ
  pub evicted_count : ℕ

-- `range(start, start + n)`
unfoldable pub range_from : ℕ → ℕ → List ℕ
range_from start zero = []
range_from start (suc n) = start ∷ range_from (start + 1) n

-- `sorted(xs)` on numbers
abbrev pub below : ℕ → ℕ → Bool
below i j = ltb i j

unfoldable pub sorted : List ℕ → List ℕ
unfolding sorted_desc
sorted xs = sorted_desc below xs

-- `i in xs`
abbrev pub contains : List ℕ → ℕ → Bool
contains xs i = ltb 0 (count i xs)

-- `[i for i in xs if i not in excluded]`
unfoldable pub without : List ℕ → List ℕ → List ℕ
without excluded [] = []
without excluded (i ∷ xs) =
    if contains excluded i then without excluded xs else i ∷ without excluded xs

-- `set(xs) | set(ys)`, of which the first is a set
unfoldable pub union : List ℕ → List ℕ → List ℕ
union xs [] = xs
union xs (y ∷ ys) = union (if contains xs y then xs else xs ++ y ∷ []) ys

-- `EvictionDecision(keep_indices=keep, evicted_count=seq_len - len(keep))`
unfoldable pub decision : ℕ → List ℕ → EvictionDecision
decision seq_len keep = record { keep_indices = keep; evicted_count = seq_len - length keep }

-- `H2OEvictor.__init__`: the evictor is its window
pub h2o_init : ℤ → Outcome ℕ
h2o_init recent_window =
    if is_negative recent_window then raise value_error else ok (pos_part recent_window)

-- `SnapKVEvictor.__init__`: the evictor is its kernel size and its window
pub snapkv_init : ℤ → ℤ → Outcome (ℕ × ℕ)
snapkv_init pool_kernel_size recent_window =
    if leb (pos_part pool_kernel_size) 0
    then raise value_error
    else if is_negative recent_window
    then raise value_error
    else ok (pos_part pool_kernel_size, pos_part recent_window)

-- Python's `max(xs)`, of a list that is not empty: the first of the greatest
pub greatest : (fl : Floats) → fl.Float → List fl.Float → fl.Float
greatest fl best [] = best
greatest fl best (x ∷ xs) = greatest fl (if fl.lt best x then x else best) xs

pub max_of : (fl : Floats) → List fl.Float → Outcome fl.Float
max_of fl [] = raise value_error
max_of fl (x ∷ xs) = ok (greatest fl x xs)

module _ (fl : Floats) where
  open fl use {Float, of_int, add, lt}

  abbrev pub greater : Option Float → Option Float → Bool
  greater none score = false
  greater (some a) none = true
  greater (some a) (some b) = lt b a

  -- The score at `i` is greater than that at `j`; both are positions of the list.
  abbrev pub heavier : List Float → ℕ → ℕ → Bool
  heavier scores i j = greater (get_elem? scores i) (get_elem? scores j)

  -- The positions that `H2OEvictor.select_keep_indices` keeps, past its checks.
  pub keep_windowed : List Float → ℕ → ℕ → List ℕ
  keep_windowed scores recent_window budget =
      let seq_len = length scores in
      let recent_start = seq_len - recent_window in
      let recent_indices = range_from recent_start (seq_len - recent_start) in
      let candidates = without recent_indices (range_from 0 seq_len) in
      let heavy_hitters =
        take (budget - length recent_indices) (sorted_desc (heavier scores) candidates) in
      if leb seq_len budget
      then range_from 0 seq_len
      else if leb budget (length recent_indices)
      then sorted (range_from (seq_len - budget) budget)
      else sorted (union recent_indices heavy_hitters)

  -- `H2OEvictor.select_keep_indices`
  pub h2o_select : ℕ → List Float → ℕ → Outcome EvictionDecision
  h2o_select recent_window attention_scores budget =
      if length attention_scores == 0
      then raise value_error
      else if ltb budget 1
      then raise value_error
      else ok
          (decision (length attention_scores) (keep_windowed attention_scores recent_window budget))

  -- `SnapKVEvictor._pooled` from position `i` on
  pub pooled_from : ℕ → List Float → ℕ → ℕ → Outcome (List Float)
  pooled_from half scores i zero = ok []
  pooled_from half scores i (suc n) = do
    best ←
        max_of fl (take (min (length scores) (i + half + 1) - (i - half)) (drop (i - half) scores))
    rest ← pooled_from half scores (i + 1) n
    ok (best ∷ rest)

  -- `SnapKVEvictor.select_keep_indices`: past the checks, that of H2O on the pooled scores
  pub snapkv_select : ℕ → ℕ → List Float → ℕ → Outcome EvictionDecision
  snapkv_select pool_kernel_size recent_window attention_scores budget =
      if length attention_scores == 0
      then raise value_error
      else if ltb budget 1
      then raise value_error
      else do
        pooled ← pooled_from (pool_kernel_size / 2) attention_scores 0 (length attention_scores)
        ok (decision (length attention_scores) (keep_windowed pooled recent_window budget))

  -- `[window[i] for window in windows]`, of windows that reach to `i`
  pub column : List (List Float) → ℕ → List Float
  column [] i = []
  column (window ∷ windows) i = elim (get_elem? window i) [
    | none ↦ column windows i
    | some x ↦ x ∷ column windows i
  ]

  -- `sum(xs)`
  pub sum_of : Float → List Float → Float
  sum_of acc [] = acc
  sum_of acc (x ∷ xs) = sum_of (add acc x) xs

  -- the fused scores from position `i` on
  pub fused_from : List (List Float) → ℕ → ℕ → Outcome (List Float)
  fused_from windows i zero = ok []
  fused_from windows i (suc n) = do
    most ← max_of fl (column windows i)
    rest ← fused_from windows (i + 1) n
    ok (add (sum_of (of_int (pos 0)) (column windows i)) most ∷ rest)

  -- Every window is as long as the first.
  pub same_lengths : ℕ → List (List Float) → Bool
  same_lengths n [] = true
  same_lengths n (window ∷ windows) = length window == n && same_lengths n windows

  -- the positions that `MorphKVEvictor.select_keep_indices` keeps, past its checks
  pub keep_top : List Float → ℕ → ℕ → List ℕ
  keep_top fused seq_len budget =
      sorted (take budget (sorted_desc (heavier fused) (range_from 0 seq_len)))

  -- `MorphKVEvictor.select_keep_indices`
  pub morphkv_select : List (List Float) → ℕ → Outcome EvictionDecision
  morphkv_select [] budget = raise value_error
  morphkv_select (first ∷ windows) budget =
      let seq_len = length first in
      if seq_len == 0
      then raise value_error
      else if not (same_lengths seq_len (first ∷ windows))
      then raise value_error
      else if ltb budget 1
      then raise value_error
      else if leb seq_len budget
      then ok (decision seq_len (range_from 0 seq_len))
      else do
        fused ← fused_from (first ∷ windows) 0 seq_len
        ok (decision seq_len (keep_top fused seq_len budget))
