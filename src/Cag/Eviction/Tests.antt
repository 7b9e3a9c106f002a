-- ===== src/Cag/Eviction/Tests.antt =====
-- The evictors at concrete inputs. The scores are whole numbers.
use ai_augmented_generation.Prelude.{
  ℕ, ◌≡◌, refl, false, List, [], ◌∷◌, ok, raise, value_error, arith,
}
use ai_augmented_generation.Prelude.Int.{negsuc}
use ai_augmented_generation.Prelude.Float.{wholes}
use ai_augmented_generation.Prelude.Sort.{place, sorted_desc, IsTotal}
use ai_augmented_generation.Cag.Eviction.{
  EvictionDecision, range_from, sorted, without, union, decision, greatest, max_of, heavier,
  keep_windowed, h2o_init, h2o_select, pooled_from, snapkv_init, snapkv_select, column, sum_of,
  fused_from, same_lengths, keep_top, morphkv_select,
}
use ai_augmented_generation.Cag.Eviction.Laws.{Selects, h2o_select-Selects, keep_windowed_heaviest}

program : Unit {0}
unfolding place sorted_desc range_from sorted without union decision greatest max_of keep_windowed
    h2o_init h2o_select pooled_from snapkv_init snapkv_select column sum_of fused_from same_lengths
    keep_top morphkv_select
program = tt

abbrev scores : List ℕ
scores = 5 ∷ 1 ∷ 9 ∷ 2 ∷ 3 ∷ 1 ∷ []

-- The two latest, and the two heaviest before them.
h2o_run :
    h2o_select wholes 2 scores 4
    ≡ ok (record { keep_indices = 0 ∷ 2 ∷ 4 ∷ 5 ∷ []; evicted_count = 2 })
unfolding program
h2o_run = refl

-- Pooling keeps the neighbours of the heaviest.
snapkv_run :
    snapkv_select wholes 3 1 scores 4
    ≡ ok (record { keep_indices = 1 ∷ 2 ∷ 3 ∷ 5 ∷ []; evicted_count = 2 })
unfolding program
snapkv_run = refl

morphkv_run :
    morphkv_select wholes (scores ∷ (1 ∷ 8 ∷ 1 ∷ 1 ∷ 1 ∷ 1 ∷ []) ∷ []) 2
    ≡ ok (record { keep_indices = 1 ∷ 2 ∷ []; evicted_count = 4 })
unfolding program
morphkv_run = refl

no_window : h2o_init (negsuc 0) ≡ raise value_error
unfolding program
no_window = refl

scores-IsTotal : IsTotal (λ (a b : ℕ). wholes.lt b a)
scores-IsTotal = record { asym = λ x y h. ground arith; at_most_trans = λ x y z h k. ground arith }

h2o_select-Selects_example :
    (d : EvictionDecision) × (h2o_select wholes 2 scores 4 ≡ ok d) × Selects 6 4 d
h2o_select-Selects_example = h2o_select-Selects wholes scores 2 4 (omega arith) (omega arith)

keep_windowed_heaviest_example : heavier wholes scores 3 0 ≡ false
unfolding program
keep_windowed_heaviest_example =
    keep_windowed_heaviest wholes scores 2 4 scores-IsTotal 0 3 (omega arith) (omega arith) refl
      refl
