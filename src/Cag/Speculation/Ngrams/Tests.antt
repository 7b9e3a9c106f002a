-- ===== src/Cag/Speculation/Ngrams/Tests.antt =====
-- The n-gram search at concrete inputs.
use ai_augmented_generation.Prelude.{
  ℕ, ◌≡◌, ◌≤◌, ◌<◌, ◌+◌, ◌⊎◌, refl, none, some, List, [], ◌∷◌, arith, min, length,
}
use ai_augmented_generation.Cag.Speculation.Ngrams.{
  suffix, find_start, try_sizes, ceiling, find_ngram_continuation, prompt_lookup, lookahead,
}
use ai_augmented_generation.Cag.Speculation.Ngrams.Search.{
  Matches, continuation, find_ngram_continuation_best,
}

program : Unit {0}
unfolding suffix find_start try_sizes ceiling find_ngram_continuation prompt_lookup lookahead
program = tt

abbrev prompt : List ℕ
prompt = 5 ∷ 6 ∷ 7 ∷ 5 ∷ 6 ∷ 7 ∷ []

abbrev tail : List ℕ
tail = 7 ∷ []

-- The case of the comment in the source: the trailing 7 does not hide the earlier one.
echo : prompt_lookup 3 1 prompt (7 ∷ []) 3 ≡ 5 ∷ 6 ∷ 7 ∷ []
unfolding program
echo = refl

longest_first : find_ngram_continuation (1 ∷ 2 ∷ []) (1 ∷ 2 ∷ 8 ∷ 2 ∷ 9 ∷ []) 1 3 1 none ≡ 8 ∷ []
unfolding program
longest_first = refl

latest_first : find_ngram_continuation (3 ∷ 2 ∷ []) (1 ∷ 2 ∷ 8 ∷ 2 ∷ 9 ∷ []) 1 3 1 none ≡ 9 ∷ []
unfolding program
latest_first = refl

again : Matches (5 ∷ 6 ∷ 7 ∷ 5 ∷ 6 ∷ 7 ∷ 7 ∷ []) prompt 1 2
unfolding program
again = refl

find_ngram_continuation_best_example :
    (size : ℕ) × (start : ℕ) × ((1 < size) ⊎ ((1 ≡ size) × (2 ≤ start)))
    × (1 ≤ size)
    × (size ≤ min 3 (length tail))
    × (start + size ≤ ceiling (some 5) prompt)
    × Matches tail prompt size start
    × (find_ngram_continuation tail prompt 3 3 1 (some 5) ≡ continuation prompt 3 size start)
unfolding program
find_ngram_continuation_best_example =
    find_ngram_continuation_best tail prompt 3 3 1 (some 5) 1 2 (omega arith) (omega arith)
      (omega arith) (omega arith) refl

repeated : Matches (4 ∷ 9 ∷ 4 ∷ []) (4 ∷ 9 ∷ 4 ∷ []) 1 0
unfolding program
repeated = refl
