-- ===== src/Cag/Speculation/Ngrams.antt =====
-- Candidates from n-grams: src/cag/domain/ngram_search.py (`find_ngram_continuation`), and the two
-- generators on it, src/cag/infrastructure/prompt_lookup_candidate_generator.py and
-- lookahead_candidate_generator.py. Sizes and counts are numbers that are not negative.
pub mod Search
pub mod Generators
mod Tests
use ai_augmented_generation.Prelude.{
  ℕ, zero, suc, ◌+◌, ◌-◌, min, Bool, true, false, Option, none, some, List, [], ◌∷◌, ◌++◌, length,
  take, drop, ◌==◌, nat_eq, list_eq, if◌then◌else◌,
}

-- `xs[-n:]`, which is all of `xs` where `n` is 0
unfoldable pub suffix : ℕ → List ℕ → List ℕ
suffix n xs = if n == 0 then xs else drop (length xs - n) xs

-- the loop over the `rounds` start positions below `rounds`, the last one first
unfoldable pub find_start : List ℕ → ℕ → List ℕ → ℕ → Option ℕ
find_start ngram ngram_size haystack zero = none
find_start ngram ngram_size haystack (suc start) =
    let earlier = find_start ngram ngram_size haystack start in
    if take ngram_size (drop start haystack) == ngram then some start else earlier

module _ (tail haystack : List ℕ) (num_candidates min_ngram_size search_ceiling : ℕ) where
  -- The loop over `rounds` sizes from `min_ngram_size` on, the largest first. The start positions
  -- run from `search_ceiling - ngram_size` down to 0, if that is not below 0.
  unfoldable pub try_sizes : ℕ → List ℕ
  try_sizes zero = []
  try_sizes (suc k) =
      let ngram_size = min_ngram_size + k in
      elim (find_start (suffix ngram_size tail) ngram_size haystack
        (search_ceiling + 1 - ngram_size)) [
          | none ↦ try_sizes k
          | some start ↦ take num_candidates (drop (start + ngram_size) haystack)
        ]

-- `len(haystack) if max_start is None else min(max_start, len(haystack))`
unfoldable pub ceiling : Option ℕ → List ℕ → ℕ
ceiling none haystack = length haystack
ceiling (some max_start) haystack = min max_start (length haystack)

unfoldable pub find_ngram_continuation : List ℕ → List ℕ → ℕ → ℕ → ℕ → Option ℕ → List ℕ
find_ngram_continuation tail haystack num_candidates max_ngram_size min_ngram_size max_start =
    if length tail == 0
    then []
    else if length haystack == 0
    then []
    else try_sizes tail haystack num_candidates min_ngram_size (ceiling max_start haystack)
        (min max_ngram_size (length tail) + 1 - min_ngram_size)

-- `PromptLookupCandidateGenerator.propose`. Where the prompt is empty, nothing is searched.
unfoldable pub prompt_lookup : ℕ → ℕ → List ℕ → List ℕ → ℕ → List ℕ
prompt_lookup max_ngram_size min_ngram_size prompt_tokens generated_tokens num_candidates =
    let context = prompt_tokens ++ generated_tokens in
    if length context == 0
    then []
    else find_ngram_continuation (suffix max_ngram_size context) prompt_tokens num_candidates
        max_ngram_size min_ngram_size (some (length prompt_tokens - 1))

-- `LookaheadCandidateGenerator.propose`
unfoldable pub lookahead : ℕ → ℕ → List ℕ → List ℕ → ℕ → List ℕ
lookahead max_ngram_size min_ngram_size prompt_tokens generated_tokens num_candidates =
    find_ngram_continuation (suffix max_ngram_size generated_tokens) generated_tokens num_candidates
      max_ngram_size min_ngram_size (some (length generated_tokens - 1))
