-- ===== src/Cag/Speculation/Ngrams/Generators.antt =====
-- The two generators on the n-gram search: the occurrence of the tail at the very end of what is
-- searched never stands in the way of an earlier one.
use ai_augmented_generation.Prelude.{
  ℕ, zero, suc, ◌+◌, ◌-◌, ◌≤◌, ◌<◌, ◌≡◌, ◌≢◌, refl, ap, sym, ◌∙◌, min, some, List, [], ◌∷◌, ◌++◌,
  length, length-append, drop, length-drop, length-take, arith,
}
use ai_augmented_generation.Cag.Speculation.Ngrams.{
  suffix, ceiling, find_ngram_continuation, prompt_lookup, lookahead,
}
use ai_augmented_generation.Cag.Speculation.Ngrams.Search.{
  Matches, continuation, find_ngram_continuation_best,
}

drop_nil : (n : ℕ) → drop {A = ℕ} n [] ≡ []
drop_nil zero = refl
drop_nil (suc n) = refl

drop-drop : (m n : ℕ) (xs : List ℕ) → drop m (drop n xs) ≡ drop (n + m) xs
drop-drop m zero xs = ap (λ k. drop k xs) (omega arith)
drop-drop zero (suc n) [] = ground arith
drop-drop (suc m) (suc n) [] = sym (drop_nil (suc n + suc m))
drop-drop m (suc n) (x ∷ xs) = drop-drop m n xs ∙ step
  where
    step : drop (suc (n + m)) (x ∷ xs) ≡ drop (suc n + m) (x ∷ xs)
    step = ap (λ i. drop i (x ∷ xs)) {x = suc (n + m)} (omega arith)

suffix_eq : (n : ℕ) (xs : List ℕ) → 0 < n → suffix n xs ≡ drop (length xs - n) xs
unfolding suffix
suffix_eq n xs h = ground arith

length-suffix : (n : ℕ) (xs : List ℕ) → 0 < n → length (suffix n xs) ≡ min n (length xs)
length-suffix n xs h = rw (suffix_eq n xs h) (omega (arith, length-drop (length xs - n) xs))

suffix-suffix :
    (size n : ℕ) (xs : List ℕ) → 0 < size → size ≤ n → suffix size (suffix n xs) ≡ suffix size xs
suffix-suffix size n xs h k =
    suffix_eq size (suffix n xs) h
    ∙ ap (λ ys. drop (length ys - size) ys) (suffix_eq n xs (omega arith))
    ∙ drop-drop (length (drop (length xs - n) xs) - size) (length xs - n) xs
    ∙ ap (λ i. drop i xs) (omega (arith, length-drop (length xs - n) xs))
    ∙ sym (suffix_eq size xs h)

continuation-ne-nil :
    (haystack : List ℕ) (num size start : ℕ)
    → 0 < num
    → start + size < length haystack
    → continuation haystack num size start ≢ []
continuation-ne-nil haystack num size start h k e = omega (
  arith,
  ap length e,
  length-take num (drop (start + size) haystack),
  length-drop (start + size) haystack,
)

module _ (max_size min_size : ℕ) (prompt generated : List ℕ) (num_candidates size start : ℕ)
    (some_candidates : 0 < num_candidates) (some_size : 0 < size) (low : min_size ≤ size)
    (high : size ≤ max_size) where
  module _ (context haystack : List ℕ) (whole : size ≤ length context)
      (matched : Matches context haystack size start)
      (inside : start + size < length haystack) where
    proposes :
        find_ngram_continuation
          (suffix max_size context)
          haystack
          num_candidates
          max_size
          min_size
          (some (length haystack - 1))
        ≢ []
    unfolding ceiling
    proposes e =
        let tail = suffix max_size context in
        let (size', start', _, _, _, fits, _, eq) =
          find_ngram_continuation_best tail haystack num_candidates max_size min_size
            (some (length haystack - 1)) size start some_size low
            (omega (arith, length-suffix max_size context (omega arith))) (omega arith)
            (matched ∙ sym (suffix-suffix size max_size context some_size high)) in
        continuation-ne-nil haystack num_candidates size' start' some_candidates
          (omega (arith, fits)) (sym eq ∙ e)

  -- Where the last `size` tokens of the prompt and what is generated occur in the prompt, but not
  -- at its very end, Prompt Lookup proposes something.
  pub prompt_lookup-ne-nil :
      size ≤ length (prompt ++ generated)
      → Matches (prompt ++ generated) prompt size start
      → start + size < length prompt
      → prompt_lookup max_size min_size prompt generated num_candidates ≢ []
  unfolding prompt_lookup
  prompt_lookup-ne-nil whole matched inside e =
      proposes (prompt ++ generated) prompt whole matched inside (sym found ∙ e)
    where
      found :
          prompt_lookup max_size min_size prompt generated num_candidates
          ≡ find_ngram_continuation
              (suffix max_size (prompt ++ generated))
              prompt
              num_candidates
              max_size
              min_size
              (some (length prompt - 1))
      found = ground (arith, length-append prompt generated)

  -- Where the last `size` of the generated tokens occur among them earlier, Lookahead proposes
  -- something.
  pub lookahead-ne-nil :
      Matches generated generated size start
      → start + size < length generated
      → lookahead max_size min_size prompt generated num_candidates ≢ []
  unfolding lookahead
  lookahead-ne-nil matched inside = proposes generated generated (omega arith) matched inside
