-- ===== src/Cag/Speculation/Tests.antt =====
-- Speculative decoding at concrete inputs, on a network that counts 1, 2, 3, 1, 2, 3 and so on.
use ai_augmented_generation.Prelude.{
  ℕ, suc, ◌+◌, ◌-◌, ◌≡◌, ◌≤◌, ◌<◌, refl, ap, ◌∙◌, some, none, get_elem?, List, [], ◌∷◌, ◌++◌,
  length, arith, ok, raise, runtime_error, ◌==◌, nat_eq, if◌then◌else◌,
}
use ai_augmented_generation.Cag.Speculation.{
  SpeculativeDecodingRun, index, predicted_at, verify_from, verify_candidates, add_bonus, accept,
  round, rounds, execute,
}
use ai_augmented_generation.Cag.Speculation.Greedy.{naive, IsCausal}
use ai_augmented_generation.Cag.Speculation.Laws.{execute_exact}
use ai_augmented_generation.Cag.Speculation.Lossless.{execute_lossless}
use ai_augmented_generation.Cag.Speculation.Ngrams.{
  suffix, find_start, try_sizes, ceiling, find_ngram_continuation, prompt_lookup,
}

abbrev after : ℕ → ℕ
after token = if token == 3 then 1 else token + 1

abbrev predictions : List ℕ → List ℕ
predictions [] = []
predictions (x ∷ xs) = after x ∷ predictions xs

abbrev next_token : List ℕ → ℕ
next_token [] = 0
next_token (x ∷ []) = after x
next_token (x ∷ y ∷ xs) = next_token (y ∷ xs)

predictions-IsCausal : IsCausal predictions next_token
predictions-IsCausal = record { one_each = one_each; predicts = predicts }
  where
    one_each : (xs : List ℕ) → length (predictions xs) ≡ length xs
    one_each [] = refl
    one_each (x ∷ xs) = ap suc (one_each xs)

    predicts :
        (xs ys : List ℕ)
        → 0 < length xs
        → get_elem? (predictions (xs ++ ys)) (length xs - 1) ≡ some (next_token xs)
    predicts [] ys h = absurd (omega arith)
    predicts (x ∷ []) ys h = ground arith
    predicts (x ∷ y ∷ xs) ys h =
        ap (get_elem? (predictions ((x ∷ y ∷ xs) ++ ys))) {y = suc (length xs)} (omega arith)
        ∙ ap (get_elem? (predictions ((y ∷ xs) ++ ys))) {x = length xs} (omega arith)
        ∙ predicts (y ∷ xs) ys (omega arith)

program : Unit {0}
unfolding suffix find_start try_sizes ceiling find_ngram_continuation prompt_lookup index
    predicted_at verify_from verify_candidates add_bonus accept round rounds execute
program = tt

abbrev prompt : List ℕ
prompt = 1 ∷ 2 ∷ 3 ∷ 1 ∷ 2 ∷ []

abbrev seven_tokens : SpeculativeDecodingRun
seven_tokens = record {
  generated_tokens = 3 ∷ 1 ∷ 2 ∷ 3 ∷ 1 ∷ 2 ∷ 3 ∷ [];
  forward_passes = 2;
  tokens_accepted_from_candidates = 5;
  tokens_proposed = 5;
}

-- Seven tokens in two passes.
seven_tokens_run :
    execute (prompt_lookup 3 1) (verify_candidates predictions) prompt 7 3 ≡ ok seven_tokens
unfolding program
seven_tokens_run = refl

-- A model that neither accepts nor gives a bonus makes the loop raise.
no_progress :
    execute
      (prompt_lookup 3 1)
      (λ tokens candidates. ok (record { accepted_tokens = []; bonus_token = none }))
      prompt
      7
      3
    ≡ raise runtime_error
unfolding program
no_progress = refl

execute_exact_example :
    (length seven_tokens.generated_tokens ≡ 7)
    × (seven_tokens.forward_passes ≤ 7)
    × (seven_tokens.tokens_accepted_from_candidates ≤ 7)
    × (7 ≤ seven_tokens.tokens_accepted_from_candidates + seven_tokens.forward_passes)
execute_exact_example =
    execute_exact (prompt_lookup 3 1) (verify_candidates predictions) prompt 7 3 {r = seven_tokens}
      seven_tokens_run

execute_lossless_example :
    (r : SpeculativeDecodingRun) × (execute
        (prompt_lookup 3 1)
        (verify_candidates predictions)
        prompt
        7
        3
      ≡ ok r)
    × (r.generated_tokens ≡ naive next_token 7 prompt)
    × (r.tokens_accepted_from_candidates ≤ r.tokens_proposed)
execute_lossless_example =
    execute_lossless predictions next_token predictions-IsCausal (prompt_lookup 3 1) prompt
      (omega arith) 7 3
