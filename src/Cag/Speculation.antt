-- ===== src/Cag/Speculation.antt =====
-- Speculative decoding: src/cag/application/speculative_decode.py (`SpeculativeDecode`), with the
-- target model of src/cag/infrastructure/hf_target_model.py (`HFTargetModel`). Tokens are numbers,
-- and so are `max_new_tokens` and `num_candidates`: a negative bound gives no round, as 0 does.
-- What the network predicts at each position of a sequence is the parameter `argmax_logits`, and
-- the candidate generator is the parameter `propose`.
pub mod Ngrams
pub mod Greedy
pub mod Laws
pub mod Lossless
mod Tests
use ai_augmented_generation.Prelude.{
  ℕ, zero, suc, ◌+◌, ◌-◌, Bool, true, false, Option, none, some, List, [], ◌∷◌, ◌++◌, length, take,
  get_elem?, Outcome, ok, raise, index_error, runtime_error, ◌>>=◌, ltb, ◌==◌, nat_eq,
  if◌then◌else◌,
}

-- `VerificationResult`
pub record VerificationResult : Type 0 where
  pub accepted_tokens : List ℕ
  pub bonus_token : Option ℕ

-- `SpeculativeDecodingRun`
pub record SpeculativeDecodingRun : Type 0 where
  pub generated_tokens : List ℕ
  pub forward_passes : ℕ
  pub tokens_accepted_from_candidates : ℕ
  pub tokens_proposed : ℕ

-- `xs[i]`
pub index : List ℕ → ℕ → Outcome ℕ
index xs i = elim (get_elem? xs i) [ none ↦ raise index_error | some x ↦ ok x ]

-- `logits[n - 1 + i]`, where the index -1 is that of the last position
pub predicted_at : List ℕ → ℕ → ℕ → Outcome ℕ
predicted_at logits n i = index logits (if n + i == 0 then length logits - 1 else n + i - 1)

-- the loop over the candidates from the `i`-th on, and the bonus after it
pub verify_from : List ℕ → ℕ → ℕ → List ℕ → List ℕ → Outcome VerificationResult
verify_from logits n i [] accepted = do
  bonus ← index logits (length logits - 1)
  ok (record { accepted_tokens = accepted; bonus_token = some bonus })
verify_from logits n i (candidate ∷ candidates) accepted =
    let rest = verify_from logits n (i + 1) candidates (accepted ++ candidate ∷ []) in
    do
      predicted ← predicted_at logits n i
      if predicted == candidate
          then rest
          else ok (record { accepted_tokens = accepted; bonus_token = some predicted })

-- `HFTargetModel.verify_candidates`
pub verify_candidates : (List ℕ → List ℕ) → List ℕ → List ℕ → Outcome VerificationResult
verify_candidates argmax_logits tokens candidates =
    verify_from (argmax_logits (tokens ++ candidates)) (length tokens) 0 candidates []

-- `if bonus is not None and len(generated) < max_new_tokens: generated.append(bonus)`
pub add_bonus : ℕ → Option ℕ → List ℕ → List ℕ
add_bonus max_new_tokens none generated = generated
add_bonus max_new_tokens (some bonus) generated =
    if ltb (length generated) max_new_tokens then generated ++ bonus ∷ [] else generated

module _ (propose : List ℕ → List ℕ → ℕ → List ℕ)
    (verify : List ℕ → List ℕ → Outcome VerificationResult) (prompt_tokens : List ℕ)
    (max_new_tokens num_candidates : ℕ) where
  -- What a round makes of the run, given the candidates and their verification.
  pub accept : SpeculativeDecodingRun → List ℕ → VerificationResult → SpeculativeDecodingRun
  accept r candidates result =
      let remaining_budget = max_new_tokens - length r.generated_tokens in
      let accepted = take remaining_budget result.accepted_tokens in
      record {
        generated_tokens =
            add_bonus max_new_tokens result.bonus_token (r.generated_tokens ++ accepted);
        forward_passes = r.forward_passes + 1;
        tokens_accepted_from_candidates = r.tokens_accepted_from_candidates + length accepted;
        tokens_proposed = r.tokens_proposed + length candidates;
      }

  -- the body of the loop, with the guard at its end
  pub round : SpeculativeDecodingRun → Outcome SpeculativeDecodingRun
  round r =
      let candidates = propose prompt_tokens r.generated_tokens num_candidates in
      do
        result ← verify (prompt_tokens ++ r.generated_tokens) candidates
        let r' = accept r candidates result
        if length r'.generated_tokens == length r.generated_tokens
            then raise runtime_error
            else ok r'

  -- The loop, with fuel: a round that does not raise adds a token.
  pub rounds : ℕ → SpeculativeDecodingRun → Outcome SpeculativeDecodingRun
  rounds zero r = ok r
  rounds (suc fuel) r =
      let more = (do r' ← round r; rounds fuel r') in
      if ltb (length r.generated_tokens) max_new_tokens then more else ok r

  pub execute : Outcome SpeculativeDecodingRun
  execute = rounds max_new_tokens (record {
    generated_tokens = [];
    forward_passes = 0;
    tokens_accepted_from_candidates = 0;
    tokens_proposed = 0;
  })
