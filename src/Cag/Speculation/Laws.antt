-- ===== src/Cag/Speculation/Laws.antt =====
-- What `SpeculativeDecode.execute` promises of its run.
use ai_augmented_generation.Prelude.{
  ℕ, zero, suc, ◌+◌, ◌-◌, ◌≤◌, ◌<◌, ◌≡◌, ◌≢◌, subst, true, false, Option, none, some, List, [], ◌∷◌,
  ◌++◌, length, length-append, take, length-take, Outcome, Error, ok, raise, runtime_error,
  Outcome-cases, ltb, ◌==◌, nat_eq, arith, Bool-cases, inl, inr,
}
use ai_augmented_generation.Cag.Speculation.{
  VerificationResult, SpeculativeDecodingRun, add_bonus, accept, round, rounds, execute,
}

-- What `add_bonus` adds to the length.
length-add_bonus :
    (max_new_tokens : ℕ) (bonus : Option ℕ) (generated : List ℕ)
    → length generated ≤ max_new_tokens
    → (length generated ≤ length (add_bonus max_new_tokens bonus generated))
      × (length (add_bonus max_new_tokens bonus generated) ≤ max_new_tokens)
      × (length (add_bonus max_new_tokens bonus generated) ≤ length generated + 1)
unfolding add_bonus
length-add_bonus max_new_tokens none generated h = omega arith
length-add_bonus max_new_tokens (some bonus) generated h =
    ground (arith, length-append generated (bonus ∷ []))

module _ (propose : List ℕ → List ℕ → ℕ → List ℕ)
    (verify : List ℕ → List ℕ → Outcome VerificationResult) (prompt_tokens : List ℕ)
    (max_new_tokens num_candidates : ℕ) where
  -- What the counters of a run say of the tokens generated.
  pub record IsCounted (r : SpeculativeDecodingRun) : Type 0 where
    pub within : length r.generated_tokens ≤ max_new_tokens
    pub passes : r.forward_passes ≤ length r.generated_tokens
    pub survived : r.tokens_accepted_from_candidates ≤ length r.generated_tokens
    pub explained : length r.generated_tokens ≤ r.tokens_accepted_from_candidates + r.forward_passes

  abbrev next : SpeculativeDecodingRun → List ℕ → VerificationResult → SpeculativeDecodingRun
  next = accept propose verify prompt_tokens max_new_tokens num_candidates

  abbrev candidates_of : SpeculativeDecodingRun → List ℕ
  candidates_of r = propose prompt_tokens r.generated_tokens num_candidates

  length-accept :
      (r : SpeculativeDecodingRun) (cs : List ℕ) (result : VerificationResult)
      → length r.generated_tokens ≤ max_new_tokens
      → IsCounted r
      → length (next r cs result).generated_tokens ≢ length r.generated_tokens
      → IsCounted (next r cs result)
        × (length r.generated_tokens < length (next r cs result).generated_tokens)
  unfolding accept
  length-accept r cs result h counted moved =
      let accepted = take (max_new_tokens - length r.generated_tokens) result.accepted_tokens in
      let appended = length-append r.generated_tokens accepted in
      let taken = length-take (max_new_tokens - length r.generated_tokens) result.accepted_tokens in
      let bonus =
        length-add_bonus max_new_tokens result.bonus_token (r.generated_tokens ++ accepted)
          (omega arith) in
      ground (arith, appended, taken, bonus)

  module _ (r : SpeculativeDecodingRun) where
    abbrev one_round : Outcome SpeculativeDecodingRun
    one_round = round propose verify prompt_tokens max_new_tokens num_candidates r

    abbrev verification : Outcome VerificationResult
    verification = verify (prompt_tokens ++ r.generated_tokens) (candidates_of r)

    pub round_moves :
        (result : VerificationResult)
        → verification ≡ ok result
        → (length (next r (candidates_of r) result).generated_tokens == length r.generated_tokens)
          ≡ false
        → one_round ≡ ok (next r (candidates_of r) result)
    unfolding round
    round_moves result e moved = rw e (rw moved)

    -- Without progress the round raises, as when the model's contract is broken.
    round_stuck :
        (result : VerificationResult)
        → verification ≡ ok result
        → (length (next r (candidates_of r) result).generated_tokens == length r.generated_tokens)
          ≡ true
        → one_round ≡ raise runtime_error
    unfolding round
    round_stuck result e stuck = rw e (rw stuck)

    round_raises : (e : Error) → verification ≡ raise e → one_round ≡ raise e
    unfolding round
    round_raises e h = rw h

    -- A round that does not raise keeps the counters right, and adds a token.
    round-IsCounted :
        {r' : SpeculativeDecodingRun}
        → length r.generated_tokens ≤ max_new_tokens
        → IsCounted r
        → one_round ≡ ok r'
        → IsCounted r' × (length r.generated_tokens < length r'.generated_tokens)
    round-IsCounted {r'} h counted ran = elim (Outcome-cases verification) [
      | inl (result, e) ↦
          let r'' = next r (candidates_of r) result in
          (elim (Bool-cases (length r''.generated_tokens == length r.generated_tokens)) [
            | inl stuck ↦ absurd (cc (round_stuck result e stuck, ran))
            | inr moved ↦
                subst (λ s. IsCounted s × (length r.generated_tokens < length s.generated_tokens))
                  (cc (round_moves result e moved, ran))
                  (length-accept r (candidates_of r) result h counted (ground (arith, moved)))
          ])
      | inr (err, e) ↦ absurd (cc (round_raises err e, ran))
    ]

    module _ (fuel : ℕ) where
      abbrev some_rounds : ℕ → SpeculativeDecodingRun → Outcome SpeculativeDecodingRun
      some_rounds = rounds propose verify prompt_tokens max_new_tokens num_candidates

      pub rounds_done :
          ltb (length r.generated_tokens) max_new_tokens ≡ false → some_rounds (suc fuel) r ≡ ok r
      unfolding rounds
      rounds_done e = rw e

      pub rounds_more :
          {r' : SpeculativeDecodingRun}
          → ltb (length r.generated_tokens) max_new_tokens ≡ true
          → one_round ≡ ok r'
          → some_rounds (suc fuel) r ≡ some_rounds fuel r'
      unfolding rounds
      rounds_more e h = rw e (rw h)

      rounds_raises :
          {e : Error}
          → ltb (length r.generated_tokens) max_new_tokens ≡ true
          → one_round ≡ raise e
          → some_rounds (suc fuel) r ≡ raise e
      unfolding rounds
      rounds_raises e h = rw e (rw h)

  rounds_end :
      (r : SpeculativeDecodingRun) {r' : SpeculativeDecodingRun}
      → rounds propose verify prompt_tokens max_new_tokens num_candidates zero r ≡ ok r'
      → r ≡ r'
  unfolding rounds
  rounds_end r h = cc h

  rounds-IsCounted :
      (fuel : ℕ) (r : SpeculativeDecodingRun) {r' : SpeculativeDecodingRun}
      → IsCounted r
      → max_new_tokens ≤ length r.generated_tokens + fuel
      → rounds propose verify prompt_tokens max_new_tokens num_candidates fuel r ≡ ok r'
      → IsCounted r' × (length r'.generated_tokens ≡ max_new_tokens)
  rounds-IsCounted zero r {r'} counted enough ran =
      subst (λ s. IsCounted s × (length s.generated_tokens ≡ max_new_tokens)) (rounds_end r ran)
        (counted, omega (arith, counted.within))
  rounds-IsCounted (suc fuel) r {r'} counted enough ran =
      elim (Bool-cases (ltb (length r.generated_tokens) max_new_tokens)) [
        | inr full ↦
            subst (λ s. IsCounted s × (length s.generated_tokens ≡ max_new_tokens))
              (cc (rounds_done r fuel full, ran)) (counted, ground (arith, full, counted.within))
        | inl room ↦ (elim (Outcome-cases (one_round r)) [
          | inl (s, e) ↦
              let kept = round-IsCounted r (counted.within) counted e in
              rounds-IsCounted fuel s (kept.0) (omega arith) (cc (rounds_more r fuel room e, ran))
          | inr (err, e) ↦ absurd (cc (rounds_raises r fuel room e, ran))
        ])
      ]

  -- Whatever the generator proposes and the model answers, a run that does not raise has generated
  -- exactly `max_new_tokens` tokens, in no more forward passes than tokens; the tokens counted as
  -- accepted are no more than those generated, and with one bonus for each pass they explain them
  -- all.
  pub execute_exact :
      {r : SpeculativeDecodingRun}
      → execute propose verify prompt_tokens max_new_tokens num_candidates ≡ ok r
      → (length r.generated_tokens ≡ max_new_tokens)
        × (r.forward_passes ≤ max_new_tokens)
        × (r.tokens_accepted_from_candidates ≤ max_new_tokens)
        × (max_new_tokens ≤ r.tokens_accepted_from_candidates + r.forward_passes)
  unfolding execute
  execute_exact {r} h =
      let start : SpeculativeDecodingRun = record {
        generated_tokens = [];
        forward_passes = 0;
        tokens_accepted_from_candidates = 0;
        tokens_proposed = 0;
      } in
      let (counted, full) = rounds-IsCounted max_new_tokens start (omega arith) (omega arith) h in
      omega (arith, full, counted.passes, counted.survived, counted.explained)
