-- ===== src/Cag/Speculation/Lossless.antt =====
-- `SpeculativeDecode.execute` on `HFTargetModel` is lossless: it generates what the model alone
-- would.
use ai_augmented_generation.Prelude.{
  ℕ, zero, suc, ◌-◌, ◌≤◌, ◌<◌, ◌≡◌, refl, ap, sym, subst, ◌∙◌, some, List, [], ◌∷◌, ◌++◌, length,
  length-append, take, length-take, take_whole, ok, ltb, lt→ltb, ltb-false, nat_eq, arith,
  Bool-cases, inl, inr, append_assoc,
}
use ai_augmented_generation.Cag.Speculation.{
  SpeculativeDecodingRun, verify_candidates, add_bonus, accept, round, rounds, execute,
}
use ai_augmented_generation.Cag.Speculation.Greedy.{
  naive, IsCausal, Follows, naive-eq, Follows-append, Follows-take, agreed, agreed-Follows,
  length-agreed-le, verified, verify_candidates_lem,
}
use ai_augmented_generation.Cag.Speculation.Laws.{
  execute_exact, round_moves, rounds_done, rounds_more,
}

add_bonus_room :
    (max_new_tokens b : ℕ) (generated : List ℕ)
    → length generated < max_new_tokens
    → add_bonus max_new_tokens (some b) generated ≡ generated ++ b ∷ []
unfolding add_bonus
add_bonus_room max_new_tokens b generated h = rw (lt→ltb _ _ h)

add_bonus_full :
    (max_new_tokens b : ℕ) (generated : List ℕ)
    → max_new_tokens ≤ length generated
    → add_bonus max_new_tokens (some b) generated ≡ generated
unfolding add_bonus
add_bonus_full max_new_tokens b generated h = rw (ltb-false _ _ h)

module _ (greedy : List ℕ → ℕ) (prompt generated cs : List ℕ) (max_new_tokens : ℕ)
    (followed : Follows greedy prompt generated) (room : length generated < max_new_tokens) where
  abbrev agreeing : List ℕ
  agreeing = agreed greedy (prompt ++ generated) cs

  abbrev extended : List ℕ
  extended =
      add_bonus max_new_tokens (some (greedy (prompt ++ generated ++ agreeing)))
        (generated ++ take (max_new_tokens - length generated) agreeing)

  extended_room :
      length agreeing < max_new_tokens - length generated
      → generated ++ agreeing ++ greedy (prompt ++ generated ++ agreeing) ∷ [] ≡ extended
  extended_room fits = rw (take_whole agreeing (max_new_tokens - length generated) (omega arith)) (
      sym (
        add_bonus_room max_new_tokens (greedy (prompt ++ generated ++ agreeing))
          (generated ++ agreeing) (omega (arith, length-append generated agreeing))))

  extended_full :
      max_new_tokens - length generated ≤ length agreeing
      → generated ++ take (max_new_tokens - length generated) agreeing ≡ extended
  extended_full over =
      let accepted = take (max_new_tokens - length generated) agreeing in
      sym (
        add_bonus_full max_new_tokens (greedy (prompt ++ generated ++ agreeing))
          (generated ++ accepted)
          (omega (
            arith,
            length-append generated accepted,
            length-take (max_new_tokens - length generated) agreeing,
          )))

  -- A round on a model that verifies as greedy decoding does.
  extended_lem : Follows greedy prompt extended × (length generated < length extended)
  extended_lem =
      let Good = λ (xs : List ℕ). Follows greedy prompt xs × (length generated < length xs) in
      let accepted = take (max_new_tokens - length generated) agreeing in
      let bonus = greedy (prompt ++ generated ++ agreeing) in
      let agreeing_follows = agreed-Follows greedy (prompt ++ generated) cs in
      elim (Bool-cases (ltb (length agreeing) (max_new_tokens - length generated))) [
        | inl fits ↦ subst Good (extended_room (ground (arith, fits))) (
          Follows-append greedy prompt (generated ++ agreeing) (bonus ∷ [])
              (Follows-append greedy prompt generated agreeing followed agreeing_follows)
              (ap greedy (sym (append_assoc prompt generated agreeing)), tt),
          omega (
            arith,
            length-append (generated ++ agreeing) (bonus ∷ []),
            length-append generated agreeing,
          ),
        )
        | inr over ↦ subst Good (extended_full (ground (arith, over))) (
          Follows-append greedy prompt generated accepted followed (
              Follows-take greedy (max_new_tokens - length generated) (prompt ++ generated) agreeing
                agreeing_follows),
          ground (
            arith,
            over,
            length-append generated accepted,
            length-take (max_new_tokens - length generated) agreeing,
          ),
        )
      ]

module _ (argmax_logits : List ℕ → List ℕ) (greedy : List ℕ → ℕ)
    (causal : IsCausal argmax_logits greedy) (propose : List ℕ → List ℕ → ℕ → List ℕ)
    (prompt_tokens : List ℕ) (some_token : 0 < length prompt_tokens)
    (max_new_tokens num_candidates : ℕ) where
  -- What the model would generate, and no more counted as accepted than was proposed.
  record IsFaithful (r : SpeculativeDecodingRun) : Type 0 where
    follows : Follows greedy prompt_tokens r.generated_tokens
    accepted : r.tokens_accepted_from_candidates ≤ r.tokens_proposed

  round-IsFaithful :
      (r : SpeculativeDecodingRun)
      → IsFaithful r
      → length r.generated_tokens < max_new_tokens
      → (r' : SpeculativeDecodingRun) × (round propose
            (verify_candidates argmax_logits)
            prompt_tokens
            max_new_tokens
            num_candidates
            r
          ≡ ok r')
        × IsFaithful r'
        × (length r.generated_tokens < length r'.generated_tokens)
  unfolding accept
  round-IsFaithful r faithful room =
      let cs = propose prompt_tokens r.generated_tokens num_candidates in
      let context = prompt_tokens ++ r.generated_tokens in
      let result = verified greedy context cs in
      let r' =
        accept propose (verify_candidates argmax_logits) prompt_tokens max_new_tokens num_candidates
          r cs result in
      let grown =
        extended_lem greedy prompt_tokens r.generated_tokens cs max_new_tokens (faithful.follows)
          room in
      let verified_here =
        verify_candidates_lem argmax_logits greedy causal context
          (omega (arith, length-append prompt_tokens r.generated_tokens)) cs in
      (
        r',
        round_moves propose (verify_candidates argmax_logits) prompt_tokens max_new_tokens
            num_candidates r result verified_here (ground (arith, grown.1)),
        record {
          follows = grown.0;
          accepted = omega (
            arith,
            faithful.accepted,
            length-agreed-le greedy context cs,
            length-take (max_new_tokens - length r.generated_tokens) (agreed greedy context cs),
          );
        },
        grown.1,
      )

  rounds-IsFaithful :
      (fuel : ℕ) (r : SpeculativeDecodingRun)
      → IsFaithful r
      → (r' : SpeculativeDecodingRun) × (rounds propose
            (verify_candidates argmax_logits)
            prompt_tokens
            max_new_tokens
            num_candidates
            fuel
            r
          ≡ ok r')
        × IsFaithful r'
  rounds-IsFaithful zero r faithful = (r, unfold rounds in refl, faithful)
  rounds-IsFaithful (suc fuel) r faithful =
      elim (Bool-cases (ltb (length r.generated_tokens) max_new_tokens)) [
        | inr full ↦ (
          r,
          rounds_done propose (verify_candidates argmax_logits) prompt_tokens max_new_tokens
              num_candidates r fuel full,
          faithful,
        )
        | inl room ↦
            let (s, ran, kept, _) = round-IsFaithful r faithful (ground (arith, room)) in
            let (r', rest, end) = rounds-IsFaithful fuel s kept in
            (
              r',
              rounds_more propose (verify_candidates argmax_logits) prompt_tokens max_new_tokens
                    num_candidates r fuel room ran
                  ∙ rest,
              end,
            )
      ]

  -- On a causal network and a prompt that is not empty, `execute` does not raise, whatever the
  -- generator proposes: it generates what the model generates alone, one token in each pass, and
  -- counts no more tokens as accepted than were proposed.
  pub execute_lossless :
      (r : SpeculativeDecodingRun) × (execute propose
          (verify_candidates argmax_logits)
          prompt_tokens
          max_new_tokens
          num_candidates
        ≡ ok r)
      × (r.generated_tokens ≡ naive greedy max_new_tokens prompt_tokens)
      × (r.tokens_accepted_from_candidates ≤ r.tokens_proposed)
  execute_lossless =
      let (r, ran, faithful) =
        rounds-IsFaithful max_new_tokens
          (record {
            generated_tokens = [];
            forward_passes = 0;
            tokens_accepted_from_candidates = 0;
            tokens_proposed = 0;
          })
          (record { follows = tt; accepted = omega arith }) in
      let run : execute propose (verify_candidates argmax_logits) prompt_tokens max_new_tokens
            num_candidates
          ≡ ok r =
        unfold execute in ran in
      let exact =
        execute_exact propose (verify_candidates argmax_logits) prompt_tokens max_new_tokens
          num_candidates run in
      (
        r,
        run,
        sym (naive-eq greedy prompt_tokens r.generated_tokens (faithful.follows))
            ∙ ap (λ n. naive greedy n prompt_tokens) (exact.0),
        faithful.accepted,
      )
