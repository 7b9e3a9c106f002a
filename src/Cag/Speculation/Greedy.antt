-- ===== src/Cag/Speculation/Greedy.antt =====
-- Greedy decoding, one token at a time, and that `verify_candidates` accepts what agrees with it.
use ai_augmented_generation.Prelude.{
  ℕ, zero, suc, ◌+◌, ◌-◌, ◌≤◌, ◌<◌, ◌≡◌, refl, ap, sym, subst, ◌∙◌, true, false, some, List, [],
  ◌∷◌, ◌++◌, length, length-append, take, get_elem?, Outcome, ok, ◌==◌, nat_eq, ==_iff,
  if◌then◌else◌, arith, Bool-cases, inl, inr, append-nil, append_assoc,
}
use ai_augmented_generation.Cag.Speculation.{
  VerificationResult, index, predicted_at, verify_from, verify_candidates,
}

-- What the model generates from a context, in one forward pass for each token.
pub naive : (List ℕ → ℕ) → ℕ → List ℕ → List ℕ
naive greedy zero context = []
naive greedy (suc n) context = greedy context ∷ naive greedy n (context ++ greedy context ∷ [])

-- The network is causal: what it predicts at a position depends on the tokens up to there.
pub record IsCausal (argmax_logits : List ℕ → List ℕ) (greedy : List ℕ → ℕ) : Type 0 where
  pub one_each : (xs : List ℕ) → length (argmax_logits xs) ≡ length xs
  pub predicts :
      (xs ys : List ℕ)
      → 0 < length xs
      → get_elem? (argmax_logits (xs ++ ys)) (length xs - 1) ≡ some (greedy xs)

module _ (greedy : List ℕ → ℕ) where
  -- The tokens are what the model generates from the context.
  abbrev pub Follows : List ℕ → List ℕ → Type 0
  Follows context [] = Unit
  Follows context (x ∷ xs) = (greedy context ≡ x) × Follows (context ++ x ∷ []) xs

  pub naive-eq : (context xs : List ℕ) → Follows context xs → naive greedy (length xs) context ≡ xs
  unfolding naive
  naive-eq context [] h = refl
  naive-eq context (x ∷ xs) h = rw (h.0) (ap (◌∷◌ x) (naive-eq (context ++ x ∷ []) xs h.1))

  pub Follows-append :
      (context xs ys : List ℕ)
      → Follows context xs
      → Follows (context ++ xs) ys
      → Follows context (xs ++ ys)
  Follows-append context [] ys h k = subst (λ c. Follows c ys) (append-nil context) k
  Follows-append context (x ∷ xs) ys h k = (
    h.0,
    Follows-append (context ++ x ∷ []) xs ys (h.1)
        (subst (λ c. Follows c ys) (sym (append_assoc context (x ∷ []) xs)) k),
  )

  pub Follows-take :
      (n : ℕ) (context xs : List ℕ) → Follows context xs → Follows context (take n xs)
  Follows-take zero context xs h = tt
  Follows-take (suc n) context [] h = tt
  Follows-take (suc n) context (x ∷ xs) h = (h.0, Follows-take n (context ++ x ∷ []) xs h.1)

  -- The candidates up to the first that the model would not generate.
  pub agreed : List ℕ → List ℕ → List ℕ
  agreed context [] = []
  agreed context (c ∷ cs) =
      let rest = c ∷ agreed (context ++ c ∷ []) cs in if greedy context == c then rest else []

  pub agreed-Follows : (context cs : List ℕ) → Follows context (agreed context cs)
  unfolding agreed
  agreed-Follows context [] = tt
  agreed-Follows context (c ∷ cs) = elim (Bool-cases (greedy context == c)) [
    | inl e ↦ rw e ((==_iff (greedy context) c).0 e, agreed-Follows (context ++ c ∷ []) cs)
    | inr e ↦ rw e (tt)
  ]

  pub length-agreed-le : (context cs : List ℕ) → length (agreed context cs) ≤ length cs
  unfolding agreed
  length-agreed-le context [] = omega arith
  length-agreed-le context (c ∷ cs) = ground (arith, length-agreed-le (context ++ c ∷ []) cs)

  -- What `verify_candidates` gives for a context.
  abbrev pub verified : List ℕ → List ℕ → VerificationResult
  verified context cs = record {
    accepted_tokens = agreed context cs;
    bonus_token = some (greedy (context ++ agreed context cs));
  }

index_lem : {x : ℕ} (xs : List ℕ) (i : ℕ) → get_elem? xs i ≡ some x → index xs i ≡ ok x
unfolding index
index_lem xs i h = rw (h, index)

module _ (logits : List ℕ) (n i : ℕ) (c : ℕ) (cs accepted : List ℕ) (p : ℕ)
    (predicted : predicted_at logits n i ≡ ok p) where
  verify_from_match :
      (p == c) ≡ true
      → verify_from logits n i (c ∷ cs) accepted
        ≡ verify_from logits n (i + 1) cs (accepted ++ c ∷ [])
  unfolding verify_from
  verify_from_match e = rw predicted (rw e)

  verify_from_mismatch :
      (p == c) ≡ false
      → verify_from logits n i (c ∷ cs) accepted
        ≡ ok (record { accepted_tokens = accepted; bonus_token = some p })
  unfolding verify_from
  verify_from_mismatch e = rw predicted (rw e)

module _ (greedy : List ℕ → ℕ) (context : List ℕ) (c : ℕ) (cs : List ℕ) where
  agreed_match :
      (greedy context == c) ≡ true
      → agreed greedy context (c ∷ cs) ≡ c ∷ agreed greedy (context ++ c ∷ []) cs
  unfolding agreed
  agreed_match e = rw e

  agreed_mismatch : (greedy context == c) ≡ false → agreed greedy context (c ∷ cs) ≡ []
  unfolding agreed
  agreed_mismatch e = rw e

module _ (argmax_logits : List ℕ → List ℕ) (greedy : List ℕ → ℕ)
    (causal : IsCausal argmax_logits greedy) (tokens : List ℕ)
    (some_token : 0 < length tokens) where
  predicted_at_lem :
      (full cs accepted : List ℕ)
      → tokens ++ accepted ++ cs ≡ full
      → predicted_at (argmax_logits full) (length tokens) (length accepted)
        ≡ ok (greedy (tokens ++ accepted))
  unfolding predicted_at
  predicted_at_lem full cs accepted e = rw (← e) (
      rw position (
        index_lem (argmax_logits (tokens ++ accepted ++ cs)) (length (tokens ++ accepted) - 1)
          (causal.predicts (tokens ++ accepted) cs (omega (arith, length-append tokens accepted)))))
    where
      position :
          (if length tokens + length accepted == 0
            then length (argmax_logits (tokens ++ accepted ++ cs)) - 1
            else length tokens + length accepted - 1)
          ≡ length (tokens ++ accepted) - 1
      position = ground (arith, length-append tokens accepted)

  bonus_lem :
      (full accepted : List ℕ)
      → tokens ++ accepted ≡ full
      → index (argmax_logits full) (length (argmax_logits full) - 1)
        ≡ ok (greedy (tokens ++ accepted))
  bonus_lem full accepted e = rw (← e) (
      index_lem (argmax_logits (tokens ++ accepted))
        (length (argmax_logits (tokens ++ accepted)) - 1)
        (rw (causal.one_each (tokens ++ accepted)) (
          subst
            (λ xs.
              get_elem? (argmax_logits xs) (length (tokens ++ accepted) - 1)
              ≡ some (greedy (tokens ++ accepted)))
            (append-nil (tokens ++ accepted))
            (causal.predicts (tokens ++ accepted) []
              (omega (arith, length-append tokens accepted))))))

  abbrev verified_from : List ℕ → List ℕ → VerificationResult
  verified_from accepted agreeing = record {
    accepted_tokens = accepted ++ agreeing;
    bonus_token = some (greedy (tokens ++ (accepted ++ agreeing)));
  }

  regroup :
      (accepted : List ℕ) (c : ℕ) (cs : List ℕ)
      → tokens ++ (accepted ++ c ∷ []) ++ cs ≡ tokens ++ accepted ++ c ∷ cs
  regroup accepted c cs = simp (append_assoc)

  grown :
      (accepted : List ℕ) (c : ℕ) (cs : List ℕ) (o : ℕ → Outcome VerificationResult)
      → o (length (accepted ++ c ∷ []))
        ≡ ok
            (verified_from (accepted ++ c ∷ []) (agreed greedy (tokens ++ (accepted ++ c ∷ [])) cs))
      → o (length accepted + 1)
        ≡ ok (verified_from accepted (c ∷ agreed greedy (tokens ++ accepted ++ c ∷ []) cs))
  grown accepted c cs o h =
      ap o (omega (arith, length-append accepted (c ∷ [])))
      ∙ h
      ∙ ap (λ ctx. ok (verified_from (accepted ++ c ∷ []) (agreed greedy ctx cs)))
          (sym (append_assoc tokens accepted (c ∷ [])))
      ∙ ap (λ xs. ok (record { accepted_tokens = xs; bonus_token = some (greedy (tokens ++ xs)) }))
          (append_assoc accepted (c ∷ []) (agreed greedy (tokens ++ accepted ++ c ∷ []) cs))

  verify_from_lem :
      (full cs accepted : List ℕ)
      → tokens ++ accepted ++ cs ≡ full
      → verify_from (argmax_logits full) (length tokens) (length accepted) cs accepted
        ≡ ok (verified_from accepted (agreed greedy (tokens ++ accepted) cs))
  verify_from_lem full [] accepted e =
      unfold verify_from agreed in
      rw (bonus_lem full accepted (sym (append-nil (tokens ++ accepted)) ∙ e))
        (rw (append-nil accepted))
  verify_from_lem full (c ∷ cs) accepted e =
      let p = greedy (tokens ++ accepted) in
      let predicted = predicted_at_lem full (c ∷ cs) accepted e in
      elim (Bool-cases (p == c)) [
        | inl hit ↦
            verify_from_match (argmax_logits full) (length tokens) (length accepted) c cs accepted p
              predicted hit
            ∙ rw (agreed_match greedy (tokens ++ accepted) c cs hit) (
                grown accepted c cs
                  (λ i. verify_from (argmax_logits full) (length tokens) i cs (accepted ++ c ∷ []))
                  (verify_from_lem full cs (accepted ++ c ∷ []) (regroup accepted c cs ∙ e)))
        | inr miss ↦
            verify_from_mismatch (argmax_logits full) (length tokens) (length accepted) c cs
              accepted p predicted miss
            ∙ rw (agreed_mismatch greedy (tokens ++ accepted) c cs miss) (rw (append-nil accepted))
      ]

  pub verify_candidates_lem :
      (cs : List ℕ) → verify_candidates argmax_logits tokens cs ≡ ok (verified greedy tokens cs)
  unfolding verify_candidates
  verify_candidates_lem cs =
      verify_from_lem (tokens ++ cs) cs [] (ap (λ xs. xs ++ cs) (append-nil tokens))
      ∙ ap (λ ctx. ok (verified_from [] (agreed greedy ctx cs))) (append-nil tokens)
