-- ===== src/Mag/Gating/Budget.antt =====
-- What is selected under a token budget.
use ai_augmented_generation.Prelude.{
  ◌≡◌, ◌⊎◌, refl, sym, subst, inl, inr, ℕ, ◌+◌, ◌≤◌, Bool, true, false, List, [], ◌∷◌, nat_eq,
  string_eq, Bool-cases, arith, All,
}
use ai_augmented_generation.Prelude.Int.{ℤ, pos, pos_part, ltb_ℤ, is_negative, ◌<ℤ◌}
use ai_augmented_generation.Prelude.Float.{Floats}
use ai_augmented_generation.Prelude.Sort.{place, sorted_desc, All-unsorted_desc}
use ai_augmented_generation.Mag.Gating.{
  GatingCandidate, Ops, scores_higher, by_score, fill_budget, token_budget_allocation,
}

module _ {J : Type 0} (floats : Floats) (ops : Ops floats.Float J) where
  abbrev pub Entry : Type 0
  Entry = GatingCandidate floats.Float J

  -- the tokens of all the texts
  abbrev pub tokens : List Entry → ℕ
  tokens [] = 0
  tokens (c ∷ cs) = ops.count_tokens c.content_text + tokens cs

  abbrev pub Among : Entry → List Entry → Type 0
  Among x [] = ⊥
  Among x (y ∷ ys) = (x ≡ y) ⊎ Among x ys

  module _ (above : Entry → Entry → Bool) where
    tokens-place :
        (x : Entry) (ys : List Entry)
        → tokens (place above x ys) ≡ ops.count_tokens x.content_text + tokens ys
    unfolding place
    tokens-place x [] = refl
    tokens-place x (y ∷ ys) = elim (Bool-cases (above y x)) [
      | inl e ↦ rw e (omega (arith, tokens-place x ys))
      | inr e ↦ rw e refl
    ]

    pub tokens-sorted_desc : (cs : List Entry) → tokens (sorted_desc above cs) ≡ tokens cs
    unfolding sorted_desc
    tokens-sorted_desc [] = refl
    tokens-sorted_desc (c ∷ cs) =
        omega (arith, tokens-place c (sorted_desc above cs), tokens-sorted_desc cs)

  module _ (token_budget : ℤ) where
    fill_skip :
        (c : Entry) (cs : List Entry) (total : ℕ)
        → ltb_ℤ token_budget (pos (total + ops.count_tokens c.content_text)) ≡ true
        → fill_budget floats ops token_budget total (c ∷ cs)
          ≡ fill_budget floats ops token_budget total cs
    unfolding fill_budget
    fill_skip c cs total over = rw over refl

    fill_keep :
        (c : Entry) (cs : List Entry) (total : ℕ)
        → ltb_ℤ token_budget (pos (total + ops.count_tokens c.content_text)) ≡ false
        → fill_budget floats ops token_budget total (c ∷ cs)
          ≡ c ∷ fill_budget floats ops token_budget (total + ops.count_tokens c.content_text) cs
    unfolding fill_budget
    fill_keep c cs total fits = rw fits refl

    fill_fits :
        (cs : List Entry) (total : ℕ)
        → total ≤ pos_part token_budget
        → total + tokens (fill_budget floats ops token_budget total cs) ≤ pos_part token_budget
    fill_fits [] total h = unfold fill_budget in omega arith
    fill_fits (c ∷ cs) total h =
        let more = total + ops.count_tokens c.content_text in
        elim (Bool-cases (ltb_ℤ token_budget (pos more))) [
          | inl over ↦ rw (fill_skip c cs total over) (fill_fits cs total h)
          | inr fits ↦
              let ih = fill_fits cs more (ground arith) in
              rw (fill_keep c cs total fits) (omega (arith, ih))
        ]

    -- It is selected, or would not fit beside what is.
    abbrev pub Placed : List Entry → ℕ → Entry → Type 0
    Placed ys total z =
        Among z ys ⊎ (token_budget <ℤ pos (total + tokens ys + ops.count_tokens z.content_text))

    widen :
        (x : Entry) (ys : List Entry) (total : ℕ) (xs : List Entry)
        → All (Placed ys (total + ops.count_tokens x.content_text)) xs
        → All (Placed (x ∷ ys) total) xs
    widen x ys total [] h = tt
    widen x ys total (z ∷ xs) h =
        (elim (h.0) [ inl a ↦ inl (inr a) | inr o ↦ inr (omega arith) ], widen x ys total xs h.1)

    fill_maximal :
        (cs : List Entry) (total : ℕ)
        → All (Placed (fill_budget floats ops token_budget total cs) total) cs
    fill_maximal [] total = tt
    fill_maximal (c ∷ cs) total =
        let more = total + ops.count_tokens c.content_text in
        elim (Bool-cases (ltb_ℤ token_budget (pos more))) [
          | inl over ↦
              subst (λ ys. All (Placed ys total) (c ∷ cs)) (sym (fill_skip c cs total over))
                (inr (ground arith), fill_maximal cs total)
          | inr fits ↦
              subst (λ ys. All (Placed ys total) (c ∷ cs)) (sym (fill_keep c cs total fits))
                (
                  inl (inl refl),
                  widen c (fill_budget floats ops token_budget more cs) total cs
                      (fill_maximal cs more),
                )
        ]

    pub All-fill_budget :
        (P : Entry → Type 0) (cs : List Entry) (total : ℕ)
        → All P cs
        → All P (fill_budget floats ops token_budget total cs)
    All-fill_budget P [] total h = unfold fill_budget in tt
    All-fill_budget P (c ∷ cs) total h =
        let more = total + ops.count_tokens c.content_text in
        elim (Bool-cases (ltb_ℤ token_budget (pos more))) [
          | inl over ↦ rw (fill_skip c cs total over) (All-fill_budget P cs total (h.1))
          | inr fits ↦ rw (fill_keep c cs total fits) (h.0, All-fill_budget P cs more (h.1))
        ]

    All-over : (cs : List Entry) → is_negative token_budget ≡ true → All (Placed [] 0) cs
    All-over [] h = tt
    All-over (c ∷ cs) h = (inr (ground arith), All-over cs h)

    -- The texts of what token_budget_allocation selects fit in the budget, and a candidate that it
    -- leaves out would not fit beside them; under a negative budget it selects none.
    pub token_budget_allocation_lem :
        (cs : List Entry)
        → (tokens (token_budget_allocation floats ops cs token_budget) ≤ pos_part token_budget)
          × All (Placed (token_budget_allocation floats ops cs token_budget) 0) cs
          × ((is_negative token_budget ≡ false)
              ⊎ (token_budget_allocation floats ops cs token_budget ≡ []))
    unfolding token_budget_allocation by_score
    token_budget_allocation_lem cs = elim (Bool-cases (is_negative token_budget)) [
      | inl negative ↦ rw negative (omega arith, All-over cs negative, inr refl)
      | inr enough ↦
          let ranked = sorted_desc (scores_higher floats ops) cs in
          let selected = fill_budget floats ops token_budget 0 ranked in
          rw enough (
            omega (arith, fill_fits ranked 0 (omega arith)),
            All-unsorted_desc (scores_higher floats ops) (Placed selected 0) cs
                (fill_maximal ranked 0),
            inl refl,
          )
    ]
