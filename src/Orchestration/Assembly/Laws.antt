-- ===== src/Orchestration/Assembly/Laws.antt =====
-- What `assemble_context` promises of the prompt.
use ai_augmented_generation.Prelude.{
  ℕ, ◌+◌, ◌≡◌, refl, ap, String, true, false, List, [], ◌∷◌, ◌++◌, length, All, ◌⊎◌, inl, inr,
  arith, Bool-cases, append-nil,
}
use ai_augmented_generation.Prelude.Int.{pos, ◌≤ℤ◌, ◌<ℤ◌}
use ai_augmented_generation.Prelude.Float.{Floats}
use ai_augmented_generation.Prelude.Sort.{
  sorted_desc, length-sorted_desc, All-sorted_desc, All-unsorted_desc, IsTotal, IsDescending,
  sorted_desc-IsDescending,
}
use ai_augmented_generation.Orchestration.Entities.{
  Paradigm, cag, mag, rag, same, ContextItem, BudgetAllocation, slice_for, total,
}
use ai_augmented_generation.Orchestration.Assembly.{
  Slot, AssembledContext, above, of_paradigm, pack, fill, fill_all, assemble_context, count_for,
}
use ai_augmented_generation.Orchestration.Assembly.Packing.{
  Among, tokens, chosen, pack-chosen, chosen_fits, chosen_maximal, Placed, All-chosen,
  chosen-IsDescending,
}

module _ {F : Type 0} (p : Paradigm) where
  of_paradigm-append :
      (xs ys : List (ContextItem F))
      → of_paradigm p (xs ++ ys) ≡ of_paradigm p xs ++ of_paradigm p ys
  unfolding of_paradigm
  of_paradigm-append [] ys = refl
  of_paradigm-append (x ∷ xs) ys = ground (arith, of_paradigm-append xs ys)

  of_paradigm_pure :
      (xs : List (ContextItem F)) → All (λ x. same x.paradigm p ≡ true) (of_paradigm p xs)
  unfolding of_paradigm
  of_paradigm_pure [] = tt
  of_paradigm_pure (x ∷ xs) = elim (Bool-cases (same x.paradigm p)) [
    | inl e ↦ rw e (e, of_paradigm_pure xs)
    | inr e ↦ rw e (of_paradigm_pure xs)
  ]

  of_paradigm_id :
      (xs : List (ContextItem F)) → All (λ x. same x.paradigm p ≡ true) xs → of_paradigm p xs ≡ xs
  unfolding of_paradigm
  of_paradigm_id [] h = refl
  of_paradigm_id (x ∷ xs) h = rw (h.0) (ap (◌∷◌ x) (of_paradigm_id xs h.1))

  of_paradigm_none :
      (xs : List (ContextItem F)) → All (λ x. same x.paradigm p ≡ false) xs → of_paradigm p xs ≡ []
  unfolding of_paradigm
  of_paradigm_none [] h = refl
  of_paradigm_none (x ∷ xs) h = rw (h.0) (of_paradigm_none xs h.1)

same_one : (r p q : Paradigm) → same p q ≡ false → same r p ≡ true → same r q ≡ false
same_one cag cag q h e = h
same_one mag mag q h e = h
same_one rag rag q h e = h
same_one r p q h e = cc e

module _ (fl : Floats) (count_tokens : String → ℕ) where
  module _ (items : List (ContextItem fl.Float)) (a : BudgetAllocation) where
    -- What the walk of one paradigm keeps.
    pub kept : Paradigm → List (ContextItem fl.Float)
    kept p =
        chosen fl count_tokens (slice_for a p)
          (sorted_desc (above fl count_tokens) (of_paradigm p items)) 0

    kept_same : (p : Paradigm) → All (λ x. same x.paradigm p ≡ true) (kept p)
    unfolding kept
    kept_same p =
        All-chosen fl count_tokens (slice_for a p) (λ x. same x.paradigm p ≡ true)
          (sorted_desc (above fl count_tokens) (of_paradigm p items)) 0
          (All-sorted_desc (above fl count_tokens) (λ x. same x.paradigm p ≡ true)
            (of_paradigm p items) (of_paradigm_pure p items))

    abbrev slot : Paradigm → Slot fl.Float
    slot p =
        pack fl count_tokens (slice_for a p)
          (sorted_desc (above fl count_tokens) (of_paradigm p items))
          (record { kept = []; dropped = 0; tokens_used = 0 })

    slot_lem :
        (p : Paradigm)
        → ((slot p).kept ≡ kept p)
          × ((slot p).tokens_used ≡ tokens fl count_tokens (kept p))
          × ((slot p).dropped + length (kept p) ≡ length (of_paradigm p items))
    unfolding kept
    slot_lem p =
        let ranked = sorted_desc (above fl count_tokens) (of_paradigm p items) in
        let packed =
          pack-chosen fl count_tokens (slice_for a p) ranked
            (record { kept = []; dropped = 0; tokens_used = 0 }) in
        (
          packed.0,
          omega (arith, packed.1),
          omega (arith, packed.2, length-sorted_desc (above fl count_tokens) (of_paradigm p items)),
        )

    abbrev result : AssembledContext fl.Float
    result = assemble_context fl count_tokens items a

    pub included_lem : result.included ≡ (kept cag ++ kept mag) ++ kept rag
    unfolding assemble_context fill_all fill
    included_lem = rw ((slot_lem cag).0) (rw ((slot_lem mag).0) (rw ((slot_lem rag).0)))

    pub used_lem : (p : Paradigm) → count_for result.tokens_used p ≡ tokens fl count_tokens (kept p)
    unfolding assemble_context fill_all fill
    used_lem cag = (slot_lem cag).1
    used_lem mag = (slot_lem mag).1
    used_lem rag = (slot_lem rag).1

    dropped_lem :
        (p : Paradigm) → count_for result.dropped p + length (kept p) ≡ length (of_paradigm p items)
    unfolding assemble_context fill_all fill
    dropped_lem cag = (slot_lem cag).2
    dropped_lem mag = (slot_lem mag).2
    dropped_lem rag = (slot_lem rag).2

    kept_other : (p q : Paradigm) → same p q ≡ false → of_paradigm q (kept p) ≡ []
    kept_other p q h = of_paradigm_none q (kept p) (others (kept p) (kept_same p))
      where
        others :
            (xs : List (ContextItem fl.Float))
            → All (λ x. same x.paradigm p ≡ true) xs
            → All (λ x. same x.paradigm q ≡ false) xs
        others [] s = tt
        others (x ∷ xs) s = (same_one x.paradigm p q h (s.0), others xs (s.1))

    kept_lem : (p : Paradigm) → of_paradigm p result.included ≡ kept p
    kept_lem p = rw included_lem (
        rw (of_paradigm-append p (kept cag ++ kept mag) (kept rag))
          (rw (of_paradigm-append p (kept cag) (kept mag)) (parts p)))
      where
        parts :
            (p : Paradigm)
            → (of_paradigm p (kept cag) ++ of_paradigm p (kept mag)) ++ of_paradigm p (kept rag)
              ≡ kept p
        parts cag =
            rw (of_paradigm_id cag (kept cag) (kept_same cag))
              (rw (kept_other mag cag refl) (rw (kept_other rag cag refl) (simp (append-nil))))
        parts mag =
            rw (of_paradigm_id mag (kept mag) (kept_same mag))
              (rw (kept_other cag mag refl) (rw (kept_other rag mag refl) (simp (append-nil))))
        parts rag =
            rw (of_paradigm_id rag (kept rag) (kept_same rag))
              (rw (kept_other cag rag refl) (rw (kept_other mag rag refl)))

    pub kept_fits :
        (p : Paradigm) → (pos (tokens fl count_tokens (kept p)) ≤ℤ slice_for a p) ⊎ (kept p ≡ [])
    unfolding kept
    kept_fits p =
        let ranked = sorted_desc (above fl count_tokens) (of_paradigm p items) in
        elim (chosen_fits fl count_tokens (slice_for a p) ranked 0) [
          | inl fits ↦ inl (omega arith)
          | inr none_kept ↦ inr none_kept
        ]

    kept_maximal :
        (p : Paradigm)
        → All (Placed fl count_tokens (slice_for a p) (kept p) 0) (of_paradigm p items)
    unfolding kept
    kept_maximal p =
        let ranked = sorted_desc (above fl count_tokens) (of_paradigm p items) in
        All-unsorted_desc (above fl count_tokens)
          (Placed fl count_tokens (slice_for a p) (kept p) 0) (of_paradigm p items)
          (chosen_maximal fl count_tokens (slice_for a p) ranked 0)

    kept-IsDescending :
        IsTotal (above fl count_tokens)
        → (p : Paradigm) → IsDescending (above fl count_tokens) (kept p)
    unfolding kept
    kept-IsDescending total p =
        let ranked = sorted_desc (above fl count_tokens) (of_paradigm p items) in
        chosen-IsDescending fl count_tokens (slice_for a p) ranked 0
          (sorted_desc-IsDescending (above fl count_tokens) total (of_paradigm p items))

    -- `tokens_used` is the tokens of what is included of each paradigm, and they fit in its slice
    -- unless nothing of it is included.
    pub assemble_context_fits :
        (p : Paradigm)
        → (count_for result.tokens_used p ≡ tokens fl count_tokens (of_paradigm p result.included))
          × ((pos (count_for result.tokens_used p) ≤ℤ slice_for a p)
              ⊎ (of_paradigm p result.included ≡ []))
    assemble_context_fits p = rw (kept_lem p) (rw (used_lem p) ((refl, kept_fits p)))

    -- What is not included of a paradigm is counted as dropped.
    pub assemble_context_accounts :
        (p : Paradigm)
        → count_for result.dropped p + length (of_paradigm p result.included)
          ≡ length (of_paradigm p items)
    assemble_context_accounts p = rw (kept_lem p) (dropped_lem p)

    -- Every item is included, or its content would not fit in its paradigm's slice beside what is
    -- included.
    pub assemble_context_maximal :
        (p : Paradigm)
        → All
            (λ item.
              Among item (of_paradigm p result.included)
              ⊎ (slice_for a p <ℤ pos (count_for result.tokens_used p + count_tokens item.content)))
            (of_paradigm p items)
    assemble_context_maximal p =
        rw (kept_lem p) (rw (used_lem p) (from_zero (of_paradigm p items) (kept_maximal p)))
      where
        from_zero :
            (xs : List (ContextItem fl.Float))
            → All (Placed fl count_tokens (slice_for a p) (kept p) 0) xs
            → All
                (λ item.
                  Among item (kept p)
                  ⊎ (slice_for a p
                      <ℤ pos (tokens fl count_tokens (kept p) + count_tokens item.content)))
                xs
        from_zero [] h = tt
        from_zero (x ∷ xs) h =
            (elim (h.0) [ inl k ↦ inl k | inr o ↦ inr (omega arith) ], from_zero xs (h.1))

    -- Where the scores are totally ordered, each paradigm's items stand best first.
    pub assemble_context_ranked :
        IsTotal (above fl count_tokens)
        → (p : Paradigm) → IsDescending (above fl count_tokens) (of_paradigm p result.included)
    assemble_context_ranked total p = rw (kept_lem p) (kept-IsDescending total p)
