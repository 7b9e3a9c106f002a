-- ===== src/Orchestration/Assembly/Packing.antt =====
-- The loop of `assemble_context` over the ranked items of one paradigm, against a reference: the
-- items that a first-come walk under the budget chooses.
use ai_augmented_generation.Prelude.{
  ℕ, ◌+◌, ◌≡◌, refl, ap, sym, subst, ◌∙◌, String, true, false, List, [], ◌∷◌, ◌++◌, if◌then◌else◌,
  length, All, ◌⊎◌, inl, inr, arith, Bool-cases, append_assoc, append-nil,
}
use ai_augmented_generation.Prelude.Int.{ℤ, pos, ltb_ℤ, ◌≤ℤ◌, ◌<ℤ◌}
use ai_augmented_generation.Prelude.Float.{Floats}
use ai_augmented_generation.Prelude.Sort.{IsDescending}
use ai_augmented_generation.Orchestration.Entities.{ContextItem}
use ai_augmented_generation.Orchestration.Assembly.{Slot, above, pack}

-- The item stands in the list.
abbrev pub Among : {F : Type 0} → ContextItem F → List (ContextItem F) → Type 0
Among x [] = ⊥
Among x (y ∷ ys) = (x ≡ y) ⊎ Among x ys

module _ (fl : Floats) (count_tokens : String → ℕ) where
  -- the tokens of all the contents
  unfoldable pub tokens : List (ContextItem fl.Float) → ℕ
  tokens [] = 0
  tokens (x ∷ xs) = count_tokens x.content + tokens xs

  tokens_cons :
      (x : ContextItem fl.Float) (xs : List (ContextItem fl.Float))
      → tokens (x ∷ xs) ≡ count_tokens x.content + tokens xs
  unfolding tokens
  tokens_cons x xs = refl

  pub tokens-append :
      (xs ys : List (ContextItem fl.Float)) → tokens (xs ++ ys) ≡ tokens xs + tokens ys
  unfolding tokens
  tokens-append [] ys = omega arith
  tokens-append (x ∷ xs) ys = omega (arith, tokens-append xs ys)

  -- What the walk chooses when `used` tokens are spent.
  pub chosen : ℤ → List (ContextItem fl.Float) → ℕ → List (ContextItem fl.Float)
  chosen budget [] used = []
  chosen budget (x ∷ xs) used =
      let skip = chosen budget xs used in
      let keep = x ∷ chosen budget xs (used + count_tokens x.content) in
      if ltb_ℤ budget (pos (used + count_tokens x.content)) then skip else keep

  module _ (budget : ℤ) where
    module _ (x : ContextItem fl.Float) (xs : List (ContextItem fl.Float)) where
      pack_skip :
          (s : Slot fl.Float)
          → ltb_ℤ budget (pos (s.tokens_used + count_tokens x.content)) ≡ true
          → pack fl count_tokens budget (x ∷ xs) s
            ≡ pack fl count_tokens budget xs (record s { dropped = s.dropped + 1 })
      unfolding pack
      pack_skip s over = ap (pack fl count_tokens budget xs) (rw over)

      pack_keep :
          (s : Slot fl.Float)
          → ltb_ℤ budget (pos (s.tokens_used + count_tokens x.content)) ≡ false
          → pack fl count_tokens budget (x ∷ xs) s
            ≡ pack fl count_tokens budget xs (record s {
              kept = s.kept ++ x ∷ [];
              tokens_used = s.tokens_used + count_tokens x.content;
            })
      unfolding pack
      pack_keep s fits = ap (pack fl count_tokens budget xs) (rw fits)

      chosen_skip :
          (used : ℕ)
          → ltb_ℤ budget (pos (used + count_tokens x.content)) ≡ true
          → chosen budget (x ∷ xs) used ≡ chosen budget xs used
      unfolding chosen
      chosen_skip used over = rw over

      chosen_keep :
          (used : ℕ)
          → ltb_ℤ budget (pos (used + count_tokens x.content)) ≡ false
          → chosen budget (x ∷ xs) used ≡ x ∷ chosen budget xs (used + count_tokens x.content)
      unfolding chosen
      chosen_keep used fits = rw fits

    -- What `pack` does, by the reference.
    pub pack-chosen :
        (xs : List (ContextItem fl.Float)) (s : Slot fl.Float)
        → ((pack fl count_tokens budget xs s).kept ≡ s.kept ++ chosen budget xs s.tokens_used)
          × ((pack fl count_tokens budget xs s).tokens_used
              ≡ s.tokens_used + tokens (chosen budget xs s.tokens_used))
          × ((pack fl count_tokens budget xs s).dropped + length (chosen budget xs s.tokens_used)
              ≡ s.dropped + length xs)
    pack-chosen [] s = unfold pack chosen tokens in (simp (append-nil), omega arith, omega arith)
    pack-chosen (x ∷ xs) s =
        elim (Bool-cases (ltb_ℤ budget (pos (s.tokens_used + count_tokens x.content)))) [
          | inl over ↦
              let ih = pack-chosen xs (record s { dropped = s.dropped + 1 }) in
              rw (pack_skip x xs s over)
                (rw (chosen_skip x xs s.tokens_used over) ((ih.0, ih.1, omega (arith, ih.2))))
          | inr fits ↦
              let used = s.tokens_used + count_tokens x.content in
              let ih = pack-chosen xs (record s { kept = s.kept ++ x ∷ []; tokens_used = used }) in
              rw (pack_keep x xs s fits) (
                rw (chosen_keep x xs s.tokens_used fits) (
                  (
                    ih.0 ∙ append_assoc s.kept (x ∷ []) (chosen budget xs used),
                    omega (arith, ih.1, tokens_cons x (chosen budget xs used)),
                    omega (arith, ih.2),
                  )))
        ]

    -- The chosen items fit in the budget, if any is chosen.
    pub chosen_fits :
        (xs : List (ContextItem fl.Float)) (used : ℕ)
        → (pos (used + tokens (chosen budget xs used)) ≤ℤ budget) ⊎ (chosen budget xs used ≡ [])
    unfolding chosen tokens
    chosen_fits [] used = inr refl
    chosen_fits (x ∷ xs) used =
        ground (arith, chosen_fits xs used, chosen_fits xs (used + count_tokens x.content))

    -- The item is among the chosen ones, or would not fit beside them.
    abbrev pub Placed : List (ContextItem fl.Float) → ℕ → ContextItem fl.Float → Type 0
    Placed ys used z = Among z ys ⊎ (budget <ℤ pos (used + tokens ys + count_tokens z.content))

    widen :
        (x : ContextItem fl.Float) (ys : List (ContextItem fl.Float)) (used : ℕ)
        (xs : List (ContextItem fl.Float))
        → All (Placed ys (used + count_tokens x.content)) xs
        → All (Placed (x ∷ ys) used) xs
    unfolding tokens
    widen x ys used [] h = tt
    widen x ys used (z ∷ xs) h =
        (elim (h.0) [ inl a ↦ inl (inr a) | inr o ↦ inr (omega arith) ], widen x ys used xs h.1)

    -- An item that is not chosen would not have fitted beside the chosen ones.
    pub chosen_maximal :
        (xs : List (ContextItem fl.Float)) (used : ℕ) → All (Placed (chosen budget xs used) used) xs
    chosen_maximal [] used = tt
    chosen_maximal (x ∷ xs) used =
        elim (Bool-cases (ltb_ℤ budget (pos (used + count_tokens x.content)))) [
          | inl over ↦
              subst (λ ys. All (Placed ys used) (x ∷ xs)) (sym (chosen_skip x xs used over))
                (inr (ground arith), chosen_maximal xs used)
          | inr fits ↦
              let more = used + count_tokens x.content in
              subst (λ ys. All (Placed ys used) (x ∷ xs)) (sym (chosen_keep x xs used fits))
                (inl (inl refl), widen x (chosen budget xs more) used xs (chosen_maximal xs more))
        ]

    pub All-chosen {κ} :
        (P : ContextItem fl.Float → Type κ) (xs : List (ContextItem fl.Float)) (used : ℕ)
        → All P xs
        → All P (chosen budget xs used)
    unfolding chosen
    All-chosen P [] used h = tt
    All-chosen P (x ∷ xs) used h =
        elim (Bool-cases (ltb_ℤ budget (pos (used + count_tokens x.content)))) [
          | inl over ↦ rw over (All-chosen P xs used h.1)
          | inr fits ↦ rw fits (h.0, All-chosen P xs (used + count_tokens x.content) h.1)
        ]

    pub chosen-IsDescending :
        (xs : List (ContextItem fl.Float)) (used : ℕ)
        → IsDescending (above fl count_tokens) xs
        → IsDescending (above fl count_tokens) (chosen budget xs used)
    unfolding chosen
    chosen-IsDescending [] used h = tt
    chosen-IsDescending (x ∷ xs) used h =
        elim (Bool-cases (ltb_ℤ budget (pos (used + count_tokens x.content)))) [
          | inl over ↦ rw over (chosen-IsDescending xs used h.1)
          | inr fits ↦ rw fits (
            All-chosen (λ y. above fl count_tokens y x ≡ false) xs (used + count_tokens x.content)
                h.0,
            chosen-IsDescending xs (used + count_tokens x.content) h.1,
          )
        ]
