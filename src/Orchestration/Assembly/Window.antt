-- ===== src/Orchestration/Assembly/Window.antt =====
-- `assemble_context` after `allocate`: the contents of the items that a turn includes against the
-- context window. The headers of the sections and the separators are charged to no slice, and not
-- counted here.
use ai_augmented_generation.Prelude.{
  ℕ, ◌≡◌, ap, String, List, ◌++◌, arith, ok, Bool-cases, inl, inr,
}
use ai_augmented_generation.Prelude.Int.{pos, ◌+ℤ◌, ◌≤ℤ◌, int_laws, parts_of_eq}
use ai_augmented_generation.Prelude.Float.{Floats}
use ai_augmented_generation.Orchestration.Entities.{
  Paradigm, cag, mag, rag, contains, ContextItem, BudgetShares, BudgetAllocation, slice_for, total,
}
use ai_augmented_generation.Orchestration.Budget.{allocate}
use ai_augmented_generation.Orchestration.Budget.Laws.{
  RoundsDown, total-allocate, idle_slice, active_slice, reserve_nonneg,
}
use ai_augmented_generation.Orchestration.Assembly.{assemble_context}
use ai_augmented_generation.Orchestration.Assembly.Packing.{tokens, tokens-append}
use ai_augmented_generation.Orchestration.Assembly.Laws.{kept, kept_fits, included_lem}

module _ (fl : Floats) (count_tokens : String → ℕ) (shares : BudgetShares fl.Float) (n : ℕ)
    (rounds : RoundsDown fl shares n) (contributing : List Paradigm)
    (items : List (ContextItem fl.Float)) {a : BudgetAllocation}
    (allocated : allocate fl (pos n) contributing shares ≡ ok a) where
  slice_nonneg : (p : Paradigm) → pos 0 ≤ℤ slice_for a p
  slice_nonneg p = elim (Bool-cases (contains contributing p)) [
    | inl active ↦ omega (
      arith,
      rounds.share_nonneg p,
      active_slice fl shares n rounds contributing p active allocated,
    )
    | inr idle ↦
        omega (arith, parts_of_eq (idle_slice fl shares (pos n) contributing p idle allocated))
  ]

  within :
      (p : Paradigm)
      → pos (tokens fl count_tokens (kept fl count_tokens items a p)) ≤ℤ slice_for a p
  unfolding tokens
  within p = elim (kept_fits fl count_tokens items a p) [
    | inl fits ↦ fits
    | inr none_kept ↦ rw none_kept (slice_nonneg p)
  ]

  -- Where the floats round down, the tokens of all that a turn includes, with the slice of the
  -- query, fit in the context window that `allocate` was given.
  pub assemble_context-allocate :
      pos (tokens fl count_tokens (assemble_context fl count_tokens items a).included) +ℤ a.query
      ≤ℤ pos n
  unfolding total
  assemble_context-allocate =
      let k = kept fl count_tokens items a in
      omega (
        int_laws,
        within cag,
        within mag,
        within rag,
        reserve_nonneg fl shares n rounds contributing allocated,
        parts_of_eq (total-allocate fl shares (pos n) contributing allocated),
        ap (tokens fl count_tokens) (included_lem fl count_tokens items a),
        tokens-append fl count_tokens (k cag ++ k mag) (k rag),
        tokens-append fl count_tokens (k cag) (k mag),
      )
