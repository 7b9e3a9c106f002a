-- ===== src/Orchestration/Budget/Tests.antt =====
-- `allocate` at concrete inputs, with the default shares as exact fractions.
use ai_augmented_generation.Prelude.{◌≡◌, refl, [], ◌∷◌, arith, ok}
use ai_augmented_generation.Prelude.Int.{pos, ◌+ℤ◌, ◌-ℤ◌, ◌≤ℤ◌}
use ai_augmented_generation.Prelude.Float.{Fraction, fraction, fractions}
use ai_augmented_generation.Orchestration.Entities.{
  Paradigm, cag, mag, rag, BudgetShares, BudgetAllocation, total, share_for,
}
use ai_augmented_generation.Orchestration.Budget.{
  first_active, all_active, recipients, portion_of, sum_shares, weighted, give, donate, reallocate,
  reallocate_all, base_slices, initial_reserve, allocate,
}
use ai_augmented_generation.Orchestration.Budget.Laws.{RoundsDown, total-allocate}

program : Unit {0}
unfolding first_active all_active recipients portion_of sum_shares weighted give donate reallocate
    reallocate_all base_slices initial_reserve allocate total ◌+ℤ◌ ◌-ℤ◌
program = tt

abbrev pub defaults : BudgetShares Fraction
defaults = record {
  cag = fraction 40 100;
  mag = fraction 25 100;
  rag = fraction 20 100;
  query = fraction 10 100;
  reserve = fraction 5 100;
}

-- No MAG state in a window of 1003 tokens: CAG and RAG share MAG's 250 as 2 to 1, and the rounding
-- lands in the reserve.
abbrev pub new_session : BudgetAllocation
new_session = record {
  cag = pos 567;
  mag = pos 0;
  rag = pos 283;
  query = pos 100;
  reserve = pos 53;
}

pub new_session_run : allocate fractions (pos 1003) (rag ∷ cag ∷ []) defaults ≡ ok new_session
unfolding program
new_session_run = refl

-- A window of 20 tokens, with only RAG to fill it.
abbrev pub small_window : BudgetAllocation
small_window = record { cag = pos 0; mag = pos 0; rag = pos 17; query = pos 2; reserve = pos 1 }

small_window_run : allocate fractions (pos 20) (rag ∷ []) defaults ≡ ok small_window
unfolding program
small_window_run = refl

pub defaults_round : RoundsDown fractions defaults 1003
unfolding program
defaults_round = record {
  share_nonneg = nonneg;
  shares_fit = omega arith;
  part_nonneg = part;
  parts_fit = omega arith;
}
  where
    nonneg : (p : Paradigm) → pos 0 ≤ℤ portion_of fractions (pos 1003) (share_for defaults p)
    nonneg cag = omega arith
    nonneg mag = omega arith
    nonneg rag = omega arith

    part :
        (p : Paradigm)
        → pos 0
          ≤ℤ weighted fractions
              (portion_of fractions (pos 1003) defaults.mag)
              (share_for defaults p)
              (sum_shares fractions defaults (fraction 0 1) (cag ∷ rag ∷ []))
    part cag = omega arith
    part mag = omega arith
    part rag = omega arith

total-allocate_example : total new_session ≡ pos 1003
total-allocate_example =
    total-allocate fractions defaults (pos 1003) (rag ∷ cag ∷ []) {a = new_session} new_session_run
