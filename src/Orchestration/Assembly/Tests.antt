-- ===== src/Orchestration/Assembly/Tests.antt =====
-- `assemble_context` at concrete inputs. A text counts one token for each byte, and a score is a
-- whole number.
use Prim.Native.String.{len}
use ai_augmented_generation.Prelude.{
  ℕ, ◌+◌, ◌≡◌, refl, String, List, [], ◌∷◌, length, All, ◌⊎◌, arith, none,
}
use ai_augmented_generation.Prelude.Int.{pos, ◌+ℤ◌, ◌≤ℤ◌, ◌<ℤ◌}
use ai_augmented_generation.Prelude.Float.{fraction, fractions, wholes, Fraction}
use ai_augmented_generation.Prelude.Sort.{place, sorted_desc, IsTotal, IsDescending}
use ai_augmented_generation.Orchestration.Entities.{
  Paradigm, cag, rag, ContextItem, BudgetAllocation, slice_for,
}
use ai_augmented_generation.Orchestration.Assembly.{
  join, section_of, above, of_paradigm, pack, fill, fill_all, assemble_context, count_for,
}
use ai_augmented_generation.Orchestration.Assembly.Packing.{Among, tokens}
use ai_augmented_generation.Orchestration.Assembly.Laws.{
  assemble_context_fits, assemble_context_accounts, assemble_context_maximal,
  assemble_context_ranked,
}
use ai_augmented_generation.Orchestration.Budget.Tests.{
  defaults, defaults_round, new_session, new_session_run, small_window,
}
use ai_augmented_generation.Orchestration.Assembly.Window.{assemble_context-allocate}

program : Unit {0}
unfolding place sorted_desc join section_of of_paradigm pack fill fill_all assemble_context
program = tt

abbrev item : Paradigm → String → ℕ → ContextItem ℕ
item p text score = record { paradigm = p; content = text; score = score; source_id = none }

abbrev items : List (ContextItem ℕ)
items =
    item rag "four" 1 ∷ item rag "a long passage" 9 ∷ item cag "policy" 5 ∷ item rag "three" 7 ∷ []

abbrev slices : BudgetAllocation
slices = record { cag = pos 10; mag = pos 0; rag = pos 9; query = pos 4; reserve = pos 2 }

-- The long passage is skipped, and the shorter ones after it still go in, best first.
packed :
    (assemble_context wholes len items slices).included
    ≡ item cag "policy" 5 ∷ item rag "three" 7 ∷ item rag "four" 1 ∷ []
unfolding program
packed = refl

packed_text :
    (assemble_context wholes len items slices).text
    ≡ "## Pre-loaded reference knowledge (CAG)\npolicy\n\n## Retrieved documents (RAG)\nthree\n\nfour"
unfolding program
packed_text = refl

assemble_context_fits_example :
    (let result = assemble_context wholes len items slices in
      (count_for result.tokens_used rag ≡ tokens wholes len (of_paradigm rag result.included))
      × ((pos (count_for result.tokens_used rag) ≤ℤ slice_for slices rag)
          ⊎ (of_paradigm rag result.included ≡ [])))
assemble_context_fits_example = assemble_context_fits wholes len items slices rag

assemble_context_accounts_example :
    (let result = assemble_context wholes len items slices in
      count_for result.dropped rag + length (of_paradigm rag result.included)
      ≡ length (of_paradigm rag items))
assemble_context_accounts_example = assemble_context_accounts wholes len items slices rag

assemble_context_maximal_example :
    (let result = assemble_context wholes len items slices in
      All
        (λ x.
          Among x (of_paradigm rag result.included)
          ⊎ (slice_for slices rag <ℤ pos (count_for result.tokens_used rag + len x.content)))
        (of_paradigm rag items))
assemble_context_maximal_example = assemble_context_maximal wholes len items slices rag

scores-IsTotal : IsTotal (above wholes len)
scores-IsTotal = record { asym = λ x y h. ground arith; at_most_trans = λ x y z h k. ground arith }

assemble_context_ranked_example :
    IsDescending
      (above wholes len)
      (of_paradigm rag (assemble_context wholes len items slices).included)
assemble_context_ranked_example = assemble_context_ranked wholes len items slices scores-IsTotal rag

-- An item that a retriever scored 0.9, in the window of 1003 tokens of the budget's tests.
abbrev passages : List (ContextItem Fraction)
passages =
    record { paradigm = rag; content = "three"; score = fraction 9 10; source_id = none } ∷ []

assemble_context-allocate_example :
    pos (tokens fractions len (assemble_context fractions len passages new_session).included)
      +ℤ pos 100
    ≤ℤ pos 1003
assemble_context-allocate_example =
    assemble_context-allocate fractions len defaults 1003 defaults_round (rag ∷ cag ∷ []) passages
      {a = new_session} new_session_run

-- In a window of 20 tokens the header of the one section does not fit in the reserve of 1, and the
-- text is longer than the window.
header_overflows : len (assemble_context fractions len passages small_window).text ≡ 34
unfolding program
header_overflows = refl
