-- ===== src/Orchestration/Entities.antt =====
-- src/orchestration/domain/entities.py: the data that the orchestration layer passes around. `F` is
-- the type of floats, and a UUID is its number.
use ai_augmented_generation.Prelude.{ℕ, String, Bool, true, false, ◌||◌, Option, List, [], ◌∷◌}
use ai_augmented_generation.Prelude.Int.{ℤ, ◌+ℤ◌}

pub data Paradigm : Type 0 where
  cag mag rag : Paradigm

-- `PARADIGM_ORDER`
abbrev pub paradigm_order : List Paradigm
paradigm_order = cag ∷ mag ∷ rag ∷ []

abbrev pub same : Paradigm → Paradigm → Bool
same cag cag = true
same mag mag = true
same rag rag = true
same _ _ = false

-- membership in a frozenset of paradigms
abbrev pub contains : List Paradigm → Paradigm → Bool
contains [] p = false
contains (q ∷ paradigms) p = same q p || contains paradigms p

pub data RoutingMode : Type 0 where
  cascade parallel : RoutingMode

pub data TierOutcome : Type 0 where
  hit partial miss timeout error : TierOutcome

pub record ContextItem (F : Type 0) : Type 0 where
  pub paradigm : Paradigm
  pub content : String
  pub score : F
  pub source_id : Option ℕ

pub record BudgetShares (F : Type 0) : Type 0 where
  pub cag : F
  pub mag : F
  pub rag : F
  pub query : F
  pub reserve : F

abbrev pub share_for : {F : Type 0} → BudgetShares F → Paradigm → F
share_for s Paradigm.cag = s.cag
share_for s Paradigm.mag = s.mag
share_for s Paradigm.rag = s.rag

pub record BudgetAllocation : Type 0 where
  pub cag : ℤ
  pub mag : ℤ
  pub rag : ℤ
  pub query : ℤ
  pub reserve : ℤ

-- `BudgetAllocation.total`
unfoldable pub total : BudgetAllocation → ℤ
total a = a.cag +ℤ a.mag +ℤ a.rag +ℤ a.query +ℤ a.reserve

abbrev pub slice_for : BudgetAllocation → Paradigm → ℤ
slice_for a Paradigm.cag = a.cag
slice_for a Paradigm.mag = a.mag
slice_for a Paradigm.rag = a.rag
