-- ===== src/Orchestration/Budget.antt =====
-- src/orchestration/domain/budget_allocator.py: slicing the context window for one turn.
pub mod Laws
pub mod Tests
use ai_augmented_generation.Prelude.{
  ℕ, Bool, true, false, List, [], ◌∷◌, Outcome, ok, raise, value_error, if◌then◌else◌,
}
use ai_augmented_generation.Prelude.Int.{ℤ, pos, ◌+ℤ◌, ◌-ℤ◌, is_negative}
use ai_augmented_generation.Prelude.Float.{Floats}
use ai_augmented_generation.Orchestration.Entities.{
  Paradigm, cag, mag, rag, paradigm_order, contains, BudgetShares, share_for, BudgetAllocation,
}

-- `next(((p,) for p in candidates if p in active), ())`
first_active : List Paradigm → List Paradigm → List Paradigm
first_active active [] = []
first_active active (p ∷ candidates) =
    let rest = first_active active candidates in if contains active p then p ∷ [] else rest

-- `tuple(p for p in candidates if p in active)`
all_active : List Paradigm → List Paradigm → List Paradigm
all_active active [] = []
all_active active (p ∷ candidates) =
    let rest = all_active active candidates in if contains active p then p ∷ rest else rest

-- `_recipients`
pub recipients : Paradigm → List Paradigm → List Paradigm
recipients rag active = first_active active (mag ∷ cag ∷ [])
recipients cag active = first_active active (rag ∷ mag ∷ [])
recipients mag active = all_active active (cag ∷ rag ∷ [])

-- A dict with one integer for each paradigm.
pub record Slices : Type 0 where
  pub cag : ℤ
  pub mag : ℤ
  pub rag : ℤ

abbrev pub slice : Slices → Paradigm → ℤ
slice s Paradigm.cag = s.cag
slice s Paradigm.mag = s.mag
slice s Paradigm.rag = s.rag

-- `slices[p] += n`
abbrev pub gain : Slices → Paradigm → ℤ → Slices
gain s Paradigm.cag n = record s { cag = s.cag +ℤ n }
gain s Paradigm.mag n = record s { mag = s.mag +ℤ n }
gain s Paradigm.rag n = record s { rag = s.rag +ℤ n }

-- `slices[p] -= n`
abbrev pub lose : Slices → Paradigm → ℤ → Slices
lose s Paradigm.cag n = record s { cag = s.cag -ℤ n }
lose s Paradigm.mag n = record s { mag = s.mag -ℤ n }
lose s Paradigm.rag n = record s { rag = s.rag -ℤ n }

-- the variables of the loop over the idle paradigms
pub record Ledger : Type 0 where
  pub slices : Slices
  pub reserve : ℤ

module _ (fl : Floats) where
  open fl use {Float, of_int, add, mul, div, floor, le}

  -- `math.floor(n * share)`
  pub portion_of : ℤ → Float → ℤ
  portion_of n share = floor (mul (of_int n) share)

  -- `sum(shares.for_paradigm(p) for p in recipients)`
  pub sum_shares : BudgetShares Float → Float → List Paradigm → Float
  sum_shares shares acc [] = acc
  sum_shares shares acc (p ∷ ps) = sum_shares shares (add acc (share_for shares p)) ps

  -- `math.floor(donation * share / weight_total)`
  pub weighted : ℤ → Float → Float → ℤ
  weighted donation share weight_total = floor (div (mul (of_int donation) share) weight_total)

  -- The loop over the recipients; it gives the slices and what was given.
  pub give : BudgetShares Float → ℤ → Float → List Paradigm → Slices → ℤ → Slices × ℤ
  give shares donation weight_total [] slices given = (slices, given)
  give shares donation weight_total (p ∷ ps) slices given =
      let portion = weighted donation (share_for shares p) weight_total in
      give shares donation weight_total ps (gain slices p portion) (given +ℤ portion)

  -- what is done with the donation of an idle paradigm
  pub donate : BudgetShares Float → ℤ → List Paradigm → Ledger → Ledger
  donate shares donation [] l = record l { reserve = l.reserve +ℤ donation }
  donate shares donation (p ∷ []) l = record l { slices = gain l.slices p donation }
  donate shares donation (p ∷ q ∷ ps) l =
      let weight_total = sum_shares shares (of_int (pos 0)) (p ∷ q ∷ ps) in
      let (slices, given) = give shares donation weight_total (p ∷ q ∷ ps) l.slices (pos 0) in
      if le weight_total (of_int (pos 0))
      then record l { reserve = l.reserve +ℤ donation }
      else record l { slices = slices; reserve = l.reserve +ℤ (donation -ℤ given) }

  -- one round of the loop over `PARADIGM_ORDER`
  pub reallocate : BudgetShares Float → Slices → List Paradigm → Ledger → Paradigm → Ledger
  reallocate shares base active l idle =
      if contains active idle
      then l
      else (let donation = slice base idle in
          donate shares donation (recipients idle active)
            (record l { slices = lose l.slices idle donation }))

  pub reallocate_all : BudgetShares Float → Slices → List Paradigm → List Paradigm → Ledger → Ledger
  reallocate_all shares base active [] l = l
  reallocate_all shares base active (p ∷ ps) l =
      reallocate_all shares base active ps (reallocate shares base active l p)

  pub base_slices : ℤ → BudgetShares Float → Slices
  base_slices total_tokens shares = record {
    cag = portion_of total_tokens shares.cag;
    mag = portion_of total_tokens shares.mag;
    rag = portion_of total_tokens shares.rag;
  }

  pub initial_reserve : ℤ → BudgetShares Float → ℤ
  initial_reserve total_tokens shares =
      let base = base_slices total_tokens shares in
      total_tokens -ℤ (base.cag +ℤ base.mag +ℤ base.rag) -ℤ portion_of total_tokens shares.query

  pub allocate : ℤ → List Paradigm → BudgetShares Float → Outcome BudgetAllocation
  allocate total_tokens contributing shares =
      if is_negative total_tokens
      then raise value_error
      else (let base = base_slices total_tokens shares in
          let l =
            reallocate_all shares base contributing paradigm_order
              (record { slices = base; reserve = initial_reserve total_tokens shares }) in
          ok (record {
            cag = l.slices.cag;
            mag = l.slices.mag;
            rag = l.slices.rag;
            query = portion_of total_tokens shares.query;
            reserve = l.reserve;
          }))
