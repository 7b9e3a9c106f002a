-- ===== src/Orchestration/Assembly.antt =====
-- src/orchestration/application/assemble_context.py: packing the items of each paradigm into its
-- slice of the context window. The token counter is a parameter.
pub mod Packing
pub mod Laws
mod Window
mod Tests
use Prim.Native.String.{◌++◌ as append}
use ai_augmented_generation.Prelude.{
  ℕ, ◌+◌, String, Bool, true, false, List, [], ◌∷◌, ◌++◌, map, if◌then◌else◌, suc,
}
use ai_augmented_generation.Prelude.Int.{ℤ, pos, ltb_ℤ}
use ai_augmented_generation.Prelude.Float.{Floats}
use ai_augmented_generation.Prelude.Sort.{sorted_desc}
use ai_augmented_generation.Orchestration.Entities.{
  Paradigm, cag, mag, rag, paradigm_order, same, ContextItem, BudgetAllocation, slice_for,
}

-- `separator.join(texts)`
pub join : String → List String → String
join separator [] = ""
join separator (text ∷ []) = text
join separator (text ∷ next ∷ texts) =
    append text (append separator (join separator (next ∷ texts)))

-- `_SECTION_TITLES`
abbrev pub section_title : Paradigm → String
section_title cag = "Pre-loaded reference knowledge (CAG)"
section_title mag = "What is known about this user (MAG)"
section_title rag = "Retrieved documents (RAG)"

-- A dict with one count for each paradigm, and `d[p] = n`.
pub record Counts : Type 0 where
  pub cag : ℕ
  pub mag : ℕ
  pub rag : ℕ

abbrev pub count_for : Counts → Paradigm → ℕ
count_for c Paradigm.cag = c.cag
count_for c Paradigm.mag = c.mag
count_for c Paradigm.rag = c.rag

abbrev pub set_count : Counts → Paradigm → ℕ → Counts
set_count c Paradigm.cag n = record c { cag = n }
set_count c Paradigm.mag n = record c { mag = n }
set_count c Paradigm.rag n = record c { rag = n }

-- `dict.fromkeys(PARADIGM_ORDER, 0)`
abbrev pub no_counts : Counts
no_counts = record { cag = 0; mag = 0; rag = 0 }

-- the variables of the loop over the ranked items of one paradigm
pub record Slot (F : Type 0) : Type 0 where
  pub kept : List (ContextItem F)
  pub dropped : ℕ
  pub tokens_used : ℕ

-- the variables of the loop over the paradigms
pub record Draft (F : Type 0) : Type 0 where
  pub sections : List String
  pub included : List (ContextItem F)
  pub dropped : Counts
  pub tokens_used : Counts

pub record AssembledContext (F : Type 0) : Type 0 where
  pub text : String
  pub included : List (ContextItem F)
  pub dropped : Counts
  pub tokens_used : Counts

-- `(item for item in items if item.paradigm is paradigm)`
pub of_paradigm : {F : Type 0} → Paradigm → List (ContextItem F) → List (ContextItem F)
of_paradigm p [] = []
of_paradigm p (item ∷ items) =
    if same item.paradigm p then item ∷ of_paradigm p items else of_paradigm p items

abbrev pub content : {F : Type 0} → ContextItem F → String
content item = item.content

-- `if kept: …`
pub section_of : {F : Type 0} → Paradigm → List (ContextItem F) → List String
section_of p [] = []
section_of p (item ∷ kept) =
    append "## " (append (section_title p) (append "\n" (join "\n\n" (map content (item ∷ kept)))))
    ∷ []

module _ (fl : Floats) (count_tokens : String → ℕ) where
  open fl use {Float, lt}

  -- The first item has the greater score.
  abbrev pub above : ContextItem Float → ContextItem Float → Bool
  above x y = lt y.score x.score

  -- the loop over the ranked items
  pub pack : ℤ → List (ContextItem Float) → Slot Float → Slot Float
  pack budget [] slot = slot
  pack budget (item ∷ ranked) slot =
      let used = slot.tokens_used + count_tokens item.content in
      pack budget ranked (
        if ltb_ℤ budget (pos used)
        then record slot { dropped = slot.dropped + 1 }
        else record slot { kept = slot.kept ++ item ∷ []; tokens_used = used })

  -- one round of the loop over `PARADIGM_ORDER`
  pub fill : List (ContextItem Float) → BudgetAllocation → Draft Float → Paradigm → Draft Float
  fill items allocation d p =
      let slot = pack (slice_for allocation p) (sorted_desc above (of_paradigm p items)) (record {
        kept = [];
        dropped = count_for d.dropped p;
        tokens_used = count_for d.tokens_used p;
      }) in
      record {
        sections = d.sections ++ section_of p slot.kept;
        included = d.included ++ slot.kept;
        dropped = set_count d.dropped p slot.dropped;
        tokens_used = set_count d.tokens_used p slot.tokens_used;
      }

  pub fill_all :
      List (ContextItem Float) → BudgetAllocation → List Paradigm → Draft Float → Draft Float
  fill_all items allocation [] d = d
  fill_all items allocation (p ∷ ps) d = fill_all items allocation ps (fill items allocation d p)

  pub assemble_context : List (ContextItem Float) → BudgetAllocation → AssembledContext Float
  assemble_context items allocation =
      let d =
        fill_all items allocation paradigm_order
          (record { sections = []; included = []; dropped = no_counts; tokens_used = no_counts }) in
      record {
        text = join "\n\n" d.sections;
        included = d.included;
        dropped = d.dropped;
        tokens_used = d.tokens_used;
      }
