-- ===== src/Cag/Batching/Tests.antt =====
-- The batch schedulers at concrete inputs.
use ai_augmented_generation.Prelude.{
  ℕ, ◌≡◌, refl, String, List, [], ◌∷◌, All, ok, raise, value_error, arith,
}
use ai_augmented_generation.Prelude.Dict.{lookup, insert}
use ai_augmented_generation.Prelude.Sort.{place, sorted_desc}
use ai_augmented_generation.Cag.Batching.{
  BatchRequest, chunks, fifo_batches, PrefixAwareBatchScheduler, init, signature, members,
  group_all, keys, batch_all, form_batches,
}
use ai_augmented_generation.Cag.Batching.Laws.{flatten, IsSized}
use ai_augmented_generation.Cag.Batching.Signatures.{with_signature}
use ai_augmented_generation.Cag.Batching.Grouping.{IsUniform, form_batches_lem}

program : Unit {0}
unfolding lookup insert place sorted_desc chunks fifo_batches init signature members group_all keys
    batch_all form_batches
program = tt

abbrev request : String → List ℕ → BatchRequest
request name tokens = record { request_id = name; tokens = tokens }

abbrev pending : List BatchRequest
pending =
    request "a" (1 ∷ 2 ∷ 3 ∷ [])
    ∷ request "b" (7 ∷ [])
    ∷ request "c" (1 ∷ 2 ∷ 4 ∷ [])
    ∷ request "d" (1 ∷ 2 ∷ [])
    ∷ []

abbrev scheduler : PrefixAwareBatchScheduler
scheduler = record { block_size = 2; grouping_blocks = 1 }

-- The three that begin with 1, 2 come first, two to a batch.
grouped :
    form_batches scheduler pending 2
    ≡ ok (
        (request "a" (1 ∷ 2 ∷ 3 ∷ []) ∷ request "c" (1 ∷ 2 ∷ 4 ∷ []) ∷ [])
        ∷ (request "d" (1 ∷ 2 ∷ []) ∷ [])
        ∷ (request "b" (7 ∷ []) ∷ [])
        ∷ [])
unfolding program
grouped = refl

no_size : form_batches scheduler pending 0 ≡ raise value_error
unfolding program
no_size = refl

form_batches_lem_example :
    (batches : List (List BatchRequest)) × (form_batches scheduler pending 2 ≡ ok batches)
    × All (IsSized 2) batches
    × All (IsUniform scheduler) batches
    × ((key : List ℕ)
        → with_signature scheduler key (flatten batches) ≡ with_signature scheduler key pending)
form_batches_lem_example = form_batches_lem scheduler pending 2 (omega arith)
