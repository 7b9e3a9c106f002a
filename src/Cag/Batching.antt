-- ===== src/Cag/Batching.antt =====
-- Which pending requests run together: src/cag/infrastructure/prefix_aware_batch_scheduler.py and
-- fifo_batch_scheduler.py. Sizes are numbers: a negative size is refused as 0 is.
pub mod Laws
pub mod Signatures
pub mod Grouping
mod Tests
use ai_augmented_generation.Prelude.{
  ℕ, zero, suc, ◌*◌, ◌/◌, min, String, Bool, true, false, Option, none, some, List, [], ◌∷◌, ◌++◌,
  length, take, drop, Outcome, ok, raise, value_error, ◌==◌, list_eq, nat_eq, ltb, if◌then◌else◌,
}
use ai_augmented_generation.Prelude.Dict.{Dict, lookup, insert}
use ai_augmented_generation.Prelude.Sort.{sorted_desc}

pub record BatchRequest : Type 0 where
  pub request_id : String
  pub tokens : List ℕ

-- `[xs[start : start + size] for start in range(0, len(xs), size)]`, with fuel for each batch
pub chunks : ℕ → ℕ → List BatchRequest → List (List BatchRequest)
chunks zero size xs = []
chunks (suc fuel) size [] = []
chunks (suc fuel) size (x ∷ xs) = take size (x ∷ xs) ∷ chunks fuel size (drop size (x ∷ xs))

-- `FIFOBatchScheduler.form_batches`: there are at most as many batches as requests.
pub fifo_batches : List BatchRequest → ℕ → Outcome (List (List BatchRequest))
fifo_batches pending max_batch_size =
    if ltb max_batch_size 1
    then raise value_error
    else ok (chunks (length pending) max_batch_size pending)

pub record PrefixAwareBatchScheduler : Type 0 where
  pub block_size : ℕ
  pub grouping_blocks : ℕ

-- `PrefixAwareBatchScheduler.__init__`
pub init : ℕ → ℕ → Outcome PrefixAwareBatchScheduler
init block_size grouping_blocks =
    if ltb block_size 1
    then raise value_error
    else if ltb grouping_blocks 1
    then raise value_error
    else ok (record { block_size = block_size; grouping_blocks = grouping_blocks })

-- `_signature`
pub signature : PrefixAwareBatchScheduler → BatchRequest → List ℕ
signature s request =
    let usable_blocks = min (length request.tokens / s.block_size) s.grouping_blocks in
    take (usable_blocks * s.block_size) request.tokens

-- `groups[key]`, of which a missing key has no members
pub members : Dict (List ℕ) (List BatchRequest) → List ℕ → List BatchRequest
members groups key = elim (lookup key groups) [ none ↦ [] | some requests ↦ requests ]

-- `for request in pending: groups.setdefault(self._signature(request), []).append(request)`
pub group_all :
    PrefixAwareBatchScheduler
    → List BatchRequest
    → Dict (List ℕ) (List BatchRequest)
    → Dict (List ℕ) (List BatchRequest)
group_all s [] groups = groups
group_all s (request ∷ pending) groups =
    let key = signature s request in
    group_all s pending (insert key (members groups key ++ request ∷ []) groups)

-- `list(groups)`
pub keys : Dict (List ℕ) (List BatchRequest) → List (List ℕ)
keys [] = []
keys ((key, requests) ∷ groups) = key ∷ keys groups

-- The first key is the longer one.
abbrev pub longer : List ℕ → List ℕ → Bool
longer key other = ltb (length other) (length key)

-- the loop over the signatures
pub batch_all : Dict (List ℕ) (List BatchRequest) → ℕ → List (List ℕ) → List (List BatchRequest)
batch_all groups max_batch_size [] = []
batch_all groups max_batch_size (key ∷ rest) =
    let requests = members groups key in
    chunks (length requests) max_batch_size requests ++ batch_all groups max_batch_size rest

-- `PrefixAwareBatchScheduler.form_batches`
pub form_batches :
    PrefixAwareBatchScheduler → List BatchRequest → ℕ → Outcome (List (List BatchRequest))
form_batches s pending max_batch_size =
    if ltb max_batch_size 1
    then raise value_error
    else (let groups = group_all s pending [] in
        ok (batch_all groups max_batch_size (sorted_desc longer (keys groups))))
