-- ===== src/Cag/ContiguousAllocator.antt =====
-- src/cag/infrastructure/contiguous_allocator.py: `ContiguousKVAllocator`. A region is the pair of
-- its start and its length. `start - cursor >= size`, on Python's integers, is written
-- `cursor + size <= start`.
pub mod Sorting
pub mod Gaps
pub mod Valid
pub mod Calls
pub mod Runs
mod Tests
use ai_augmented_generation.Prelude.{
  ℕ, ◌+◌, ◌-◌, String, Bool, true, false, ◌&&◌, ◌||◌, not, Option, none, some, List, [], ◌∷◌,
  Outcome, ok, raise, value_error, key_error, string_eq, nat_eq, ltb, leb, ◌==◌, if◌then◌else◌, max,
}
use ai_augmented_generation.Prelude.Dict.{Dict, lookup, insert, remove}
use ai_augmented_generation.Prelude.Int.{ℤ, pos, ltb_ℤ, is_negative, pos_part}

abbrev pub Region : Type 0
Region = ℕ × ℕ

pub record ContiguousKvAllocator : Type 0 where
  pub total_slots : ℕ
  pub regions : Dict String Region

pub init : ℤ → Outcome ContiguousKvAllocator
init total_slots =
    if ltb_ℤ total_slots (pos 1)
    then raise value_error
    else ok (record { total_slots = pos_part total_slots; regions = [] })

-- Python's order of pairs
abbrev pub before : Region → Region → Bool
before r q = ltb r.0 q.0 || ((r.0 == q.0) && leb r.1 q.1)

pub place : Region → List Region → List Region
place r [] = r ∷ []
place r (q ∷ qs) = if before r q then r ∷ q ∷ qs else q ∷ place r qs

-- `sorted` of pairs
pub sorted : List Region → List Region
sorted [] = []
sorted (r ∷ rs) = place r (sorted rs)

abbrev pub is_ignored : Option String → String → Bool
is_ignored none key = false
is_ignored (some ignoring) key = key == ignoring

-- `[region for key, region in self._regions.items() if key != ignoring]`
pub regions_except : Option String → Dict String Region → List Region
regions_except ignoring [] = []
regions_except ignoring ((key, region) ∷ regions) =
    let rest = regions_except ignoring regions in
    if is_ignored ignoring key then rest else region ∷ rest

-- the loop of `_find_run`
pub find_gap : ℕ → ℕ → ℕ → List Region → Option ℕ
find_gap total_slots size cursor [] = if leb (cursor + size) total_slots then some cursor else none
find_gap total_slots size cursor ((start, length) ∷ occupied) =
    let rest = find_gap total_slots size (max cursor (start + length)) occupied in
    if leb (cursor + size) start then some cursor else rest

pub find_run : ContiguousKvAllocator → ℕ → Option String → Option ℕ
find_run s size ignoring =
    if size == 0
    then some 0
    else find_gap s.total_slots size 0 (sorted (regions_except ignoring s.regions))

pub put : ContiguousKvAllocator → String → Region → ContiguousKvAllocator
put s key region = record s { regions = insert key region s.regions }

abbrev pub is_some {ℓ} : {A : Type ℓ} → Option A → Bool
is_some none = false
is_some (some x) = true

pub allocate : ContiguousKvAllocator → String → ℤ → Outcome (Bool × ContiguousKvAllocator)
allocate s sequence_id num_tokens =
    if is_some (lookup sequence_id s.regions)
    then raise value_error
    else if is_negative num_tokens
    then raise value_error
    else elim (find_run s (pos_part num_tokens) none) [
      | none ↦ ok (false, s)
      | some start ↦ ok (true, put s sequence_id (start, pos_part num_tokens))
    ]

-- `any(...)` over the neighbours
pub blocked : ℕ → ℕ → List Region → Bool
blocked start target [] = false
blocked start target ((other_start, other_length) ∷ neighbours) =
    (ltb other_start (start + target) && ltb start (other_start + other_length))
    || blocked start target neighbours

pub extend : ContiguousKvAllocator → String → ℤ → Outcome (Bool × ContiguousKvAllocator)
extend s sequence_id additional_tokens = elim (lookup sequence_id s.regions) [
  | none ↦ raise key_error
  | some (start, length) ↦
      if is_negative additional_tokens
      then raise value_error
      else (let target = length + pos_part additional_tokens in
          if not (blocked start target (regions_except (some sequence_id) s.regions))
            && leb (start + target) s.total_slots
          then ok (true, put s sequence_id (start, target))
          else elim (find_run s target (some sequence_id)) [
            | none ↦ ok (false, s)
            | some relocated ↦ ok (true, put s sequence_id (relocated, target))
          ])
]

pub fork : ContiguousKvAllocator → String → String → Outcome (Bool × ContiguousKvAllocator)
fork s parent_id child_id = elim (lookup parent_id s.regions) [
  | none ↦ raise key_error
  | some (start, length) ↦
      if is_some (lookup child_id s.regions)
      then raise value_error
      else allocate s child_id (pos length)
]

pub free : ContiguousKvAllocator → String → Outcome ContiguousKvAllocator
free s sequence_id = elim (lookup sequence_id s.regions) [
  | none ↦ raise key_error
  | some region ↦ ok (record s { regions = remove sequence_id s.regions })
]

pub sum_lengths : List Region → ℕ
sum_lengths [] = 0
sum_lengths ((start, length) ∷ regions) = length + sum_lengths regions

pub physical_slots_used : ContiguousKvAllocator → ℕ
physical_slots_used s = sum_lengths (regions_except none s.regions)

pub logical_tokens_held : ContiguousKvAllocator → ℕ
logical_tokens_held s = physical_slots_used s

-- the loop of `free_runs`
pub runs_from : ℕ → ℕ → List Region → List ℕ
runs_from total_slots cursor [] = if ltb cursor total_slots then (total_slots - cursor) ∷ [] else []
runs_from total_slots cursor ((start, length) ∷ regions) =
    let rest = runs_from total_slots (max cursor (start + length)) regions in
    if ltb cursor start then (start - cursor) ∷ rest else rest

pub free_runs : ContiguousKvAllocator → List ℕ
free_runs s = runs_from s.total_slots 0 (sorted (regions_except none s.regions))
