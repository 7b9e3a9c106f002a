-- ===== src/Cag/ContiguousAllocator/Tests.antt =====
-- `ContiguousKVAllocator` at concrete inputs.
use ai_augmented_generation.Prelude.{◌≡◌, refl, false, List, [], ◌∷◌, ok}
use ai_augmented_generation.Prelude.Dict.{lookup, insert, remove}
use ai_augmented_generation.Prelude.Int.{pos}
use ai_augmented_generation.Cag.ContiguousAllocator.{
  ContiguousKvAllocator, init, place, sorted, regions_except, find_gap, find_run, put, allocate,
  blocked, extend, fork, free, sum_lengths, physical_slots_used, runs_from, free_runs,
}
use ai_augmented_generation.Cag.ContiguousAllocator.Valid.{IsValid}
use ai_augmented_generation.Cag.ContiguousAllocator.Calls.{Places, allocate-Places}
use ai_augmented_generation.Cag.ContiguousAllocator.Runs.{
  Call, allocate_call, free_call, step, run, run_keeps_apart,
}

program : Unit {0}
unfolding init place sorted regions_except find_gap find_run put allocate blocked extend fork free
    sum_lengths physical_slots_used runs_from free_runs step run lookup insert remove
program = tt

abbrev empty : ContiguousKvAllocator
empty = record { total_slots = 60; regions = [] }

made : init (pos 60) ≡ ok empty
unfolding program
made = refl

abbrev calls : List Call
calls =
    allocate_call "a" (pos 20)
    ∷ allocate_call "b" (pos 10)
    ∷ allocate_call "c" (pos 20)
    ∷ free_call "b"
    ∷ []

abbrev holed : ContiguousKvAllocator
holed = record { total_slots = 60; regions = ("a", (0, 20)) ∷ ("c", (30, 20)) ∷ [] }

run-holed : run empty calls ≡ holed
unfolding program
run-holed = refl

run_keeps_apart_example : IsValid (run empty calls)
run_keeps_apart_example = run_keeps_apart 60 calls made

holed-IsValid : IsValid holed
unfolding program
holed-IsValid = run_keeps_apart_example

-- 20 slots are free, in two runs of 10
holed_runs : (free_runs holed ≡ 10 ∷ 10 ∷ []) × (allocate holed "d" (pos 15) ≡ ok (false, holed))
unfolding program
holed_runs = (refl, refl)

allocate-Places_example : Places holed holed-IsValid "d" 15 (allocate holed "d" (pos 15))
unfolding program
allocate-Places_example = allocate-Places holed holed-IsValid "d" 15 refl
