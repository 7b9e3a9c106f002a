-- ===== src/Cag/PagedAllocator/Tests.antt =====
-- `PagedKVAllocator` at concrete inputs.
use ai_augmented_generation.Prelude.{◌≡◌, refl, true, false, List, [], ◌∷◌, ok, string_eq}
use ai_augmented_generation.Prelude.Dict.{lookup, insert, remove}
use ai_augmented_generation.Prelude.Int.{pos}
use ai_augmented_generation.Cag.PagedAllocator.{
  PagedKvAllocator, init, range_down, blocks_needed, hold_all, take_blocks, store, last?, set_last,
  read, copy_last, make_private, grow, share_all, release_all, allocate, extend, fork, free,
  physical_slots_used, logical_tokens_held, sum_counts, free_runs,
}
use ai_augmented_generation.Cag.PagedAllocator.Tables.{refs}
use ai_augmented_generation.Cag.PagedAllocator.Valid.{IsValid}
use ai_augmented_generation.Cag.PagedAllocator.Extend.{Extends, extend-Extends}
use ai_augmented_generation.Cag.PagedAllocator.Runs.{
  Call, allocate_call, fork_call, step, run, run_accounts,
}
use ai_augmented_generation.Cag.PagedAllocator.Accounting.{
  sum_below, physical_slots_used_lem, fork_accounting, free-allocate,
}

program : Unit {0}
unfolding init range_down blocks_needed hold_all take_blocks store last? set_last read copy_last
    make_private grow share_all release_all allocate extend fork free physical_slots_used
    logical_tokens_held sum_counts free_runs step run lookup insert remove refs sum_below
program = tt

-- a pool of four blocks of 16 slots
abbrev empty : PagedKvAllocator
empty = record {
  block_size = 16;
  free_blocks = 3 ∷ 2 ∷ 1 ∷ 0 ∷ [];
  block_tables = [];
  token_counts = [];
  refcounts = [];
}

made : init (pos 4) (pos 16) ≡ ok empty
unfolding program
made = refl

-- a prompt of 20 tokens and a fork of it
abbrev calls : List Call
calls =
    allocate_call "parent" (pos 20)
    ∷ fork_call "parent" "child"
    ∷ allocate_call "parent" (pos 1)
    ∷ []

abbrev forked : PagedKvAllocator
forked = record {
  block_size = 16;
  free_blocks = 1 ∷ 0 ∷ [];
  block_tables = ("parent", 3 ∷ 2 ∷ []) ∷ ("child", 3 ∷ 2 ∷ []) ∷ [];
  token_counts = ("parent", 20) ∷ ("child", 20) ∷ [];
  refcounts = (3, 2) ∷ (2, 2) ∷ [];
}

run-forked : run empty calls ≡ forked
unfolding program
run-forked = refl

run_accounts_example : IsValid 4 (run empty calls)
run_accounts_example = run_accounts 4 16 calls made

forked-IsValid : IsValid 4 forked
unfolding program
forked-IsValid = run_accounts_example

-- the copy: the child's partly filled block becomes its own
extend_child :
    extend forked "child" (pos 5)
    ≡ ok (
      true,
      record forked {
        free_blocks = 0 ∷ [];
        block_tables = ("parent", 3 ∷ 2 ∷ []) ∷ ("child", 3 ∷ 1 ∷ []) ∷ [];
        token_counts = ("parent", 20) ∷ ("child", 25) ∷ [];
        refcounts = (3, 2) ∷ (2, 1) ∷ (1, 1) ∷ [];
      },
    )
unfolding program
extend_child = refl

extend-Extends_example : Extends 4 forked "child" (3 ∷ 2 ∷ []) 20 25 (extend forked "child" (pos 5))
unfolding program
extend-Extends_example =
    extend-Extends {total = 4} forked "child" 5 {table = 3 ∷ 2 ∷ []} {current = 20} forked-IsValid
      refl refl

-- A refused `extend` may have used up a block: here the copy was made before the pool ran out.
extend_refused :
    extend forked "child" (pos 40)
    ≡ ok (
      false,
      record forked {
        free_blocks = 0 ∷ [];
        block_tables = ("parent", 3 ∷ 2 ∷ []) ∷ ("child", 3 ∷ 1 ∷ []) ∷ [];
        refcounts = (3, 2) ∷ (2, 1) ∷ (1, 1) ∷ [];
      },
    )
unfolding program
extend_refused = refl

physical_slots_used_example : (physical_slots_used forked ≡ 32) × (free_runs forked ≡ 32 ∷ [])
unfolding program
physical_slots_used_example = physical_slots_used_lem {total = 4} {s = forked} forked-IsValid

fork_accounting_example :
    (s' : PagedKvAllocator) × (fork forked "parent" "other" ≡ ok (true, s'))
    × (physical_slots_used s' ≡ physical_slots_used forked)
    × (free_runs s' ≡ free_runs forked)
    × (logical_tokens_held s' ≡ 60)
unfolding program
fork_accounting_example =
    fork_accounting {total = 4} forked "parent" "other" {n = 20} forked-IsValid refl refl

abbrev stored : PagedKvAllocator
stored = record forked {
  free_blocks = [];
  block_tables = ("parent", 3 ∷ 2 ∷ []) ∷ ("child", 3 ∷ 2 ∷ []) ∷ ("other", 1 ∷ 0 ∷ []) ∷ [];
  token_counts = ("parent", 20) ∷ ("child", 20) ∷ ("other", 17) ∷ [];
  refcounts = (3, 2) ∷ (2, 2) ∷ (1, 1) ∷ (0, 1) ∷ [];
}

free-allocate_example :
    (s'' : PagedKvAllocator) × (free stored "other" ≡ ok s'')
    × ((j : _) → lookup j s''.block_tables ≡ lookup j forked.block_tables)
    × (s''.token_counts ≡ forked.token_counts)
    × (physical_slots_used s'' ≡ physical_slots_used forked)
    × (logical_tokens_held s'' ≡ logical_tokens_held forked)
    × (free_runs s'' ≡ free_runs forked)
unfolding program
free-allocate_example =
    free-allocate {total = 4} forked "other" 17 {s' = stored} forked-IsValid refl refl
