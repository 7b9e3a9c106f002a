-- ===== src/Cag/Sessions/Tests.antt =====
-- The session strategies at concrete inputs.
use ai_augmented_generation.Prelude.{◌≡◌, refl, none, some, List, [], ◌∷◌, arith}
use ai_augmented_generation.Prelude.Dict.{lookup, insert}
use ai_augmented_generation.Cag.Sessions.{
  ConversationTurn, index_all, is_in, climb, history_tokens_before, sum, maximum, whole_each,
  naive_run, same_id, append_each, append_run, add_id, materialise, needs_history, sglang_each,
  sglang_run, rocketkv_each, rocketkv_run, fetched_each, local_each, new_each, memserve_run,
}
use ai_augmented_generation.Cag.Sessions.History.{history_tokens_before_ends}

program : Unit {0}
unfolding lookup insert index_all is_in climb history_tokens_before sum maximum whole_each naive_run
    same_id append_each append_run add_id materialise needs_history sglang_each sglang_run
    rocketkv_each rocketkv_run fetched_each local_each new_each memserve_run
program = tt

abbrev root : ConversationTurn
root = record { turn_id = "a"; new_tokens = 10; parent_turn_id = none }

abbrev next : ConversationTurn
next = record { turn_id = "b"; new_tokens = 5; parent_turn_id = some "a" }

abbrev branch : ConversationTurn
branch = record { turn_id = "c"; new_tokens = 2; parent_turn_id = some "a" }

-- Two turns branch off the first.
abbrev forked : List ConversationTurn
forked = root ∷ next ∷ branch ∷ []

naive_costs : (naive_run forked).per_turn_recompute ≡ 10 ∷ 15 ∷ 12 ∷ []
unfolding program
naive_costs = refl

append_costs : (append_run forked).per_turn_recompute ≡ 10 ∷ 5 ∷ 12 ∷ []
unfolding program
append_costs = refl

sglang_costs : (sglang_run forked).per_turn_recompute ≡ 10 ∷ 5 ∷ 2 ∷ []
unfolding program
sglang_costs = refl

memserve_costs : (memserve_run 4 forked).transfer_tokens ≡ 12
unfolding program
memserve_costs = refl

-- A turn that is its own parent.
abbrev cycle : ConversationTurn
cycle = record { turn_id = "x"; new_tokens = 3; parent_turn_id = some "x" }

cycle_history : history_tokens_before (cycle ∷ []) cycle ≡ 3
unfolding program
cycle_history = refl

history_tokens_before_ends_example :
    climb 9 (index_all (cycle ∷ []) []) (some "x") [] 0 ≡ history_tokens_before (cycle ∷ []) cycle
unfolding program
history_tokens_before_ends_example = history_tokens_before_ends (cycle ∷ []) cycle 9 (omega arith)
