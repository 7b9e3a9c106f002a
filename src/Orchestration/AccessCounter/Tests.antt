-- ===== src/Orchestration/AccessCounter/Tests.antt =====
-- The counter on concrete accesses.
use ai_augmented_generation.Prelude.{◌≡◌, refl, ℕ, List, [], ◌∷◌, arith, nat_eq}
use ai_augmented_generation.Prelude.Dict.{lookup, insert, remove}
use ai_augmented_generation.Orchestration.AccessCounter.{
  retained, count_events, events_of, keep, prune_found, prune, record_event, count, keys,
}
use ai_augmented_generation.Orchestration.AccessCounter.Laws.{Call, recorded, counted}
use ai_augmented_generation.Orchestration.AccessCounter.Runs.{
  after_call, after_calls, accesses, count-after_calls,
}

-- The access at 1 is pruned by the count at 15.
abbrev visits : List (Call ℕ)
visits = recorded 7 1 ∷ recorded 7 8 ∷ recorded 3 9 ∷ counted 7 5 15 ∷ recorded 7 16 ∷ []

count_example : (count 10 (after_calls 10 [] visits) 7 9 17).1 ≡ 2
unfolding count after_calls after_call record_event prune prune_found keep retained count_events
    events_of lookup insert remove
count_example = refl

keys_example : keys (after_calls 10 [] visits) ≡ 7 ∷ 3 ∷ []
unfolding count after_calls after_call record_event prune prune_found keep retained events_of lookup
    insert remove keys
keys_example = refl

-- The last access of 3 is out of the retention.
forgotten_example : keys ((count 10 (after_calls 10 [] visits) 3 9 30).0) ≡ 7 ∷ []
unfolding count after_calls after_call record_event prune prune_found keep retained events_of lookup
    insert remove keys
forgotten_example = refl

count-after_calls_example :
    (count 10 (after_calls 10 [] visits) 7 9 17).1 ≡ count_events 9 17 (accesses 7 visits)
count-after_calls_example =
    count-after_calls 9 10 17 7 visits (omega arith)
      (omega arith, (omega arith, (omega arith, (omega arith, (omega arith, tt)))))
