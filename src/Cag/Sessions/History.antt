-- ===== src/Cag/Sessions/History.antt =====
-- The walk up the ancestors of a turn ends by itself: its fuel is enough.
use ai_augmented_generation.Prelude.{
  ℕ, zero, suc, ◌+◌, ◌≤◌, ◌≡◌, refl, ap, String, false, Option, none, some, Option-cases, List, [],
  ◌∷◌, length, string_eq, ==_iff, if◌then◌else◌, arith, inl, inr,
}
use ai_augmented_generation.Prelude.Dict.{Dict, lookup}
use ai_augmented_generation.Cag.Sessions.{
  ConversationTurn, index_all, is_in, climb, history_tokens_before,
}

-- How many entries have a key that is not among the ids.
unseen : List String → Dict String ConversationTurn → ℕ
unseen seen [] = 0
unseen seen ((id, turn) ∷ by_id) = (if is_in seen id then 0 else 1) + unseen seen by_id

unseen-nil : (by_id : Dict String ConversationTurn) → unseen [] by_id ≡ length by_id
unfolding unseen is_in
unseen-nil [] = refl
unseen-nil (e ∷ by_id) = omega (arith, unseen-nil by_id)

module _ (seen : List String) (id : String) where
  unseen-cons-le :
      (by_id : Dict String ConversationTurn) → unseen (id ∷ seen) by_id ≤ unseen seen by_id
  unfolding unseen is_in
  unseen-cons-le [] = omega arith
  unseen-cons-le ((j, turn) ∷ by_id) = ground (arith, unseen-cons-le by_id)

  unseen-cons-lt :
      (by_id : Dict String ConversationTurn) {found : ConversationTurn}
      → lookup id by_id ≡ some found
      → is_in seen id ≡ false
      → unseen (id ∷ seen) by_id + 1 ≤ unseen seen by_id
  unfolding unseen is_in lookup
  unseen-cons-lt [] h k = absurd (cc h)
  unseen-cons-lt ((j, turn) ∷ by_id) {found} h k = ground (
    arith,
    unseen-cons-le by_id,
    unseen-cons-lt by_id {found = found},
    ==_iff {A = String} j id,
    ==_iff {A = String} id j,
    ap (is_in seen) {x = j} {y = id},
  )

module _ (by_id : Dict String ConversationTurn) where
  climb_stops :
      (fuel : ℕ) (id : String) (seen : List String) (total : ℕ)
      → unseen seen by_id ≡ 0
      → climb fuel by_id (some id) seen total ≡ total
  unfolding climb
  climb_stops zero id seen total h = refl
  climb_stops (suc fuel) id seen total h = elim (Option-cases (lookup id by_id)) [
    | inl missing ↦ ground (arith, missing)
    | inr (turn, found) ↦ ground (arith, found, unseen-cons-lt seen id by_id found)
  ]

  -- Past the number of the entries not seen, fuel makes no difference.
  climb_enough :
      (fuel more : ℕ) (current : Option String) (seen : List String) (total : ℕ)
      → unseen seen by_id ≤ fuel
      → fuel ≤ more
      → climb more by_id current seen total ≡ climb fuel by_id current seen total
  unfolding climb
  climb_enough zero zero current seen total h k = refl
  climb_enough zero (suc more) none seen total h k = refl
  climb_enough zero (suc more) (some id) seen total h k =
      climb_stops (suc more) id seen total (omega arith)
  climb_enough (suc fuel) zero current seen total h k = absurd (omega arith)
  climb_enough (suc fuel) (suc more) none seen total h k = refl
  climb_enough (suc fuel) (suc more) (some id) seen total h k =
      elim (Option-cases (lookup id by_id)) [
        | inl missing ↦ ground (arith, missing)
        | inr (turn, found) ↦ ground (
          arith,
          found,
          unseen-cons-lt seen id by_id found,
          climb_enough fuel more turn.parent_turn_id (id ∷ seen) (total + turn.new_tokens),
        )
      ]

-- The walk of `history_tokens_before` ends by its own test, also where the parents form a cycle:
-- with more fuel it gives the same.
pub history_tokens_before_ends :
    (turns : List ConversationTurn) (turn : ConversationTurn) (fuel : ℕ)
    → length (index_all turns []) ≤ fuel
    → climb fuel (index_all turns []) turn.parent_turn_id [] 0 ≡ history_tokens_before turns turn
unfolding history_tokens_before
history_tokens_before_ends turns turn fuel h =
    let by_id = index_all turns [] in
    climb_enough by_id (length by_id) fuel turn.parent_turn_id [] 0
      (omega (arith, unseen-nil by_id)) h
