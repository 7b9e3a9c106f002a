-- ===== src/Cag/Sessions.antt =====
-- What a session of many turns costs under each cache strategy: src/cag/infrastructure/
-- naive_recompute_session.py, sglang_session.py, rocketkv_mt_session.py and memserve_session.py.
-- Token counts are numbers.
pub mod History
pub mod Costs
mod Tests
use ai_augmented_generation.Prelude.{
  ℕ, zero, suc, ◌+◌, ◌-◌, min, max, String, Bool, true, false, not, ◌&&◌, ◌||◌, Option, none, some,
  List, [], ◌∷◌, ◌++◌, length, ◌==◌, string_eq, if◌then◌else◌, Outcome, ok, raise, value_error, ltb,
}
use ai_augmented_generation.Prelude.Int.{ℤ, is_negative, pos_part}
use ai_augmented_generation.Prelude.Dict.{Dict, lookup, insert}

-- `ConversationTurn`
pub record ConversationTurn : Type 0 where
  pub turn_id : String
  pub new_tokens : ℕ
  pub parent_turn_id : Option String

-- `SessionRun`, but for the name of the strategy
pub record SessionRun : Type 0 where
  pub per_turn_recompute : List ℕ
  pub tokens_recomputed : ℕ
  pub peak_tokens_held : ℕ
  pub transfer_tokens : ℕ

-- `{turn.turn_id: turn for turn in turns}`
pub index_all : List ConversationTurn → Dict String ConversationTurn → Dict String ConversationTurn
index_all [] by_id = by_id
index_all (turn ∷ turns) by_id = index_all turns (insert turn.turn_id turn by_id)

-- `id in seen`
pub is_in : List String → String → Bool
is_in [] id = false
is_in (x ∷ xs) id = x == id || is_in xs id

-- The loop up the ancestors, with fuel: a round adds a turn of `by_id` to `seen`.
pub climb : ℕ → Dict String ConversationTurn → Option String → List String → ℕ → ℕ
climb zero by_id current seen total = total
climb (suc fuel) by_id none seen total = total
climb (suc fuel) by_id (some id) seen total = elim (is_in seen id) [
  | true ↦ total
  | false ↦ elim (lookup id by_id) [
    | none ↦ total
    | some turn ↦ climb fuel by_id turn.parent_turn_id (id ∷ seen) (total + turn.new_tokens)
  ]
]

-- `history_tokens_before(turns, index)`, where `turn` is `turns[index]`
pub history_tokens_before : List ConversationTurn → ConversationTurn → ℕ
history_tokens_before turns turn =
    let by_id = index_all turns [] in climb (length by_id) by_id turn.parent_turn_id [] 0

-- `sum(xs)`, and `max(xs)` or 0
pub sum : List ℕ → ℕ
sum [] = 0
sum (x ∷ xs) = x + sum xs

pub maximum : List ℕ → ℕ
maximum [] = 0
maximum (x ∷ xs) = max x (maximum xs)

-- For each turn, its whole history and itself.
pub whole_each : List ConversationTurn → List ConversationTurn → List ℕ
whole_each turns [] = []
whole_each turns (turn ∷ rest) =
    (history_tokens_before turns turn + turn.new_tokens) ∷ whole_each turns rest

-- `NaiveRecomputeSession.run_session`
pub naive_run : List ConversationTurn → SessionRun
naive_run turns =
    let per_turn = whole_each turns turns in
    record {
      per_turn_recompute = per_turn;
      tokens_recomputed = sum per_turn;
      peak_tokens_held = maximum per_turn;
      transfer_tokens = 0;
    }

pub same_id : Option String → Option String → Bool
same_id none none = true
same_id none (some id) = false
same_id (some id) none = false
same_id (some id) (some other) = id == other

-- `IncrementalAppendSession.run_session`, the loop for the costs
pub append_each : List ConversationTurn → Option String → List ConversationTurn → List ℕ
append_each turns previous [] = []
append_each turns previous (turn ∷ rest) =
    (if same_id turn.parent_turn_id previous
      then turn.new_tokens
      else history_tokens_before turns turn + turn.new_tokens)
    ∷ append_each turns (some turn.turn_id) rest

pub append_run : List ConversationTurn → SessionRun
append_run turns =
    let per_turn = append_each turns none turns in
    record {
      per_turn_recompute = per_turn;
      tokens_recomputed = sum per_turn;
      peak_tokens_held = maximum (whole_each turns turns);
      transfer_tokens = 0;
    }

-- `set.add` of an id that may be there
pub add_id : String → List String → List String
add_id id ids = if is_in ids id then ids else id ∷ ids

-- the ids that a turn materialises
pub materialise : ConversationTurn → List String → List String
materialise turn ids = elim (turn.parent_turn_id) [
  | none ↦ add_id turn.turn_id ids
  | some parent ↦ add_id parent (add_id turn.turn_id ids)
]

-- Whether the turn has a parent that is not materialised.
pub needs_history : ConversationTurn → List String → Bool
needs_history turn ids = elim (turn.parent_turn_id) [
  | none ↦ false
  | some parent ↦ not (is_in ids parent)
]

-- `SGLangSession.run_session`, the loop for the costs
pub sglang_each : List ConversationTurn → List String → List ConversationTurn → List ℕ
sglang_each turns materialised [] = []
sglang_each turns materialised (turn ∷ rest) =
    (if needs_history turn materialised
      then turn.new_tokens + history_tokens_before turns turn
      else turn.new_tokens)
    ∷ sglang_each turns (materialise turn materialised) rest

pub sglang_run : List ConversationTurn → SessionRun
sglang_run turns =
    let per_turn = sglang_each turns [] turns in
    record {
      per_turn_recompute = per_turn;
      tokens_recomputed = sum per_turn;
      peak_tokens_held = maximum (whole_each turns turns);
      transfer_tokens = 0;
    }

-- `RocketKVMTSession.__init__`: the strategy is its budget
pub rocketkv_init : ℕ → Outcome ℕ
rocketkv_init current_turn_budget =
    if ltb current_turn_budget 1 then raise value_error else ok current_turn_budget

-- `MemServeSession.__init__`: the strategy is the tokens that it holds locally
pub memserve_init : ℤ → Outcome ℕ
memserve_init local_resident_tokens =
    if is_negative local_resident_tokens
    then raise value_error
    else ok (pos_part local_resident_tokens)

-- `RocketKVMTSession.run_session`
pub rocketkv_each : ℕ → List ConversationTurn → List ℕ
rocketkv_each budget [] = []
rocketkv_each budget (turn ∷ rest) = min turn.new_tokens budget ∷ rocketkv_each budget rest

pub rocketkv_run : ℕ → List ConversationTurn → SessionRun
rocketkv_run current_turn_budget turns =
    let per_turn = rocketkv_each current_turn_budget turns in
    record {
      per_turn_recompute = per_turn;
      tokens_recomputed = sum per_turn;
      peak_tokens_held = maximum (whole_each turns turns);
      transfer_tokens = 0;
    }

-- `MemServeSession.run_session`: the tokens fetched and the tokens held at each turn
pub fetched_each : ℕ → List ConversationTurn → List ConversationTurn → List ℕ
fetched_each resident turns [] = []
fetched_each resident turns (turn ∷ rest) =
    (history_tokens_before turns turn - resident) ∷ fetched_each resident turns rest

pub local_each : ℕ → List ConversationTurn → List ConversationTurn → List ℕ
local_each resident turns [] = []
local_each resident turns (turn ∷ rest) =
    (min (history_tokens_before turns turn) resident + turn.new_tokens)
    ∷ local_each resident turns rest

pub new_each : List ConversationTurn → List ℕ
new_each [] = []
new_each (turn ∷ rest) = turn.new_tokens ∷ new_each rest

pub memserve_run : ℕ → List ConversationTurn → SessionRun
memserve_run local_resident_tokens turns = record {
  per_turn_recompute = new_each turns;
  tokens_recomputed = sum (new_each turns);
  peak_tokens_held = maximum (local_each local_resident_tokens turns turns);
  transfer_tokens = sum (fetched_each local_resident_tokens turns turns);
}
