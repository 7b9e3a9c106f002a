-- ===== src/Cag/Sessions/Costs.antt =====
-- What the strategies save against recomputing the whole history at each turn.
use ai_augmented_generation.Prelude.{
  ℕ, ◌+◌, ◌≤◌, ◌≡◌, refl, ap, String, true, false, Option, none, some, Option-cases, List, [], ◌∷◌,
  string_eq, ==_iff, ==_refl, arith, inl, inr,
}
use ai_augmented_generation.Cag.Sessions.{
  ConversationTurn, SessionRun, is_in, sum, maximum, whole_each, naive_run, same_id, append_each,
  append_run, add_id, materialise, needs_history, sglang_each, sglang_run, rocketkv_each,
  rocketkv_run, fetched_each, local_each, new_each, memserve_run,
}

-- No entry is above that of the other list.
abbrev pub NoMore : List ℕ → List ℕ → Type 0
NoMore [] [] = Unit
NoMore [] (y ∷ ys) = ⊥
NoMore (x ∷ xs) [] = ⊥
NoMore (x ∷ xs) (y ∷ ys) = (x ≤ y) × NoMore xs ys

sum-le : (xs ys : List ℕ) → NoMore xs ys → sum xs ≤ sum ys
unfolding sum
sum-le [] [] h = omega arith
sum-le [] (y ∷ ys) h = absurd h
sum-le (x ∷ xs) [] h = absurd h
sum-le (x ∷ xs) (y ∷ ys) h = omega (arith, sum-le xs ys h.1, h.0)

-- The run recomputes no more than the other, at any turn and in all.
abbrev pub Saves : SessionRun → SessionRun → Type 0
Saves run other =
    NoMore run.per_turn_recompute other.per_turn_recompute
    × (run.tokens_recomputed ≤ other.tokens_recomputed)

module _ (turns : List ConversationTurn) where
  append_each-NoMore :
      (previous : Option String) (rest : List ConversationTurn)
      → NoMore (append_each turns previous rest) (whole_each turns rest)
  unfolding append_each whole_each
  append_each-NoMore previous [] = tt
  append_each-NoMore previous (turn ∷ rest) =
      (ground arith, append_each-NoMore (some turn.turn_id) rest)

  sglang_each-NoMore :
      (ids : List String) (rest : List ConversationTurn)
      → NoMore (sglang_each turns ids rest) (whole_each turns rest)
  unfolding sglang_each whole_each
  sglang_each-NoMore ids [] = tt
  sglang_each-NoMore ids (turn ∷ rest) =
      (ground arith, sglang_each-NoMore (materialise turn ids) rest)

  rocketkv_each-NoMore :
      (budget : ℕ) (rest : List ConversationTurn)
      → NoMore (rocketkv_each budget rest) (whole_each turns rest)
  unfolding rocketkv_each whole_each
  rocketkv_each-NoMore budget [] = tt
  rocketkv_each-NoMore budget (turn ∷ rest) = (omega arith, rocketkv_each-NoMore budget rest)

  -- Appending, SGLang and RocketKV recompute no more than naive recomputation, at any turn and in
  -- all.
  pub naive_is_worst :
      (budget : ℕ)
      → Saves (append_run turns) (naive_run turns)
        × Saves (sglang_run turns) (naive_run turns)
        × Saves (rocketkv_run budget turns) (naive_run turns)
  unfolding append_run sglang_run rocketkv_run naive_run
  naive_is_worst budget =
      let a = append_each-NoMore none turns in
      let s = sglang_each-NoMore [] turns in
      let r = rocketkv_each-NoMore budget turns in
      (
        (a, sum-le (append_each turns none turns) (whole_each turns turns) a),
        (s, sum-le (sglang_each turns [] turns) (whole_each turns turns) s),
        (r, sum-le (rocketkv_each budget turns) (whole_each turns turns) r),
      )

  fetched_or_held :
      (resident : ℕ) (rest : List ConversationTurn)
      → sum (fetched_each resident turns rest) + sum (local_each resident turns rest)
        ≡ sum (whole_each turns rest)
  unfolding sum fetched_each local_each whole_each
  fetched_or_held resident [] = omega arith
  fetched_or_held resident (turn ∷ rest) = omega (arith, fetched_or_held resident rest)

  local_peak :
      (resident : ℕ) (rest : List ConversationTurn)
      → maximum (local_each resident turns rest) ≤ maximum (whole_each turns rest)
  unfolding maximum local_each whole_each
  local_peak resident [] = omega arith
  local_peak resident (turn ∷ rest) = omega (arith, local_peak resident rest)

  -- What MemServe fetches, with what it holds locally at each turn, is what naive recomputation
  -- computes; and its local peak is not above that of naive recomputation.
  pub memserve_transfers :
      (resident : ℕ)
      → ((memserve_run resident turns).transfer_tokens + sum (local_each resident turns turns)
          ≡ (naive_run turns).tokens_recomputed)
        × ((memserve_run resident turns).peak_tokens_held ≤ (naive_run turns).peak_tokens_held)
  unfolding memserve_run naive_run
  memserve_transfers resident = (fetched_or_held resident turns, local_peak resident turns)

-- Each turn continues the one before it.
abbrev pub Chained : Option String → List ConversationTurn → Type 0
Chained previous [] = Unit
Chained previous (turn ∷ rest) = (turn.parent_turn_id ≡ previous) × Chained (some turn.turn_id) rest

-- The id that the next turn continues, if any, is materialised.
abbrev Ready : Option String → List String → Type 0
Ready none ids = Unit
Ready (some id) ids = is_in ids id ≡ true

same_id_refl : (previous : Option String) → same_id previous previous ≡ true
unfolding same_id
same_id_refl none = refl
same_id_refl (some id) = ==_refl id

is_in-add_id_self : (id : String) (ids : List String) → is_in (add_id id ids) id ≡ true
unfolding add_id is_in
is_in-add_id_self id ids = ground (arith, ==_iff {A = String} id id)

is_in-add_id :
    (other id : String) (ids : List String)
    → is_in ids id ≡ true
    → is_in (add_id other ids) id ≡ true
unfolding add_id is_in
is_in-add_id other id ids h = ground arith

materialise-Ready :
    (turn : ConversationTurn) (ids : List String) → Ready (some turn.turn_id) (materialise turn ids)
unfolding materialise
materialise-Ready turn ids = elim (Option-cases (turn.parent_turn_id)) [
  | inl e ↦ rw e (is_in-add_id_self turn.turn_id ids)
  | inr (parent, e) ↦ rw e (
      is_in-add_id parent turn.turn_id (add_id turn.turn_id ids)
        (is_in-add_id_self turn.turn_id ids))
]

module _ (turns : List ConversationTurn) where
  append_each-Chained :
      (previous : Option String) (rest : List ConversationTurn)
      → Chained previous rest
      → append_each turns previous rest ≡ new_each rest
  unfolding append_each new_each
  append_each-Chained previous [] h = refl
  append_each-Chained previous (turn ∷ rest) h = rw (h.0) (
      rw (same_id_refl previous)
        (ap (◌∷◌ turn.new_tokens) (append_each-Chained (some turn.turn_id) rest h.1)))

  needs_history_of_Ready :
      (turn : ConversationTurn) (previous : Option String) (ids : List String)
      → turn.parent_turn_id ≡ previous
      → Ready previous ids
      → needs_history turn ids ≡ false
  unfolding needs_history
  needs_history_of_Ready turn none ids e h = ground (arith, e)
  needs_history_of_Ready turn (some id) ids e h = ground (arith, e)

  sglang_each-Chained :
      (previous : Option String) (ids : List String) (rest : List ConversationTurn)
      → Ready previous ids
      → Chained previous rest
      → sglang_each turns ids rest ≡ new_each rest
  unfolding sglang_each new_each
  sglang_each-Chained previous ids [] r h = refl
  sglang_each-Chained previous ids (turn ∷ rest) r h =
      rw (needs_history_of_Ready turn previous ids (h.0) r) (
        ap (◌∷◌ turn.new_tokens) (
          sglang_each-Chained (some turn.turn_id) (materialise turn ids) rest
            (materialise-Ready turn ids) h.1))

  -- In a flat conversation appending and SGLang compute each turn's new tokens, and nothing again.
  pub flat_conversation :
      Chained none turns
      → ((append_run turns).per_turn_recompute ≡ new_each turns)
        × ((sglang_run turns).per_turn_recompute ≡ new_each turns)
  unfolding append_run sglang_run
  flat_conversation h = (append_each-Chained none turns h, sglang_each-Chained none [] turns tt h)
