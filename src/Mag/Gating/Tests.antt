-- ===== src/Mag/Gating/Tests.antt =====
-- Gating of an episode, a fact and a node of the graph. A text has three tokens, norms and decays
-- are 1.
use ai_augmented_generation.Prelude.{
  ◌≡◌, ◌⊎◌, refl, inl, inr, ℕ, ◌-◌, ◌≤◌, String, true, false, none, some, List, [], ◌∷◌, nat_eq,
  string_eq, All, ok,
}
use ai_augmented_generation.Prelude.Int.{pos, is_negative}
use ai_augmented_generation.Prelude.Float.{wholes}
use ai_augmented_generation.Prelude.Sort.{sorted_desc, place}
use ai_augmented_generation.Orchestration.Warmed.{dot_from}
use ai_augmented_generation.Mag.Gating.{
  ScoredEpisode, ScoredFact, ActivatedNode, GatingCandidate, Ops, in_list, by_score,
  task_specific_filtering, fill_budget, token_budget_allocation, similarity, rerank_all,
  dynamic_reranking, recency_weighted_sampling, hierarchical_assembly, gate, gate_memories,
  from_scored_episode, from_scored_fact,
}
use ai_augmented_generation.Mag.Gating.Budget.{tokens, Placed, token_budget_allocation_lem}
use ai_augmented_generation.Mag.Gating.Laws.{IsGated, gate_memories-IsGated}

abbrev ops : Ops ℕ String
ops = record {
  is_nan = λ a. false;
  is_finite = λ a. true;
  minus_infinity = 0;
  sqrt = λ a. 1;
  exp = λ a. 1;
  log = λ a. 0;
  seconds = λ now timestamp. now - timestamp;
  dumps = λ j. j;
  timestamp_in = λ j. none;
  count_tokens = λ text. 3;
}

abbrev episode : ScoredEpisode ℕ String
episode = record {
  episode = record {
    id = 1;
    session_id = 1;
    content = "asked for prices";
    embedding = 4 ∷ [];
    timestamp = 5;
    salience_score = 1;
    consolidated_at = none;
  };
  score = 2;
}

abbrev fact : ScoredFact ℕ
fact = record {
  fact = record {
    id = 2;
    user_id = 1;
    fact_key = "language";
    fact_value = "Spanish";
    embedding = 1 ∷ [];
    confidence = 1;
    source = "";
    valid_until = none;
    archived_at = none;
  };
  score = 9;
}

abbrev node : ActivatedNode ℕ String
node = record {
  node_id = "n";
  node_type = "Entity";
  properties = "shop";
  activation = 100;
  hops = 1;
}

-- The fact stands first, although the episode is nearer to the query.
gated :
    gate_memories wholes ops
      (episode ∷ [])
      (fact ∷ [])
      (node ∷ [])
      (pos 7)
      (some (3 ∷ []))
      (some ("fact" ∷ "episode" ∷ []))
      24
      9
    ≡ ok (
        record (from_scored_fact wholes ops fact) { score = 3 }
        ∷ record (from_scored_episode wholes ops episode) { score = 12 }
        ∷ [])
unfolding gate_memories gate dynamic_reranking rerank_all similarity dot_from by_score sorted_desc
    place task_specific_filtering in_list recency_weighted_sampling token_budget_allocation
    fill_budget hierarchical_assembly
gated = refl

gate_memories-IsGated_example :
    (result : List (GatingCandidate ℕ String)) × (gate_memories wholes ops
        (episode ∷ [])
        (fact ∷ [])
        (node ∷ [])
        (pos 7)
        (some (3 ∷ []))
        (some ("fact" ∷ "episode" ∷ []))
        24
        9
      ≡ ok result)
    × IsGated wholes ops (pos 7) (some (3 ∷ [])) (some ("fact" ∷ "episode" ∷ [])) 24 9 result
gate_memories-IsGated_example =
    gate_memories-IsGated wholes ops (pos 7) (some (3 ∷ [])) (some ("fact" ∷ "episode" ∷ [])) 24 9
      (episode ∷ []) (fact ∷ []) (node ∷ []) refl (inr refl, (inr refl, (inl refl, tt)))

abbrev two : List (GatingCandidate ℕ String)
two = from_scored_episode wholes ops episode ∷ from_scored_fact wholes ops fact ∷ []

token_budget_allocation_lem_example :
    (tokens wholes ops (token_budget_allocation wholes ops two (pos 5)) ≤ 5)
    × All (Placed wholes ops (pos 5) (token_budget_allocation wholes ops two (pos 5)) 0) two
    × ((is_negative (pos 5) ≡ false) ⊎ (token_budget_allocation wholes ops two (pos 5) ≡ []))
token_budget_allocation_lem_example = token_budget_allocation_lem wholes ops (pos 5) two
