-- ===== src/Mag/Gating.antt =====
-- src/mag/application/gating, and the entities of src/mag/domain/entities.py that it reads. The
-- token counter, `json.dumps` (`J` is the type of what it takes), the functions of `math` and
-- `timedelta.total_seconds` are parameters; a time is a number.
mod Budget
mod Laws
mod Tests
use ai_augmented_generation.Prelude.{
  ℕ, ◌+◌, String, Bool, true, false, not, ◌&&◌, ◌||◌, Option, none, some, List, [], ◌∷◌, ◌++◌, map,
  take, Eq, nat_eq, string_eq, ◌==◌, ltb, if◌then◌else◌, length, Outcome, ok, raise, value_error,
  ◌>>=◌,
}
use ai_augmented_generation.Prelude.Int.{ℤ, pos, pos_part, ltb_ℤ, is_negative}
use ai_augmented_generation.Prelude.Float.{Floats}
use ai_augmented_generation.Prelude.Sort.{sorted_desc}
use ai_augmented_generation.Orchestration.Warmed.{dot, is_zero, zero_float}

pub record EpisodicMemory (F J : Type 0) : Type 0 where
  pub id : ℕ
  pub session_id : ℕ
  pub content : J
  pub embedding : List F
  pub timestamp : ℕ
  pub salience_score : F
  pub consolidated_at : Option ℕ

pub record SemanticMemory (F : Type 0) : Type 0 where
  pub id : ℕ
  pub user_id : ℕ
  pub fact_key : String
  pub fact_value : String
  pub embedding : List F
  pub confidence : F
  pub source : String
  pub valid_until : Option ℕ
  pub archived_at : Option ℕ

pub record ScoredEpisode (F J : Type 0) : Type 0 where
  pub episode : EpisodicMemory F J
  pub score : F

pub record ScoredFact (F : Type 0) : Type 0 where
  pub fact : SemanticMemory F
  pub score : F

pub record ActivatedNode (F J : Type 0) : Type 0 where
  pub node_id : String
  pub node_type : String
  pub properties : J
  pub activation : F
  pub hops : ℕ

pub data Origin (F J : Type 0) : Type 0 where
  an_episode : EpisodicMemory F J → Origin F J
  a_fact : SemanticMemory F → Origin F J
  a_node : ActivatedNode F J → Origin F J

pub record GatingCandidate (F J : Type 0) : Type 0 where
  pub content_text : String
  pub score : F
  pub salience : F
  pub timestamp : Option ℕ
  pub source_type : String
  pub origin : Origin F J
  pub embedding : List F

-- What `math`, `json`, `datetime` and the tokenizer do.
pub record Ops (F J : Type 0) : Type 0 where
  pub is_nan : F → Bool
  pub is_finite : F → Bool
  pub minus_infinity : F
  pub sqrt : F → F
  pub exp : F → F
  pub log : F → F
  -- `(now - timestamp).total_seconds()`
  pub seconds : ℕ → ℕ → F
  pub dumps : J → String
  pub timestamp_in : J → Option ℕ
  pub count_tokens : String → ℕ

-- `_SOURCE_TYPE_PRIORITY.get(source_type, len(_SOURCE_TYPE_PRIORITY))`
abbrev pub priority : String → ℕ
priority source_type =
    if source_type == "fact"
    then 0
    else if source_type == "episode"
    then 1
    else if source_type == "graph_node"
    then 2
    else 3

-- `x in xs`
pub in_list : String → List String → Bool
in_list x [] = false
in_list x (y ∷ ys) = (x == y) || in_list x ys

module _ {J : Type 0} (floats : Floats) (ops : Ops floats.Float J) where
  abbrev pub from_scored_episode : ScoredEpisode floats.Float J → GatingCandidate floats.Float J
  from_scored_episode scored = record {
    content_text = ops.dumps scored.episode.content;
    score = scored.score;
    salience = scored.episode.salience_score;
    timestamp = some scored.episode.timestamp;
    source_type = "episode";
    origin = an_episode scored.episode;
    embedding = scored.episode.embedding;
  }

  abbrev pub from_scored_fact : ScoredFact floats.Float → GatingCandidate floats.Float J
  from_scored_fact scored = record {
    content_text = scored.fact.fact_value;
    score = scored.score;
    salience = scored.fact.confidence;
    timestamp = none;
    source_type = "fact";
    origin = a_fact scored.fact;
    embedding = scored.fact.embedding;
  }

  abbrev pub from_activated_node : ActivatedNode floats.Float J → GatingCandidate floats.Float J
  from_activated_node node = record {
    content_text = ops.dumps node.properties;
    score = node.activation;
    salience = zero_float floats ops.sqrt;
    timestamp = ops.timestamp_in node.properties;
    source_type = "graph_node";
    origin = a_node node;
    embedding = [];
  }

  abbrev pub safe_score : floats.Float → floats.Float
  safe_score score = if ops.is_nan score then ops.minus_infinity else score

  -- the order of `sorted(candidates, key=lambda c: safe_score(c.score), reverse=True)`
  abbrev pub scores_higher : GatingCandidate floats.Float J → GatingCandidate floats.Float J → Bool
  scores_higher a b = floats.lt (safe_score b.score) (safe_score a.score)

  pub by_score : List (GatingCandidate floats.Float J) → List (GatingCandidate floats.Float J)
  by_score candidates = sorted_desc scores_higher candidates

  -- `TopKSelection.execute`
  pub top_k_selection :
      List (GatingCandidate floats.Float J) → ℤ → List (GatingCandidate floats.Float J)
  top_k_selection candidates k = take (pos_part k) (by_score candidates)

  -- `TaskSpecificFiltering.execute`
  pub task_specific_filtering :
      List (GatingCandidate floats.Float J) → List String → List (GatingCandidate floats.Float J)
  task_specific_filtering [] allowed = []
  task_specific_filtering (c ∷ candidates) allowed =
      if in_list c.source_type allowed
      then c ∷ task_specific_filtering candidates allowed
      else task_specific_filtering candidates allowed

  -- the loop of `TokenBudgetAllocation.execute`
  pub fill_budget :
      ℤ → ℕ → List (GatingCandidate floats.Float J) → List (GatingCandidate floats.Float J)
  fill_budget token_budget running_total [] = []
  fill_budget token_budget running_total (c ∷ candidates) =
      let more = running_total + ops.count_tokens c.content_text in
      let over = ltb_ℤ token_budget (pos more) in
      let rest = fill_budget token_budget (if over then running_total else more) candidates in
      if over then rest else c ∷ rest

  pub token_budget_allocation :
      List (GatingCandidate floats.Float J) → ℤ → List (GatingCandidate floats.Float J)
  token_budget_allocation candidates token_budget =
      if is_negative token_budget then [] else fill_budget token_budget 0 (by_score candidates)

  -- `_cosine_similarity`
  pub similarity : List floats.Float → List floats.Float → Outcome floats.Float
  similarity a b =
      let norm_a = ops.sqrt (dot floats ops.sqrt a a) in
      let norm_b = ops.sqrt (dot floats ops.sqrt b b) in
      let result = floats.div (dot floats ops.sqrt a b) (floats.mul norm_a norm_b) in
      if not (length a == length b)
      then raise value_error
      else if is_zero floats ops.sqrt norm_a || is_zero floats ops.sqrt norm_b
      then ok (zero_float floats ops.sqrt)
      else if ops.is_finite result
      then ok result
      else ok (zero_float floats ops.sqrt)

  abbrev pub rerank_by :
      List floats.Float
      → GatingCandidate floats.Float J
      → List floats.Float
      → Outcome (GatingCandidate floats.Float J)
  rerank_by query c [] = ok c
  rerank_by query c (x ∷ embedding) =
      similarity query (x ∷ embedding) >>= λ score. ok (record c { score = score })

  pub rerank_all :
      List floats.Float
      → List (GatingCandidate floats.Float J)
      → Outcome (List (GatingCandidate floats.Float J))
  rerank_all query [] = ok []
  rerank_all query (c ∷ candidates) =
      rerank_by query c c.embedding >>= λ c'. rerank_all query candidates >>= λ rest. ok (c' ∷ rest)

  -- `DynamicReranking.execute`
  pub dynamic_reranking :
      List (GatingCandidate floats.Float J)
      → List floats.Float
      → Outcome (List (GatingCandidate floats.Float J))
  dynamic_reranking candidates query =
      rerank_all query candidates >>= λ reranked. ok (by_score reranked)

  -- `max(seconds / 3600.0, 0.0)`
  abbrev pub age_hours : ℕ → ℕ → floats.Float
  age_hours now timestamp =
      let hours = floats.div (ops.seconds now timestamp) (floats.of_int (pos 3600)) in
      if floats.lt hours (zero_float floats ops.sqrt) then zero_float floats ops.sqrt else hours

  abbrev pub decay_of : floats.Float → floats.Float → floats.Float
  decay_of half_life_hours age = ops.exp (
      floats.div
        (floats.mul (floats.sub (zero_float floats ops.sqrt) (ops.log (floats.of_int (pos 2)))) age)
        half_life_hours)

  abbrev pub reweigh_at :
      floats.Float → ℕ → GatingCandidate floats.Float J → Option ℕ → GatingCandidate floats.Float J
  reweigh_at half_life_hours now c none = c
  reweigh_at half_life_hours now c (some timestamp) =
      let decay = decay_of half_life_hours (age_hours now timestamp) in
      let multiplier =
        if floats.le (zero_float floats ops.sqrt) c.score
        then decay
        else floats.sub (floats.of_int (pos 2)) decay in
      record c { score = floats.mul c.score multiplier }

  abbrev pub reweigh :
      floats.Float → ℕ → GatingCandidate floats.Float J → GatingCandidate floats.Float J
  reweigh half_life_hours now c = reweigh_at half_life_hours now c c.timestamp

  -- `RecencyWeightedSampling.execute`
  pub recency_weighted_sampling :
      List (GatingCandidate floats.Float J)
      → floats.Float
      → ℕ
      → Outcome (List (GatingCandidate floats.Float J))
  recency_weighted_sampling candidates half_life_hours now =
      if floats.le half_life_hours (zero_float floats ops.sqrt)
      then raise value_error
      else ok (by_score (map (reweigh half_life_hours now) candidates))

  -- the order of the key `(priority, -safe_score(c.score))`
  abbrev pub stands_before : GatingCandidate floats.Float J → GatingCandidate floats.Float J → Bool
  stands_before a b =
      if priority a.source_type == priority b.source_type
      then floats.lt (floats.sub (zero_float floats ops.sqrt) (safe_score a.score))
          (floats.sub (zero_float floats ops.sqrt) (safe_score b.score))
      else ltb (priority a.source_type) (priority b.source_type)

  -- `HierarchicalAssembly.execute`
  pub hierarchical_assembly :
      List (GatingCandidate floats.Float J) → List (GatingCandidate floats.Float J)
  hierarchical_assembly candidates = sorted_desc stands_before candidates

  abbrev pub reranked_for :
      Option (List floats.Float)
      → List (GatingCandidate floats.Float J)
      → Outcome (List (GatingCandidate floats.Float J))
  reranked_for none candidates = ok candidates
  reranked_for (some query) candidates = dynamic_reranking candidates query

  abbrev pub filtered_for :
      Option (List String)
      → List (GatingCandidate floats.Float J)
      → List (GatingCandidate floats.Float J)
  filtered_for none candidates = candidates
  filtered_for (some allowed) candidates = task_specific_filtering candidates allowed

  abbrev pub all_candidates :
      List (ScoredEpisode floats.Float J)
      → List (ScoredFact floats.Float)
      → List (ActivatedNode floats.Float J)
      → List (GatingCandidate floats.Float J)
  all_candidates episodes facts graph_nodes =
      map from_scored_episode episodes
      ++ map from_scored_fact facts
      ++ map from_activated_node graph_nodes

  -- the stages after the candidates are made
  pub gate :
      List (GatingCandidate floats.Float J)
      → ℤ
      → Option (List floats.Float)
      → Option (List String)
      → floats.Float
      → ℕ
      → Outcome (List (GatingCandidate floats.Float J))
  gate candidates token_budget query_embedding allowed_source_types half_life_hours now =
      reranked_for query_embedding candidates >>= λ reranked.
      recency_weighted_sampling (filtered_for allowed_source_types reranked) half_life_hours now
      >>= λ weighted. ok (hierarchical_assembly (token_budget_allocation weighted token_budget))

  -- `GateMemories.execute`
  pub gate_memories :
      List (ScoredEpisode floats.Float J)
      → List (ScoredFact floats.Float)
      → List (ActivatedNode floats.Float J)
      → ℤ
      → Option (List floats.Float)
      → Option (List String)
      → floats.Float
      → ℕ
      → Outcome (List (GatingCandidate floats.Float J))
  gate_memories episodes facts graph_nodes = gate (all_candidates episodes facts graph_nodes)
