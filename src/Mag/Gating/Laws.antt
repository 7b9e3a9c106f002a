-- ===== src/Mag/Gating/Laws.antt =====
-- What gating selects fits the budget, and is of the types that were asked for.
use ai_augmented_generation.Prelude.{
  ◌≡◌, ◌⊎◌, refl, inl, inr, ℕ, ◌≤◌, String, true, false, ◌||◌, Option, none, some, List, [], ◌∷◌,
  map, nat_eq, string_eq, ==_refl, Bool-cases, arith, length, All, ok,
}
use ai_augmented_generation.Prelude.Int.{ℤ, pos_part, is_negative}
use ai_augmented_generation.Prelude.Float.{Floats}
use ai_augmented_generation.Prelude.Sort.{sorted_desc, All-sorted_desc}
use ai_augmented_generation.Orchestration.Warmed.{dot, is_zero, zero_float}
use ai_augmented_generation.Mag.Gating.{
  Ops, ScoredEpisode, ScoredFact, ActivatedNode, in_list, scores_higher, by_score,
  task_specific_filtering, token_budget_allocation, similarity, rerank_by, rerank_all,
  dynamic_reranking, reweigh_at, reweigh, recency_weighted_sampling, stands_before,
  hierarchical_assembly, reranked_for, filtered_for, all_candidates, gate, gate_memories,
}
use ai_augmented_generation.Mag.Gating.Budget.{
  Entry, tokens, tokens-sorted_desc, All-fill_budget, token_budget_allocation_lem,
}

module _ {J : Type 0} (floats : Floats) (ops : Ops floats.Float J) where
  -- Of one of the types, if types are given.
  abbrev pub IsAllowed : Option (List String) → (Entry floats ops) → Type 0
  IsAllowed none c = Unit
  IsAllowed (some allowed) c = in_list c.source_type allowed ≡ true

  filtered-IsAllowed :
      (allowed : List String) (cs : List (Entry floats ops))
      → All (IsAllowed (some allowed)) (task_specific_filtering floats ops cs allowed)
  unfolding task_specific_filtering
  filtered-IsAllowed allowed [] = tt
  filtered-IsAllowed allowed (c ∷ cs) = elim (Bool-cases (in_list c.source_type allowed)) [
    | inl e ↦ rw e (e, filtered-IsAllowed allowed cs)
    | inr e ↦ rw e (filtered-IsAllowed allowed cs)
  ]

  All-IsAllowed : (cs : List (Entry floats ops)) → All (IsAllowed none) cs
  All-IsAllowed [] = tt
  All-IsAllowed (c ∷ cs) = (tt, All-IsAllowed cs)

  filtered_for-IsAllowed :
      (allowed : Option (List String)) (cs : List (Entry floats ops))
      → All (IsAllowed allowed) (filtered_for floats ops allowed cs)
  filtered_for-IsAllowed none cs = All-IsAllowed cs
  filtered_for-IsAllowed (some allowed) cs = filtered-IsAllowed allowed cs

  -- A re-weighting changes the score only.
  reweigh-IsAllowed :
      (allowed : Option (List String)) (half_life_hours : floats.Float) (now : ℕ)
      (c : (Entry floats ops)) (timestamp : Option ℕ)
      → IsAllowed allowed c
      → IsAllowed allowed (reweigh_at floats ops half_life_hours now c timestamp)
  reweigh-IsAllowed none half_life_hours now c timestamp h = tt
  reweigh-IsAllowed (some allowed) half_life_hours now c none h = h
  reweigh-IsAllowed (some allowed) half_life_hours now c (some t) h = h

  reweighed-IsAllowed :
      (allowed : Option (List String)) (half_life_hours : floats.Float) (now : ℕ)
      (cs : List (Entry floats ops))
      → All (IsAllowed allowed) cs
      → All (IsAllowed allowed) (map (reweigh floats ops half_life_hours now) cs)
  reweighed-IsAllowed allowed half_life_hours now [] h = tt
  reweighed-IsAllowed allowed half_life_hours now (c ∷ cs) h = (
    reweigh-IsAllowed allowed half_life_hours now c c.timestamp (h.0),
    reweighed-IsAllowed allowed half_life_hours now cs (h.1),
  )

  -- The embedding is empty, or as long as that of the query, if there is one.
  abbrev pub IsComparable : Option (List floats.Float) → (Entry floats ops) → Type 0
  IsComparable none c = Unit
  IsComparable (some query) c = (c.embedding ≡ []) ⊎ (length query ≡ length c.embedding)

  similarity-ok :
      (a b : List floats.Float)
      → length a ≡ length b
      → (score : floats.Float) × (similarity floats ops a b ≡ ok score)
  unfolding similarity
  similarity-ok a b same =
      let norm_a = ops.sqrt (dot floats ops.sqrt a a) in
      let norm_b = ops.sqrt (dot floats ops.sqrt b b) in
      let result = floats.div (dot floats ops.sqrt a b) (floats.mul norm_a norm_b) in
      rw (same, ==_refl (length b))
        (elim (Bool-cases (is_zero floats ops.sqrt norm_a || is_zero floats ops.sqrt norm_b)) [
          | inl zero ↦ rw zero (zero_float floats ops.sqrt, refl)
          | inr other ↦ rw other (elim (Bool-cases (ops.is_finite result)) [
            | inl finite ↦ rw finite (result, refl)
            | inr infinite ↦ rw infinite (zero_float floats ops.sqrt, refl)
          ])
        ])

  rerank_by-ok :
      (query : List floats.Float) (c : (Entry floats ops)) (embedding : List floats.Float)
      → (embedding ≡ []) ⊎ (length query ≡ length embedding)
      → (c' : (Entry floats ops)) × (rerank_by floats ops query c embedding ≡ ok c')
  rerank_by-ok query c [] h = (c, refl)
  rerank_by-ok query c (x ∷ embedding) h =
      let (score, e) =
        similarity-ok query (x ∷ embedding)
          (elim h [ inl empty ↦ absurd (cc empty) | inr s ↦ s ]) in
      (record c { score = score }, rw e refl)

  rerank_all-ok :
      (query : List floats.Float) (cs : List (Entry floats ops))
      → All (IsComparable (some query)) cs
      → (cs' : List (Entry floats ops)) × (rerank_all floats ops query cs ≡ ok cs')
  unfolding rerank_all
  rerank_all-ok query [] h = ([], refl)
  rerank_all-ok query (c ∷ cs) h =
      let (c', e) = rerank_by-ok query c c.embedding (h.0) in
      let (cs', e') = rerank_all-ok query cs (h.1) in (c' ∷ cs', rw (e, e') refl)

  reranked_for-ok :
      (query : Option (List floats.Float)) (cs : List (Entry floats ops))
      → All (IsComparable query) cs
      → (cs' : List (Entry floats ops)) × (reranked_for floats ops query cs ≡ ok cs')
  unfolding dynamic_reranking
  reranked_for-ok none cs h = (cs, refl)
  reranked_for-ok (some query) cs h =
      let (cs', e) = rerank_all-ok query cs h in (by_score floats ops cs', rw e refl)

  module _ (token_budget : ℤ) (query_embedding : Option (List floats.Float))
      (allowed : Option (List String)) (half_life_hours : floats.Float) (now : ℕ) where
    token_budget_allocation-IsAllowed :
        (cs : List (Entry floats ops))
        → All (IsAllowed allowed) cs
        → All (IsAllowed allowed) (token_budget_allocation floats ops cs token_budget)
    unfolding token_budget_allocation by_score
    token_budget_allocation-IsAllowed cs h = elim (Bool-cases (is_negative token_budget)) [
      | inl negative ↦ rw negative tt
      | inr enough ↦ rw enough (
          All-fill_budget floats ops token_budget (IsAllowed allowed)
            (sorted_desc (scores_higher floats ops) cs) 0
            (All-sorted_desc (scores_higher floats ops) (IsAllowed allowed) cs h))
    ]

    abbrev pub IsGated : List (Entry floats ops) → Type 0
    IsGated result =
        (tokens floats ops result ≤ pos_part token_budget) × All (IsAllowed allowed) result

    assembled-IsGated :
        (cs : List (Entry floats ops))
        → All (IsAllowed allowed) cs
        → IsGated
            (hierarchical_assembly floats ops (token_budget_allocation floats ops cs token_budget))
    unfolding hierarchical_assembly
    assembled-IsGated cs h =
        let selected = token_budget_allocation floats ops cs token_budget in
        (
          omega (
            arith,
            tokens-sorted_desc floats ops (stands_before floats ops) selected,
            (token_budget_allocation_lem floats ops token_budget cs).0,
          ),
          All-sorted_desc (stands_before floats ops) (IsAllowed allowed) selected
              (token_budget_allocation-IsAllowed cs h),
        )

    gate-IsGated :
        (cs : List (Entry floats ops))
        → floats.le half_life_hours (zero_float floats ops.sqrt) ≡ false
        → All (IsComparable query_embedding) cs
        → (result : List (Entry floats ops)) × (gate floats ops cs token_budget query_embedding
              allowed half_life_hours now
            ≡ ok result)
          × IsGated result
    unfolding gate recency_weighted_sampling by_score
    gate-IsGated cs positive comparable =
        let (reranked, e) = reranked_for-ok query_embedding cs comparable in
        let weighted =
          map (reweigh floats ops half_life_hours now) (filtered_for floats ops allowed reranked) in
        let ranked = sorted_desc (scores_higher floats ops) weighted in
        (
          hierarchical_assembly floats ops (token_budget_allocation floats ops ranked token_budget),
          rw (e, positive) refl,
          assembled-IsGated ranked (
              All-sorted_desc (scores_higher floats ops) (IsAllowed allowed) weighted (
                reweighed-IsAllowed allowed half_life_hours now
                  (filtered_for floats ops allowed reranked)
                  (filtered_for-IsAllowed allowed reranked))),
        )

    -- Where the half-life is positive, and each embedding is empty or as long as that of the query,
    -- if there is one, gating does not raise. The texts of what it gives fit in the token budget,
    -- and if source types are given it is all of them.
    pub gate_memories-IsGated :
        (episodes : List (ScoredEpisode floats.Float J)) (facts : List (ScoredFact floats.Float))
        (graph_nodes : List (ActivatedNode floats.Float J))
        → floats.le half_life_hours (zero_float floats ops.sqrt) ≡ false
        → All (IsComparable query_embedding) (all_candidates floats ops episodes facts graph_nodes)
        → (result : List (Entry floats ops)) × (gate_memories floats ops episodes facts graph_nodes
              token_budget query_embedding allowed half_life_hours now
            ≡ ok result)
          × IsGated result
    unfolding gate_memories
    gate_memories-IsGated episodes facts graph_nodes positive comparable =
        gate-IsGated (all_candidates floats ops episodes facts graph_nodes) positive comparable
