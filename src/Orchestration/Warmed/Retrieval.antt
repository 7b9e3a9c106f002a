-- ===== src/Orchestration/Warmed/Retrieval.antt =====
-- A query is answered from the cache, or by the fallback.
use ai_augmented_generation.Prelude.{
  ◌≡◌, ◌⊎◌, refl, ap, sym, ◌∙◌, subst, inl, inr, ℕ, ◌+◌, String, true, false, Option, none, some,
  List, [], ◌∷◌, Eq, nat_eq, string_eq, pair_eq, ◌==◌, Bool-cases, length, All, Outcome, ok,
}
use ai_augmented_generation.Prelude.Float.{Floats}
use ai_augmented_generation.Prelude.Dict.{
  Dict, lookup, insert, remove, IsDistinct, insert-IsDistinct, remove-IsDistinct,
}
use ai_augmented_generation.Prelude.Sort.{IsTotal}
use ai_augmented_generation.Orchestration.Stores.{Store, IsStore, CacheHit}
use ai_augmented_generation.Orchestration.Warmed.{
  SearchResult, Memo, Warmed, entries_or_new, note_warmed, forget_in, forget, cosine, match_in,
  best_warmed_match, answer, retrieve,
}
use ai_augmented_generation.Orchestration.Warmed.Laws.{
  has_greater_score, is_confirmed, Answers, match_in-Answers,
}

-- What holds of every value of a dict.
module _ {K V : Type 0} ⦃keys : Eq K⦄ (P : V → Type 0) where
  abbrev pub AllValues : Dict K V → Type 0
  AllValues d = All (λ (e : K × V). P (e.1)) d

  lookup-AllValues : (d : Dict K V) (k : K) (v : V) → AllValues d → lookup k d ≡ some v → P v
  unfolding lookup
  lookup-AllValues [] k v h e = cc
  lookup-AllValues ((j, u) ∷ d) k v h e = elim (Bool-cases (j == k)) [
    | inl same ↦ subst P (some_inj u v (rw same at e)) (h.0)
    | inr other ↦ lookup-AllValues d k v (h.1) (rw other at e)
  ]
    where
      some_inj : (a b : V) → some a ≡ some b → a ≡ b
      some_inj a b e' = cc

  insert-AllValues : (k : K) (v : V) (d : Dict K V) → P v → AllValues d → AllValues (insert k v d)
  unfolding insert
  insert-AllValues k v [] p h = (p, tt)
  insert-AllValues k v ((j, u) ∷ d) p h = elim (Bool-cases (j == k)) [
    | inl same ↦ rw same (p, h.1)
    | inr other ↦ rw other (h.0, insert-AllValues k v d p (h.1))
  ]

  remove-AllValues : (k : K) (d : Dict K V) → AllValues d → AllValues (remove k d)
  unfolding remove
  remove-AllValues k [] h = tt
  remove-AllValues k ((j, u) ∷ d) h = elim (Bool-cases (j == k)) [
    | inl same ↦ rw same (h.1)
    | inr other ↦ rw other (h.0, remove-AllValues k d (h.1))
  ]

-- The embedding that is kept is that of the content.
abbrev pub IsMemo : {F : Type 0} → (String → List F) → Memo F → Type 0
IsMemo embed memo = memo.embedding ≡ embed memo.content

module _ {F Doc : Type 0} ⦃docs : Eq Doc⦄ (embed : String → List F) where
  abbrev pub IsMemos : Dict Doc (Memo F) → Type 0
  IsMemos entries = IsDistinct entries × AllValues (IsMemo embed) entries

  abbrev pub IsWarmed : Warmed F Doc → Type 0
  IsWarmed w = AllValues IsMemos w.warmed

  entries-IsMemos :
      (w : Warmed F Doc) (tenant_id : ℕ) (found : Option (Dict Doc (Memo F)))
      → IsWarmed w
      → lookup tenant_id w.warmed ≡ found
      → IsMemos (entries_or_new found)
  entries-IsMemos w tenant_id none h e = (tt, tt)
  entries-IsMemos w tenant_id (some entries) h e =
      lookup-AllValues IsMemos w.warmed tenant_id entries h e

  pub note_warmed-IsWarmed :
      (w : Warmed F Doc) (tenant_id : ℕ) (i : Doc) (content : String)
      → IsWarmed w
      → IsWarmed (note_warmed embed w tenant_id i content)
  unfolding note_warmed
  note_warmed-IsWarmed w tenant_id i content h =
      let memo : Memo F = record { content = content; embedding = embed content } in
      let found = lookup tenant_id w.warmed in
      let (distinct, memos) = entries-IsMemos w tenant_id found h refl in
      let entries = entries_or_new found in
      insert-AllValues IsMemos tenant_id (insert i memo entries) w.warmed
        (
          insert-IsDistinct i memo entries distinct,
          insert-AllValues (IsMemo embed) i memo entries refl memos,
        )
        h

  forget_in-IsWarmed :
      (w : Warmed F Doc) (tenant_id : ℕ) (i : Doc) (found : Option (Dict Doc (Memo F)))
      → IsWarmed w
      → lookup tenant_id w.warmed ≡ found
      → IsWarmed (forget_in w tenant_id i found)
  forget_in-IsWarmed w tenant_id i none h e = h
  forget_in-IsWarmed w tenant_id i (some entries) h e =
      let (distinct, memos) = lookup-AllValues IsMemos w.warmed tenant_id entries h e in
      insert-AllValues IsMemos tenant_id (remove i entries) w.warmed
        (remove-IsDistinct i entries distinct, remove-AllValues (IsMemo embed) i entries memos) h

  pub forget-IsWarmed :
      (w : Warmed F Doc) (tenant_id : ℕ) (i : Doc) → IsWarmed w → IsWarmed (forget w tenant_id i)
  unfolding forget
  forget-IsWarmed w tenant_id i h =
      forget_in-IsWarmed w tenant_id i (lookup tenant_id w.warmed) h refl

module _ {Doc S V : Type 0} ⦃docs : Eq Doc⦄ (floats : Floats) (sqrt : floats.Float → floats.Float)
    (content_hash : String → String) (store : Store (ℕ × Doc) S (CacheHit V))
    (hit_of : String → CacheHit V) (IsSound : S → Type 0) (view : S → ℕ × Doc → Option (CacheHit V))
    (laws : IsStore store hit_of IsSound view) (embed : String → List floats.Float)
    (fallback : ℕ → String → ℕ → Outcome (List (SearchResult floats.Float Doc)))
    (similarity_threshold : floats.Float) where
  memos-SameLength :
      (dimension : ℕ)
      → ((text : String) → length (embed text) ≡ dimension)
      → (query : String) (entries : Dict Doc (Memo floats.Float)) → AllValues (IsMemo embed) entries
      → All (λ (e : Doc × Memo floats.Float). length (embed query) ≡ length (e.1.embedding)) entries
  memos-SameLength dimension fixed query [] h = tt
  memos-SameLength dimension fixed query ((i, memo) ∷ entries) h = (
    fixed query ∙ sym (fixed memo.content) ∙ sym (ap length (h.0)),
    memos-SameLength dimension fixed query entries (h.1),
  )

  module _ (w : Warmed floats.Float Doc) (s : S) (tenant_id : ℕ) (query : String) (top_k : ℕ) where
    abbrev entries : Dict Doc (Memo floats.Float)
    entries = entries_or_new (lookup tenant_id w.warmed)

    abbrev IsAnswer : Option (SearchResult floats.Float Doc) → Type 0
    IsAnswer r =
        Answers floats sqrt content_hash store hit_of IsSound view laws s tenant_id (embed query)
          entries r

    -- The entry is not confirmed, or its score is below the threshold.
    abbrev IsNoHit : Doc × Memo floats.Float → Type 0
    IsNoHit (i, memo) =
        (is_confirmed floats sqrt content_hash store hit_of IsSound view laws s tenant_id i
            memo.content
          ≡ false)
        ⊎ (floats.le similarity_threshold (cosine floats sqrt (embed query) memo.embedding) ≡ false)

    -- One confirmed answer, and a hit is counted; or no entry is a hit, and a miss is counted.
    abbrev pub Retrieves :
        Warmed floats.Float Doc → Outcome (List (SearchResult floats.Float Doc)) → Type 0
    Retrieves w' outcome =
        ((r : SearchResult floats.Float Doc) × IsAnswer (some r)
          × (floats.le similarity_threshold r.score ≡ true)
          × (outcome ≡ ok (r ∷ []))
          × (w' ≡ record w { hits = w.hits + 1 }))
        ⊎ (All IsNoHit entries
            × (outcome ≡ fallback tenant_id query top_k)
            × (w' ≡ record w { misses = w.misses + 1 }))

    module _
        (below : (a b c : floats.Float)
          → floats.le a b ≡ false
          → floats.lt b c ≡ false
          → floats.le a c ≡ false) where
      none_hit :
          (known : Dict Doc (Memo floats.Float))
          → All
              (λ (e : Doc × Memo floats.Float).
                is_confirmed floats sqrt content_hash store hit_of IsSound view laws s tenant_id
                  (e.0)
                  (e.1.content)
                ≡ false)
              known
          → All IsNoHit known
      none_hit [] h = tt
      none_hit (e ∷ known) h = (inl (h.0), none_hit known (h.1))

      low_hit :
          (score : floats.Float)
          → floats.le similarity_threshold score ≡ false
          → (known : Dict Doc (Memo floats.Float))
          → All
              (λ (e : Doc × Memo floats.Float).
                (is_confirmed floats sqrt content_hash store hit_of IsSound view laws s tenant_id
                    (e.0)
                    (e.1.content)
                  ≡ false)
                ⊎ (floats.lt score (cosine floats sqrt (embed query) (e.1.embedding)) ≡ false))
              known
          → All IsNoHit known
      low_hit score low [] h = tt
      low_hit score low ((i, memo) ∷ known) h = (
        elim (h.0) [
          | inl stale ↦ inl stale
          | inr at_most ↦ inr (
              below similarity_threshold score (cosine floats sqrt (embed query) memo.embedding) low
                at_most)
        ],
        low_hit score low known (h.1),
      )

      answer-Retrieves :
          (r : Option (SearchResult floats.Float Doc))
          → IsAnswer r
          → let (w', outcome) =
              answer floats sqrt content_hash store embed fallback similarity_threshold w tenant_id
                query top_k
                (ok r) in
            Retrieves w' outcome
      unfolding answer
      answer-Retrieves none h = inr (none_hit entries h, refl, refl)
      answer-Retrieves (some r) h = elim (Bool-cases (floats.le similarity_threshold r.score)) [
        | inl high ↦ rw high (inl (r, h, high, refl, refl))
        | inr low ↦
            let (held, confirmed, best) = h in
            rw low (inr (low_hit r.score low entries best, refl, refl))
      ]

      matched :
          (dimension : ℕ)
          → ((text : String) → length (embed text) ≡ dimension)
          → IsTotal (has_greater_score floats sqrt content_hash store hit_of IsSound view laws)
          → IsSound s
          → IsWarmed embed w
          → (found : Option (Dict Doc (Memo floats.Float))) → lookup tenant_id w.warmed ≡ found
          → let (s', outcome) =
              match_in floats sqrt content_hash store s tenant_id (embed query) found in
            ((k : ℕ × Doc) → view s' k ≡ view s k)
            × ((r : Option (SearchResult floats.Float Doc)) × (outcome ≡ ok r)
                × Answers floats sqrt content_hash store hit_of IsSound view laws s tenant_id
                    (embed query)
                    (entries_or_new found)
                    r)
      matched dimension fixed total sound warmed none e = (λ k. refl, (none, refl, tt))
      matched dimension fixed total sound warmed (some known) e =
          let (distinct, memos) =
            lookup-AllValues (IsMemos embed) w.warmed tenant_id known warmed e in
          match_in-Answers floats sqrt content_hash store hit_of IsSound view laws s tenant_id
            (embed query) known total sound distinct
            (memos-SameLength dimension fixed query known memos)

      -- Where the scores are totally ordered, every embedding has the same length and the memos are
      -- those of note_warmed, a query leaves what is cached as it was, and it does not raise unless
      -- the fallback does. It gives one warmed document whose content is still the cached one, with
      -- no greater score among those of the tenant that are, and counts a hit; or none of those
      -- reaches the threshold, and it gives what the fallback does and counts a miss.
      pub retrieve-Retrieves :
          (dimension : ℕ)
          → ((text : String) → length (embed text) ≡ dimension)
          → IsTotal (has_greater_score floats sqrt content_hash store hit_of IsSound view laws)
          → IsSound s
          → IsWarmed embed w
          → let (w', (s', outcome)) =
              retrieve floats sqrt content_hash store embed fallback similarity_threshold w s
                tenant_id query top_k in
            ((k : ℕ × Doc) → view s' k ≡ view s k) × Retrieves w' outcome
      unfolding retrieve best_warmed_match
      retrieve-Retrieves dimension fixed total sound warmed =
          let (same, (r, answered, best)) =
            matched dimension fixed total sound warmed (lookup tenant_id w.warmed) refl in
          (
            same,
            subst
                (λ found.
                  let (w', outcome) =
                    answer floats sqrt content_hash store embed fallback similarity_threshold w
                      tenant_id query top_k found in
                  Retrieves w' outcome)
                (sym answered) (answer-Retrieves r best),
          )
