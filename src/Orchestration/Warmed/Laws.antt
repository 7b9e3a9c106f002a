-- ===== src/Orchestration/Warmed/Laws.antt =====
-- What a query finds among the warmed documents.
use ai_augmented_generation.Prelude.{
  ◌≡◌, ◌⊎◌, refl, ap, sym, ◌∙◌, subst, inl, inr, ℕ, String, Bool, true, false, Option, none, some,
  List, [], ◌∷◌, Eq, nat_eq, string_eq, pair_eq, ◌==◌, ==_refl, ==_iff, Bool-cases, length, All, ok,
}
use ai_augmented_generation.Prelude.Float.{Floats}
use ai_augmented_generation.Prelude.Dict.{Dict, lookup, IsDistinct}
use ai_augmented_generation.Prelude.Sort.{
  IsTotal, IsDescending, sorted_desc, sorted_desc-IsDescending, All-sorted_desc, All-unsorted_desc,
}
use ai_augmented_generation.Orchestration.Stores.{Store, IsStore, CacheHit}
use ai_augmented_generation.Orchestration.Warmed.{
  SearchResult, Memo, Candidate, cosine, cosine_similarity, scores_above, score_all, confirms,
  result_of, first_confirmed, match_in,
}

-- Every entry of a dict is what its key gives.
All-entries :
    {K V : Type 0} ⦃keys : Eq K⦄ (P : K → V → Type 0) (d : Dict K V)
    → IsDistinct d
    → ((k : K) (v : V) → lookup k d ≡ some v → P k v)
    → All (λ (e : K × V). P (e.0) (e.1)) d
unfolding lookup
All-entries P [] h every = tt
All-entries P ((k, v) ∷ d) h every = (
  every k v (rw (==_refl k) refl),
  All-entries P d (h.1) (λ j u there. every j u (elim (Bool-cases (k == j)) [
    | inr other ↦ rw other there
    | inl same ↦ absurd (only_once j u same there)
  ])),
)
  where
    only_once : (j : _) (u : _) → (k == j) ≡ true → lookup j d ≡ some u → ⊥
    only_once j u same there = cc ((==_iff k j).0 same, h.0, there)

-- A content with this hash is cached.
abbrev pub holds_hash : {V : Type 0} → String → Option (CacheHit V) → Bool
holds_hash hash none = false
holds_hash hash (some hit) = hit.content_hash == hash

module _ {Doc S V : Type 0} ⦃docs : Eq Doc⦄ (floats : Floats) (sqrt : floats.Float → floats.Float)
    (content_hash : String → String) (store : Store (ℕ × Doc) S (CacheHit V))
    (hit_of : String → CacheHit V) (IsSound : S → Type 0) (view : S → ℕ × Doc → Option (CacheHit V))
    (laws : IsStore store hit_of IsSound view) where
  abbrev pub has_greater_score : Candidate floats.Float Doc → Candidate floats.Float Doc → Bool
  has_greater_score = scores_above floats sqrt content_hash store

  confirms_lem :
      (found : Option (CacheHit V)) (content : String)
      → confirms floats sqrt content_hash store found content
        ≡ holds_hash (content_hash content) found
  confirms_lem none content = refl
  confirms_lem (some hit) content = refl

  module _ (s0 : S) (tenant_id : ℕ) where
    -- What is cached of the document has the hash of the content.
    abbrev pub is_confirmed : Doc → String → Bool
    is_confirmed i content = holds_hash (content_hash content) (view s0 (tenant_id, i))

    -- The result is a confirmed candidate, and none that is confirmed is above it; and there is one
    -- if there is a confirmed candidate.
    abbrev Finds :
        (Candidate floats.Float Doc → Type 0)
        → List (Candidate floats.Float Doc)
        → Option (SearchResult floats.Float Doc)
        → Type 0
    Finds Known candidates none = All (λ c. is_confirmed c.document_id c.content ≡ false) candidates
    Finds Known candidates (some r) =
        (c : Candidate floats.Float Doc) × (r ≡ result_of floats sqrt content_hash store c)
        × Known c
        × (is_confirmed c.document_id c.content ≡ true)
        × All
            (λ d. (is_confirmed d.document_id d.content ≡ false) ⊎ (has_greater_score d c ≡ false))
            candidates

    abbrev IsLike : S → Type 0
    IsLike s = IsSound s × ((k : ℕ × Doc) → view s k ≡ view s0 k)

    lookup-IsLike : (s : S) (k : ℕ × Doc) → IsLike s → IsLike ((store.lookup s k).0)
    lookup-IsLike s k h = (laws.lookup-IsSound s k h.0, λ j. laws.view-lookup s k j (h.0) ∙ h.1 j)

    found-view : (s : S) (k : ℕ × Doc) → IsLike s → (store.lookup s k).1 ≡ view s0 k
    found-view s k h = laws.lookup_found s k h.0 ∙ h.1 k

    module _ (total : IsTotal has_greater_score) (Known : Candidate floats.Float Doc → Type 0) where
      not_above_self : (c : Candidate floats.Float Doc) → has_greater_score c c ≡ false
      not_above_self c = elim (Bool-cases (has_greater_score c c)) [
        | inl e ↦ total.asym c c e
        | inr e ↦ e
      ]

      All-inr :
          (c : Candidate floats.Float Doc) (cs : List (Candidate floats.Float Doc))
          → All (λ d. has_greater_score d c ≡ false) cs
          → All
              (λ d.
                (is_confirmed d.document_id d.content ≡ false) ⊎ (has_greater_score d c ≡ false))
              cs
      All-inr c [] h = tt
      All-inr c (d ∷ cs) h = (inr (h.0), All-inr c cs h.1)

      Finds-past :
          (c : Candidate floats.Float Doc) (cs : List (Candidate floats.Float Doc))
          (r : Option (SearchResult floats.Float Doc))
          → is_confirmed c.document_id c.content ≡ false
          → Finds Known cs r
          → Finds Known (c ∷ cs) r
      Finds-past c cs none stale h = (stale, h)
      Finds-past c cs (some r) stale (d, same, known, confirmed, best) =
          (d, same, known, confirmed, (inl stale, best))

      first_confirmed-Finds :
          (s : S) (cs : List (Candidate floats.Float Doc))
          → IsLike s
          → IsDescending has_greater_score cs
          → All Known cs
          → let (s', r) = first_confirmed floats sqrt content_hash store s tenant_id cs in
            IsLike s' × Finds Known cs r
      unfolding first_confirmed
      first_confirmed-Finds s [] h ordered known = (h, tt)
      first_confirmed-Finds s (c ∷ cs) h ordered known =
          let k : ℕ × Doc = (tenant_id, c.document_id) in
          let s' = (store.lookup s k).0 in
          let h' = lookup-IsLike s k h in
          let rest = first_confirmed-Finds s' cs h' (ordered.1) (known.1) in
          let seen =
            ap (λ found. confirms floats sqrt content_hash store found c.content) (found-view s k h)
            ∙ confirms_lem (view s0 k) c.content in
          elim (Bool-cases (is_confirmed c.document_id c.content)) [
            | inl confirmed ↦ rw (seen ∙ confirmed) (
              h',
              (c, refl, known.0, confirmed, (inr (not_above_self c), All-inr c cs (ordered.0))),
            )
            | inr stale ↦ rw (seen ∙ stale) (
              rest.0,
              Finds-past c cs ((first_confirmed floats sqrt content_hash store s' tenant_id cs).1)
                  stale (rest.1),
            )
          ]

    Finds-unsorted :
        (Known : Candidate floats.Float Doc → Type 0) (cs : List (Candidate floats.Float Doc))
        (r : Option (SearchResult floats.Float Doc))
        → Finds Known (sorted_desc has_greater_score cs) r
        → Finds Known cs r
    Finds-unsorted Known cs none h =
        All-unsorted_desc has_greater_score (λ c. is_confirmed c.document_id c.content ≡ false) cs h
    Finds-unsorted Known cs (some r) (c, same, known, confirmed, best) = (
      c,
      same,
      known,
      confirmed,
      All-unsorted_desc has_greater_score
          (λ d. (is_confirmed d.document_id d.content ≡ false) ⊎ (has_greater_score d c ≡ false)) cs
          best,
    )

    module _ (query : List floats.Float) where
      abbrev candidate : Doc → Memo floats.Float → Candidate floats.Float Doc
      candidate i memo = record {
        score = cosine floats sqrt query memo.embedding;
        document_id = i;
        content = memo.content;
      }

      abbrev scored : Dict Doc (Memo floats.Float) → List (Candidate floats.Float Doc)
      scored [] = []
      scored ((i, memo) ∷ entries) = candidate i memo ∷ scored entries

      abbrev pub SameLength : Dict Doc (Memo floats.Float) → Type 0
      SameLength entries =
          All (λ (e : Doc × Memo floats.Float). length query ≡ length (e.1.embedding)) entries

      score_all-scored :
          (entries : Dict Doc (Memo floats.Float))
          → SameLength entries
          → score_all floats sqrt content_hash store query entries ≡ ok (scored entries)
      unfolding score_all cosine_similarity
      score_all-scored [] h = refl
      score_all-scored ((i, memo) ∷ entries) h =
          rw (h.0, ==_refl (length memo.embedding), score_all-scored entries (h.1)) refl

      All-scored :
          (P : Candidate floats.Float Doc → Type 0) (entries : Dict Doc (Memo floats.Float))
          → All (λ (e : Doc × Memo floats.Float). P (candidate (e.0) (e.1))) entries
          → All P (scored entries)
      All-scored P [] h = tt
      All-scored P ((i, memo) ∷ entries) h = (h.0, All-scored P entries h.1)

      All-unscored :
          (P : Candidate floats.Float Doc → Type 0) (entries : Dict Doc (Memo floats.Float))
          → All P (scored entries)
          → All (λ (e : Doc × Memo floats.Float). P (candidate (e.0) (e.1))) entries
      All-unscored P [] h = tt
      All-unscored P ((i, memo) ∷ entries) h = (h.0, All-unscored P entries h.1)

      module _ (entries : Dict Doc (Memo floats.Float)) where
        abbrev IsEntry : Candidate floats.Float Doc → Type 0
        IsEntry c =
            (memo : Memo floats.Float) × (lookup c.document_id entries ≡ some memo)
            × (c.content ≡ memo.content)
            × (c.score ≡ cosine floats sqrt query memo.embedding)

        -- The document is warmed with that content and score, it is confirmed, and no confirmed one
        -- has a greater score; or none of those that are warmed is confirmed.
        abbrev pub Answers : Option (SearchResult floats.Float Doc) → Type 0
        Answers none =
            All (λ (e : Doc × Memo floats.Float). is_confirmed (e.0) (e.1.content) ≡ false) entries
        Answers (some r) =
            ((memo : Memo floats.Float) × (lookup r.document_id entries ≡ some memo)
              × (r.content ≡ memo.content)
              × (r.score ≡ cosine floats sqrt query memo.embedding))
            × (is_confirmed r.document_id r.content ≡ true)
            × All
                (λ (e : Doc × Memo floats.Float).
                  (is_confirmed (e.0) (e.1.content) ≡ false)
                  ⊎ (floats.lt r.score (cosine floats sqrt query (e.1.embedding)) ≡ false))
                entries

        Finds-Answers :
            (r : Option (SearchResult floats.Float Doc))
            → Finds IsEntry (scored entries) r
            → Answers r
        Finds-Answers none h =
            All-unscored (λ c. is_confirmed c.document_id c.content ≡ false) entries h
        Finds-Answers (some r) (c, same, known, confirmed, best) =
            subst (λ x. Answers (some x)) (sym same)
              (
                known,
                confirmed,
                All-unscored
                    (λ d.
                      (is_confirmed d.document_id d.content ≡ false)
                      ⊎ (has_greater_score d c ≡ false))
                    entries best,
              )

        entries-IsEntry : IsDistinct entries → All IsEntry (scored entries)
        entries-IsEntry distinct = All-scored IsEntry entries (
            All-entries (λ i memo. IsEntry (candidate i memo)) entries distinct
              (λ i memo there. (memo, there, refl, refl)))

        pub match_in-Answers :
            IsTotal has_greater_score
            → IsSound s0
            → IsDistinct entries
            → SameLength entries
            → let (s', outcome) =
                match_in floats sqrt content_hash store s0 tenant_id query (some entries) in
              ((k : ℕ × Doc) → view s' k ≡ view s0 k)
              × ((r : Option (SearchResult floats.Float Doc)) × (outcome ≡ ok r) × Answers r)
        match_in-Answers total sound distinct lengths =
            let cs = sorted_desc has_greater_score (scored entries) in
            let (like, found) =
              first_confirmed-Finds total IsEntry s0 cs (sound, λ k. refl)
                (sorted_desc-IsDescending has_greater_score total (scored entries))
                (All-sorted_desc has_greater_score IsEntry (scored entries)
                  (entries-IsEntry distinct)) in
            let r = (first_confirmed floats sqrt content_hash store s0 tenant_id cs).1 in
            rw (score_all-scored entries lengths)
              (like.1, (r, refl, Finds-Answers r (Finds-unsorted IsEntry (scored entries) r found)))
