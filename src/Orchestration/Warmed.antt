-- ===== src/Orchestration/Warmed.antt =====
-- src/orchestration/application/cache_warmed_retrieve.py and
-- src/orchestration/domain/similarity.py. The embedding model, the square root, the hash and the
-- fallback retriever are parameters; `Doc` is the type of document ids.
mod Laws
mod Retrieval
mod Tests
use ai_augmented_generation.Prelude.{
  ℕ, ◌+◌, String, Bool, true, false, not, ◌&&◌, ◌||◌, Option, none, some, List, [], ◌∷◌, Eq, nat_eq,
  string_eq, pair_eq, ◌==◌, if◌then◌else◌, length, Outcome, ok, raise, value_error, ◌>>=◌,
}
use ai_augmented_generation.Prelude.Int.{pos}
use ai_augmented_generation.Prelude.Float.{Floats}
use ai_augmented_generation.Prelude.Dict.{Dict, lookup, insert, remove}
use ai_augmented_generation.Prelude.Sort.{sorted_desc}
use ai_augmented_generation.Orchestration.Stores.{Store, CacheHit}

pub record SearchResult (F Doc : Type 0) : Type 0 where
  pub document_id : Doc
  pub chunk_id : Doc
  pub content : String
  pub score : F

-- `(content, embedding)`
pub record Memo (F : Type 0) : Type 0 where
  pub content : String
  pub embedding : List F

-- `(score, document_id, content)`
pub record Candidate (F Doc : Type 0) : Type 0 where
  pub score : F
  pub document_id : Doc
  pub content : String

-- `_warmed`, `_hits` and `_misses`
pub record Warmed (F Doc : Type 0) : Type 0 where
  pub warmed : Dict ℕ (Dict Doc (Memo F))
  pub hits : ℕ
  pub misses : ℕ

module _ (floats : Floats) (sqrt : floats.Float → floats.Float) where
  abbrev pub zero_float : floats.Float
  zero_float = floats.of_int (pos 0)

  -- `a == 0.0`
  abbrev pub is_zero : floats.Float → Bool
  is_zero a = floats.le a zero_float && floats.le zero_float a

  -- `sum(x * y for x, y in zip(a, b))`, from what is summed already
  unfoldable pub dot_from : floats.Float → List floats.Float → List floats.Float → floats.Float
  dot_from total (x ∷ a) (y ∷ b) = dot_from (floats.add total (floats.mul x y)) a b
  dot_from total _ _ = total

  abbrev pub dot : List floats.Float → List floats.Float → floats.Float
  dot a b = dot_from zero_float a b

  abbrev pub cosine : List floats.Float → List floats.Float → floats.Float
  cosine a b =
      let norm_a = sqrt (dot a a) in
      let norm_b = sqrt (dot b b) in
      if is_zero norm_a || is_zero norm_b
      then zero_float
      else floats.div (dot a b) (floats.mul norm_a norm_b)

  -- With `strict=True` a `zip` of lists of other lengths raises.
  pub cosine_similarity : List floats.Float → List floats.Float → Outcome floats.Float
  cosine_similarity a b = if length a == length b then ok (cosine a b) else raise value_error

module _ {F Doc : Type 0} ⦃docs : Eq Doc⦄ where
  abbrev pub entries_or_new : Option (Dict Doc (Memo F)) → Dict Doc (Memo F)
  entries_or_new none = []
  entries_or_new (some entries) = entries

  pub note_warmed : (String → List F) → Warmed F Doc → ℕ → Doc → String → Warmed F Doc
  note_warmed embed w tenant_id document_id content = record w {
    warmed =
        insert tenant_id
          (insert document_id (record { content = content; embedding = embed content })
            (entries_or_new (lookup tenant_id w.warmed)))
          w.warmed;
  }

  abbrev pub forget_in : Warmed F Doc → ℕ → Doc → Option (Dict Doc (Memo F)) → Warmed F Doc
  forget_in w tenant_id document_id none = w
  forget_in w tenant_id document_id (some entries) = record w {
    warmed = insert tenant_id (remove document_id entries) w.warmed;
  }

  pub forget : Warmed F Doc → ℕ → Doc → Warmed F Doc
  forget w tenant_id document_id = forget_in w tenant_id document_id (lookup tenant_id w.warmed)

  abbrev pub stats : Warmed F Doc → ℕ × ℕ
  stats w = (w.hits, w.misses)

module _ {Doc S V : Type 0} ⦃docs : Eq Doc⦄ (floats : Floats) (sqrt : floats.Float → floats.Float)
    (content_hash : String → String) (store : Store (ℕ × Doc) S (CacheHit V)) where
  abbrev pub scores_above : Candidate floats.Float Doc → Candidate floats.Float Doc → Bool
  scores_above a b = floats.lt b.score a.score

  pub score_all :
      List floats.Float → Dict Doc (Memo floats.Float) → Outcome (List (Candidate floats.Float Doc))
  score_all query [] = ok []
  score_all query ((document_id, memo) ∷ entries) =
      cosine_similarity floats sqrt query memo.embedding >>= λ score.
      score_all query entries >>= λ rest.
      ok (record { score = score; document_id = document_id; content = memo.content } ∷ rest)

  -- `cached_hit is not None and cached_hit.content_hash == content_hash(content)`
  abbrev pub confirms : Option (CacheHit V) → String → Bool
  confirms none content = false
  confirms (some hit) content = hit.content_hash == content_hash content

  abbrev pub result_of : Candidate floats.Float Doc → SearchResult floats.Float Doc
  result_of c = record {
    document_id = c.document_id;
    chunk_id = c.document_id;
    content = c.content;
    score = c.score;
  }

  pub first_confirmed :
      S → ℕ → List (Candidate floats.Float Doc) → S × Option (SearchResult floats.Float Doc)
  first_confirmed s tenant_id [] = (s, none)
  first_confirmed s tenant_id (c ∷ candidates) =
      let (s', found) = store.lookup s (tenant_id, c.document_id) in
      let rest = first_confirmed s' tenant_id candidates in
      if confirms found c.content then (s', some (result_of c)) else rest

  abbrev pub search :
      S
      → ℕ
      → Outcome (List (Candidate floats.Float Doc))
      → S × Outcome (Option (SearchResult floats.Float Doc))
  search s tenant_id (raise e) = (s, raise e)
  search s tenant_id (ok candidates) =
      let (s', found) = first_confirmed s tenant_id (sorted_desc scores_above candidates) in
      (s', ok found)

  abbrev pub match_in :
      S
      → ℕ
      → List floats.Float
      → Option (Dict Doc (Memo floats.Float))
      → S × Outcome (Option (SearchResult floats.Float Doc))
  match_in s tenant_id query none = (s, ok none)
  match_in s tenant_id query (some entries) = search s tenant_id (score_all query entries)

  pub best_warmed_match :
      Warmed floats.Float Doc
      → S
      → ℕ
      → List floats.Float
      → S × Outcome (Option (SearchResult floats.Float Doc))
  best_warmed_match w s tenant_id query = match_in s tenant_id query (lookup tenant_id w.warmed)

  module _ (embed : String → List floats.Float)
      (fallback : ℕ → String → ℕ → Outcome (List (SearchResult floats.Float Doc)))
      (similarity_threshold : floats.Float) where
    abbrev pub miss :
        Warmed floats.Float Doc
        → ℕ
        → String
        → ℕ
        → Warmed floats.Float Doc × Outcome (List (SearchResult floats.Float Doc))
    miss w tenant_id query top_k =
        (record w { misses = w.misses + 1 }, fallback tenant_id query top_k)

    pub answer :
        Warmed floats.Float Doc
        → ℕ
        → String
        → ℕ
        → Outcome (Option (SearchResult floats.Float Doc))
        → Warmed floats.Float Doc × Outcome (List (SearchResult floats.Float Doc))
    answer w tenant_id query top_k (raise e) = (w, raise e)
    answer w tenant_id query top_k (ok none) = miss w tenant_id query top_k
    answer w tenant_id query top_k (ok (some result)) =
        if floats.le similarity_threshold result.score
        then (record w { hits = w.hits + 1 }, ok (result ∷ []))
        else miss w tenant_id query top_k

    -- `execute`
    pub retrieve :
        Warmed floats.Float Doc
        → S
        → ℕ
        → String
        → ℕ
        → Warmed floats.Float Doc × (S × Outcome (List (SearchResult floats.Float Doc)))
    retrieve w s tenant_id query top_k =
        let (s', found) = best_warmed_match w s tenant_id (embed query) in
        let (w', outcome) = answer w tenant_id query top_k found in (w', (s', outcome))
