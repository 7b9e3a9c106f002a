-- ===== src/Orchestration/Sync/Warming.antt =====
-- What a cache holds once it is warmed.
use ai_augmented_generation.Prelude.{
  ◌≡◌, refl, ap, sym, ◌∙◌, inl, inr, ℕ, ◌≤◌, String, Bool, true, false, Option, none, some, List,
  [], ◌∷◌, All, ◌==◌, ==_refl, pair_eq, nat_eq, Bool-cases, length,
}
use ai_augmented_generation.Prelude.Dict.{Dict}
use ai_augmented_generation.Orchestration.Stores.{Store, IsStore, is_some}
use ai_augmented_generation.Orchestration.Tiering.{SharedKey, most_accessed}
use ai_augmented_generation.Orchestration.Tiering.Laws.{length-most_accessed}
use ai_augmented_generation.Orchestration.Sync.{warm_one, warm_all, execute}

module _ {S H : Type 0} (store : Store SharedKey S H) (hit_of : String → H) (IsSound : S → Type 0)
    (view : S → SharedKey → Option H) (laws : IsStore store hit_of IsSound view) where
  -- The state is sound, holds the key, and holds all that was held before.
  record Warms (s : S) (k : SharedKey) (after : S) : Type 0 where
    sound : IsSound after
    there : is_some (view after k) ≡ true
    kept : (j : SharedKey) → is_some (view s j) ≡ true → view after j ≡ view s j

  warm_one-Warms :
      (s s' : S) (k : SharedKey) (content : String) (is_there : Bool)
      → IsSound s'
      → ((j : SharedKey) → view s' j ≡ view s j)
      → is_some (view s k) ≡ is_there
      → Warms s k (warm_one store (s', is_there) k content)
  warm_one-Warms s s' k content true sound same there = record {
    sound = sound;
    there = rw (same k) there;
    kept = λ j e. same j;
  }
  warm_one-Warms s s' k content false sound same absent = record {
    sound = laws.preload-IsSound s' k content sound;
    there = rw (laws.view-preload s' k k content sound, ==_refl k) refl;
    kept = λ j e. laws.view-preload s' k j content sound ∙ elim (Bool-cases (k == j)) [
      | inr other ↦ rw other (same j)
      | inl e' ↦ absurd (
          both (view s j) e
            (ap (λ i. is_some (view s i)) (sym ((pair_eq.eqb_iff k j).0 e')) ∙ absent))
    ];
  }
    where
      both : (found : Option H) → is_some found ≡ true → is_some found ≡ false → ⊥
      both none e e' = cc
      both (some hit) e e' = cc

  warm_found-Warms :
      (s : S) (k : SharedKey) (content : String)
      → IsSound s
      → Warms s k (warm_one store (store.contains s k) k content)
  warm_found-Warms s k content sound =
      warm_one-Warms s ((store.contains s k).0) k content ((store.contains s k).1)
        (laws.contains-IsSound s k sound) (λ j. laws.view-contains s k j sound)
        (sym (laws.contains_found s k sound))

  module _ (tenant_id : ℕ) (content_provider : ℕ → String) where
    -- What was held is held, and unchanged; and all the documents are held.
    abbrev pub AllWarm : S → List ℕ → S → Type 0
    AllWarm s top_n after =
        ((j : SharedKey) → is_some (view s j) ≡ true → view after j ≡ view s j)
        × All (λ document_id. is_some (view after (tenant_id, document_id)) ≡ true) top_n

    warm_all-AllWarm :
        (top_n : List ℕ) (s : S)
        → IsSound s
        → AllWarm s top_n (warm_all store s tenant_id content_provider top_n)
    unfolding warm_all
    warm_all-AllWarm [] s sound = (λ j e. refl, tt)
    warm_all-AllWarm (document_id ∷ top_n) s sound =
        let k : SharedKey = (tenant_id, document_id) in
        let one = warm_found-Warms s k (content_provider document_id) sound in
        let s' = warm_one store (store.contains s k) k (content_provider document_id) in
        let (kept, rest) = warm_all-AllWarm top_n s' one.sound in
        (
          λ j e. kept j (ap is_some (one.kept j e) ∙ e) ∙ one.kept j e,
          (ap is_some (kept k one.there) ∙ one.there, rest),
        )

    -- Warming the cache gives at most `n` documents; they are all in the cache then, and what was
    -- there is there as it was.
    pub execute-AllWarm :
        (retention n window now : ℕ) (d : Dict SharedKey (List ℕ)) (s : S)
        → IsSound s
        → let ((d', s'), top_n) =
            execute store retention d s tenant_id n window now content_provider in
          (length top_n ≤ n) × AllWarm s top_n s'
    unfolding execute
    execute-AllWarm retention n window now d s sound = (
      length-most_accessed retention d tenant_id n window now,
      warm_all-AllWarm ((most_accessed retention d tenant_id n window now).1) s sound,
    )
