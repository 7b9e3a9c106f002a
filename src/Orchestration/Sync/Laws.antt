-- ===== src/Orchestration/Sync/Laws.antt =====
-- What a cycle leaves in the fast store, and what it reports.
use ai_augmented_generation.Prelude.{
  ◌≡◌, refl, ap, ◌∙◌, inl, inr, ℕ, ◌+◌, String, Bool, true, false, not, ◌&&◌, ◌||◌, Option, none,
  some, List, [], ◌∷◌, All, Eq, ◌==◌, ==_refl, string_eq, Bool-cases, if◌then◌else◌, arith,
}
use ai_augmented_generation.Orchestration.Stores.{Store, IsStore, is_some}
use ai_augmented_generation.Orchestration.Sync.{
  SyncConflict, reconcile, hash_found, resolve, noted, visit, sync_all,
}

module _ {H : Type 0} (hash_of : H → String) (content_hash : String → String) where
  -- What is cached has another hash than the content.
  abbrev pub is_stale : Option H → String → Bool
  is_stale none content = false
  is_stale (some hit) content = not (hash_of hit == content_hash content)

  reconcile-hash_found :
      (found : Option H) (content : String) (document_id : ℕ)
      → is_some (reconcile content_hash (hash_found hash_of found) content document_id)
        ≡ is_stale found content
  unfolding reconcile
  reconcile-hash_found none content document_id = refl
  reconcile-hash_found (some hit) content document_id = ground arith

-- One of the items has this key, and what is cached under it is stale by the item's content.
module _ {K H A : Type 0} ⦃keys_eq : Eq K⦄ (hash_of : H → String) (content_hash : String → String)
    (document_of : A → ℕ) (key : ℕ → K) (content_of : A → String) where
  pub any_stale : List A → K → Option H → Bool
  any_stale [] j found = false
  any_stale (item ∷ items) j found =
      ((key (document_of item) == j) && is_stale hash_of content_hash found (content_of item))
      || any_stale items j found

-- How many of the conflicts are of a key.
module _ {K A : Type 0} ⦃keys_eq : Eq K⦄ (document_of : A → ℕ) (key : ℕ → K) where
  pub conflicts_of : K → List (A × SyncConflict) → ℕ
  conflicts_of j [] = 0
  conflicts_of j ((item, conflict) ∷ conflicts) =
      (if key (document_of item) == j then 1 else 0) + conflicts_of j conflicts

module _ {K S H : Type 0} ⦃keys_eq : Eq K⦄ (store : Store K S H) (hit_of : String → H)
    (IsSound : S → Type 0) (view : S → K → Option H) (laws : IsStore store hit_of IsSound view)
    (hash_of : H → String) (content_hash : String → String) where
  resolve-IsSound :
      (s : S) (k : K) (conflict : Option SyncConflict)
      → IsSound s
      → IsSound (resolve store s k conflict)
  resolve-IsSound s k none h = h
  resolve-IsSound s k (some conflict) h = laws.evict-IsSound s k h

  view-resolve :
      (s : S) (k j : K) (conflict : Option SyncConflict)
      → IsSound s
      → view (resolve store s k conflict) j
        ≡ (if k == j && is_some conflict then none else view s j)
  view-resolve s k j none h = ground arith
  view-resolve s k j (some conflict) h = ground (arith, laws.view-evict s k j h)

  module _ (s : S) (k : K) (document_id : ℕ) (content : String) (h : IsSound s) where
    visit-IsSound : IsSound ((visit store hash_of content_hash s k document_id content).0)
    unfolding visit
    visit-IsSound =
        resolve-IsSound ((store.lookup s k).0) k
          (reconcile content_hash (hash_found hash_of ((store.lookup s k).1)) content document_id)
          (laws.lookup-IsSound s k h)

    visit_conflict :
        is_some ((visit store hash_of content_hash s k document_id content).1)
        ≡ is_stale hash_of content_hash (view s k) content
    unfolding visit
    visit_conflict =
        reconcile-hash_found hash_of content_hash ((store.lookup s k).1) content document_id
        ∙ ap (λ found. is_stale hash_of content_hash found content) (laws.lookup_found s k h)

    view-visited :
        (j : K)
        → view ((visit store hash_of content_hash s k document_id content).0) j ≡ (
            if k == j && is_some ((visit store hash_of content_hash s k document_id content).1)
            then none
            else view ((store.lookup s k).0) j)
    unfolding visit
    view-visited j =
        view-resolve ((store.lookup s k).0) k j
          (reconcile content_hash (hash_found hash_of ((store.lookup s k).1)) content document_id)
          (laws.lookup-IsSound s k h)

    view-visit :
        (j : K)
        → view ((visit store hash_of content_hash s k document_id content).0) j
          ≡ (if k == j && is_stale hash_of content_hash (view s k) content then none else view s j)
    view-visit j = view-visited j ∙ rw (visit_conflict, laws.view-lookup s k j h) refl

  module _ {A : Type 0} (document_of : A → ℕ) (key : ℕ → K) (content_of : A → String) where
    any_stale-none :
        (items : List A) (j : K)
        → any_stale hash_of content_hash document_of key content_of items j none ≡ false
    unfolding any_stale
    any_stale-none [] j = refl
    any_stale-none (item ∷ items) j = ground (arith, any_stale-none items j)

    -- The items that come after see that an evicted entry is gone.
    stale_next :
        (items : List A) (k j : K) (found found' : Option H) (content : String)
        → ((k == j) ≡ true → found' ≡ found)
        → let next =
            if k == j && is_stale hash_of content_hash found' content then none else found in
          (if any_stale hash_of content_hash document_of key content_of items j next
            then none
            else next)
          ≡ (if (k == j) && is_stale hash_of content_hash found content
                || any_stale hash_of content_hash document_of key content_of items j found
              then none
              else found)
    stale_next items k j found found' content same = elim (Bool-cases (k == j)) [
      | inr other ↦ rw other refl
      | inl e ↦
          rw (e, same e)
            (elim (Bool-cases (is_stale hash_of content_hash found content)) [
              | inl stale ↦ rw (stale, any_stale-none items j) refl
              | inr fresh ↦ rw fresh refl
            ])
    ]

    conflicts_of-noted :
        (j : K) (item : A) (conflict : Option SyncConflict) (conflicts : List (A × SyncConflict))
        → conflicts_of document_of key j (noted item conflict conflicts)
          ≡ (if (key (document_of item) == j) && is_some conflict then 1 else 0)
            + conflicts_of document_of key j conflicts
    unfolding conflicts_of
    conflicts_of-noted j item none conflicts = ground arith
    conflicts_of-noted j item (some conflict) conflicts = ground arith

    sync_all-IsSound :
        (items : List A) (s : S)
        → IsSound s
        → IsSound ((sync_all store hash_of content_hash document_of key content_of s items).0)
    unfolding sync_all
    sync_all-IsSound [] s h = h
    sync_all-IsSound (item ∷ items) s h =
        let k = key (document_of item) in
        sync_all-IsSound items
          ((visit store hash_of content_hash s k (document_of item) (content_of item)).0)
          (visit-IsSound s k (document_of item) (content_of item) h)

    -- A cycle evicts what is stale by one of its items, and touches nothing else.
    pub view-sync_all :
        (items : List A) (s : S)
        → IsSound s
        → (j : K)
        → view ((sync_all store hash_of content_hash document_of key content_of s items).0) j ≡ (
            if any_stale hash_of content_hash document_of key content_of items j (view s j)
            then none
            else view s j)
    unfolding sync_all any_stale
    view-sync_all [] s h j = refl
    view-sync_all (item ∷ items) s h j =
        let k = key (document_of item) in
        let s' = (visit store hash_of content_hash s k (document_of item) (content_of item)).0 in
        view-sync_all items s' (visit-IsSound s k (document_of item) (content_of item) h) j
        ∙ ap
            (λ found.
              if any_stale hash_of content_hash document_of key content_of items j found
              then none
              else found)
            (view-visit s k (document_of item) (content_of item) h j)
        ∙ stale_next items k j (view s j) (view s k) (content_of item)
            (λ e. ap (view s) ((keys_eq.eqb_iff k j).0 e))

    count_next :
        (items : List A) (k j : K) (found found' : Option H) (content : String)
        → ((k == j) ≡ true → found' ≡ found)
        → let next =
            if k == j && is_stale hash_of content_hash found' content then none else found in
          (if k == j && is_stale hash_of content_hash found' content then 1 else 0)
            + (if any_stale hash_of content_hash document_of key content_of items j next
                then 1
                else 0)
          ≡ (if (k == j) && is_stale hash_of content_hash found content
                || any_stale hash_of content_hash document_of key content_of items j found
              then 1
              else 0)
    count_next items k j found found' content same = elim (Bool-cases (k == j)) [
      | inr other ↦ rw other (omega arith)
      | inl e ↦
          rw (e, same e)
            (elim (Bool-cases (is_stale hash_of content_hash found content)) [
              | inl stale ↦ rw (stale, any_stale-none items j) (omega arith)
              | inr fresh ↦ rw fresh (omega arith)
            ])
    ]

    -- A cycle reports one conflict of each key that is stale by one of its items, and none of the
    -- others, also where the items repeat.
    pub conflicts_of-sync_all :
        (items : List A) (s : S)
        → IsSound s
        → (j : K)
        → conflicts_of document_of key j
            ((sync_all store hash_of content_hash document_of key content_of s items).1)
          ≡ (if any_stale hash_of content_hash document_of key content_of items j (view s j)
              then 1
              else 0)
    unfolding sync_all any_stale conflicts_of
    conflicts_of-sync_all [] s h j = refl
    conflicts_of-sync_all (item ∷ items) s h j =
        let k = key (document_of item) in
        let content = content_of item in
        let visited = visit store hash_of content_hash s k (document_of item) content in
        conflicts_of-noted j item (visited.1)
          ((sync_all store hash_of content_hash document_of key content_of (visited.0) items).1)
        ∙ ap (λ m. (if k == j && is_some (visited.1) then 1 else 0) + m)
            (conflicts_of-sync_all items (visited.0)
                (visit-IsSound s k (document_of item) content h) j
              ∙ ap
                  (λ found.
                    if any_stale hash_of content_hash document_of key content_of items j found
                    then 1
                    else 0)
                  (view-visit s k (document_of item) content h j))
        ∙ rw (visit_conflict s k (document_of item) content h) (
            count_next items k j (view s j) (view s k) content
              (λ e. ap (view s) ((keys_eq.eqb_iff k j).0 e)))

    All-fresh :
        (items : List A) (held : K → Option H)
        → ((j : K)
            → any_stale hash_of content_hash document_of key content_of items j (held j) ≡ false)
        → All
            (λ item.
              is_stale hash_of content_hash (held (key (document_of item))) (content_of item)
              ≡ false)
            items
    unfolding any_stale
    All-fresh [] held h = tt
    All-fresh (item ∷ items) held h = (
      ground (arith, h (key (document_of item)), ==_refl (key (document_of item))),
      All-fresh items held (λ j. ground (arith, h j)),
    )

    -- After a cycle nothing is cached of the items but by the hash of their content.
    pub sync_all_fresh :
        (items : List A) (s : S)
        → IsSound s
        → All
            (λ item.
              is_stale hash_of content_hash
                (view
                  ((sync_all store hash_of content_hash document_of key content_of s items).0)
                  (key (document_of item)))
                (content_of item)
              ≡ false)
            items
    sync_all_fresh items s h =
        All-fresh items
          (view ((sync_all store hash_of content_hash document_of key content_of s items).0))
          (λ j. rw (view-sync_all items s h j) (settled_once items j (view s j)))
      where
        settled_once :
            (items : List A) (j : K) (found : Option H)
            → any_stale hash_of content_hash document_of key content_of items j (
                if any_stale hash_of content_hash document_of key content_of items j found
                then none
                else found)
              ≡ false
        settled_once items j found =
            elim (Bool-cases
              (any_stale hash_of content_hash document_of key content_of items j found)) [
                | inl stale ↦ rw stale (any_stale-none items j)
                | inr fresh ↦ rw fresh fresh
              ]
