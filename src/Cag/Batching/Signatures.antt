-- ===== src/Cag/Batching/Signatures.antt =====
-- How `PrefixAwareBatchScheduler` groups the pending requests by signature.
use ai_augmented_generation.Prelude.{
  ℕ, ◌+◌, ◌≡◌, refl, ap, sym, subst, ◌∙◌, false, Option, none, some, List, [], ◌∷◌, ◌++◌, All, ◌==◌,
  ==_iff, list_eq, nat_eq, if◌then◌else◌, arith, Bool-cases, inl, inr, append-nil, append_assoc,
}
use ai_augmented_generation.Prelude.Dict.{
  Dict, lookup, insert, IsDistinct, lookup-insert, insert-IsDistinct,
}
use ai_augmented_generation.Prelude.Sort.{place, sorted_desc}
use ai_augmented_generation.Cag.Batching.{
  BatchRequest, PrefixAwareBatchScheduler, signature, members, group_all, keys, longer,
}

-- How often a key with this value stands in a dict.
abbrev pub stored : Option (List BatchRequest) → ℕ
stored none = 0
stored (some requests) = 1

module _ (s : PrefixAwareBatchScheduler) (key : List ℕ) where
  -- The requests with a signature, in order.
  unfoldable pub with_signature : List BatchRequest → List BatchRequest
  with_signature [] = []
  with_signature (x ∷ xs) =
      if signature s x == key then x ∷ with_signature xs else with_signature xs

  pub with_signature-append :
      (xs ys : List BatchRequest)
      → with_signature (xs ++ ys) ≡ with_signature xs ++ with_signature ys
  unfolding with_signature
  with_signature-append [] ys = refl
  with_signature-append (x ∷ xs) ys = ground (arith, with_signature-append xs ys)

  members-insert :
      (k : List ℕ) (v : List BatchRequest) (groups : Dict (List ℕ) (List BatchRequest))
      → members (insert k v groups) key ≡ (if k == key then v else members groups key)
  unfolding members
  members-insert k v groups = ground (arith, lookup-insert k key v groups)

  joined :
      (x : BatchRequest) (pending : List BatchRequest) (groups : Dict (List ℕ) (List BatchRequest))
      → (if signature s x == key
            then members groups (signature s x) ++ x ∷ []
            else members groups key)
          ++ with_signature pending
        ≡ members groups key ++ with_signature (x ∷ pending)
  unfolding with_signature
  joined x pending groups = elim (Bool-cases (signature s x == key)) [
    | inl e ↦ rw e (
        ap (λ k. members groups k ++ x ∷ [] ++ with_signature pending)
          ((==_iff (signature s x) key).0 e)
        ∙ append_assoc (members groups key) (x ∷ []) (with_signature pending))
    | inr e ↦ rw e
  ]

  -- A group collects the requests with its signature, in order.
  pub members-group_all :
      (pending : List BatchRequest) (groups : Dict (List ℕ) (List BatchRequest))
      → members (group_all s pending groups) key ≡ members groups key ++ with_signature pending
  unfolding group_all with_signature
  members-group_all [] groups = sym (append-nil (members groups key))
  members-group_all (x ∷ pending) groups =
      let k = signature s x in
      let v = members groups k ++ x ∷ [] in
      members-group_all pending (insert k v groups)
      ∙ ap (λ zs. zs ++ with_signature pending) (members-insert k v groups)
      ∙ joined x pending groups

  unfoldable pub occurs : List (List ℕ) → ℕ
  occurs [] = 0
  occurs (k ∷ ks) = (if k == key then 1 else 0) + occurs ks

  occurs-place : (k : List ℕ) (ks : List (List ℕ)) → occurs (place longer k ks) ≡ occurs (k ∷ ks)
  unfolding place occurs
  occurs-place k [] = refl
  occurs-place k (j ∷ ks) = ground (arith, occurs-place k ks)

  pub occurs-sorted_desc : (ks : List (List ℕ)) → occurs (sorted_desc longer ks) ≡ occurs ks
  unfolding sorted_desc occurs
  occurs-sorted_desc [] = refl
  occurs-sorted_desc (k ∷ ks) =
      omega (arith, occurs-place k (sorted_desc longer ks), occurs-sorted_desc ks)

  pub occurs-keys :
      (groups : Dict (List ℕ) (List BatchRequest))
      → IsDistinct groups
      → occurs (keys groups) ≡ stored (lookup key groups)
  unfolding occurs keys lookup
  occurs-keys [] h = refl
  occurs-keys ((k, requests) ∷ groups) h = elim (Bool-cases (k == key)) [
    | inl e ↦ rw e (
        omega (
          arith,
          occurs-keys groups h.1,
          ap stored (subst (λ j. lookup j groups ≡ none) ((==_iff k key).0 e) (h.0)),
        ))
    | inr e ↦ rw e (omega (arith, occurs-keys groups h.1))
  ]

pub group_all-IsDistinct :
    (s : PrefixAwareBatchScheduler) (pending : List BatchRequest)
    (groups : Dict (List ℕ) (List BatchRequest))
    → IsDistinct groups
    → IsDistinct (group_all s pending groups)
unfolding group_all
group_all-IsDistinct s [] groups h = h
group_all-IsDistinct s (x ∷ pending) groups h =
    let k = signature s x in
    let v = members groups k ++ x ∷ [] in
    group_all-IsDistinct s pending (insert k v groups) (insert-IsDistinct k v groups h)

-- The requests all have the signature.
abbrev pub Share : PrefixAwareBatchScheduler → List ℕ → List BatchRequest → Type 0
Share s key = All (λ r. signature s r ≡ key)

module _ (s : PrefixAwareBatchScheduler) where
  pub with_signature-Share :
      (key : List ℕ) (xs : List BatchRequest) → Share s key (with_signature s key xs)
  unfolding with_signature
  with_signature-Share key [] = tt
  with_signature-Share key (x ∷ xs) = elim (Bool-cases (signature s x == key)) [
    | inl e ↦ rw e ((==_iff (signature s x) key).0 e, with_signature-Share key xs)
    | inr e ↦ rw e (with_signature-Share key xs)
  ]

  pub with_signature_same :
      (key : List ℕ) (xs : List BatchRequest) → Share s key xs → with_signature s key xs ≡ xs
  unfolding with_signature
  with_signature_same key [] h = refl
  with_signature_same key (x ∷ xs) h =
      rw ((==_iff (signature s x) key).1 (h.0)) (ap (◌∷◌ x) (with_signature_same key xs h.1))

  pub with_signature_other :
      (key k : List ℕ) (xs : List BatchRequest)
      → (k == key) ≡ false
      → Share s k xs
      → with_signature s key xs ≡ []
  unfolding with_signature
  with_signature_other key k [] e h = refl
  with_signature_other key k (x ∷ xs) e h =
      let other : (signature s x == key) ≡ false = subst (λ j. (j == key) ≡ false) (sym (h.0)) e in
      rw other (with_signature_other key k xs e h.1)
