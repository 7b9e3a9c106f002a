-- ===== src/Cag/Batching/Grouping.antt =====
-- The batches that `PrefixAwareBatchScheduler` forms of its groups.
use ai_augmented_generation.Prelude.{
  ℕ, zero, suc, ◌+◌, ◌<◌, ◌≡◌, refl, ap, sym, subst, ◌∙◌, Option-cases, List, [], ◌∷◌, ◌++◌, length,
  take, drop, All, All-append, ok, ◌==◌, ==_iff, list_eq, nat_eq, if◌then◌else◌, arith, Bool-cases,
  inl, inr, append-nil,
}
use ai_augmented_generation.Prelude.Dict.{Dict, lookup, IsDistinct}
use ai_augmented_generation.Prelude.Sort.{sorted_desc}
use ai_augmented_generation.Cag.Batching.{
  BatchRequest, chunks, PrefixAwareBatchScheduler, signature, members, group_all, keys, longer,
  batch_all, form_batches,
}
use ai_augmented_generation.Cag.Batching.Laws.{
  flatten, flatten-append, flatten-chunks, IsSized, chunks-IsSized,
}
use ai_augmented_generation.Cag.Batching.Signatures.{
  stored, with_signature, with_signature-append, members-group_all, occurs, occurs-sorted_desc,
  occurs-keys, group_all-IsDistinct, Share, with_signature-Share, with_signature_same,
  with_signature_other,
}

members-nil : (key : List ℕ) → members [] key ≡ []
unfolding members lookup
members-nil key = refl

-- A list, as often as the number says.
copies : ℕ → List BatchRequest → List BatchRequest
copies zero xs = []
copies (suc n) xs = xs ++ copies n xs

module _ (s : PrefixAwareBatchScheduler) (groups : Dict (List ℕ) (List BatchRequest))
    (shared : (k : List ℕ) → Share s k (members groups k)) (size : ℕ) (some_size : 0 < size) where
  split_first :
      (key k : List ℕ) (ks : List (List ℕ))
      → with_signature s key (flatten (batch_all groups size (k ∷ ks)))
        ≡ with_signature s key (members groups k)
          ++ with_signature s key (flatten (batch_all groups size ks))
  unfolding batch_all
  split_first key k ks =
      let requests = members groups k in
      let first = chunks (length requests) size requests in
      ap (with_signature s key) (flatten-append first (batch_all groups size ks))
      ∙ ap (λ xs. with_signature s key (xs ++ flatten (batch_all groups size ks)))
          (flatten-chunks size some_size (length requests) requests (omega arith))
      ∙ with_signature-append s key requests (flatten (batch_all groups size ks))

  copies_more : (n : ℕ) (xs : List BatchRequest) → xs ++ copies n xs ≡ copies (1 + n) xs
  copies_more n xs =
      let same : suc n ≡ 1 + n = omega arith in
      subst (λ m. xs ++ copies n xs ≡ copies m xs) same (unfold copies in refl)

  first_part :
      (key k : List ℕ) (n : ℕ)
      → with_signature s key (members groups k) ++ copies n (members groups key)
        ≡ copies ((if k == key then 1 else 0) + n) (members groups key)
  first_part key k n = elim (Bool-cases (k == key)) [
    | inl e ↦ rw e (
        let same = (==_iff k key).0 e in
        ap (λ j. with_signature s key (members groups j) ++ copies n (members groups key)) same
        ∙ ap (λ xs. xs ++ copies n (members groups key))
            (with_signature_same s key (members groups key) (shared key))
        ∙ copies_more n (members groups key))
    | inr e ↦ rw e (
        ap (λ xs. xs ++ copies n (members groups key))
          (with_signature_other s key k (members groups k) e (shared k))
        ∙ ap (λ m. copies m (members groups key)) {y = 0 + n} (omega arith))
  ]

  occurs_first :
      (key k : List ℕ) (ks : List (List ℕ))
      → occurs s key (k ∷ ks) ≡ (if k == key then 1 else 0) + occurs s key ks
  unfolding occurs
  occurs_first key k ks = refl

  stored_once :
      (key : List ℕ) → copies (stored (lookup key groups)) (members groups key) ≡ members groups key
  unfolding copies members
  stored_once key = elim (Option-cases (lookup key groups)) [
    | inl e ↦ rw (e, stored) (ground (arith, e))
    | inr (requests, e) ↦ rw (e, stored) (append-nil (members groups key))
  ]

  with_signature-batch_all :
      (key : List ℕ) (ks : List (List ℕ))
      → with_signature s key (flatten (batch_all groups size ks))
        ≡ copies (occurs s key ks) (members groups key)
  with_signature-batch_all key [] = unfold batch_all occurs copies with_signature in refl
  with_signature-batch_all key (k ∷ ks) =
      split_first key k ks
      ∙ ap (λ xs. with_signature s key (members groups k) ++ xs) (with_signature-batch_all key ks)
      ∙ first_part key k (occurs s key ks)
      ∙ ap (λ n. copies n (members groups key)) (sym (occurs_first key k ks))

  -- Each signature's requests stand in the batches in the order of their arrival, and no others.
  batch_all_lem :
      IsDistinct groups
      → (key : List ℕ)
      → with_signature s key (flatten (batch_all groups size (sorted_desc longer (keys groups))))
        ≡ members groups key
  batch_all_lem distinct key =
      with_signature-batch_all key (sorted_desc longer (keys groups))
      ∙ ap (λ n. copies n (members groups key))
          (occurs-sorted_desc s key (keys groups) ∙ occurs-keys s key groups distinct)
      ∙ stored_once key

All-take :
    (P : BatchRequest → Type 0) (n : ℕ) (xs : List BatchRequest) → All P xs → All P (take n xs)
All-take P zero xs h = tt
All-take P (suc n) [] h = tt
All-take P (suc n) (x ∷ xs) h = (h.0, All-take P n xs h.1)

All-drop :
    (P : BatchRequest → Type 0) (n : ℕ) (xs : List BatchRequest) → All P xs → All P (drop n xs)
All-drop P zero xs h = h
All-drop P (suc n) [] h = tt
All-drop P (suc n) (x ∷ xs) h = All-drop P n xs h.1

module _ (s : PrefixAwareBatchScheduler) where
  -- The requests of the batch have one signature.
  abbrev pub IsUniform : List BatchRequest → Type 0
  IsUniform batch = (key : List ℕ) × Share s key batch

  chunks-IsUniform :
      (key : List ℕ) (size fuel : ℕ) (xs : List BatchRequest)
      → Share s key xs
      → All IsUniform (chunks fuel size xs)
  unfolding chunks
  chunks-IsUniform key size zero xs h = tt
  chunks-IsUniform key size (suc fuel) [] h = tt
  chunks-IsUniform key size (suc fuel) (x ∷ xs) h = (
    (key, All-take (λ r. signature s r ≡ key) size (x ∷ xs) h),
    chunks-IsUniform key size fuel (drop size (x ∷ xs))
        (All-drop (λ r. signature s r ≡ key) size (x ∷ xs) h),
  )

  batch_all-IsGood :
      (groups : Dict (List ℕ) (List BatchRequest))
      → ((k : List ℕ) → Share s k (members groups k))
      → (size : ℕ) → 0 < size
      → (ks : List (List ℕ))
      → All (IsSized size) (batch_all groups size ks) × All IsUniform (batch_all groups size ks)
  unfolding batch_all
  batch_all-IsGood groups shared size h [] = (tt, tt)
  batch_all-IsGood groups shared size h (k ∷ ks) =
      let requests = members groups k in
      let first = chunks (length requests) size requests in
      let rest = batch_all-IsGood groups shared size h ks in
      (
        All-append (IsSized size) first (batch_all groups size ks)
            (chunks-IsSized size h (length requests) requests) (rest.0),
        All-append IsUniform first (batch_all groups size ks)
            (chunks-IsUniform k size (length requests) requests (shared k)) (rest.1),
      )

  -- With a size that is not 0 `form_batches` does not raise. Its batches hold 1 to that many
  -- requests, all with one signature; and of each signature they hold the pending requests, in the
  -- order of their arrival, and no others.
  pub form_batches_lem :
      (pending : List BatchRequest) (size : ℕ)
      → 0 < size
      → (batches : List (List BatchRequest)) × (form_batches s pending size ≡ ok batches)
        × All (IsSized size) batches
        × All IsUniform batches
        × ((key : List ℕ) → with_signature s key (flatten batches) ≡ with_signature s key pending)
  form_batches_lem pending size h =
      let groups = group_all s pending [] in
      let good = batch_all-IsGood groups shared size h (sorted_desc longer (keys groups)) in
      (
        batch_all groups size (sorted_desc longer (keys groups)),
        run,
        good.0,
        good.1,
        λ key.
            batch_all_lem s groups shared size h (group_all-IsDistinct s pending [] tt) key
            ∙ collected key,
      )
    where
      collected :
          (key : List ℕ) → members (group_all s pending []) key ≡ with_signature s key pending
      collected key =
          members-group_all s key pending []
          ∙ ap (λ xs. xs ++ with_signature s key pending) (members-nil key)

      shared : (k : List ℕ) → Share s k (members (group_all s pending []) k)
      shared k = subst (Share s k) (sym (collected k)) (with_signature-Share s k pending)

      run :
          form_batches s pending size
          ≡ ok (
              batch_all
                (group_all s pending [])
                size
                (sorted_desc longer (keys (group_all s pending []))))
      run = unfold form_batches in ground arith
