-- ===== src/Orchestration/Stores/Expiring/Runs.antt =====
-- The calls of several threads on the expiring cache, in any order; a preload is two of them.
use ai_augmented_generation.Prelude.{
  ◌≡◌, refl, ◌∙◌, ◌⊎◌, inl, inr, ℕ, String, Bool, true, false, not, Option, none, some, List, [],
  ◌∷◌, All, Eq, ◌==◌, Bool-cases, arith,
}
use ai_augmented_generation.Prelude.Dict.{
  lookup, insert, remove, lookup-insert, lookup-remove, insert-IsDistinct, remove-IsDistinct,
}
use ai_augmented_generation.Orchestration.Stores.{Store, IsStore}
use ai_augmented_generation.Orchestration.Stores.Expiring.{
  Expiring, is_due, expire_if_due, begin_preload, finish_preload, renew_present, renew_kept, renew,
  lookup_kept, find, evict, contains_kept, contains,
}
use ai_augmented_generation.Orchestration.Stores.Expiring.Laws.{IsSoundExpiring}

pub data Call (K : Type 0) : Type 0 where
  begun : K → Option ℕ → Call K
  finished : K → String → Call K
  looked_up asked : ℕ → K → Call K
  renewed : ℕ → K → Option ℕ → Call K
  evicted : K → Call K

module _ {K S H : Type 0} ⦃keys_eq : Eq K⦄ (store : Store K S H) where
  unfoldable pub after_call : Expiring K S → Call K → Expiring K S
  after_call c (begun k expires_at) = begin_preload c k expires_at
  after_call c (finished k content) = finish_preload store c k content
  after_call c (looked_up now k) = (find store now c k).0
  after_call c (asked now k) = (contains store now c k).0
  after_call c (renewed now k expires_at) = (renew store now c k expires_at).0
  after_call c (evicted k) = evict store c k

  unfoldable pub after_calls : Expiring K S → List (Call K) → Expiring K S
  after_calls c [] = c
  after_calls c (call ∷ calls) = after_calls (after_call c call) calls

-- The call does not preload or renew the key.
abbrev pub spares : {K : Type 0} ⦃keys_eq : Eq K⦄ → K → Call K → Bool
spares k (begun j expires_at) = not (k == j)
spares k (finished j content) = not (k == j)
spares k (looked_up now j) = true
spares k (asked now j) = true
spares k (renewed now j expires_at) = not (k == j)
spares k (evicted j) = true

module _ {K S H : Type 0} ⦃keys_eq : Eq K⦄ (store : Store K S H) (hit_of : String → H)
    (IsSound : S → Type 0) (view : S → K → Option H)
    (laws : IsStore store hit_of IsSound view) where
  -- The cache is sound, and the key has this expiry, or the inner cache does not hold it.
  abbrev pub IsBounded : Option ℕ → K → Expiring K S → Type 0
  IsBounded expires_at k c =
      IsSoundExpiring store hit_of IsSound view laws c
      × ((lookup k c.expiry ≡ some expires_at) ⊎ (view c.inner k ≡ none))

  module _ (expires_at : Option ℕ) (k : K) (c : Expiring K S) (j : K)
      (h : IsBounded expires_at k c) where
    IsBounded-evict :
        IsBounded expires_at k
          (record { inner = store.evict c.inner j; expiry = remove j c.expiry })
    IsBounded-evict = (
      (laws.evict-IsSound c.inner j h.0.0, remove-IsDistinct j c.expiry h.0.1),
      elim (Bool-cases (j == k)) [
        | inl same ↦ inr (laws.view-evict c.inner j k h.0.0 ∙ rw same refl)
        | inr other ↦ elim (h.1) [
          | inl e ↦ inl (lookup-remove j k c.expiry h.0.1 ∙ rw other e)
          | inr e ↦ inr (laws.view-evict c.inner j k h.0.0 ∙ rw other e)
        ]
      ],
    )

    IsBounded-look :
        (s : S)
        → IsSound s
        → view s k ≡ view c.inner k
        → IsBounded expires_at k (record c { inner = s })
    IsBounded-look s sound same =
        ((sound, h.0.1), elim (h.1) [ inl e ↦ inl e | inr e ↦ inr (same ∙ e) ])

    IsBounded-preload :
        (content : String)
        → (k == j) ≡ false
        → IsBounded expires_at k (record c { inner = store.preload c.inner j content })
    IsBounded-preload content other =
        IsBounded-look (store.preload c.inner j content)
          (laws.preload-IsSound c.inner j content h.0.0)
          (laws.view-preload c.inner j k content h.0.0 ∙ rw (flipped other) refl)
      where
        flipped : (k == j) ≡ false → (j == k) ≡ false
        flipped e = ground (arith, keys_eq.eqb_iff k j, keys_eq.eqb_iff j k)

    IsBounded-insert :
        (other_expiry : Option ℕ)
        → (k == j) ≡ false
        → IsBounded expires_at k (record c { expiry = insert j other_expiry c.expiry })
    IsBounded-insert other_expiry other = (
      (h.0.0, insert-IsDistinct j other_expiry c.expiry h.0.1),
      elim (h.1) [ inl e ↦ inl (kept e) | inr e ↦ inr e ],
    )
      where
        kept :
            lookup k c.expiry ≡ some expires_at
            → lookup k (insert j other_expiry c.expiry) ≡ some expires_at
        kept e = ground (
          arith,
          lookup-insert j k other_expiry c.expiry,
          keys_eq.eqb_iff k j,
          keys_eq.eqb_iff j k,
        )

    IsBounded-expire : (now : ℕ) → IsBounded expires_at k ((expire_if_due store now c j).0)
    unfolding expire_if_due
    IsBounded-expire now = elim (Bool-cases (is_due now (lookup j c.expiry))) [
      | inl e ↦ rw e IsBounded-evict
      | inr e ↦ rw e h
    ]

    IsBounded-find : (now : ℕ) → IsBounded expires_at k ((find store now c j).0)
    unfolding find expire_if_due lookup_kept
    IsBounded-find now = elim (Bool-cases (is_due now (lookup j c.expiry))) [
      | inl e ↦ rw e IsBounded-evict
      | inr e ↦ rw e (
          IsBounded-look ((store.lookup c.inner j).0) (laws.lookup-IsSound c.inner j h.0.0)
            (laws.view-lookup c.inner j k h.0.0))
    ]

    IsBounded-contains : (now : ℕ) → IsBounded expires_at k ((contains store now c j).0)
    unfolding contains expire_if_due contains_kept
    IsBounded-contains now = elim (Bool-cases (is_due now (lookup j c.expiry))) [
      | inl e ↦ rw e IsBounded-evict
      | inr e ↦ rw e (
          IsBounded-look ((store.contains c.inner j).0) (laws.contains-IsSound c.inner j h.0.0)
            (laws.view-contains c.inner j k h.0.0))
    ]

    IsBounded-renew_present :
        (other_expiry : Option ℕ) (found : S × Bool)
        → (k == j) ≡ false
        → IsSound (found.0)
        → view (found.0) k ≡ view c.inner k
        → IsBounded expires_at k ((renew_present c j other_expiry found).0)
    unfolding renew_present
    IsBounded-renew_present other_expiry (s, false) other sound same = IsBounded-look s sound same
    IsBounded-renew_present other_expiry (s, true) other sound same =
        let (kept, bounded) = IsBounded-insert other_expiry other in
        ((sound, kept.1), elim bounded [ inl e ↦ inl e | inr e ↦ inr (same ∙ e) ])

  module _ (expires_at : Option ℕ) (k : K) where
    IsBounded-renew :
        (c : Expiring K S) (j : K) (now : ℕ) (other_expiry : Option ℕ)
        → (k == j) ≡ false
        → IsBounded expires_at k c
        → IsBounded expires_at k ((renew store now c j other_expiry).0)
    unfolding renew expire_if_due renew_kept
    IsBounded-renew c j now other_expiry other h =
        elim (Bool-cases (is_due now (lookup j c.expiry))) [
          | inl e ↦ rw e (IsBounded-evict expires_at k c j h)
          | inr e ↦ rw e (
              IsBounded-renew_present expires_at k c j h other_expiry (store.contains c.inner j)
                other (laws.contains-IsSound c.inner j h.0.0)
                (laws.view-contains c.inner j k h.0.0))
        ]

    IsBounded-after_call :
        (c : Expiring K S) (call : Call K)
        → spares k call ≡ true
        → IsBounded expires_at k c
        → IsBounded expires_at k (after_call store c call)
    unfolding after_call begin_preload finish_preload evict
    IsBounded-after_call c (begun j e) spared h =
        IsBounded-insert expires_at k c j h e (ground arith)
    IsBounded-after_call c (finished j content) spared h =
        IsBounded-preload expires_at k c j h content (ground arith)
    IsBounded-after_call c (looked_up now j) spared h = IsBounded-find expires_at k c j h now
    IsBounded-after_call c (asked now j) spared h = IsBounded-contains expires_at k c j h now
    IsBounded-after_call c (renewed now j e) spared h = IsBounded-renew c j now e (ground arith) h
    IsBounded-after_call c (evicted j) spared h = IsBounded-evict expires_at k c j h

    pub IsBounded-after_calls :
        (calls : List (Call K)) (c : Expiring K S)
        → All (λ call. spares k call ≡ true) calls
        → IsBounded expires_at k c
        → IsBounded expires_at k (after_calls store c calls)
    unfolding after_calls
    IsBounded-after_calls [] c spared h = h
    IsBounded-after_calls (call ∷ calls) c spared h =
        IsBounded-after_calls calls (after_call store c call) spared.1
          (IsBounded-after_call c call spared.0 h)
