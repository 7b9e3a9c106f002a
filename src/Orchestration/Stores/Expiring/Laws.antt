-- ===== src/Orchestration/Stores/Expiring/Laws.antt =====
-- The expiring cache meets the contract of a frozen cache.
use ai_augmented_generation.Prelude.{
  ◌≡◌, refl, sym, ◌∙◌, subst, inl, inr, ℕ, String, true, Option, none, some, Eq, ◌==◌,
  if◌then◌else◌, Bool-cases, arith,
}
use ai_augmented_generation.Prelude.Dict.{
  lookup, remove, IsDistinct, lookup-insert, lookup-remove, insert-IsDistinct, remove-IsDistinct,
}
use ai_augmented_generation.Orchestration.Stores.{Store, IsStore, is_some}
use ai_augmented_generation.Orchestration.Stores.Expiring.{
  Expiring, is_due, expire_if_due, begin_preload, finish_preload, preload_until, preload,
  lookup_kept, find, evict, contains_kept, contains, expiring_store,
}

module _ {K S H : Type 0} ⦃keys_eq : Eq K⦄ (now : ℕ) (view : S → K → Option H) where
  -- What the cache holds of a key, as long as the clock says `now`.
  abbrev pub live : Expiring K S → K → Option H
  live c k = if is_due now (lookup k c.expiry) then none else view c.inner k

module _ {K S H : Type 0} ⦃keys_eq : Eq K⦄ (store : Store K S H) (hit_of : String → H)
    (IsSound : S → Type 0) (view : S → K → Option H)
    (laws : IsStore store hit_of IsSound view) where
  abbrev pub IsSoundExpiring : Expiring K S → Type 0
  IsSoundExpiring c = IsSound c.inner × IsDistinct c.expiry

  expire-IsSound :
      (now : ℕ) (c : Expiring K S) (k : K)
      → IsSoundExpiring c
      → IsSoundExpiring ((expire_if_due store now c k).0)
  unfolding expire_if_due
  expire-IsSound now c k h = elim (Bool-cases (is_due now (lookup k c.expiry))) [
    | inl e ↦ rw e (laws.evict-IsSound c.inner k h.0, remove-IsDistinct k c.expiry h.1)
    | inr e ↦ rw e h
  ]

  -- What is evicted and has no expiry is not there.
  live-gone :
      (now : ℕ) (c : Expiring K S) (k j : K)
      → IsSoundExpiring c
      → live now view (record { inner = store.evict c.inner k; expiry = remove k c.expiry }) j
        ≡ (if k == j then none else live now view c j)
  live-gone now c k j h =
      ground (arith, lookup-remove k j c.expiry h.1, laws.view-evict c.inner k j h.0)

  live-kept :
      (now : ℕ) (c : Expiring K S) (k j : K) (expires_at : Option ℕ) (content : String)
      → IsSoundExpiring c
      → live now view (preload_until store c k content expires_at) j ≡ (
          if k == j
          then (if is_due now (some expires_at) then none else some (hit_of content))
          else live now view c j)
  unfolding preload_until begin_preload finish_preload
  live-kept now c k j expires_at content h =
      ground
        (arith, lookup-insert k j expires_at c.expiry, laws.view-preload c.inner k j content h.0)

  pub live-due :
      (now : ℕ) (c : Expiring K S) (k : K)
      → is_due now (lookup k c.expiry) ≡ true
      → live now view c k ≡ none
  live-due now c k e = rw e refl

  due_too :
      (now : ℕ) (c : Expiring K S) (k j : K)
      → is_due now (lookup k c.expiry) ≡ true
      → (k == j) ≡ true
      → is_due now (lookup j c.expiry) ≡ true
  due_too now c k j e same =
      subst (λ i. is_due now (lookup i c.expiry) ≡ true) ((keys_eq.eqb_iff k j).0 same) e

  live-drop :
      (now : ℕ) (c : Expiring K S) (k j : K)
      → IsSoundExpiring c
      → is_due now (lookup k c.expiry) ≡ true
      → live now view (record { inner = store.evict c.inner k; expiry = remove k c.expiry }) j
        ≡ live now view c j
  live-drop now c k j h e = live-gone now c k j h ∙ elim (Bool-cases (k == j)) [
    | inr other ↦ rw other refl
    | inl same ↦ rw same (sym (live-due now c j (due_too now c k j e same)))
  ]

  -- Dropping what is due changes nothing of what is live.
  live-expire :
      (now : ℕ) (c : Expiring K S) (k j : K)
      → IsSoundExpiring c
      → live now view ((expire_if_due store now c k).0) j ≡ live now view c j
  unfolding expire_if_due
  live-expire now c k j h = elim (Bool-cases (is_due now (lookup k c.expiry))) [
    | inr e ↦ rw e refl
    | inl e ↦ rw e (live-drop now c k j h e)
  ]

  find-IsSound :
      (now : ℕ) (c : Expiring K S) (k : K)
      → IsSoundExpiring c
      → IsSoundExpiring ((find store now c k).0)
  unfolding find expire_if_due lookup_kept
  find-IsSound now c k h = elim (Bool-cases (is_due now (lookup k c.expiry))) [
    | inl e ↦ rw e (laws.evict-IsSound c.inner k h.0, remove-IsDistinct k c.expiry h.1)
    | inr e ↦ rw e (laws.lookup-IsSound c.inner k h.0, h.1)
  ]

  live-find :
      (now : ℕ) (c : Expiring K S) (k j : K)
      → IsSoundExpiring c
      → live now view ((find store now c k).0) j ≡ live now view c j
  unfolding find expire_if_due lookup_kept
  live-find now c k j h = elim (Bool-cases (is_due now (lookup k c.expiry))) [
    | inl e ↦ rw e (live-drop now c k j h e)
    | inr e ↦ rw e (ground (arith, laws.view-lookup c.inner k j h.0))
  ]

  pub find_found :
      (now : ℕ) (c : Expiring K S) (k : K)
      → IsSoundExpiring c
      → (find store now c k).1 ≡ live now view c k
  unfolding find expire_if_due lookup_kept
  find_found now c k h = elim (Bool-cases (is_due now (lookup k c.expiry))) [
    | inl e ↦ rw e refl
    | inr e ↦ rw e (laws.lookup_found c.inner k h.0)
  ]

  contains-IsSound :
      (now : ℕ) (c : Expiring K S) (k : K)
      → IsSoundExpiring c
      → IsSoundExpiring ((contains store now c k).0)
  unfolding contains expire_if_due contains_kept
  contains-IsSound now c k h = elim (Bool-cases (is_due now (lookup k c.expiry))) [
    | inl e ↦ rw e (laws.evict-IsSound c.inner k h.0, remove-IsDistinct k c.expiry h.1)
    | inr e ↦ rw e (laws.contains-IsSound c.inner k h.0, h.1)
  ]

  live-contains :
      (now : ℕ) (c : Expiring K S) (k j : K)
      → IsSoundExpiring c
      → live now view ((contains store now c k).0) j ≡ live now view c j
  unfolding contains expire_if_due contains_kept
  live-contains now c k j h = elim (Bool-cases (is_due now (lookup k c.expiry))) [
    | inl e ↦ rw e (live-drop now c k j h e)
    | inr e ↦ rw e (ground (arith, laws.view-contains c.inner k j h.0))
  ]

  contains_found :
      (now : ℕ) (c : Expiring K S) (k : K)
      → IsSoundExpiring c
      → (contains store now c k).1 ≡ is_some (live now view c k)
  unfolding contains expire_if_due contains_kept
  contains_found now c k h = elim (Bool-cases (is_due now (lookup k c.expiry))) [
    | inl e ↦ rw e refl
    | inr e ↦ rw e (laws.contains_found c.inner k h.0)
  ]

  pub kept-IsSound :
      (c : Expiring K S) (k : K) (content : String) (expires_at : Option ℕ)
      → IsSoundExpiring c
      → IsSoundExpiring (preload_until store c k content expires_at)
  unfolding preload_until begin_preload finish_preload
  kept-IsSound c k content expires_at h =
      (laws.preload-IsSound c.inner k content h.0, insert-IsDistinct k expires_at c.expiry h.1)

  -- While the clock stands, the expiring cache is a frozen cache that holds what is not due: it
  -- keeps the contract of the cache that it wraps.
  pub expiring_store-IsStore :
      (now : ℕ) → IsStore (expiring_store store now) hit_of IsSoundExpiring (live now view)
  unfolding preload evict
  expiring_store-IsStore now = record {
    preload-IsSound = λ c k t h. kept-IsSound c k t none h;
    evict-IsSound = λ c k h. (laws.evict-IsSound c.inner k h.0, remove-IsDistinct k c.expiry h.1);
    lookup-IsSound = find-IsSound now;
    contains-IsSound = contains-IsSound now;
    view-preload = λ c k j t h. live-kept now c k j none t h;
    view-evict = live-gone now;
    view-lookup = live-find now;
    lookup_found = find_found now;
    view-contains = live-contains now;
    contains_found = contains_found now;
  }
