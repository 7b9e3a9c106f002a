-- ===== src/Orchestration/Stores/Expiring/Lifetime.antt =====
-- How long an entry of the expiring cache is found.
use ai_augmented_generation.Prelude.{
  ◌≡◌, refl, ap, ◌∙◌, inl, inr, ℕ, ◌≤◌, String, true, Option, none, some, List, All, le→leb, Eq,
  ==_refl, Bool-cases,
}
use ai_augmented_generation.Prelude.Dict.{
  lookup, insert, remove, IsDistinct, lookup-insert, lookup-remove, insert-IsDistinct,
  remove-IsDistinct,
}
use ai_augmented_generation.Orchestration.Stores.{Store, IsStore}
use ai_augmented_generation.Orchestration.Stores.Expiring.{
  Expiring, is_due, expire_if_due, begin_preload, finish_preload, preload_until, lookup_kept, find,
}
use ai_augmented_generation.Orchestration.Stores.Expiring.Laws.{IsSoundExpiring, live, find_found}
use ai_augmented_generation.Orchestration.Stores.Expiring.Runs.{
  Call, spares, after_calls, IsBounded, IsBounded-after_calls,
}

module _ {K S H : Type 0} ⦃keys_eq : Eq K⦄ (store : Store K S H) (hit_of : String → H)
    (IsSound : S → Type 0) (view : S → K → Option H)
    (laws : IsStore store hit_of IsSound view) where
  -- What a lookup leaves of an entry that is due.
  find-due :
      (now : ℕ) (c : Expiring K S) (k : K)
      → is_due now (lookup k c.expiry) ≡ true
      → (find store now c k).0
        ≡ record { inner = store.evict c.inner k; expiry = remove k c.expiry }
  unfolding find expire_if_due lookup_kept
  find-due now c k e = rw e refl

  IsBounded-live :
      (expires_at now : ℕ) (k : K) (c : Expiring K S)
      → expires_at ≤ now
      → IsBounded store hit_of IsSound view laws (some expires_at) k c
      → live now view c k ≡ none
  IsBounded-live expires_at now k c late h = elim (h.1) [
    | inl e ↦ rw (e, le→leb expires_at now late) refl
    | inr e ↦ elim (Bool-cases (is_due now (lookup k c.expiry))) [
      | inl due ↦ rw due refl
      | inr kept ↦ rw kept e
    ]
  ]

  -- Once preloaded with an expiry, content is not found from that instant on, whatever calls come
  -- in between and whatever the clock says in them, unless one of them preloads or renews that key.
  pub expired_is_not_served :
      (c : Expiring K S) (k : K) (content : String) (expires_at now : ℕ) (calls : List (Call K))
      → IsSoundExpiring store hit_of IsSound view laws c
      → All (λ call. spares k call ≡ true) calls
      → expires_at ≤ now
      → (find store now
          (after_calls store (preload_until store c k content (some expires_at)) calls)
          k).1
        ≡ none
  unfolding preload_until begin_preload finish_preload
  expired_is_not_served c k content expires_at now calls sound spared late =
      find_found store hit_of IsSound view laws now (after_calls store first calls) k (after.0)
      ∙ IsBounded-live expires_at now k (after_calls store first calls) late after
    where
      first : Expiring K S
      first = preload_until store c k content (some expires_at)

      start : IsBounded store hit_of IsSound view laws (some expires_at) k first
      start = (
        (
          laws.preload-IsSound c.inner k content sound.0,
          insert-IsDistinct k (some expires_at) c.expiry sound.1,
        ),
        inl (lookup-insert k k (some expires_at) c.expiry ∙ rw (==_refl k) refl),
      )

      after :
          IsBounded store hit_of IsSound view laws
            (some expires_at)
            k
            (after_calls store first calls)
      after =
          IsBounded-after_calls store hit_of IsSound view laws (some expires_at) k calls first
            spared start

  -- A preload that takes longer than the time to live, with a lookup in between, leaves an entry
  -- that is found at every later time: the lookup has dropped its expiry.
  pub slow_preload_never_expires :
      (c : Expiring K S) (k : K) (content : String) (expires_at now later : ℕ)
      → IsSoundExpiring store hit_of IsSound view laws c
      → expires_at ≤ now
      → (find store later
          (finish_preload store
            ((find store now (begin_preload c k (some expires_at)) k).0)
            k
            content)
          k).1
        ≡ some (hit_of content)
  unfolding begin_preload finish_preload
  slow_preload_never_expires c k content expires_at now later sound late =
      ap (λ d. (find store later (finish_preload store d k content) k).1)
        (find-due now (begin_preload c k (some expires_at)) k due)
      ∙ find_found store hit_of IsSound view laws later filled k filled_sound
      ∙ rw (unlimited, laws.view-preload emptied k k content emptied_sound, ==_refl k) refl
    where
      due : is_due now (lookup k (insert k (some expires_at) c.expiry)) ≡ true
      due =
          rw (lookup-insert k k (some expires_at) c.expiry, ==_refl k) (le→leb expires_at now late)

      emptied : S
      emptied = store.evict c.inner k

      filled : Expiring K S
      filled = record {
        inner = store.preload emptied k content;
        expiry = remove k (insert k (some expires_at) c.expiry);
      }

      emptied_sound : IsSound emptied
      emptied_sound = laws.evict-IsSound c.inner k sound.0

      distinct : IsDistinct (insert k (some expires_at) c.expiry)
      distinct = insert-IsDistinct k (some expires_at) c.expiry sound.1

      filled_sound : IsSoundExpiring store hit_of IsSound view laws filled
      filled_sound = (
        laws.preload-IsSound emptied k content emptied_sound,
        remove-IsDistinct k (insert k (some expires_at) c.expiry) distinct,
      )

      unlimited : lookup k (remove k (insert k (some expires_at) c.expiry)) ≡ none
      unlimited =
          lookup-remove k k (insert k (some expires_at) c.expiry) distinct ∙ rw (==_refl k) refl
