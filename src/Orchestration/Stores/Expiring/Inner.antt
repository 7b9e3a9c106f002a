-- ===== src/Orchestration/Stores/Expiring/Inner.antt =====
-- What the calls on the expiring cache do to the cache that it wraps.
use ai_augmented_generation.Prelude.{
  ◌≡◌, refl, sym, ◌∙◌, inl, inr, ℕ, String, Bool, true, false, Option, none, some, Eq, ◌==◌,
  ==_refl, if◌then◌else◌, Bool-cases,
}
use ai_augmented_generation.Prelude.Dict.{
  Dict, lookup, insert, IsDistinct, insert-IsDistinct, remove-IsDistinct,
}
use ai_augmented_generation.Orchestration.Stores.{Store, IsStore}
use ai_augmented_generation.Orchestration.Stores.Expiring.{
  Expiring, is_due, expire_if_due, begin_preload, finish_preload, preload_until, renew_present,
  renew_kept, renew, evict, contains_kept, contains,
}
use ai_augmented_generation.Orchestration.Stores.Expiring.Laws.{IsSoundExpiring}

module _ {K S H : Type 0} ⦃keys_eq : Eq K⦄ (store : Store K S H) (hit_of : String → H)
    (IsSound : S → Type 0) (view : S → K → Option H)
    (laws : IsStore store hit_of IsSound view) where
  -- The cache is sound, holds of the key nothing new, and of other keys what it held.
  pub record Keeps (k : K) (c c' : Expiring K S) : Type 0 where
    pub sound : IsSoundExpiring store hit_of IsSound view laws c'
    pub others : (j : K) → (k == j) ≡ false → view c'.inner j ≡ view c.inner j
    pub nothing_new : (hit : H) → view c'.inner k ≡ some hit → view c.inner k ≡ some hit

  module _ (k : K) (c : Expiring K S)
      (sound : IsSoundExpiring store hit_of IsSound view laws c) where
    pub view-evict :
        (j : K) → view (evict store c k).inner j ≡ (if k == j then none else view c.inner j)
    unfolding evict
    view-evict j = laws.view-evict c.inner k j sound.0

    gone : view (evict store c k).inner k ≡ none
    gone = view-evict k ∙ rw (==_refl k) refl

    pub evict-Keeps : Keeps k c (evict store c k)
    evict-Keeps = record {
      sound =
          unfold evict in
          (laws.evict-IsSound c.inner k sound.0, remove-IsDistinct k c.expiry sound.1);
      others = λ j other. view-evict j ∙ rw other refl;
      nothing_new = λ hit e. absurd (never hit (rw gone at e));
    }
      where
        never : (hit : H) → none ≡ some hit → ⊥
        never hit e = cc

    look-Keeps :
        (s : S) (expiry : Dict K (Option ℕ))
        → IsSound s
        → IsDistinct expiry
        → ((j : K) → view s j ≡ view c.inner j)
        → Keeps k c (record { inner = s; expiry = expiry })
    look-Keeps s expiry h distinct same = record {
      sound = (h, distinct);
      others = λ j other. same j;
      nothing_new = λ hit e. rw (same k) at e;
    }

    pub contains-Keeps : (now : ℕ) → Keeps k c ((contains store now c k).0)
    unfolding contains expire_if_due contains_kept
    contains-Keeps now = elim (Bool-cases (is_due now (lookup k c.expiry))) [
      | inl due ↦ rw due (unfold evict in evict-Keeps)
      | inr kept ↦ rw kept (
          look-Keeps ((store.contains c.inner k).0) c.expiry
            (laws.contains-IsSound c.inner k sound.0) sound.1
            (λ j. laws.view-contains c.inner k j sound.0))
    ]

    renew_present-Keeps :
        (until : Option ℕ) (found : S × Bool)
        → IsSound (found.0)
        → ((j : K) → view (found.0) j ≡ view c.inner j)
        → Keeps k c ((renew_present c k until found).0)
    unfolding renew_present
    renew_present-Keeps until (s, false) h same = look-Keeps s c.expiry h sound.1 same
    renew_present-Keeps until (s, true) h same =
        look-Keeps s (insert k until c.expiry) h (insert-IsDistinct k until c.expiry sound.1) same

    pub renew-Keeps : (now : ℕ) (until : Option ℕ) → Keeps k c ((renew store now c k until).0)
    unfolding renew expire_if_due renew_kept
    renew-Keeps now until = elim (Bool-cases (is_due now (lookup k c.expiry))) [
      | inl due ↦ rw due (unfold evict in evict-Keeps)
      | inr kept ↦ rw kept (
          renew_present-Keeps until (store.contains c.inner k)
            (laws.contains-IsSound c.inner k sound.0) (λ j. laws.view-contains c.inner k j sound.0))
    ]

    pub view-preload_until :
        (content : String) (until : Option ℕ) (j : K)
        → view (preload_until store c k content until).inner j
          ≡ (if k == j then some (hit_of content) else view c.inner j)
    unfolding preload_until begin_preload finish_preload
    view-preload_until content until j = laws.view-preload c.inner k j content sound.0

    pub preload_until-IsSound :
        (content : String) (until : Option ℕ)
        → IsSoundExpiring store hit_of IsSound view laws (preload_until store c k content until)
    unfolding preload_until begin_preload finish_preload
    preload_until-IsSound content until =
        (laws.preload-IsSound c.inner k content sound.0, insert-IsDistinct k until c.expiry sound.1)

  pub preload_evict-Keeps :
      (k : K) (c : Expiring K S) (content : String) (until : Option ℕ)
      → IsSoundExpiring store hit_of IsSound view laws c
      → Keeps k c (evict store (preload_until store c k content until) k)
  preload_evict-Keeps k c content until sound =
      let filled = preload_until store c k content until in
      let kept = evict-Keeps k filled (preload_until-IsSound k c sound content until) in
      record {
        sound = kept.sound;
        others = λ j other.
            kept.others j other ∙ view-preload_until k c sound content until j ∙ rw other refl;
        nothing_new = λ hit e.
            absurd (
              none-ne hit
                (sym (gone k filled (preload_until-IsSound k c sound content until)) ∙ e));
      }
    where
      none-ne : (hit : H) → none ≡ some hit → ⊥
      none-ne hit e = cc
