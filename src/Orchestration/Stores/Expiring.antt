-- ===== src/Orchestration/Stores/Expiring.antt =====
-- src/orchestration/infrastructure/expiring_frozen_cache.py: a time to live for the entries of any
-- frozen cache. `now` is what the clock says during a call.
pub mod Laws
pub mod Runs
pub mod Lifetime
pub mod Inner
mod Tests
use ai_augmented_generation.Prelude.{
  ℕ, String, Bool, true, false, Option, none, some, leb, Eq, if◌then◌else◌,
}
use ai_augmented_generation.Prelude.Dict.{Dict, lookup, insert, remove}
use ai_augmented_generation.Orchestration.Stores.{Store}

-- `ExpiringFrozenCache`: `_inner`, and `_expiry`
pub record Expiring (K S : Type 0) : Type 0 where
  pub inner : S
  pub expiry : Dict K (Option ℕ)

-- `expires_at is None or self._clock() < expires_at`, negated
abbrev pub is_due : ℕ → Option (Option ℕ) → Bool
is_due now none = false
is_due now (some none) = false
is_due now (some (some expires_at)) = leb expires_at now

module _ {K S : Type 0} ⦃keys_eq : Eq K⦄ where
  -- `preload_until`, in its two parts: the expiry is recorded before the preload runs, and other
  -- calls may come between.
  unfoldable pub begin_preload : Expiring K S → K → Option ℕ → Expiring K S
  begin_preload c k expires_at = record c { expiry = insert k expires_at c.expiry }

  -- `renew`, past the check of the expiry
  pub renew_present : Expiring K S → K → Option ℕ → S × Bool → Expiring K S × Bool
  renew_present c k expires_at (s, false) = (record c { inner = s }, false)
  renew_present c k expires_at (s, true) =
      (record { inner = s; expiry = insert k expires_at c.expiry }, true)

module _ {K S H : Type 0} ⦃keys_eq : Eq K⦄ (store : Store K S H) where
  -- `_expire_if_due`
  unfoldable pub expire_if_due : ℕ → Expiring K S → K → Expiring K S × Bool
  expire_if_due now c k =
      if is_due now (lookup k c.expiry)
      then (record { inner = store.evict c.inner k; expiry = remove k c.expiry }, true)
      else (c, false)

  unfoldable pub finish_preload : Expiring K S → K → String → Expiring K S
  finish_preload c k content = record c { inner = store.preload c.inner k content }

  unfoldable pub preload_until : Expiring K S → K → String → Option ℕ → Expiring K S
  preload_until c k content expires_at = finish_preload (begin_preload c k expires_at) k content

  pub preload : Expiring K S → K → String → Expiring K S
  preload c k content = preload_until c k content none

  -- `renew`, `lookup` and `contains`, once what is due is dropped
  pub renew_kept : K → Option ℕ → Expiring K S × Bool → Expiring K S × Bool
  renew_kept k expires_at (c, true) = (c, false)
  renew_kept k expires_at (c, false) = renew_present c k expires_at (store.contains c.inner k)

  pub renew : ℕ → Expiring K S → K → Option ℕ → Expiring K S × Bool
  renew now c k expires_at = renew_kept k expires_at (expire_if_due now c k)

  pub lookup_kept : K → Expiring K S × Bool → Expiring K S × Option H
  lookup_kept k (c, true) = (c, none)
  lookup_kept k (c, false) =
      let (s, found) = store.lookup c.inner k in (record c { inner = s }, found)

  pub find : ℕ → Expiring K S → K → Expiring K S × Option H
  find now c k = lookup_kept k (expire_if_due now c k)

  unfoldable pub evict : Expiring K S → K → Expiring K S
  evict c k = record { inner = store.evict c.inner k; expiry = remove k c.expiry }

  unfoldable pub contains_kept : K → Expiring K S × Bool → Expiring K S × Bool
  contains_kept k (c, true) = (c, false)
  contains_kept k (c, false) =
      let (s, found) = store.contains c.inner k in (record c { inner = s }, found)

  unfoldable pub contains : ℕ → Expiring K S → K → Expiring K S × Bool
  contains now c k = contains_kept k (expire_if_due now c k)

  -- The expiring cache as a frozen cache, while the clock says `now`.
  abbrev pub expiring_store : ℕ → Store K (Expiring K S) H
  expiring_store now = record {
    preload = preload;
    lookup = find now;
    evict = evict;
    contains = contains now;
  }
