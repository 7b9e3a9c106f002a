-- ===== src/Orchestration/Stores.antt =====
-- The fast stores: the ports FrozenCache and WarmStore of src/orchestration/domain/ports.py, which
-- have the same four verbs, and src/orchestration/infrastructure/hf_frozen_cache.py. What the model
-- computes for a content and the hash are parameters.
pub mod Expiring
use ai_augmented_generation.Prelude.{
  ◌≡◌, refl, ℕ, String, Bool, true, false, Option, none, some, List, [], ◌∷◌, Eq, ◌==◌,
  if◌then◌else◌, arith,
}
use ai_augmented_generation.Prelude.Dict.{
  Dict, lookup, insert, remove, IsDistinct, lookup-insert, lookup-remove, insert-IsDistinct,
  remove-IsDistinct,
}

abbrev pub is_some {ℓ} : {A : Type ℓ} → Option A → Bool
is_some none = false
is_some (some a) = true

-- The port: `K` is the scope and the document, `H` what a lookup finds. Of WarmStore, `preload` is
-- `promote` and `evict` is `demote`.
pub record Store (K S H : Type 0) : Type 0 where
  pub preload : S → K → String → S
  pub lookup : S → K → S × Option H
  pub evict : S → K → S
  pub contains : S → K → S × Bool

-- The contract of the port, beside a view of the state as a map.
pub record IsStore {K S H : Type 0} ⦃keys_eq : Eq K⦄ (store : Store K S H) (hit_of : String → H)
    (IsSound : S → Type 0) (view : S → K → Option H) : Type 0 where
  pub preload-IsSound : (s : S) (k : K) (t : String) → IsSound s → IsSound (store.preload s k t)
  pub evict-IsSound : (s : S) (k : K) → IsSound s → IsSound (store.evict s k)
  pub lookup-IsSound : (s : S) (k : K) → IsSound s → IsSound ((store.lookup s k).0)
  pub contains-IsSound : (s : S) (k : K) → IsSound s → IsSound ((store.contains s k).0)
  pub view-preload :
      (s : S) (k j : K) (t : String)
      → IsSound s
      → view (store.preload s k t) j ≡ (if k == j then some (hit_of t) else view s j)
  pub view-evict :
      (s : S) (k j : K) → IsSound s → view (store.evict s k) j ≡ (if k == j then none else view s j)
  pub view-lookup : (s : S) (k j : K) → IsSound s → view ((store.lookup s k).0) j ≡ view s j
  pub lookup_found : (s : S) (k : K) → IsSound s → (store.lookup s k).1 ≡ view s k
  pub view-contains : (s : S) (k j : K) → IsSound s → view ((store.contains s k).0) j ≡ view s j
  pub contains_found : (s : S) (k : K) → IsSound s → (store.contains s k).1 ≡ is_some (view s k)

pub record CacheHit (V : Type 0) : Type 0 where
  pub content_hash : String
  pub kv_cache : V

module _ {V : Type 0} (content_hash : String → String) (prefill : String → V) where
  abbrev pub hit_of : String → CacheHit V
  hit_of content = record { content_hash = content_hash content; kv_cache = prefill content }

-- `HFFrozenCache.lookup`, `evict` and `contains`, over `_entries`
module _ {K V : Type 0} ⦃keys_eq : Eq K⦄ where
  abbrev pub hf_lookup : Dict K (CacheHit V) → K → Dict K (CacheHit V) × Option (CacheHit V)
  hf_lookup entries k = (entries, lookup k entries)

  abbrev pub hf_evict : Dict K (CacheHit V) → K → Dict K (CacheHit V)
  hf_evict entries k = remove k entries

  abbrev pub hf_contains : Dict K (CacheHit V) → K → Dict K (CacheHit V) × Bool
  hf_contains entries k = (entries, is_some (lookup k entries))

  -- What the dict holds of a key.
  abbrev pub hf_view : Dict K (CacheHit V) → K → Option (CacheHit V)
  hf_view entries k = lookup k entries

module _ {K V : Type 0} ⦃keys_eq : Eq K⦄ (content_hash : String → String)
    (prefill : String → V) where
  -- `HFFrozenCache.preload`
  abbrev pub hf_preload : Dict K (CacheHit V) → K → String → Dict K (CacheHit V)
  hf_preload entries k content = insert k (hit_of content_hash prefill content) entries

  abbrev pub hf_store : Store K (Dict K (CacheHit V)) (CacheHit V)
  hf_store = record {
    preload = hf_preload;
    lookup = hf_lookup;
    evict = hf_evict;
    contains = hf_contains;
  }

  pub hf_store-IsStore : IsStore hf_store (hit_of content_hash prefill) IsDistinct hf_view
  hf_store-IsStore = record {
    preload-IsSound = λ s k t h. insert-IsDistinct k (hit_of content_hash prefill t) s h;
    evict-IsSound = λ s k h. remove-IsDistinct k s h;
    lookup-IsSound = λ s k h. h;
    contains-IsSound = λ s k h. h;
    view-preload = λ s k j t h. lookup-insert k j (hit_of content_hash prefill t) s;
    view-evict = λ s k j h. lookup-remove k j s h;
    view-lookup = λ s k j h. refl;
    lookup_found = λ s k h. refl;
    view-contains = λ s k j h. refl;
    contains_found = λ s k h. refl;
  }
