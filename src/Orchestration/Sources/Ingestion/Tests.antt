-- ===== src/Orchestration/Sources/Ingestion/Tests.antt =====
-- Ingestions on concrete calls. The id of a source is its key, and a hash the text itself.
use ai_augmented_generation.Prelude.{
  ◌≡◌, refl, ap, ℕ, ◌*◌, String, true, false, Option, none, some, [], nat_eq, string_eq, pair_eq,
  option_eq,
}
use ai_augmented_generation.Prelude.Dict.{Dict, lookup, insert, remove, IsDistinct}
use ai_augmented_generation.Orchestration.Stores.{
  Store, IsStore, CacheHit, hit_of, hf_store, hf_view, hf_store-IsStore,
}
use ai_augmented_generation.Orchestration.Stores.Expiring.{evict}
use ai_augmented_generation.Orchestration.Freshness.{tenant, DataSourceProfile, route_for}
use ai_augmented_generation.Orchestration.Sources.{get, find_row, save, mark_pending}
use ai_augmented_generation.Orchestration.Sources.Ingestion.{
  World, Settings, nothing_fails, effects_fail, ingest, ingest_found, ingest_known, new_source,
  finish, apply_route, break_off, drop_cached,
}
use ai_augmented_generation.Orchestration.Sources.Ingestion.Changes.{IsConsistent}
use ai_augmented_generation.Orchestration.Sources.Ingestion.Consistency.{ingest-Consistent}

abbrev pub Key : Type 0
Key = ℕ × (String × Option ℕ)

abbrev pub key : ℕ → String → Option ℕ → Key
key tenant_id source_key user_id = (tenant_id, (source_key, user_id))

abbrev pub same_text : String → String
same_text t = t

abbrev pub no_prefill : String → ℕ
no_prefill t = 0

abbrev pub settings : Settings Key ℕ
settings = record {
  source_id_for = key;
  content_hash = same_text;
  scale = λ interval factor. interval * factor;
  policy = record {
    volatile_below = 100;
    demote_after_changes = 3;
    promote_after_quiet_multiple = 2;
    ttl_factor = some 2;
  };
  route_policy = route_for;
  permit_user_scope_outside_mag = false;
}

abbrev pub cache : Store (ℕ × Key) (Dict (ℕ × Key) (CacheHit ℕ)) (CacheHit ℕ)
cache = hf_store same_text no_prefill

abbrev pub hit : String → CacheHit ℕ
hit = hit_of same_text no_prefill

abbrev pub cache_laws : IsStore cache hit IsDistinct hf_view
cache_laws = hf_store-IsStore same_text no_prefill

abbrev pub hash_of : CacheHit ℕ → String
hash_of h = h.content_hash

abbrev pub Stores : Type 0
Stores = World Key (Dict (ℕ × Key) (CacheHit ℕ))

abbrev pub empty : Stores
empty = record {
  tables = record { data_sources = []; data_source_versions = [] };
  rag = [];
  cache = record { inner = []; expiry = [] };
  warmed = [];
  facts = [];
}

abbrev pub prices : DataSourceProfile
prices = record { source_key = "prices"; scope = tenant; expected_change_interval = 200 }

abbrev pub Good : Stores → Type 0
Good w = IsConsistent settings cache hit IsDistinct hf_view cache_laws hash_of w

pub empty_consistent : Good empty
unfolding lookup
empty_consistent = record {
  well_formed = record { rows_distinct = tt; rag_distinct = tt; sound = (tt, tt) };
  agrees = λ i. record {
    keyed = λ row e. absurd (cc e);
    in_rag = λ row e. absurd (cc e);
    in_cache = λ tenant_id h e. absurd (cc e);
  };
}

pub keys_differ :
    (t t' : ℕ) (k k' : String) (u u' : Option ℕ)
    → key t k u ≡ key t' k' u'
    → (t ≡ t') × (k ≡ k') × (u ≡ u')
keys_differ t t' k k' u u' e =
    (ap (λ (p : Key). p.0) e, ap (λ (p : Key). p.1.0) e, ap (λ (p : Key). p.1.1) e)

abbrev pub added : Stores
added = (ingest settings cache empty 1 prices "ten" 5 none nothing_fails).0

pub added_consistent : Good added
added_consistent =
    ingest-Consistent settings cache hit IsDistinct hf_view cache_laws hash_of keys_differ empty 1
      prices "ten" 5 none nothing_fails empty_consistent

-- RAG fails on a change, and has lost its document.
abbrev broken : Stores
broken = (ingest settings cache added 1 prices "eleven" 9 none (effects_fail none true)).0

lost : lookup (1, key 1 "prices" none) broken.rag ≡ none
unfolding ingest ingest_found ingest_known new_source finish apply_route break_off drop_cached get
    find_row save mark_pending lookup insert remove evict route_for
lost = refl

-- The same content again sets it right.
retried :
    lookup
      (1, key 1 "prices" none)
      (ingest settings cache broken 1 prices "eleven" 10 none nothing_fails).0.rag
    ≡ some "eleven"
unfolding ingest ingest_found ingest_known new_source finish apply_route break_off drop_cached get
    find_row save mark_pending lookup insert remove evict route_for
retried = refl
