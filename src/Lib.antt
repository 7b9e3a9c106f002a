-- ===== src/Lib.antt =====
-- AI-Augmented Generation answers a question from three paradigms: a context cache (CAG), the memory
-- of a user (MAG) and retrieved documents (RAG). The orchestration layer shares the context window
-- out among them and packs what they return; the cache layer manages the memory of the model that
-- reads it. This library models the parts with state and arithmetic of their own.
--
-- Layout. A parent module holds the definitions of one source file, its children the proofs; the
-- child `Tests` evaluates the definitions on concrete inputs and applies the theorems there.
--   * Prelude: shared names; `Dict` is a Python dict, `Sort` is `sorted(…, reverse=True)`, `Int` is
--     Python's int, `Float` the floats as a parameter, `Outcomes` the exceptions.
--   * Cag/PagedAllocator: src/cag/infrastructure/paged_allocator.py. The state of `PagedKVAllocator`
--     is a record (free list, block tables, token counts, reference counts); `allocate`, `extend`,
--     `fork`, `free` and the reports are functions on it. A call gives the new state beside its
--     outcome, since a call that raises may have changed the state.
--   * Cag/ContiguousAllocator: src/cag/infrastructure/contiguous_allocator.py, the same interface
--     over one region per sequence.
--   * Cag/Speculation: src/cag/application/speculative_decode.py, the loop of `SpeculativeDecode`, and
--     src/cag/infrastructure/hf_target_model.py, `HFTargetModel.verify_candidates`. The loop takes as
--     fuel `max_new_tokens`: a round that does not raise adds a token. What the network predicts is a
--     parameter, and the theorems that rely on it say that it is causal.
--   * Cag/Speculation/Ngrams: src/cag/domain/ngram_search.py and the generators on it,
--     src/cag/infrastructure/prompt_lookup_candidate_generator.py and
--     lookahead_candidate_generator.py.
--   * Cag/Eviction: src/cag/infrastructure/h2o_evictor.py, snapkv_evictor.py and morphkv_evictor.py,
--     the selection of the positions that a budget keeps.
--   * Cag/Batching: src/cag/infrastructure/prefix_aware_batch_scheduler.py, `form_batches`, and
--     fifo_batch_scheduler.py. Cutting a list into batches takes as fuel the length of the list.
--   * Cag/Sessions: src/cag/infrastructure/naive_recompute_session.py, sglang_session.py,
--     rocketkv_mt_session.py and memserve_session.py. The walk up the ancestors of a turn takes as
--     fuel the number of turns, since it visits none twice.
--   * Orchestration/Entities: src/orchestration/domain/entities.py, the data.
--   * Orchestration/Budget: src/orchestration/domain/budget_allocator.py, `allocate`.
--   * Orchestration/Assembly: src/orchestration/application/assemble_context.py, which packs the
--     items of each paradigm into the slice that the budget gives it. Section headers and separators
--     are part of the text and charged to no slice.
--   * Orchestration/Cascade: src/orchestration/application/latency_cascade.py, `run` over its three
--     routes. What a tier does within its timeout is a parameter; times, the work that goes on in the
--     background, the access tracker and cancellation are left out.
--   * Orchestration/AccessCounter: src/orchestration/infrastructure/_sliding_window_counter.py.
--   * Orchestration/Stores: the port FrozenCache of src/orchestration/domain/ports.py with its contract,
--     and src/orchestration/infrastructure/hf_frozen_cache.py. Stores/Expiring:
--     expiring_frozen_cache.py beside it; the calls of several threads are an explicit sequence, in
--     which a preload is two steps.
--   * Orchestration/Tiering: src/orchestration/application/tiering_policy.py, mag_tiering_policy.py and
--     cag_mag_tiering_policy.py, over any store with the contract, with the trackers
--     src/orchestration/infrastructure/in_memory_access_tracker.py and
--     in_memory_user_scoped_access_tracker.py.
--   * Orchestration/Sync: src/orchestration/domain/sync_mixer.py, and src/orchestration/application/
--     sync_cycle.py, mag_sync_cycle.py, cag_mag_sync_cycle.py and warm_cache.py.
--   * Orchestration/Freshness: src/orchestration/domain/freshness_router.py on microseconds.
--   * Orchestration/Sources: the two tables of
--     src/orchestration/infrastructure/postgres_data_source_repository.py, one function per statement;
--     row-level security and the order of a listing are left out. Sources/Ingestion:
--     src/orchestration/application/ingest_data_source.py, over the tables, RAG, an expiring cache with
--     the contract of Orchestration/Stores and the warmed memo; a call that raises is an argument, and
--     what it leaves in RAG is any text or none. Sources/Batches:
--     refresh_cached_sources.py and review_source_freshness.py beside it, each round on the source as it
--     was listed; Batches/Jobs runs the three use cases one after the other. The
--     clock of the expiring cache shows the time of the call there.
--   * Orchestration/Warmed: src/orchestration/application/cache_warmed_retrieve.py and
--     src/orchestration/domain/similarity.py; the embedding model, the square root and the fallback
--     retriever are parameters.
--   * Mag/Gating: src/mag/application/gating, the six strategies and the pipeline of GateMemories. The
--     sum over an embedding is the one of Orchestration/Warmed, as the code has it twice.
--
-- Numbers. Token counts, slots and blocks are natural numbers. The budget is over Python's ints,
-- since the reserve may fall below 0 where the floats round up. A float is a value of the parameter
-- `Floats`, and a theorem names the laws of its arithmetic that it needs; the tests run on exact
-- fractions. `blocks_needed` takes the exact ceiling, where the source divides floats: the two can
-- differ only from 2^53 tokens on.
--
-- Loops recur on the list or the range that they walk over; only the loop of `SpeculativeDecode`,
-- the cutting into batches and the walk up the turns of a session take fuel.
--
-- Not modelled: the HTTP interface, other persistence (PostgreSQL, Qdrant, Neo4j, Redis), the calls of
-- language models, and the tensor code; the manifest lists each part with its reason.
pub mod Prelude
pub mod Cag
pub mod Orchestration
pub mod Mag
