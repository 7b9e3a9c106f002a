-- ===== src/Cag.antt =====
-- src/cag: the context cache (KV allocators, eviction, speculative decoding, batching).
pub mod PagedAllocator
pub mod ContiguousAllocator
pub mod Speculation
pub mod Eviction
pub mod Batching
pub mod Sessions
