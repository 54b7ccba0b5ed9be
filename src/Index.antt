-- ===== src/Index.antt =====
-- The local memory index (eval/python/src/memory_core_eval/local_memory_index.py): an eval-only
-- provider of the public MemoryIndex contract.
pub mod Chunks
pub mod Projection
pub mod Ranking
pub mod Store
pub mod Servicer
