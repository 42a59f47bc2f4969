-- ===== src/Cache.antt =====
-- internal/cache: the objects that the cache shares, its in-memory store, the repositories that it
-- watches, what starts it, and what puts events into it.
pub mod Heap
pub mod InMemory
pub mod Ingest
pub mod Spec
pub mod Refinement
pub mod Watcher
pub mod Redis
pub mod Startup
pub mod Begun
pub mod Create
