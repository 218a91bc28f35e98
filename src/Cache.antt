-- ===== src/Cache.antt =====
-- src/db/node_cache.{h,cc}: the cache of the nodes that were read from the log or written to it.
pub mod Shard
pub mod Nodes
pub mod Recent
pub mod Linked
pub mod Store
pub mod Evict
pub mod Consistent
pub mod Kept
pub mod Vacuum
pub mod Fetch
pub mod Through
pub mod Run
pub mod Primary
