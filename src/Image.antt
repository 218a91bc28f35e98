-- ===== src/Image.antt =====
-- src/db/persistent_tree.cc and src/db/node_cache.cc: after images, the nodes of a transaction as
-- they are written to the log and read from it.
pub mod Proto
pub mod Write
pub mod Read
pub mod Stored
pub mod Infect
pub mod Pointers
pub mod RoundTrip
pub mod Fetch
