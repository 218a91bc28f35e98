-- ===== src/Entry.antt =====
-- src/db/entry_service.{h,cc}: the log entries that the database has read, and after images matched with intentions.
pub mod Matcher
pub mod Ledger
pub mod Index
pub mod Changes
pub mod Matching
pub mod Service
pub mod Batch
pub mod Scanner
pub mod Cache
pub mod Steps
pub mod Batches
pub mod Reachable
pub mod Scanning
pub mod Complete
pub mod Batched
