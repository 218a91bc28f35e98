-- ===== src/Db.antt =====
-- src/db/db_impl.{h,cc}: the database: transactions that wait, finished transactions, and the
-- processing of the log.
pub mod Finder
pub mod Rendezvous
pub mod Restore
pub mod Knows
pub mod Lowered
pub mod Turns
pub mod Restored
pub mod Waiting
pub mod Finished
pub mod Concurrent
pub mod ZoneScan
pub mod ConflictZone
pub mod Processor
pub mod Sealed
pub mod NextRoot
pub mod Processed
pub mod Replicas
pub mod Requests
pub mod Committed
pub mod Collector
pub mod Gathered
pub mod Walk
