-- ===== src/Txn.antt =====
-- src/db/intention.h, src/db/transaction_impl.cc and the conflict check of src/db/db_impl.cc:
-- what a transaction records in its intention, and when two intentions conflict.
pub mod Intention
pub mod Transaction
pub mod Conflict
pub mod Keys
pub mod CommittedIndex
pub mod Zone
pub mod Replay
pub mod History
pub mod Made
pub mod Log
pub mod Missed
