-- ===== src/Tree.antt =====
-- src/db/persistent_tree.{h,cc}: the copy-on-write red-black tree.
pub mod Path
pub mod Insert
pub mod Delete
pub mod State
pub mod Entries
pub mod Lookup
pub mod Balanced
pub mod InsertBalance
pub mod InsertLoop
pub mod InsertPath
pub mod DeleteRotate
pub mod DeleteRound
pub mod DeleteMirror
pub mod DeleteLoop
pub mod DeleteNode
pub mod DeletePath
pub mod Correct
pub mod Reads
pub mod Copies
pub mod Owned
