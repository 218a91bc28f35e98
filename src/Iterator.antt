-- ===== src/Iterator.antt =====
-- src/db/iterator_impl.{h,cc}: `RawIteratorImpl`, an iterator over a snapshot.
pub mod Raw
pub mod Stack
pub mod Moves
pub mod Turns
pub mod Scan
pub mod Prefix
