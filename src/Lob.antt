-- ===== src/Lob.antt =====
-- crates/lob: order book reconstruction.
pub mod Level
pub mod OrderedMap
pub mod Book
pub mod Run
pub mod BTree
pub mod Ladder
pub mod Sync
pub mod Resync
pub mod BookSet
mod Tests
