-- ===== src/Store.antt =====
-- crates/store: the columnar tick store.
pub mod Varint
pub mod Block
pub mod Pit
mod Tests
