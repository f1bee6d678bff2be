-- ===== src/Replay.antt =====
-- crates/replay: reading captured segments back in one order.
pub mod Source
mod Tests
