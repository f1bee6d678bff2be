-- ===== src/Bus.antt =====
-- crates/bus: the broadcast ring.
pub mod Ring
mod Tests
