-- ===== src/Proto.antt =====
-- crates/proto: the vocabulary that the other crates share.
pub mod Event
pub mod Fixed
pub mod Hasher
pub mod RawLog
pub mod KrakenCrc
pub mod Instrument
mod Tests
