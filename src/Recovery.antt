-- ===== src/Recovery.antt =====
-- providers/stream_recovery.py: the events that a provider holds back until a stream is committed, and
-- what becomes of a stream that fails.
pub mod Holdback
pub mod Controller
pub mod Delivery
pub mod Invisible
pub mod Order
mod Tests
