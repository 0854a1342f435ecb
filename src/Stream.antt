-- ===== src/Stream.antt =====
-- core/anthropic/streaming and core/anthropic/stream_contracts.py: the Anthropic stream that every
-- provider's answer becomes, and the contract that a client relies on.
pub mod Text
pub mod Slices
pub mod Event
pub mod Blocks
pub mod Ledger
pub mod Turn
pub mod Queries
pub mod Client
pub mod Contract
pub mod Followed
mod Tests
