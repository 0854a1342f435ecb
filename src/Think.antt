-- ===== src/Think.antt =====
-- core/anthropic/thinking.py: the parser that splits streamed text at its thinking tags, and whole texts
-- split at once.
pub mod Find
pub mod Parser
pub mod Reference
pub mod Clear
pub mod Rounds
pub mod Streamed
mod Tests
