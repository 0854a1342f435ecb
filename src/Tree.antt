-- ===== src/Tree.antt =====
-- messaging/trees: one conversation tree, its queue, its graph and its claims.
pub mod Node
pub mod Queue
pub mod Graph
pub mod Runtime
mod Tests
