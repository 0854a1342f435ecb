-- ===== src/Tree/Runtime.antt =====
-- messaging/trees/runtime.py: class MessageTree, one method a function. Each method runs under the
-- tree's lock, so it is one step. `none` is the ValueError of `_ui_target`, for a node without a
-- status message. A fresh claim identifier (uuid4) is an argument. A snapshot is the graph itself.
pub mod State
pub mod Admit
pub mod Cancel
pub mod Report
pub mod Invariant
pub mod Claims
pub mod Oldest
pub mod Stops
pub mod Removal
pub mod Calls
pub mod Hidden
