-- ===== src/Stream/Followed.antt =====
-- The ledger keeps to the contract that its events are checked by.
pub mod Blocks
pub mod Start
pub mod Delta
pub mod Stop
pub mod Running
pub mod Accounts
pub mod Opening
pub mod Closing
pub mod Turns
pub mod Tools
pub mod AtOnce
pub mod Texts
pub mod Calls
pub mod Ending
pub mod Contracts
pub mod CutOff
