-- ===== src/Failures.antt =====
-- core/failures.py and providers/failure_policy.py: what a provider's failure means, and whether it may
-- be tried again.
pub mod Errors
pub mod Status
pub mod Classify
pub mod Laws
mod Tests
