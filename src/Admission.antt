-- ===== src/Admission.antt =====
-- providers/admission.py: admission, concurrency and the shared recovery of one provider.
pub mod State
pub mod Gate
pub mod Attempt
pub mod System
pub mod Phases
pub mod Slots
pub mod Probe
pub mod Exclusive
pub mod Budget
pub mod Exhaustion
pub mod Run
pub mod Play
mod Tests
