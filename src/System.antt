-- ===== src/System.antt =====
-- The queue as a whole: what every operation on it keeps.
pub mod WellFormed
pub mod Updates
pub mod Operations
pub mod Marks
pub mod Locks
pub mod Submissions
pub mod Run
pub mod Retries
