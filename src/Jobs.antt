-- ===== src/Jobs.antt =====
-- src/mergetrain/persistence/jobs.py: the operations on jobs.
pub mod Reads
pub mod Trains
pub mod Enqueue
pub mod Retry
pub mod Supersede
pub mod Mark
pub mod Cancel
pub mod Verify
