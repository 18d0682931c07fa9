-- ===== src/Examples.antt =====
-- The theorems at concrete queues.
mod Lease
mod Jobs
mod Recovery
mod Reconcile
mod Quoting
mod Paths
mod Unlock
mod Gates
mod Reuse
mod Daemon
