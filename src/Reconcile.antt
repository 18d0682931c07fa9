-- ===== src/Reconcile.antt =====
-- Recovery of an interrupted push from what the remote says (src/mergetrain/recovery.py).
pub mod Git
pub mod Verdict
pub mod Apply
pub mod Groups
pub mod Run
pub mod Unlock
