-- ===== src/Reuse.antt =====
-- The reuse of a validation's gates by the deploy that follows it (src/mergetrain/reuse.py and
-- src/mergetrain/validation_reuse.py).
pub mod Identity
pub mod Rows
pub mod Decide
