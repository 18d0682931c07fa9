-- ===== src/Paths.antt =====
-- Paths and path-aware gates (src/mergetrain/path_gates.py).
pub mod Segment
pub mod Gate
pub mod Status
