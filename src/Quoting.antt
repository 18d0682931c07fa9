-- ===== src/Quoting.antt =====
-- Path placeholders in shell commands (src/mergetrain/shell_quoting.py).
pub mod Render
pub mod Reading
pub mod Scan
pub mod Rounds
