-- ===== src/Gates.antt =====
-- Gates: the commands that a train has to pass (src/mergetrain/config.py, GateConfig, and
-- src/mergetrain/gate_runner.py).
pub mod Names
pub mod Config
pub mod Dependencies
pub mod Plan
pub mod Select
