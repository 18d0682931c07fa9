-- ===== src/Model.antt =====
-- src/mergetrain/models.py: statuses, jobs, the runner lock and events.
mod Statuses
mod Row
mod Records
unfoldable pub use Statuses.*
unfoldable pub use Row.*
pub use Records.*
