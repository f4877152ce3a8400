-- ===== src/Ui/App/Change.antt =====
-- src/ui/App.tsx: what a handler may do to the configuration.
mod Outcomes
pub mod Press
pub mod Forms
pub mod Polls
pub use Outcomes.*
