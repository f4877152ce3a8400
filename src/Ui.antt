-- ===== src/Ui.antt =====
-- src/ui: what the interface computes.
pub mod App
pub mod Forms
pub mod Keys
pub mod Poll
pub mod View
