-- ===== src/Ui/Forms.antt =====
-- src/ui/NewCardModal.tsx, SettingsModal.tsx, QuickShellModal.tsx, TextInput.tsx and SelectInput.tsx:
-- what the forms make of keys.
pub mod Inputs
pub mod NewCard
pub mod Settings
