-- ===== src/State.antt =====
-- src/state/types.ts: what is kept of a session, and the files that keep it.
pub mod Migrate
pub mod Store
pub mod Listing
use tukan.Prelude.{ℕ, Option, List}
use tukan.Text.{Text}
use tukan.Dict.{Dict}
use tukan.Board.{BoardConfig}

pub record EphemeralState : Type 0 where
  pub last_change_times : Option (Dict ℕ)
  pub active_windows : Option (List Text)
  pub pane_hashes : Option (Dict Text)

pub record RegistryEntry : Type 0 where
  pub project_dir : Text

abbrev pub Registry : Type 0
Registry = Dict RegistryEntry

-- The runtime fields are those of an `EphemeralState`.
pub record SessionState : Type 0 where
  pub board : BoardConfig
  pub working_dir : Text
  pub ephemeral : EphemeralState
