-- ===== src/Board.antt =====
-- src/board/types.ts: cards, columns, commands, the board's configuration and its derived view.
pub mod CardOps
pub mod Columns
pub mod Activity
pub mod Derive
pub mod Reconcile
pub mod Navigation
pub mod Preview
pub mod Template
use tukan.Prelude.{ℕ, Bool, false, not, Option, none, some, List, [], ◌∷◌, nat_eq}
use tukan.Text.{Text, units}
use tukan.Dict.{Dict}

-- the ids of the columns
abbrev pub col_unassigned : Text
col_unassigned = units "0"

abbrev pub col_todo : Text
col_todo = units "1"

abbrev pub col_in_progress : Text
col_in_progress = units "2"

abbrev pub col_review : Text
col_review = units "3"

abbrev pub col_done : Text
col_done = units "4"

pub record CommandDef : Type 0 where
  pub id : Text
  pub label : Text
  pub template : Text

abbrev pub default_commands : List CommandDef
default_commands =
    record { id = units "shell"; label = units "Shell"; template = [] }
    ∷ record { id = units "claude"; label = units "Claude Code"; template = units "claude" }
    ∷ record { id = units "opencode"; label = units "Open Code"; template = units "opencode" }
    ∷ []

-- Times are milliseconds since the epoch.
pub record Card : Type 0 where
  pub id : Text
  pub name : Text
  pub description : Text
  pub acceptance_criteria : Text
  pub column_id : Text
  pub session_name : Text
  pub dir : Text
  pub command : Text
  pub custom_command : Option Text
  pub worktree : Bool
  pub worktree_path : Option Text
  pub window_id : Option Text
  pub created_at : ℕ
  pub started_at : Option ℕ
  pub closed_at : Option ℕ

pub record ColumnDef : Type 0 where
  pub id : Text
  pub title : Text

pub record BoardConfig : Type 0 where
  pub columns : List ColumnDef
  pub cards : Dict Card
  pub commands : List CommandDef
  pub idle_timeout_ms : Option ℕ

pub data Direction : Type 0 where
  left right : Direction

-- `colScroll` is kept by every operation and read by none of them.
pub record Cursor : Type 0 where
  pub col : ℕ
  pub row : ℕ
  pub col_scroll : Option ℕ

abbrev pub default_config : BoardConfig
default_config = record {
  columns =
      record { id = col_unassigned; title = units "Unassigned" }
      ∷ record { id = col_todo; title = units "Todo" }
      ∷ record { id = col_in_progress; title = units "In Progress" }
      ∷ record { id = col_review; title = units "Review" }
      ∷ record { id = col_done; title = units "Done" }
      ∷ [];
  cards = [];
  commands = default_commands;
  idle_timeout_ms = some 3000;
}

-- A time or a count that is `undefined` or 0 is falsy.
abbrev pub is_set : Option ℕ → Bool
is_set none = false
is_set (some n) = not (nat_eq n 0)
