-- ===== src/Board/CardOps.antt =====
-- src/board/card-ops.ts: finding cards by a query, and the operations on a board's cards.
pub mod Queries
pub mod Finding
pub mod Laws
pub mod Sequences
unfoldable pub use Queries.*
use tukan.Prelude.{ℕ, Bool, false, Option, none, some, [], if◌then◌else◌, or_else, is_some}
use tukan.Text.{Text, units}
use tukan.Dict.{get, set}
use tukan.Board.{Card, BoardConfig, col_todo, col_in_progress, col_done}

pub record AddCardOpts : Type 0 where
  pub name : Text
  pub description : Option Text
  pub acceptance_criteria : Option Text
  pub dir : Option Text
  pub command : Option Text
  pub custom_command : Option Text
  pub worktree : Option Bool
  pub worktree_path : Option Text
  pub session_name : Text

-- `id` is the result of `randomUUID()`, `cwd` of `process.cwd()` and `now` of `Date.now()`.
unfoldable pub create_card : (id cwd : Text) (now : ℕ) → AddCardOpts → Card
create_card id cwd now opts = record {
  id = id;
  name = opts.name;
  description = or_else opts.description [];
  acceptance_criteria = or_else opts.acceptance_criteria [];
  column_id = col_todo;
  session_name = opts.session_name;
  dir = or_else opts.dir cwd;
  command = or_else opts.command (units "shell");
  custom_command = opts.custom_command;
  worktree = or_else opts.worktree false;
  worktree_path = if or_else opts.worktree false then opts.worktree_path else none;
  window_id = none;
  created_at = now;
  started_at = none;
  closed_at = none;
}

unfoldable pub add_card_to_config : BoardConfig → Card → BoardConfig
add_card_to_config config card = record config { cards = set card.id card config.cards }

unfoldable pub mark_card_started : ℕ → BoardConfig → Text → Text → BoardConfig
mark_card_started now config card_id window_id = elim (get card_id config.cards) [
  | none ↦ config
  | some card ↦ record config {
    cards =
        set card_id
          (record card {
            window_id = some window_id;
            started_at = some now;
            column_id = col_in_progress;
            closed_at = none;
          })
          config.cards;
  }
]

unfoldable pub mark_card_stopped : ℕ → BoardConfig → Text → BoardConfig
mark_card_stopped now config card_id = elim (get card_id config.cards) [
  | none ↦ config
  | some card ↦ record config {
    cards = set card_id (record card { window_id = none; closed_at = some now }) config.cards;
  }
]

unfoldable pub resolve_card_in_config : ℕ → BoardConfig → Text → BoardConfig
resolve_card_in_config now config card_id = elim (get card_id config.cards) [
  | none ↦ config
  | some card ↦ record config {
    cards =
        set card_id (record card { column_id = col_done; window_id = none; closed_at = some now })
          config.cards;
  }
]

pub record EditCardFields : Type 0 where
  pub name : Option Text
  pub description : Option Text
  pub acceptance_criteria : Option Text
  pub dir : Option Text
  pub command : Option Text
  pub custom_command : Option Text
  pub worktree : Option Bool
  pub worktree_path : Option Text

-- the assignments to `updated`
unfoldable pub apply_fields : EditCardFields → Card → Card
apply_fields fields card = record card {
  name = or_else fields.name card.name;
  description = or_else fields.description card.description;
  acceptance_criteria = or_else fields.acceptance_criteria card.acceptance_criteria;
  dir = or_else fields.dir card.dir;
  command = or_else fields.command card.command;
  custom_command = if is_some fields.command then fields.custom_command else card.custom_command;
  worktree = or_else fields.worktree card.worktree;
  worktree_path = elim fields.worktree [
    | none ↦ card.worktree_path
    | some on ↦ if on then fields.worktree_path else none
  ];
}

unfoldable pub edit_card_in_config : BoardConfig → Text → EditCardFields → BoardConfig
unfolding apply_fields
edit_card_in_config config card_id fields = elim (get card_id config.cards) [
  | none ↦ config
  | some card ↦ record config { cards = set card_id (apply_fields fields card) config.cards }
]
