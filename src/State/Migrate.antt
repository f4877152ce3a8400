-- ===== src/State/Migrate.antt =====
-- src/state/store.ts, `migrateConfig`: boards of older formats.
pub mod Entries
pub mod Current
use tukan.Prelude.{
  ℕ, Bool, false, ◌&&◌, ◌||◌, Option, none, some, List, [], ◌∷◌, ◌++◌, map, leb, if◌then◌else◌, any,
  find, take, or_else, is_some,
}
use tukan.Text.{Text, units, ◌==◌, truthy?, ascii_lower}
use tukan.Dict.{Dict, get, set}
use tukan.Board.{Card, ColumnDef, CommandDef, BoardConfig, col_done, default_commands}

pub record VirtualCard : Type 0 where
  pub id : Text
  pub column_id : Text
  pub name : Text
  pub description : Text
  pub acceptance_criteria : Text
  pub session_name : Text
  pub dir : Text
  pub command : Text
  pub custom_command : Option Text
  pub worktree : Bool
  pub worktree_path : Option Text

pub record CardMeta : Type 0 where
  pub description : Text
  pub acceptance_criteria : Text

-- The JSON of a board: one with a `cards` object and no `assignments`, or an older one.
pub data RawBoard : Type 0 where
  unified :
      (columns : List ColumnDef) (cards : Dict Card) (commands : Option (List CommandDef))
      (idle_timeout_ms : Option ℕ)
      → RawBoard
  split_up :
      (columns : Option (List ColumnDef)) (virtual_cards : Option (List VirtualCard))
      (assignments : Option (Dict Text)) (card_meta : Option (Dict CardMeta))
      → RawBoard

-- what `JSON.parse` reads of a board that `JSON.stringify` wrote
abbrev pub saved : BoardConfig → RawBoard
saved config = unified config.columns config.cards (some config.commands) config.idle_timeout_ms

abbrev pub has_done : List ColumnDef → Bool
has_done columns = any (λ c. c.id == col_done) columns

unfoldable pub ensure_done_column : BoardConfig → BoardConfig
ensure_done_column config = if has_done config.columns then config else record config {
  columns = config.columns ++ record { id = col_done; title = units "Done" } ∷ [];
}

-- The class `[^a-z0-9]` without regard to case, each of its members replaced by a dash.
abbrev pub slug_unit : ℕ → ℕ
slug_unit c =
    if (leb b'a' c && leb c b'z') || (leb b'A' c && leb c b'Z') || (leb b'0' c && leb c b'9')
    then c
    else b'-'

-- (The replaced text is ASCII, and so is what `toLowerCase` does to it.)
unfoldable pub command_slug : Text → Text
command_slug custom_command = units "cmd-" ++ take 16 (ascii_lower (map slug_unit custom_command))

-- the variables `commands` and `cards`
pub record Pass : Type 0 where
  pub commands : List CommandDef
  pub cards : Dict Card

-- `customCommand` of a card whose command is "custom", if it is set
abbrev pub custom_of : Card → Option Text
custom_of card = if card.command == units "custom" then truthy? card.custom_command else none

unfoldable pub use_command : Text → Card → Text → Pass → Pass
unfolding command_slug
use_command card_id card custom pass = elim (find (λ c. c.template == custom) pass.commands) [
  | some existing ↦ record pass {
    cards = set card_id (record card { command = existing.id; custom_command = none }) pass.cards;
  }
  | none ↦
      let id = command_slug custom in
      record {
        commands =
            if is_some (find (λ c. c.id == id) pass.commands)
            then pass.commands
            else pass.commands ++ record { id = id; label = custom; template = custom } ∷ [];
        cards = set card_id (record card { command = id; custom_command = none }) pass.cards;
      }
]

-- one round of the loop over the cards
unfoldable pub convert_entry : Text → Card → Pass → Pass
unfolding use_command
convert_entry card_id card pass = elim (custom_of card) [
  | none ↦ pass
  | some custom ↦ use_command card_id card custom pass
]

unfoldable pub convert_entries : Pass → Dict Card → Pass
unfolding convert_entry
convert_entries pass [] = pass
convert_entries pass ((card_id, card) ∷ entries) =
    convert_entries (convert_entry card_id card pass) entries

abbrev pub or_default : List CommandDef → List CommandDef
or_default [] = default_commands
or_default (c ∷ commands) = c ∷ commands

-- Where nothing changed, the commands and the cards are those of `config`.
unfoldable pub ensure_commands : BoardConfig → BoardConfig
unfolding convert_entries
ensure_commands config =
    let start : Pass = record { commands = or_default config.commands; cards = config.cards } in
    let end_pass = convert_entries start config.cards in
    record config { commands = end_pass.commands; cards = end_pass.cards }

abbrev pub card_of_virtual : ℕ → VirtualCard → Card
card_of_virtual now vc = record {
  id = vc.id;
  name = vc.name;
  description = vc.description;
  acceptance_criteria = vc.acceptance_criteria;
  column_id = vc.column_id;
  session_name = vc.session_name;
  dir = vc.dir;
  command = vc.command;
  custom_command = vc.custom_command;
  worktree = vc.worktree;
  worktree_path = vc.worktree_path;
  window_id = none;
  created_at = now;
  started_at = none;
  closed_at = none;
}

unfoldable pub add_virtual_cards : ℕ → Dict Card → List VirtualCard → Dict Card
add_virtual_cards now cards [] = cards
add_virtual_cards now cards (vc ∷ vcs) =
    add_virtual_cards now (set vc.id (card_of_virtual now vc) cards) vcs

abbrev meta_text : (CardMeta → Text) → Option CardMeta → Text
meta_text field none = []
meta_text field (some m) = field m

abbrev pub card_of_assignment : (now : ℕ) (id window_id column_id : Text) → Option CardMeta → Card
card_of_assignment now id window_id column_id card_meta = record {
  id = id;
  name = window_id;
  description = meta_text (λ m. m.description) card_meta;
  acceptance_criteria = meta_text (λ m. m.acceptance_criteria) card_meta;
  column_id = column_id;
  session_name = [];
  dir = [];
  command = units "shell";
  custom_command = none;
  worktree = false;
  worktree_path = none;
  window_id = some window_id;
  created_at = now;
  started_at = some now;
  closed_at = none;
}

-- `uuid window_id` is the result of `randomUUID()` in the round of the window.
unfoldable pub add_assignments :
    ℕ → (Text → Text) → Dict CardMeta → Dict Card → Dict Text → Dict Card
add_assignments now uuid card_meta cards [] = cards
add_assignments now uuid card_meta cards ((window_id, column_id) ∷ assignments) =
    let id = uuid window_id in
    add_assignments now uuid card_meta
      (set id (card_of_assignment now id window_id column_id (get window_id card_meta)) cards)
      assignments

unfoldable pub migrate_config : ℕ → (Text → Text) → RawBoard → BoardConfig
unfolding ensure_commands ensure_done_column add_virtual_cards add_assignments
migrate_config now uuid (unified columns cards commands idle_timeout_ms) = ensure_commands (
    ensure_done_column (record {
      columns = columns;
      cards = cards;
      commands = or_else commands default_commands;
      idle_timeout_ms = idle_timeout_ms;
    }))
migrate_config now uuid (split_up columns virtual_cards assignments card_meta) =
    let virtual = add_virtual_cards now [] (or_else virtual_cards []) in
    ensure_commands (
      ensure_done_column (record {
        columns = or_else columns [];
        cards = add_assignments now uuid (or_else card_meta []) virtual (or_else assignments []);
        commands = default_commands;
        idle_timeout_ms = none;
      }))
