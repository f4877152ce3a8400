-- ===== src/Board/Reconcile.antt =====
-- src/board/derive.ts, `reconcileConfig`: what the live windows change in a configuration.
pub mod Laws
use tukan.Prelude.{ℕ, Bool, true, false, ◌&&◌, none, some, List, [], ◌∷◌, if◌then◌else◌, or_else}
use tukan.Text.{Text, units, starts_with, truthy?, is_truthy}
use tukan.Dict.{Dict, get, set}
use tukan.Tmux.{TmuxServer, TmuxSession, TmuxWindow}
use tukan.Board.{Card, BoardConfig, is_set}

-- the loops that fill `windowNames`
pub names_of_windows : Dict Text → List TmuxWindow → Dict Text
names_of_windows names [] = names
names_of_windows names (win ∷ windows) = names_of_windows (set win.id win.name names) windows

pub names_of_sessions : Dict Text → List TmuxSession → Dict Text
unfolding names_of_windows
names_of_sessions names [] = names
names_of_sessions names (session ∷ sessions) =
    names_of_sessions (names_of_windows names session.windows) sessions

unfoldable pub window_names : TmuxServer → Dict Text
unfolding names_of_sessions
window_names server = names_of_sessions [] server.sessions

-- the variables `cards` and `changed`
pub record Pass : Type 0 where
  pub cards : Dict Card
  pub changed : Bool

-- Window gone: mark as closed.
abbrev pub close_gone : ℕ → Text → Card → Pass → Pass
close_gone now card_id card pass = if is_set card.closed_at then pass else record {
  cards = set card_id (record card { closed_at = some now }) pass.cards;
  changed = true;
}

-- Window reappeared: clear closedAt.
abbrev pub reopen : Text → Card → Pass → Pass
reopen card_id card pass =
    if is_set card.closed_at
    then record {
      cards = set card_id (record card { closed_at = none }) pass.cards;
      changed = true;
    }
    else pass

-- Update the name from tmux if the card still has a window id for a placeholder.
abbrev pub rename : Text → Card → Text → Pass → Pass
rename card_id card win_name pass =
    if starts_with card.name (units "@") && is_truthy win_name
    then record {
      cards =
          set card_id (record (or_else (get card_id pass.cards) card) { name = win_name })
            pass.cards;
      changed = true;
    }
    else pass

unfoldable pub reconcile_entry : ℕ → Dict Text → Text → Card → Pass → Pass
reconcile_entry now names card_id card pass = elim (truthy? card.window_id) [
  | none ↦ pass
  | some window_id ↦ elim (get window_id names) [
    | none ↦ close_gone now card_id card pass
    | some win_name ↦ rename card_id card win_name (reopen card_id card pass)
  ]
]

unfoldable pub reconcile_entries : ℕ → Dict Text → Pass → Dict Card → Pass
unfolding reconcile_entry
reconcile_entries now names pass [] = pass
reconcile_entries now names pass ((card_id, card) ∷ entries) =
    reconcile_entries now names (reconcile_entry now names card_id card pass) entries

unfoldable pub reconcile_config : ℕ → BoardConfig → TmuxServer → BoardConfig
unfolding reconcile_entries window_names
reconcile_config now config server =
    let start : Pass = record { cards = config.cards; changed = false } in
    let end_pass = reconcile_entries now (window_names server) start config.cards in
    if end_pass.changed then record config { cards = end_pass.cards } else config
