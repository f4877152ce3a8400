-- ===== src/Cli/Refresh.antt =====
-- src/cli.ts, the command `refresh`: promoting idle cards and demoting active ones.
pub mod Laws
use tukan.Prelude.{ℕ, Bool, true, false, ◌||◌, none, some, List, [], ◌∷◌, if◌then◌else◌}
use tukan.Text.{Text}
use tukan.Dict.{Dict, get, set}
use tukan.Board.{Card, BoardConfig, col_in_progress, col_review}
use tukan.Board.Activity.{get_idle_promotions, get_review_demotions_by_time, idle_promote_ms}

-- `for (const cardId of ids) newCards[cardId] = { ...newCards[cardId], columnId };` for ids of cards
unfoldable pub put_in_column : Text → List Text → Dict Card → Dict Card
put_in_column column_id [] cards = cards
put_in_column column_id (card_id ∷ ids) cards =
    put_in_column column_id ids (elim (get card_id cards) [
      | none ↦ cards
      | some card ↦ set card_id (record card { column_id = column_id }) cards
    ])

abbrev pub is_nonempty : List Text → Bool
is_nonempty [] = false
is_nonempty (x ∷ xs) = true

-- the new configuration of one session
unfoldable pub move_cards : List Text → List Text → BoardConfig → BoardConfig
unfolding put_in_column
move_cards promotions demotions config =
    if is_nonempty promotions || is_nonempty demotions
    then record config {
      cards =
          put_in_column col_in_progress demotions
            (put_in_column col_review promotions config.cards);
    }
    else config

unfoldable pub refresh_session : ℕ → Dict ℕ → BoardConfig → BoardConfig
unfolding move_cards
refresh_session now last_change_times config =
    move_cards (get_idle_promotions config.cards last_change_times now idle_promote_ms)
      (get_review_demotions_by_time config.cards last_change_times now idle_promote_ms) config
