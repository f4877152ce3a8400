-- ===== src/Cli/Refresh/Laws.antt =====
-- Where every card stands after a refresh.
use mathlib.Core.Option
use tukan.Prelude.{
  ℕ, ◌≡◌, refl, sym, ap, ◌∙◌, inl, inr, false, not, ◌&&◌, none, List, [], ◌∷◌, arith, if◌then◌else◌,
  Option-cases,
}
use tukan.Text.{Text, ◌==◌}
use tukan.Text.Equality.{eq_iff, eq_refl}
use tukan.Dict.{Dict, get, set, IsDistinct}
use tukan.Dict.Laws.{get-set}
use tukan.Dict.{keys}
use tukan.Dict.Laws.{keys-set}
use tukan.Dict.Extension.{
  ext, map_values, get-map_values, keys-map_values, map_values-IsDistinct, or_mapped,
  map_values-map_values,
}
use tukan.Board.{Card, BoardConfig, col_in_progress, col_review}
use tukan.Board.Activity.{
  contains, is_idle, get_idle_promotions, get_review_demotions_by_time, idle_promote_ms,
}
use tukan.Board.Activity.Moves.{is_timed, get_idle_promotions_iff, get_review_demotions_by_time_iff}
use tukan.Cli.Refresh.{put_in_column, move_cards, refresh_session}

abbrev pub in_column : Text → Card → Card
in_column column_id card = record card { column_id = column_id }

pub get-put_in_column :
    (column_id : Text) (ids : List Text) (cards : Dict Card) (j : Text)
    → get j (put_in_column column_id ids cards)
      ≡ (if contains j ids then Option.map (in_column column_id) (get j cards) else get j cards)
unfolding put_in_column
get-put_in_column column_id [] cards j = refl
get-put_in_column column_id (id ∷ ids) cards j = elim (Option-cases (get id cards)) [
  | inl missing ↦ ground (arith, get-put_in_column column_id ids cards j, eq_iff id j)
  | inr (card, there) ↦ ground (
    arith,
    get-put_in_column column_id ids (set id (in_column column_id card) cards) j,
    get-set id j (in_column column_id card) cards,
    eq_iff id j,
  )
]

pub keys-put_in_column :
    (column_id : Text) (ids : List Text) (cards : Dict Card)
    → keys (put_in_column column_id ids cards) ≡ keys cards
unfolding put_in_column
keys-put_in_column column_id [] cards = refl
keys-put_in_column column_id (id ∷ ids) cards = elim (Option-cases (get id cards)) [
  | inl missing ↦ ground (arith, keys-put_in_column column_id ids cards)
  | inr (card, there) ↦ ground (
    arith,
    keys-put_in_column column_id ids (set id (in_column column_id card) cards),
    keys-set id (in_column column_id card) card cards there,
  )
]

-- Where a refresh puts a card: in Review if it is in progress and has been idle for the threshold, in
-- progress if it is in review and has not; a card whose window has no known last change stays.
unfoldable pub advance : ℕ → Dict ℕ → Card → Card
advance now times card =
    if card.column_id == col_in_progress && is_timed (is_idle now idle_promote_ms) times card
    then in_column col_review card
    else if card.column_id == col_review
        && is_timed (λ t. not (is_idle now idle_promote_ms t)) times card
    then in_column col_in_progress card
    else card

columns_differ : (col_in_progress == col_review) ≡ false
unfolding ◌==◌
columns_differ = refl

abbrev pub moved : List Text → List Text → Dict Card → Dict Card
moved promotions demotions cards =
    put_in_column col_in_progress demotions (put_in_column col_review promotions cards)

pub cards-move_cards :
    (promotions demotions : List Text) (config : BoardConfig)
    → move_cards promotions demotions config
      ≡ record config { cards = moved promotions demotions config.cards }
unfolding move_cards
cards-move_cards [] [] config = refl
cards-move_cards [] (d ∷ ds) config = refl
cards-move_cards (p ∷ ps) ds config = refl

module _ (now : ℕ) (times : Dict ℕ) (cards : Dict Card) (d : IsDistinct cards) where
  abbrev promotions : List Text
  promotions = get_idle_promotions cards times now idle_promote_ms

  abbrev demotions : List Text
  demotions = get_review_demotions_by_time cards times now idle_promote_ms

  get-moved :
      (j : Text)
      → get j (moved promotions demotions cards) ≡ or_mapped (advance now times) (get j cards) none
  unfolding advance
  get-moved j =
      let inner = put_in_column col_review promotions cards in
      let outer_law = get-put_in_column col_in_progress demotions inner j in
      let inner_law = get-put_in_column col_review promotions cards j in
      let promoted = get_idle_promotions_iff cards times now idle_promote_ms j d in
      let demoted = get_review_demotions_by_time_iff cards times now idle_promote_ms j d in
      elim (Option-cases (get j cards)) [
        | inl missing ↦ ground (arith, outer_law, inner_law, promoted, demoted)
        | inr (card, there) ↦ ground (
          arith,
          outer_law,
          inner_law,
          promoted,
          demoted,
          eq_iff card.column_id col_in_progress,
          eq_iff card.column_id col_review,
        )
      ]

  moved-eq-advance : moved promotions demotions cards ≡ map_values (advance now times) cards
  moved-eq-advance = sym (
      ext (map_values (advance now times) cards) (moved promotions demotions cards)
        (keys-map_values (advance now times) cards
          ∙ sym (
              keys-put_in_column col_in_progress demotions
                (put_in_column col_review promotions cards)
              ∙ keys-put_in_column col_review promotions cards))
        (map_values-IsDistinct (advance now times) cards d)
        (λ j. get-map_values (advance now times) cards j ∙ sym (get-moved j)))

-- A refresh of a board with distinct ids moves every idle card in progress to Review and every active
-- card in Review back to In Progress, and changes nothing else of the board.
pub refresh_session-eq-advance :
    (now : ℕ) (times : Dict ℕ) (config : BoardConfig)
    → IsDistinct config.cards
    → refresh_session now times config
      ≡ record config { cards = map_values (advance now times) config.cards }
unfolding refresh_session
refresh_session-eq-advance now times config d =
    cards-move_cards (promotions now times config.cards d) (demotions now times config.cards d)
      config
    ∙ ap (λ c. record config { cards = c }) (moved-eq-advance now times config.cards d)

advance_idempotent :
    (now : ℕ) (times : Dict ℕ) (card : Card)
    → advance now times (advance now times card) ≡ advance now times card
unfolding advance
advance_idempotent now times card = ground (
  arith,
  eq_iff card.column_id col_in_progress,
  eq_iff card.column_id col_review,
  eq_refl col_review,
  eq_refl col_in_progress,
)

-- On a board with distinct ids, a second refresh at the same time and with the same times of change
-- changes nothing: no card is promoted and demoted in turn.
pub refresh_session_idempotent :
    (now : ℕ) (times : Dict ℕ) (config : BoardConfig)
    → IsDistinct config.cards
    → refresh_session now times (refresh_session now times config)
      ≡ refresh_session now times config
refresh_session_idempotent now times config d =
    let once = refresh_session-eq-advance now times config d in
    let f = advance now times in
    let settled : BoardConfig = record config { cards = map_values f config.cards } in
    ap (refresh_session now times) once
    ∙ refresh_session-eq-advance now times settled (map_values-IsDistinct f config.cards d)
    ∙ ap (λ c. record config { cards = c })
        (map_values-map_values f f config.cards (advance_idempotent now times))
    ∙ sym once
