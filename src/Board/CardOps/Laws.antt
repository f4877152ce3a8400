-- ===== src/Board/CardOps/Laws.antt =====
-- The operations on single cards, as writes to the board.
use mathlib.Core.Option
use tukan.Prelude.{
  ℕ, ◌≡◌, refl, ap, ◌∙◌, ◌≢◌, inl, inr, none, some, arith, if◌then◌else◌, Option-cases, All,
}
use tukan.Text.{Text, ◌==◌}
use tukan.Text.Equality.{eq_iff}
use tukan.Dict.{get, set, keys, IsDistinct}
use tukan.Dict.Laws.{get-set, set-IsDistinct, keys-set, set-set_self, set_comm, All-set, All-get}
use tukan.Board.{Card, BoardConfig, col_done, col_in_progress}
use tukan.Board.CardOps.{
  EditCardFields, add_card_to_config, mark_card_started, mark_card_stopped, resolve_card_in_config,
  apply_fields, edit_card_in_config,
}

-- A card stands in its board under its own id, and no id stands twice.
pub record IsWellFormed (config : BoardConfig) : Type 0 where
  pub distinct : IsDistinct config.cards
  pub own_ids : All (λ e. e.1.id ≡ e.0) config.cards

-- The operations that write a card that is there, with the time at which they run.
pub data Update : Type 0 where
  start : Text → Update
  stop finish : Update
  edit : EditCardFields → Update

unfoldable pub update : ℕ → Text → Update → BoardConfig → BoardConfig
update now id (start window_id) config = mark_card_started now config id window_id
update now id stop config = mark_card_stopped now config id
update now id finish config = resolve_card_in_config now config id
update now id (edit fields) config = edit_card_in_config config id fields

-- what an update makes of its card
unfoldable pub changed : ℕ → Update → Card → Card
changed now (start window_id) card = record card {
  window_id = some window_id;
  started_at = some now;
  column_id = col_in_progress;
  closed_at = none;
}
changed now stop card = record card { window_id = none; closed_at = some now }
changed now finish card = record card {
  column_id = col_done;
  window_id = none;
  closed_at = some now;
}
changed now (edit fields) card = apply_fields fields card

unfoldable pub write : Text → Card → BoardConfig → BoardConfig
write id card config = record config { cards = set id card config.cards }

pub update_missing :
    (now : ℕ) (id : Text) (u : Update) (config : BoardConfig)
    → get id config.cards ≡ none
    → update now id u config ≡ config
unfolding update mark_card_started mark_card_stopped resolve_card_in_config edit_card_in_config
update_missing now id (start window_id) config h = ground arith
update_missing now id stop config h = ground arith
update_missing now id finish config h = ground arith
update_missing now id (edit fields) config h = ground arith

pub update_stored :
    (now : ℕ) (id : Text) (u : Update) (config : BoardConfig) (card : Card)
    → get id config.cards ≡ some card
    → update now id u config ≡ write id (changed now u card) config
unfolding update changed write mark_card_started mark_card_stopped resolve_card_in_config
    edit_card_in_config
update_stored now id (start window_id) config card h = ground arith
update_stored now id stop config card h = ground arith
update_stored now id finish config card h = ground arith
update_stored now id (edit fields) config card h = ground arith

id-changed : (now : ℕ) (u : Update) (card : Card) → (changed now u card).id ≡ card.id
unfolding changed apply_fields
id-changed now (start window_id) card = refl
id-changed now _ card = refl

pub write-IsWellFormed :
    (id : Text) (card : Card) (config : BoardConfig)
    → card.id ≡ id
    → IsWellFormed config
    → IsWellFormed (write id card config)
unfolding write
write-IsWellFormed id card config e h = record {
  distinct = set-IsDistinct id card config.cards h.distinct;
  own_ids = All-set (λ (e : Text × Card). e.1.id ≡ e.0) id card config.cards e h.own_ids;
}

-- Starting, stopping, resolving or editing a card, whether or not it is there, leaves a board well
-- formed.
pub update-IsWellFormed :
    (now : ℕ) (id : Text) (u : Update) (config : BoardConfig)
    → IsWellFormed config
    → IsWellFormed (update now id u config)
update-IsWellFormed now id u config h = elim (Option-cases (get id config.cards)) [
  | inl missing ↦ rw (update_missing now id u config missing) h
  | inr (card, stored) ↦
      let own = All-get (λ (e : Text × Card). e.1.id ≡ e.0) id card config.cards h.own_ids stored in
      rw (update_stored now id u config card stored)
        (write-IsWellFormed id (changed now u card) config (id-changed now u card ∙ own) h)
]

-- Adding a card, new or not, leaves a board well formed.
pub add_card_to_config-IsWellFormed :
    (card : Card) (config : BoardConfig)
    → IsWellFormed config
    → IsWellFormed (add_card_to_config config card)
unfolding add_card_to_config
add_card_to_config-IsWellFormed card config h =
    unfold write in write-IsWellFormed card.id card config refl h

-- How two configurations differ in one card: under its id stands what `f` makes of it, every other
-- lookup is as before, and so are the ids with their order, the columns, the commands and the idle
-- timeout.
pub record Touches (id : Text) (f : Card → Card) (before after : BoardConfig) : Type 0 where
  pub cards :
      (j : Text)
      → get j after.cards
        ≡ (if id == j then Option.map f (get j before.cards) else get j before.cards)
  pub ids : keys after.cards ≡ keys before.cards
  pub columns : after.columns ≡ before.columns
  pub commands : after.commands ≡ before.commands
  pub idle_timeout_ms : after.idle_timeout_ms ≡ before.idle_timeout_ms

-- Starting, stopping, resolving or editing a card reads and writes that card only: if it is there,
-- what the operation makes of it stands in its place, and nothing else of the board changes.
pub update-Touches :
    (now : ℕ) (id : Text) (u : Update) (config : BoardConfig)
    → Touches id (changed now u) config (update now id u config)
update-Touches now id u config = elim (Option-cases (get id config.cards)) [
  | inl missing ↦ rw (update_missing now id u config missing) (record {
    cards = λ j. ground (arith, eq_iff id j);
    ids = refl;
    columns = refl;
    commands = refl;
    idle_timeout_ms = refl;
  })
  | inr (card, stored) ↦ rw (update_stored now id u config card stored) (
      unfold write in
      record {
        cards = λ j. ground (arith, eq_iff id j, get-set id j (changed now u card) config.cards);
        ids = keys-set id (changed now u card) card config.cards stored;
        columns = refl;
        commands = refl;
        idle_timeout_ms = refl;
      })
]

pub get-write :
    (id j : Text) (card : Card) (config : BoardConfig)
    → get j (write id card config).cards ≡ (if id == j then some card else get j config.cards)
unfolding write
get-write id j card config = get-set id j card config.cards

pub get-update_ne :
    (now : ℕ) (id j : Text) (u : Update) (config : BoardConfig)
    → id ≢ j
    → get j (update now id u config).cards ≡ get j config.cards
get-update_ne now id j u config ne =
    ground (arith, (update-Touches now id u config).cards j, eq_iff id j)

pub write-write_self :
    (id : Text) (card other : Card) (config : BoardConfig)
    → write id card (write id other config) ≡ write id card config
unfolding write
write-write_self id card other config =
    ap (λ d. record config { cards = d }) (set-set_self id card other config.cards)

pub write-write_comm :
    (id j : Text) (card other card' other' : Card) (config : BoardConfig)
    → id ≢ j
    → get id config.cards ≡ some card'
    → get j config.cards ≡ some other'
    → write id card (write j other config) ≡ write j other (write id card config)
unfolding write
write-write_comm id j card other card' other' config ne here there =
    ap (λ d. record config { cards = d })
      (set_comm id j card other card' other' config.cards ne here there)
