-- ===== src/Ui/App/Landing.antt =====
-- Where the cursor lands when a handler puts it on a card.
use tukan.Prelude.{
  ℕ, suc, ◌+◌, ◌≡◌, refl, ap, ap₂, sym, ◌∙◌, inl, inr, Bool, true, false, Option, none, some, List,
  [], ◌∷◌, map, arith, if◌then◌else◌, Bool-cases, Option-cases, any, get_elem?, Has-keep, Has-map,
  any-Has, Has-any,
}
use tukan.Text.{Text, ◌==◌}
use tukan.Text.Equality.{eq_iff, eq_refl}
use tukan.Dict.{Dict, set, has}
use tukan.Dict.Laws.{get-set}
use tukan.Tmux.{TmuxServer}
use tukan.Board.{Card, BoardConfig, ColumnDef, Cursor, col_in_progress}
use tukan.Board.CardOps.Laws.{IsWellFormed, write, write-IsWellFormed}
use tukan.Board.Derive.{BoardCard, BoardColumn, board_cards}
use tukan.Board.Derive.Columns.{
  is_column, is_column?, wanted, Has-turned, home, is_home, expected_column,
  derive_board-eq-expected,
}
use tukan.Board.Derive.Once.{count, shows, HasDistinctIds, all_windows}
use tukan.Board.Derive.Total.{count-board_cards}
use tukan.Board.Navigation.{card_at}
use tukan.Ui.App.Handlers.{FormValues, build_card_from_values, handle_create, finish_start}
use tukan.Ui.App.{
  AppState, Env, Place, columns_of, find_row, find_place, find_card_cursor, focus, put_cursor,
  with_card,
}

abbrev pub is_card : Text → BoardCard → Bool
is_card id bc = bc.card_id == id

-- The columns show a card with the id.
abbrev pub holds : Text → List BoardColumn → Bool
holds id columns = any (λ (column : BoardColumn). any (is_card id) column.cards) columns

-- A row `offset + i` of the card.
abbrev RowOf : ℕ → List BoardCard → Text → Option ℕ → Type 0
RowOf offset cards id o =
    (i : ℕ) × (bc : BoardCard) × (o ≡ some (offset + i))
    × (get_elem? cards i ≡ some bc)
    × (bc.card_id ≡ id)

find_row-finds :
    (offset : ℕ) (cards : List BoardCard) (id : Text)
    → any (is_card id) cards ≡ true
    → RowOf offset cards id (find_row offset cards id)
unfolding find_row
find_row-finds offset [] id h = absurd (cc h)
find_row-finds offset (bc ∷ cards) id h = elim (Bool-cases (bc.card_id == id)) [
  | inl here ↦ (0, bc, rw here (ap some (omega arith)), refl, (eq_iff bc.card_id id).0 here)
  | inr out ↦
      let (i, found, at, is, named) = find_row-finds (suc offset) cards id (rw out at h) in
      (suc i, found, rw out (at ∙ ap some (omega arith)), is, named)
]

find_row-missing :
    (offset : ℕ) (cards : List BoardCard) (id : Text)
    → any (is_card id) cards ≡ false
    → find_row offset cards id ≡ none
unfolding find_row
find_row-missing offset [] id h = refl
find_row-missing offset (bc ∷ cards) id h = ground (arith, find_row-missing (suc offset) cards id)

abbrev place : ℕ → ℕ → Place
place col row = record { col = col; row = row }

-- A place of the card, `offset` columns to the right.
record PlaceOf (offset : ℕ) (columns : List BoardColumn) (id : Text) (o : Option Place)
    : Type 0 where
  col : ℕ
  row : ℕ
  column : BoardColumn
  bc : BoardCard
  found : o ≡ some (place (offset + col) row)
  at_col : get_elem? columns col ≡ some column
  at_row : get_elem? column.cards row ≡ some bc
  named : bc.card_id ≡ id

find_place-finds :
    (offset : ℕ) (columns : List BoardColumn) (id : Text)
    → holds id columns ≡ true
    → PlaceOf offset columns id (find_place offset columns id)
unfolding find_place
find_place-finds offset [] id h = absurd (cc h)
find_place-finds offset (column ∷ columns) id h =
    elim (Bool-cases (any (is_card id) column.cards)) [
      | inl here ↦
          let (i, bc, at, is, named) = find_row-finds 0 column.cards id here in
          record {
            col = 0;
            row = i;
            column = column;
            bc = bc;
            found = rw (at, find_place) (ap some (ap₂ place (omega arith) (omega arith)));
            at_col = refl;
            at_row = is;
            named = named;
          }
      | inr out ↦
          let rest = find_place-finds (suc offset) columns id (rw out at h) in
          record {
            col = suc rest.col;
            row = rest.row;
            column = rest.column;
            bc = rest.bc;
            found =
                rw (find_row-missing 0 column.cards id out, find_place)
                  (rest.found ∙ ap some (ap (λ c. place c rest.row) (omega arith)));
            at_col = rest.at_col;
            at_row = rest.at_row;
            named = rest.named;
          }
    ]

pub find_card_cursor-finds :
    (columns : List BoardColumn) (id : Text) (cursor : Cursor)
    → holds id columns ≡ true
    → (bc : BoardCard) × (card_at columns (put_cursor (find_card_cursor columns id) cursor)
        ≡ some bc)
      × (bc.card_id ≡ id)
unfolding find_card_cursor
find_card_cursor-finds columns id cursor h =
    let at = find_place-finds 0 columns id h in
    let col_is : 0 + at.col ≡ at.col = omega arith in
    let found : find_place 0 columns id ≡ some (place at.col at.row) =
      at.found ∙ ap (λ c. some (place c at.row)) col_is in
    (at.bc, rw found (rw (at.at_col, card_at) at.at_row), at.named)

-- The home of a card is a column, on a board that has one.
home-is_column :
    (config : BoardConfig) (bc : BoardCard) (first : ColumnDef) (rest : List ColumnDef)
    → config.columns ≡ first ∷ rest
    → (id : Text) × (home config bc ≡ some id) × (is_column config.columns id ≡ true)
home-is_column config bc first rest e =
    elim (Bool-cases (is_column? config.columns (wanted config bc))) [
      | inl known ↦ elim (Option-cases (wanted config bc)) [
        | inl missing ↦ absurd (cc (rw missing at known))
        | inr (id, is) ↦ (id, rw known is, rw is at known)
      ]
      | inr unknown ↦ (first.id, rw unknown (rw e refl), rw e (rw (eq_refl first.id) refl))
    ]

-- A card that is among those of the board is in one of its columns.
holds-expected :
    (config : BoardConfig) (bcs : List BoardCard) (id : Text) (first : ColumnDef)
    (rest : List ColumnDef)
    → config.columns ≡ first ∷ rest
    → any (is_card id) bcs ≡ true
    → holds id (map (expected_column config bcs) config.columns) ≡ true
holds-expected config bcs id first rest e h =
    let (bc, among, named) = Has-any (is_card id) bcs h in
    let (home_id, is_home_id, known) = home-is_column config bc first rest e in
    let (col, in_columns, same) =
      Has-any (λ (c : ColumnDef). c.id == home_id) config.columns known in
    let shown = expected_column config bcs col in
    let at_home : is_home (home config bc) col.id ≡ true =
      rw is_home_id ((eq_iff home_id col.id).1 (sym ((eq_iff col.id home_id).0 same))) in
    any-Has (λ (column : BoardColumn). any (is_card id) column.cards) _ shown
      (Has-map (expected_column config bcs) config.columns col in_columns)
      (any-Has (is_card id) shown.cards bc
        (Has-turned col.id config.columns _ bc
          (Has-keep (λ b. is_home (home config b) col.id) bcs bc among at_home))
        named)

-- The cursor is on a card with the id, in the columns that the state shows.
pub record IsOn (env : Env) (id : Text) (s : AppState) : Type 0 where
  pub bc : BoardCard
  pub under : card_at (columns_of env s) s.cursor ≡ some bc
  pub named : bc.card_id ≡ id

any-count :
    (id : Text) (bcs : List BoardCard) → count (shows id) bcs ≡ 1 → any (is_card id) bcs ≡ true
unfolding count
any-count id [] h = absurd (omega arith)
any-count id (bc ∷ bcs) h = ground (arith, any-count id bcs)

-- A stored card can be put under the cursor.
pub focus-IsOn :
    (env : Env) (id : Text) (s : AppState) (first : ColumnDef) (rest : List ColumnDef)
    → IsWellFormed s.config
    → HasDistinctIds (all_windows s.tmux.sessions)
    → s.config.columns ≡ first ∷ rest
    → has id s.config.cards ≡ true
    → IsOn env id (focus env id s)
unfolding focus columns_of
focus-IsOn env id s first rest ok windows e stored =
    let bcs = board_cards s.tmux s.config env.self_pane_id s.activity env.now in
    let once : count (shows id) bcs ≡ 1 =
      count-board_cards s.config ok s.tmux env.self_pane_id s.activity env.now id windows
      ∙ ap (λ b. if b then 1 else 0) stored in
    let held : holds id (columns_of env s) ≡ true =
      ap (holds id) (derive_board-eq-expected s.tmux s.config env.self_pane_id s.activity env.now)
      ∙ holds-expected s.config bcs id first rest e (any-count id bcs once) in
    let (bc, under, named) = find_card_cursor-finds (columns_of env s) id s.cursor held in
    record { bc = bc; under = under; named = named }

with_card-IsWellFormed :
    (id : Text) (card : Card) (config : BoardConfig)
    → card.id ≡ id
    → IsWellFormed config
    → IsWellFormed (with_card id card config)
with_card-IsWellFormed id card config own ok =
    unfold write in write-IsWellFormed id card config own ok

has-set : (id : Text) (card : Card) (cards : Dict Card) → has id (set id card cards) ≡ true
has-set id card cards = rw (get-set id id card cards) (rw (eq_refl id) refl)

-- After a card is created, and after a start has ended, the cursor stands on that card: on a
-- well-formed board that has a column, where tmux lists no window id twice.
pub create-start-IsOn :
    (env : Env) (values : FormValues) (card : Card) (window_id : Text) (server : TmuxServer)
    (s : AppState) (first : ColumnDef) (rest : List ColumnDef)
    → IsWellFormed s.config
    → HasDistinctIds (all_windows s.tmux.sessions)
    → HasDistinctIds (all_windows server.sessions)
    → s.config.columns ≡ first ∷ rest
    → IsOn env env.uuid (handle_create env values s).0
      × IsOn env card.id (finish_start env card window_id server s).0
unfolding handle_create finish_start columns_of
create-start-IsOn env values card window_id server s first rest ok windows new_windows e =
    let made = build_card_from_values env values s in
    let started : Card = record card {
      window_id = some window_id;
      started_at = some env.now;
      column_id = col_in_progress;
      closed_at = none;
    } in
    let on =
      focus-IsOn env made.id (record s { config = with_card made.id made s.config }) first rest
        (with_card-IsWellFormed made.id made s.config refl ok) windows e
        (has-set made.id made s.config.cards) in
    let on' =
      focus-IsOn env card.id
        (record s { config = with_card card.id started s.config; tmux = server }) first rest
        (with_card-IsWellFormed card.id started s.config refl ok) new_windows e
        (has-set card.id started s.config.cards) in
    (
      record { bc = on.bc; under = on.under; named = on.named },
      record { bc = on'.bc; under = on'.under; named = on'.named },
    )
