-- ===== src/Board/Navigation/Moving.antt =====
-- What moving a card does to the board's configuration.
use tukan.Prelude.{
  ℕ, ◌≡◌, refl, subst, ◌⊎◌, inl, inr, true, false, Option, none, some, [], List, arith,
  if◌then◌else◌, Bool-cases, Option-cases, or_else, length,
}
use tukan.Text.{Text, units, ◌==◌}
use tukan.Dict.{get, set}
use tukan.Dict.Laws.{All-get}
use tukan.Board.{Card, BoardConfig, Cursor, Direction}
use tukan.Board.CardOps.Laws.{IsWellFormed, Touches, write, write-IsWellFormed}
use tukan.Board.Derive.{BoardCard, BoardColumn}
use tukan.Board.Navigation.{
  MoveResult, card_at, target_col_idx, target_column, card_of_window, move_to, move_card,
}

-- The card under the cursor, and the column on the side of the move.
pub record Move (columns : List BoardColumn) (cursor : Cursor) (direction : Direction)
    : Type 0 where
  pub card : BoardCard
  pub i : ℕ
  pub target : BoardColumn
  pub at_cursor : card_at columns cursor ≡ some card
  pub beside : target_column columns (target_col_idx direction cursor.col) ≡ some (i, target)

abbrev pub to_column : BoardColumn → Card → Card
to_column target card = record card { column_id = target.id }

-- The new card of an uncategorized window: in the target column, with the window's name, session and
-- directory, a shell as its command, and started and closed at no time.
abbrev pub new_card : (id : Text) (now : ℕ) → BoardCard → BoardColumn → Card
new_card id now window target = record {
  id = id;
  name = window.name;
  description = [];
  acceptance_criteria = [];
  column_id = target.id;
  session_name = window.session_name;
  dir = window.working_dir;
  command = units "shell";
  custom_command = none;
  worktree = false;
  worktree_path = none;
  window_id = window.window_id;
  created_at = now;
  started_at = none;
  closed_at = none;
}

-- What a move makes of a configuration: a card of the board has the target column, and everything
-- else is as before; an uncategorized window has a new card in the target column, and every other
-- card is as before.
abbrev pub Moved : ℕ → Option Text → BoardConfig → BoardCard → BoardColumn → BoardConfig → Type 0
Moved now generated config card target after =
    if card.uncategorized
    then ((j : Text)
        → get j after.cards ≡ (
            if or_else generated card.card_id == j
            then some (new_card (or_else generated card.card_id) now card target)
            else get j config.cards))
    else Touches card.card_id (to_column target) config after

-- the result of a move that writes a card
abbrev pub written : BoardConfig → Cursor → ℕ → BoardColumn → Text → Card → MoveResult
written config cursor i target id card = record {
  config = record config { cards = set id card config.cards };
  cursor = record cursor { col = i; row = length target.cards };
}

module _ (now : ℕ) (generated : Option Text) (config : BoardConfig) (cursor : Cursor)
    (card : BoardCard) (i : ℕ) (target : BoardColumn) (r : MoveResult)
    (h : move_to now generated config cursor card i target ≡ some r) where
  -- The move writes a card: a new one for an uncategorized window, with a column for a stored one.
  abbrev pub Outcome : Type 0
  Outcome =
      ((card.uncategorized ≡ true)
        × (written config cursor i target (or_else generated card.card_id)
              (card_of_window (or_else generated card.card_id) now card target)
            ≡ r))
      ⊎ ((existing : Card) × (card.uncategorized ≡ false)
          × (get card.card_id config.cards ≡ some existing)
          × (written config cursor i target card.card_id (to_column target existing) ≡ r))

  pub move_to-cases : Outcome
  unfolding move_to
  move_to-cases = elim (Bool-cases card.uncategorized) [
    | inl window ↦ inl (window, ground arith)
    | inr owned ↦ elim (Option-cases (get card.card_id config.cards)) [
      | inl missing ↦ absurd (ground arith)
      | inr (existing, stored) ↦ inr (existing, owned, stored, ground arith)
    ]
  ]

  move_to-IsWellFormed : IsWellFormed config → IsWellFormed r.config
  unfolding write
  move_to-IsWellFormed ok = elim move_to-cases [
    | inl (window, e) ↦
        subst (λ (m : MoveResult). IsWellFormed m.config) e
          (write-IsWellFormed (or_else generated card.card_id)
            (card_of_window (or_else generated card.card_id) now card target) config refl ok)
    | inr (existing, owned, stored, e) ↦
        subst (λ (m : MoveResult). IsWellFormed m.config) e
          (write-IsWellFormed card.card_id (to_column target existing) config
            (All-get (λ (e : Text × Card). e.1.id ≡ e.0) card.card_id existing config.cards
              ok.own_ids stored)
            ok)
  ]

module _ (now : ℕ) (generated : Option Text) (config : BoardConfig) (columns : List BoardColumn)
    (cursor : Cursor) (direction : Direction) (r : MoveResult) where
  pub move_card-Move :
      move_card now generated config columns cursor direction ≡ some r
      → (m : Move columns cursor direction) × (move_to now generated config cursor m.card m.i
            m.target
          ≡ some r)
  unfolding move_card
  move_card-Move h = elim (Option-cases (card_at columns cursor)) [
    | inl nothing ↦ absurd (ground arith)
    | inr (card, here) ↦
        elim (Option-cases (target_column columns (target_col_idx direction cursor.col))) [
          | inl nothing ↦ absurd (ground arith)
          | inr ((i, target), there) ↦ (
            record { card = card; i = i; target = target; at_cursor = here; beside = there },
            ground arith,
          )
        ]
  ]

  -- A move keeps a board well formed, also where it makes a card.
  pub move_card-IsWellFormed :
      move_card now generated config columns cursor direction ≡ some r
      → IsWellFormed config
      → IsWellFormed r.config
  move_card-IsWellFormed h ok =
      let (m, e) = move_card-Move h in
      move_to-IsWellFormed now generated config cursor m.card m.i m.target r e ok
