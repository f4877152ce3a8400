-- ===== src/Board/Navigation/Laws.antt =====
-- Where the arrow keys lead.
use tukan.Prelude.{
  ℕ, zero, suc, ◌+◌, ◌-◌, ◌≤◌, ◌<◌, ◌≡◌, refl, inl, inr, Option, none, some, List, [], ◌∷◌, arith,
  leb, Bool-cases, Option-cases, length,
}
use tukan.Board.{Cursor}
use tukan.Board.Derive.{BoardColumn}
use tukan.Board.Navigation.{cards_in, at_column, move_left, move_right, move_up, move_down}

pub data Arrow : Type 0 where
  left right up down : Arrow

pub press : Arrow → Cursor → List BoardColumn → Option Cursor
press left cursor columns = move_left cursor columns
press right cursor columns = move_right cursor columns
press up cursor columns = some (move_up cursor)
press down cursor columns = move_down cursor columns

abbrev pub Fits : ℕ → Option ℕ → Type 0
Fits row none = ⊥
Fits row (some count) = row ≤ count - 1

-- The cursor is at a column, on one of its cards or, where it has none, on row 0.
abbrev pub IsOnBoard : List BoardColumn → Cursor → Type 0
IsOnBoard columns cursor = Fits cursor.row (cards_in columns cursor.col)

some_of_lt :
    (columns : List BoardColumn) (i : ℕ)
    → i < length columns
    → (count : ℕ) × (cards_in columns i ≡ some count)
unfolding cards_in
some_of_lt [] i h = absurd (omega arith)
some_of_lt (c ∷ columns) zero h = (length c.cards, refl)
some_of_lt (c ∷ columns) (suc i) h = some_of_lt columns i (omega arith)

lt_of_some :
    (columns : List BoardColumn) (i : ℕ) {count : ℕ}
    → cards_in columns i ≡ some count
    → i < length columns
unfolding cards_in
lt_of_some [] i h = cc
lt_of_some (c ∷ columns) zero h = omega arith
lt_of_some (c ∷ columns) (suc i) h = omega (arith, lt_of_some columns i h)

-- What an arrow key makes of the cursor.
abbrev pub Lands : List BoardColumn → Option Cursor → Type 0
Lands columns none = ⊥
Lands columns (some cursor) = IsOnBoard columns cursor

Lands-at_column :
    (columns : List BoardColumn) (cursor : Cursor) (i count : ℕ)
    → cards_in columns i ≡ some count
    → Lands columns
        (elim (cards_in columns i) [ none ↦ none | some n ↦ some (at_column cursor i n) ])
Lands-at_column columns cursor i count e = rw e (rw e (omega arith))

press-on_board :
    (a : Arrow) (cursor : Cursor) (columns : List BoardColumn) (count : ℕ)
    → cards_in columns cursor.col ≡ some count
    → cursor.row ≤ count - 1
    → Lands columns (press a cursor columns)
unfolding press move_left move_right move_up move_down
press-on_board left cursor columns count e h = elim (Bool-cases (leb cursor.col 0)) [
  | inl first ↦ rw first (rw e h)
  | inr more ↦
      let before =
        some_of_lt columns (cursor.col - 1) (omega (arith, lt_of_some columns cursor.col e)) in
      rw more (Lands-at_column columns cursor (cursor.col - 1) before.0 before.1)
]
press-on_board right cursor columns count e h =
    elim (Bool-cases (leb (length columns) (cursor.col + 1))) [
      | inl last ↦ rw last (rw e h)
      | inr more ↦
          let after = some_of_lt columns (cursor.col + 1) (ground arith) in
          rw more (Lands-at_column columns cursor (cursor.col + 1) after.0 after.1)
    ]
press-on_board up cursor columns count e h = ground arith
press-on_board down cursor columns count e h = ground arith

-- From a place on the board every arrow key leads to a place on the board, and none of them throws.
pub press-IsOnBoard :
    (a : Arrow) (columns : List BoardColumn) (cursor : Cursor)
    → IsOnBoard columns cursor
    → Lands columns (press a cursor columns)
press-IsOnBoard a columns cursor h = elim (Option-cases (cards_in columns cursor.col)) [
  | inl nowhere ↦ absurd (rw nowhere at h)
  | inr (count, e) ↦ press-on_board a cursor columns count e (rw e at h)
]
