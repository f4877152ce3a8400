-- ===== src/Ui/View/Scroll/Rows.antt =====
-- The selected card of a column is shown.
use tukan.Prelude.{
  ℕ, zero, suc, ◌+◌, ◌-◌, ◌*◌, ◌≤◌, ◌<◌, ◌≡◌, ap, inl, inr, Bool, true, false, List, [], ◌∷◌, arith,
  ltb, if◌then◌else◌, Bool-cases, length, take, drop, get_elem?,
}
use tukan.Board.Derive.{BoardCard}
use tukan.Ui.View.Scroll.{
  slice, fitting, visible_cards, row_offset, view_column, card_height, column_chrome,
}
use tukan.Ui.View.Scroll.Columns.{get_elem?-slice}

length-take : {A : Type 0} (n : ℕ) (xs : List A) → length (take n xs) ≤ n
length-take zero xs = omega arith
length-take (suc n) [] = omega arith
length-take (suc n) (x ∷ xs) = omega (arith, length-take n xs)

row_bounds :
    (total visible row : ℕ)
    → row < total
    → 0 < visible
    → visible ≤ total
    → (row_offset total visible row ≤ row)
      × (row < row_offset total visible row + visible)
      × (row_offset total visible row + visible ≤ total)
unfolding row_offset
row_bounds total visible row h p q = (ground arith, ground arith, ground arith)

visible_cards_bounds :
    (total height : ℕ)
    → ltb (fitting (height - column_chrome)) total ≡ true
    → (0 < visible_cards total height) × (visible_cards total height ≤ total)
unfolding visible_cards fitting
visible_cards_bounds total height h = (ground arith, ground arith)

-- In the focused column the selected card is on the screen, in its place, and the window of cards ends
-- within the column.
pub view_column_shows :
    (cards : List BoardCard) (row height : ℕ)
    → row < length cards
    → let view = view_column cards true row height in
      (view.offset ≤ row)
      × (get_elem? view.cards (row - view.offset) ≡ get_elem? cards row)
      × (view.offset + length view.cards ≤ length cards)
unfolding view_column
view_column_shows cards row height h =
    elim (Bool-cases (ltb (fitting (height - column_chrome)) (length cards))) [
      | inl scrolls ↦
          let visible = visible_cards (length cards) height in
          let (some_shown, few) = visible_cards_bounds (length cards) height scrolls in
          let (low, high, fits) = row_bounds (length cards) visible row h some_shown few in
          let offset = row_offset (length cards) visible row in
          rw scrolls (
            low,
            get_elem?-slice offset visible row cards low high,
            omega (arith, length-take visible (drop offset cards)),
          )
      | inr whole ↦ rw whole (omega arith, ap (get_elem? cards) (minus_zero row), omega arith)
    ]
  where
    minus_zero : (n : ℕ) → n - 0 ≡ n
    minus_zero n = omega arith

visible_lines :
    (total height : ℕ)
    → 10 ≤ height
    → ltb (fitting (height - column_chrome)) total ≡ true
    → visible_cards total height * card_height + 2 + column_chrome ≤ height
unfolding visible_cards fitting
visible_lines total height h scrolls = ground arith

arrows_fit :
    (shown visible height : ℕ) (above below : Bool)
    → shown ≤ visible
    → visible * card_height + 2 + column_chrome ≤ height
    → shown * card_height + (if above then 1 else 0) + (if below then 1 else 0) + column_chrome
      ≤ height
arrows_fit shown visible height above below few fits = ground arith

all_fit :
    (total height : ℕ)
    → 10 ≤ height
    → ltb (fitting (height - column_chrome)) total ≡ false
    → total * card_height
        + 0
        + (if ltb (visible_cards total height) total then 1 else 0)
        + column_chrome
      ≤ height
unfolding visible_cards fitting
all_fit total height h whole = ground arith

-- The cards of a column with the arrows above and below them fit into its height, focused or not, if
-- it is at least 10 lines high.
pub view_column_fits :
    (cards : List BoardCard) (focused : Bool) (row height : ℕ)
    → 10 ≤ height
    → let view = view_column cards focused row height in
      length view.cards * card_height
        + (if view.has_above then 1 else 0)
        + (if view.has_below then 1 else 0)
        + column_chrome
      ≤ height
unfolding view_column
view_column_fits cards focused row height h =
    elim (Bool-cases (ltb (fitting (height - column_chrome)) (length cards))) [
      | inl scrolls ↦
          let visible = visible_cards (length cards) height in
          let offset = if focused then row_offset (length cards) visible row else 0 in
          rw scrolls (
            arrows_fit (length (slice offset visible cards)) visible height _ _
              (length-take visible (drop offset cards))
              (visible_lines (length cards) height h scrolls))
      | inr whole ↦ rw whole (all_fit (length cards) height h whole)
    ]
