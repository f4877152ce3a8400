-- ===== src/Ui/View/Scroll/Columns.antt =====
-- The column of the cursor is shown.
use tukan.Prelude.{
  ℕ, zero, suc, ◌+◌, ◌-◌, ◌≤◌, ◌<◌, ◌≡◌, refl, ap, ◌∙◌, inl, inr, some, List, [], ◌∷◌, arith,
  nat_eq, nat_eq_iff, or_else, Bool-cases, length, take, drop, get_elem?,
}
use tukan.Board.{Cursor}
use tukan.Board.Derive.{BoardColumn}
use tukan.Ui.View.Scroll.{
  visible_count, scroll_offset, slice, view_board, sync_scroll, board_window,
}

get_elem?-take :
    {A : Type 0} (n i : ℕ) (xs : List A) → i < n → get_elem? (take n xs) i ≡ get_elem? xs i
get_elem?-take zero i xs h = absurd (omega arith)
get_elem?-take (suc n) i [] h = refl
get_elem?-take (suc n) zero (x ∷ xs) h = refl
get_elem?-take (suc n) (suc i) (x ∷ xs) h = get_elem?-take n i xs (omega arith)

get_elem?-drop :
    {A : Type 0} (m i : ℕ) (xs : List A) → get_elem? (drop m xs) i ≡ get_elem? xs (m + i)
get_elem?-drop zero i xs = ap (get_elem? xs) (omega arith)
get_elem?-drop (suc m) i [] = refl
get_elem?-drop (suc m) i (x ∷ xs) = get_elem?-drop m i xs ∙ ap (get_elem? (x ∷ xs)) (shifted m i)
  where
    shifted : (m i : ℕ) → suc (m + i) ≡ suc m + i
    shifted m i = omega arith

pub get_elem?-slice :
    {A : Type 0} (from count i : ℕ) (xs : List A)
    → from ≤ i
    → i < from + count
    → get_elem? (slice from count xs) (i - from) ≡ get_elem? xs i
get_elem?-slice from count i xs low high =
    get_elem?-take count (i - from) (drop from xs) (omega arith)
    ∙ get_elem?-drop from (i - from) xs
    ∙ ap (get_elem? xs) (omega arith)

visible_count-pos : (total width : ℕ) → 0 < total → 0 < visible_count total width
unfolding visible_count
visible_count-pos total width h = ground arith

scroll_offset_bounds :
    (total visible : ℕ) (cursor : Cursor)
    → cursor.col < total
    → 0 < visible
    → visible ≤ total
    → (scroll_offset total visible cursor ≤ cursor.col)
      × (cursor.col < scroll_offset total visible cursor + visible)
      × (scroll_offset total visible cursor + visible ≤ total)
unfolding scroll_offset
scroll_offset_bounds total visible cursor h p q = (ground arith, ground arith, ground arith)

visible_count-le : (total width : ℕ) → visible_count total width ≤ total
unfolding visible_count
visible_count-le total width = ground arith

-- The column of the cursor is on the screen, in its place, and the window of columns ends within the
-- board; where the cursor is at a column.
pub view_board_shows :
    (columns : List BoardColumn) (cursor : Cursor) (width : ℕ)
    → cursor.col < length columns
    → let view = view_board columns cursor width in
      (view.offset ≤ cursor.col)
      × (get_elem? view.columns (cursor.col - view.offset) ≡ get_elem? columns cursor.col)
      × (view.offset + visible_count (length columns) width ≤ length columns)
unfolding view_board
view_board_shows columns cursor width h =
    let visible = visible_count (length columns) width in
    let (low, high, fits) =
      scroll_offset_bounds (length columns) visible cursor h
        (visible_count-pos (length columns) width (omega arith))
        (visible_count-le (length columns) width) in
    (low, get_elem?-slice _ visible cursor.col columns low high, fits)

scroll_offset-synced :
    (total visible : ℕ) (cursor : Cursor)
    → cursor.col < total
    → 0 < visible
    → scroll_offset total visible
        (record cursor { col_scroll = some (scroll_offset total visible cursor) })
      ≡ scroll_offset total visible cursor
unfolding scroll_offset
scroll_offset-synced total visible cursor h p = ground arith

-- The effect that writes the scroll position back ends after one round: with the new cursor the same
-- columns are shown, and nothing is written any more.
pub sync_scroll_settles :
    (columns : List BoardColumn) (cursor : Cursor) (width : ℕ)
    → cursor.col < length columns
    → let view = view_board columns cursor width in
      let synced = sync_scroll view cursor in
      (view_board columns synced width ≡ view) × (sync_scroll view synced ≡ synced)
unfolding view_board sync_scroll
sync_scroll_settles columns cursor width h =
    let view = view_board columns cursor width in
    elim (Bool-cases (nat_eq view.offset (or_else cursor.col_scroll 0))) [
      | inl same ↦ rw same (refl, rw same refl)
      | inr moved ↦
          let visible = visible_count (length columns) width in
          let settled : view_board columns (record cursor { col_scroll = some view.offset }) width
              ≡ view =
            ap (board_window columns visible) (
              scroll_offset-synced (length columns) visible cursor h
                (visible_count-pos (length columns) width (omega arith))) in
          rw moved (settled, ground (arith, nat_eq_iff view.offset view.offset))
    ]
