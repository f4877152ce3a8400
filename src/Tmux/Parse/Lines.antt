-- ===== src/Tmux/Parse/Lines.antt =====
-- The output of the list commands of tmux, a line for each row with its fields between tabs, and its
-- parsing.
use tukan.Prelude.{ℕ, ◌≡◌, refl, ◌≢◌, true, Option, List, [], ◌∷◌, ◌++◌, map, arith, All}
use tukan.Text.{Text, trim, split, join, is_truthy}
use tukan.Text.Split.{
  is_space-newline, IsFree, split-join, StartsPlain, EndsPlain, trim_space, StartsPlain-append,
  EndsPlain-append,
}
use tukan.Tmux.Parse.{
  tab, newline, map?, parse_lines, session_of, parse_sessions, window_of, parse_windows, pane_of,
  parse_panes,
}

-- The output for some lines: each line with a newline behind it.
abbrev pub print_lines : List Text → Text
print_lines [] = []
print_lines (l ∷ ls) = join (newline ∷ []) (l ∷ ls) ++ newline ∷ []

abbrev pub print_row : List Text → Text
print_row fields = join (tab ∷ []) fields

-- A row has a field; no field holds a tab; its line holds no newline, and begins and ends with a
-- character that is no space.
pub record IsRow (fields : List Text) : Type 0 where
  pub nonempty : fields ≢ []
  pub no_tab : All (IsFree tab) fields
  pub no_newline : IsFree newline (print_row fields)
  pub starts_plain : StartsPlain (print_row fields)
  pub ends_plain : EndsPlain (print_row fields)

split-print_row : (fields : List Text) → IsRow fields → split tab (print_row fields) ≡ fields
split-print_row [] r = absurd (r.nonempty refl)
split-print_row (f ∷ fs) r = split-join tab f fs r.no_tab.0 r.no_tab.1

All-print_row :
    (P : Text → Type 0) (rows : List (List Text))
    → ((r : List Text) → IsRow r → P (print_row r))
    → All IsRow rows
    → All P (map print_row rows)
All-print_row P [] f h = tt
All-print_row P (r ∷ rows) f (h, hs) = (f r h, All-print_row P rows f hs)

StartsPlain-join :
    (l : Text) (ls : List Text) → StartsPlain l → StartsPlain (join (newline ∷ []) (l ∷ ls))
unfolding join
StartsPlain-join l [] h = h
StartsPlain-join l (m ∷ ls) h = StartsPlain-append l _ h

EndsPlain-join :
    (l : Text) (ls : List Text)
    → EndsPlain l
    → All EndsPlain ls
    → EndsPlain (join (newline ∷ []) (l ∷ ls))
unfolding join
EndsPlain-join l [] h _ = h
EndsPlain-join l (m ∷ ls) h (k, ks) =
    EndsPlain-append l _
      (EndsPlain-append (newline ∷ []) (join (newline ∷ []) (m ∷ ls)) (EndsPlain-join m ls k ks))

truthy_of_StartsPlain : (s : Text) → StartsPlain s → is_truthy s ≡ true
truthy_of_StartsPlain [] h = absurd h
truthy_of_StartsPlain (c ∷ s) h = refl

module _ {A : Type 0} (f : List Text → Option A) where
  map?-print_row :
      (rows : List (List Text))
      → All IsRow rows
      → map? (λ line. f (split tab line)) (map print_row rows) ≡ map? f rows
  unfolding map?
  map?-print_row [] h = refl
  map?-print_row (r ∷ rows) (h, hs) = ground (arith, split-print_row r h, map?-print_row rows hs)

  parse_rows :
      (rows : List (List Text))
      → All IsRow rows
      → parse_lines (λ line. f (split tab line)) (print_lines (map print_row rows)) ≡ map? f rows
  unfolding parse_lines map? trim
  parse_rows [] h = refl
  parse_rows (r ∷ rows) (h, hs) =
      let lines = map print_row rows in
      let text = join (newline ∷ []) (print_row r ∷ lines) in
      let starts : StartsPlain text = StartsPlain-join (print_row r) lines h.starts_plain in
      let ends : EndsPlain text =
        EndsPlain-join (print_row r) lines h.ends_plain
          (All-print_row EndsPlain rows (λ x hx. hx.ends_plain) hs) in
      let trimmed : trim (text ++ newline ∷ []) ≡ text =
        trim_space text newline starts ends is_space-newline in
      rw
        (
          trimmed,
          truthy_of_StartsPlain text starts,
          split-join newline (print_row r) lines h.no_newline
              (All-print_row (IsFree newline) rows (λ x hx. hx.no_newline) hs),
        )
        (map?-print_row (r ∷ rows) (h, hs))

-- Parsing the output that lists some rows gives the record of each row, in order, for sessions,
-- windows and panes; no rows give an empty output and no records.
pub parse_listing :
    (number : Text → Option ℕ) (rows : List (List Text))
    → All IsRow rows
    → (parse_sessions (print_lines (map print_row rows)) ≡ map? session_of rows)
      × (parse_windows number (print_lines (map print_row rows)) ≡ map? (window_of number) rows)
      × (parse_panes number (print_lines (map print_row rows)) ≡ map? (pane_of number) rows)
unfolding parse_sessions parse_windows parse_panes
parse_listing number rows h = (
  parse_rows session_of rows h,
  parse_rows (window_of number) rows h,
  parse_rows (pane_of number) rows h,
)
