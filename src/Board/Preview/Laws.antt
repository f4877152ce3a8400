-- ===== src/Board/Preview/Laws.antt =====
-- What a preview shows, and which pane of a window it is of.
use tukan.Prelude.{
  ℕ, suc, zero, ◌-◌, ◌<◌, min, ◌≡◌, refl, ap, ◌∙◌, inl, inr, Bool, true, false, Option, none, some,
  List, [], ◌∷◌, ◌++◌, arith, if◌then◌else◌, nat_eq, leb, ◌+◌, map, keep, length, drop, List-cases,
  Bool-cases,
}
use tukan.Text.{Text, truthy?, split, trim_end, is_truthy}
use tukan.Text.Equality.{eq_iff}
use tukan.Dict.{Dict, get}
use tukan.Dict.Laws.{get-set}
use tukan.Board.Activity.Changes.{is_window}
use tukan.Board.Preview.{
  non_blank, last_lines, preview_of, extract_preview_lines, add_preview, previews_from,
  build_preview_map,
}

-- `shown` is the end of the lines, of at most `max_lines` of them.
pub record IsEnd (max_lines : ℕ) (lines shown : List Text) : Type 0 where
  pub front : List Text
  pub whole : lines ≡ front ++ shown
  pub size : length shown ≡ min max_lines (length lines)

drop_split :
    (n : ℕ) (lines : List Text)
    → (front : List Text) × (lines ≡ front ++ drop n lines)
      × (length (drop n lines) ≡ length lines - n)
drop_split zero lines = ([], refl, omega arith)
drop_split (suc n) [] = ([], refl, omega arith)
drop_split (suc n) (l ∷ lines) =
    let (front, whole, size) = drop_split n lines in
    (l ∷ front, ap (λ r. l ∷ r) whole, omega (arith, size))

not_zero : (n : ℕ) → 0 < n → nat_eq n 0 ≡ false
not_zero n h = ground arith

preview_of-IsEnd :
    (lines : List Text) (max_lines : ℕ)
    → 0 < max_lines
    → IsEnd max_lines lines (preview_of lines max_lines)
unfolding preview_of last_lines
preview_of-IsEnd [] max_lines pos = record { front = []; whole = refl; size = omega arith }
preview_of-IsEnd (line ∷ lines) max_lines pos =
    let (front, whole, size) = drop_split (length (line ∷ lines) - max_lines) (line ∷ lines) in
    rw (not_zero max_lines pos)
      (record { front = front; whole = whole; size = omega (arith, size) })

-- A preview of a positive number of lines is the end of the lines of the content that are not blank:
-- that many of them, or all if there are fewer.
pub extract_preview_lines-IsEnd :
    (raw_content : Text) (max_lines : ℕ)
    → 0 < max_lines
    → IsEnd max_lines (non_blank raw_content) (extract_preview_lines raw_content max_lines)
unfolding extract_preview_lines
extract_preview_lines-IsEnd raw_content max_lines pos =
    preview_of-IsEnd (non_blank raw_content) max_lines pos

-- The lines that are not only spaces, without the spaces behind them.
pub lines_with_text : List Text → List Text
lines_with_text [] = []
lines_with_text (line ∷ lines) =
    let rest = lines_with_text lines in elim (trim_end line) [ [] ↦ rest | c ∷ s ↦ (c ∷ s) ∷ rest ]

-- The last `n` of the lines, or all if there are fewer.
pub last_of : ℕ → List Text → List Text
last_of n [] = []
last_of n (line ∷ lines) =
    let rest = last_of n lines in if leb (length lines + 1) n then line ∷ lines else rest

-- What a pane shows: the last lines with text; all of them where 0 are asked for, since
-- `slice(-0)` is `slice(0)`.
abbrev pub shown_lines : ℕ → Text → List Text
shown_lines max_lines content =
    if nat_eq max_lines 0
    then lines_with_text (split 10 content)
    else last_of max_lines (lines_with_text (split 10 content))

non_blank-eq-lines_with_text :
    (lines : List Text) → keep is_truthy (map trim_end lines) ≡ lines_with_text lines
unfolding lines_with_text
non_blank-eq-lines_with_text [] = refl
non_blank-eq-lines_with_text (line ∷ lines) = elim (List-cases (trim_end line)) [
  | inl empty ↦ rw (empty, lines_with_text) (non_blank-eq-lines_with_text lines)
  | inr (c, s, e) ↦
      rw (e, lines_with_text) (ap (λ l. (c ∷ s) ∷ l) (non_blank-eq-lines_with_text lines))
]

drop_nil : (n : ℕ) → drop {A = Text} n [] ≡ []
drop_nil zero = refl
drop_nil (suc n) = refl

drop-eq-last_of : (n : ℕ) (lines : List Text) → drop (length lines - n) lines ≡ last_of n lines
unfolding last_of
drop-eq-last_of n [] = drop_nil (length {A = Text} [] - n)
drop-eq-last_of n (line ∷ lines) = elim (Bool-cases (leb (length lines + 1) n)) [
  | inl all ↦
      let none_dropped : length (line ∷ lines) - n ≡ 0 = ground arith in
      rw all (rw none_dropped refl)
  | inr more ↦
      let one_more : length (line ∷ lines) - n ≡ suc (length lines - n) = ground arith in
      rw more (rw one_more (drop-eq-last_of n lines))
]

extract_preview_lines-eq-shown :
    (content : Text) (max_lines : ℕ)
    → extract_preview_lines content max_lines ≡ shown_lines max_lines content
unfolding extract_preview_lines non_blank preview_of last_lines last_of
extract_preview_lines-eq-shown content max_lines =
    ap (λ lines. preview_of lines max_lines) (non_blank-eq-lines_with_text (split 10 content))
    ∙ shown (lines_with_text (split 10 content))
  where
    shown :
        (lines : List Text)
        → preview_of lines max_lines
          ≡ (if nat_eq max_lines 0 then lines else last_of max_lines lines)
    shown [] = ground arith
    shown (line ∷ lines) = elim (Bool-cases (nat_eq max_lines 0)) [
      | inl zero_lines ↦ rw zero_lines refl
      | inr some_lines ↦ rw some_lines (drop-eq-last_of max_lines (line ∷ lines))
    ]

abbrev unless_empty : List Text → Option (List Text) → Option (List Text)
unless_empty [] later = later
unless_empty (line ∷ lines) later = some (line ∷ lines)

-- The preview of the first pane of the window that has one.
pub first_preview : ℕ → Dict Text → Text → Dict Text → Option (List Text)
first_preview max_lines pane_to_window window_id [] = none
first_preview max_lines pane_to_window window_id ((pane_id, content) ∷ contents) =
    let rest = first_preview max_lines pane_to_window window_id contents in
    if is_window window_id (truthy? (get pane_id pane_to_window))
    then unless_empty (shown_lines max_lines content) rest
    else rest

abbrev or_later : Option (List Text) → Option (List Text) → Option (List Text)
or_later none later = later
or_later (some lines) later = some lines

get-add_preview :
    (max_lines : ℕ) (target : Option Text) (content : Text) (result : Dict (List Text)) (w : Text)
    → get w (add_preview max_lines target content result)
      ≡ or_later (get w result) (
          if is_window w target
          then unless_empty (extract_preview_lines content max_lines) none
          else none)
unfolding add_preview
get-add_preview max_lines none content result w = ground arith
get-add_preview max_lines (some t) content result w =
    elim (List-cases (extract_preview_lines content max_lines)) [
      | inl blank ↦ rw blank (ground (arith, eq_iff t w))
      | inr (line, lines, e) ↦ rw e (ground (arith, eq_iff t w, get-set t w (line ∷ lines) result))
    ]

get-previews_from :
    (max_lines : ℕ) (pane_to_window : Dict Text) (result : Dict (List Text)) (contents : Dict Text)
    (w : Text)
    → get w (previews_from max_lines pane_to_window result contents)
      ≡ or_later (get w result) (first_preview max_lines pane_to_window w contents)
unfolding previews_from first_preview
get-previews_from max_lines pane_to_window result [] w = ground arith
get-previews_from max_lines pane_to_window result ((pane_id, content) ∷ contents) w =
    let target = truthy? (get pane_id pane_to_window) in
    let here = get-add_preview max_lines target content result w in
    let later =
      get-previews_from max_lines pane_to_window (add_preview max_lines target content result)
        contents w in
    later
    ∙ ap (λ o. or_later o (first_preview max_lines pane_to_window w contents)) here
    ∙ joined (get w result) (is_window w target) (extract_preview_lines content max_lines)
        (first_preview max_lines pane_to_window w contents)
    ∙ ap
        (λ lines. or_later (get w result) (
          if is_window w target
          then unless_empty lines (first_preview max_lines pane_to_window w contents)
          else first_preview max_lines pane_to_window w contents))
        (extract_preview_lines-eq-shown content max_lines)
  where
    joined :
        (shown : Option (List Text)) (same : Bool) (lines : List Text) (rest : Option (List Text))
        → or_later (or_later shown (if same then unless_empty lines none else none)) rest
          ≡ or_later shown (if same then unless_empty lines rest else rest)
    joined (some l) same lines rest = refl
    joined none true [] rest = refl
    joined none true (l ∷ ls) rest = refl
    joined none false lines rest = refl

-- The preview of a window is the last lines with text of the first of its panes that has any, in the
-- order of the contents; a window has none if all its panes are blank, and a pane of no known window gives none.
pub get-build_preview_map :
    (pane_contents pane_to_window : Dict Text) (max_lines : ℕ) (w : Text)
    → get w (build_preview_map pane_contents pane_to_window max_lines)
      ≡ first_preview max_lines pane_to_window w pane_contents
unfolding build_preview_map get
get-build_preview_map pane_contents pane_to_window max_lines w =
    get-previews_from max_lines pane_to_window [] pane_contents w
