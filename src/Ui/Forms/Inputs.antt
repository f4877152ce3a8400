-- ===== src/Ui/Forms/Inputs.antt =====
-- src/ui/TextInput.tsx, SelectInput.tsx and QuickShellModal.tsx.
use tukan.Prelude.{
  ℕ, suc, ◌+◌, ◌-◌, ◌%◌, Bool, false, not, ◌&&◌, ◌||◌, Option, none, some, List, [], ◌∷◌, ◌++◌, leb,
  nat_eq, if◌then◌else◌, length, drop, take, get_elem?,
}
use tukan.Text.{Text, ◌==◌, split, trim, is_truthy}
use tukan.Ui.Keys.{Key}

-- `value.slice(0, -1)`
unfoldable pub drop_last : Text → Text
drop_last [] = []
drop_last (c ∷ []) = []
drop_last (c ∷ d ∷ s) = c ∷ drop_last (d ∷ s)

-- `input && input >= " "`: the first unit is no control character
abbrev pub is_printable : Text → Bool
is_printable [] = false
is_printable (c ∷ s) = leb b' ' c

-- the keys that a text ignores
unfoldable pub is_special : Key → Bool
is_special key =
    key.ctrl || key.meta || key.escape || key.return || key.tab || key.up_arrow || key.down_arrow
    || key.left_arrow || key.right_arrow

-- A key in a text that has the focus.
unfoldable pub press_text : (multiline : Bool) → Key → Text → Text
unfolding drop_last is_special
press_text multiline key value =
    if key.backspace || key.delete
    then drop_last value
    else if multiline && key.return
    then value ++ 10 ∷ []
    else if not (is_special key) && is_printable key.input
    then value ++ key.input
    else value

-- `visibleLines` and `padCount` of a text of several lines; the placeholder is one line
pub record LinesView : Type 0 where
  pub lines : List Text
  pub pad_count : ℕ

unfoldable pub view_lines :
    (max_lines : ℕ) → (focus : Bool) → (value placeholder : Text) → LinesView
view_lines max_lines focus value placeholder =
    let all =
      if not (is_truthy value) && not focus && is_truthy placeholder
      then placeholder ∷ []
      else split 10 value in
    let lines = take max_lines (drop (length all - max_lines) all) in
    record { lines = lines; pad_count = max_lines - length lines }

pub record SelectOption : Type 0 where
  pub label : Text
  pub value : Text

-- `options.findIndex((o) => o.value === value)`; none is -1
unfoldable pub find_index : List SelectOption → Text → Option ℕ
find_index [] value = none
find_index (o ∷ options) value =
    if o.value == value
    then some 0
    else elim (find_index options value) [ none ↦ none | some i ↦ some (suc i) ]

-- `(idx - 1 + n) % n`; for -1 it is n - 2, or -0 where there is one option
unfoldable pub prev_index : Option ℕ → ℕ → ℕ
prev_index (some i) n = (i + n - 1) % n
prev_index none n = if nat_eq n 1 then 0 else n - 2

-- `(idx + 1) % n`
unfoldable pub next_index : Option ℕ → ℕ → ℕ
next_index (some i) n = (i + 1) % n
next_index none n = 0

abbrev value_at : List SelectOption → ℕ → Option Text
value_at options i = elim (get_elem? options i) [ none ↦ none | some o ↦ some o.value ]

-- A key in a selection that has the focus; an arrow with no options is a TypeError.
unfoldable pub press_select : Key → List SelectOption → Text → Option Text
unfolding find_index prev_index next_index
press_select key options value =
    if key.left_arrow
    then value_at options (prev_index (find_index options value) (length options))
    else if key.right_arrow
    then value_at options (next_index (find_index options value) (length options))
    else some value

-- What the form of a new shell does.
pub data ShellEvent : Type 0 where
  shell_cancelled shell_idle : ShellEvent
  shell_named : Text → ShellEvent

-- A key in the form of a new shell, whose text has the focus at the same time.
unfoldable pub press_shell : Key → Text → Text × ShellEvent
unfolding press_text
press_shell key name = (
  press_text false key name,
  if key.escape
      then shell_cancelled
      else if key.return && is_truthy (trim name)
      then shell_named (trim name)
      else shell_idle,
)
