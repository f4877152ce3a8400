-- ===== src/Ui/Forms/Settings.antt =====
-- src/ui/SettingsModal.tsx: the form of the columns' titles and the commands.
pub mod Focus
use tukan.Prelude.{
  ℕ, zero, suc, ◌+◌, ◌-◌, ◌*◌, ◌/◌, ◌%◌, false, ◌&&◌, List, [], ◌∷◌, ◌++◌, ltb, nat_eq, min,
  if◌then◌else◌, keep, length, take,
}
use tukan.Text.{Text, units, ◌==◌, trim, is_truthy}
use tukan.Board.{ColumnDef, CommandDef}
use tukan.Ui.Keys.{Key}
use tukan.Ui.Forms.Inputs.{press_text}

pub record SettingsState : Type 0 where
  pub columns : List ColumnDef
  pub commands : List CommandDef
  pub focus_idx : ℕ

-- `totalFields`
unfoldable pub total_fields : SettingsState → ℕ
total_fields s = length s.columns + length s.commands * 2 + 1

unfoldable pub clamped_focus : SettingsState → ℕ
unfolding total_fields
clamped_focus s = min s.focus_idx (total_fields s - 1)

pub data SettingsField : Type 0 where
  column_title cmd_label cmd_template : ℕ → SettingsField
  add_command : SettingsField

-- `getFieldInfo`
unfoldable pub get_field_info : SettingsState → ℕ → SettingsField
get_field_info s idx =
    let offset = idx - length s.columns in
    if ltb idx (length s.columns)
    then column_title idx
    else if ltb offset (length s.commands * 2)
    then (if nat_eq (offset % 2) 0 then cmd_label (offset / 2) else cmd_template (offset / 2))
    else add_command

abbrev pub current_field : SettingsState → SettingsField
current_field s = get_field_info s (clamped_focus s)

pub data SettingsEvent : Type 0 where
  settings_idle settings_cancelled : SettingsEvent
  settings_submitted : List ColumnDef → List CommandDef → SettingsEvent

-- `addCommand`; `uuid` is the result of `randomUUID()`
unfoldable pub add_new : (uuid : Text) → SettingsState → SettingsState
add_new uuid s = record s {
  commands =
      s.commands ++ record { id = units "cmd-" ++ take 8 uuid; label = []; template = [] } ∷ [];
  focus_idx = length s.columns + length s.commands * 2;
}

-- `xs.filter((_, i) => i !== n)`
unfoldable pub remove_at : {A : Type 0} → ℕ → List A → List A
remove_at n [] = []
remove_at zero (x ∷ xs) = xs
remove_at (suc n) (x ∷ xs) = x ∷ remove_at n xs

-- `xs.map((x, j) => j === n ? f(x) : x)`
unfoldable pub change_at : {A : Type 0} → ℕ → (A → A) → List A → List A
change_at n f [] = []
change_at zero f (x ∷ xs) = f x ∷ xs
change_at (suc n) f (x ∷ xs) = x ∷ change_at n f xs

abbrev delete_at : ℕ → SettingsState → SettingsState
delete_at i s = record s { commands = remove_at i s.commands; focus_idx = s.focus_idx - 2 }

-- `deleteCommand`
unfoldable pub delete_command : SettingsField → SettingsState → SettingsState
unfolding remove_at
delete_command (cmd_label i) s = delete_at i s
delete_command (cmd_template i) s = delete_at i s
delete_command (column_title i) s = s
delete_command add_command s = s

-- `commands.filter((c) => c.label.trim())`
abbrev pub valid_commands : List CommandDef → List CommandDef
valid_commands commands = keep (λ c. is_truthy (trim c.label)) commands

-- The return key.
unfoldable pub press_enter :
    (uuid : Text) → SettingsField → SettingsState → SettingsState × SettingsEvent
unfolding add_new
press_enter uuid add_command s = (add_new uuid s, settings_idle)
press_enter uuid field s = (s, settings_submitted s.columns (valid_commands s.commands))

unfoldable pub move_focus : Key → (total i : ℕ) → ℕ
move_focus key total i =
    if key.tab && key.shift
    then (i + total - 1) % total
    else if key.tab
    then (i + 1) % total
    else if key.down_arrow
    then min (i + 1) (total - 1)
    else if key.up_arrow
    then i - 1
    else i

-- The handler of the form.
unfoldable pub press_settings : (uuid : Text) → Key → SettingsState → SettingsState × SettingsEvent
unfolding press_enter delete_command move_focus total_fields clamped_focus get_field_info
press_settings uuid key s =
    if key.escape
    then (s, settings_cancelled)
    else if key.return
    then press_enter uuid (current_field s) s
    else if key.input == units "d" && key.ctrl
    then (delete_command (current_field s) s, settings_idle)
    else (record s { focus_idx = move_focus key (total_fields s) s.focus_idx }, settings_idle)

-- The text that has the focus; it takes a key before the commands change.
unfoldable pub press_input : Key → SettingsField → SettingsState → SettingsState
unfolding change_at
press_input key (column_title i) s = record s {
  columns =
      change_at i (λ (c : ColumnDef). record c { title = press_text false key c.title }) s.columns;
}
press_input key (cmd_label i) s = record s {
  commands =
      change_at i (λ (c : CommandDef). record c { label = press_text false key c.label })
        s.commands;
}
press_input key (cmd_template i) s = record s {
  commands =
      change_at i (λ (c : CommandDef). record c { template = press_text false key c.template })
        s.commands;
}
press_input key add_command s = s

-- A key reaches the text and the form. What is handed over is the state in front of the key.
unfoldable pub press_all : (uuid : Text) → Key → SettingsState → SettingsState × SettingsEvent
unfolding press_settings press_input clamped_focus get_field_info total_fields
press_all uuid key s = (
  (press_settings uuid key (press_input key (current_field s) s)).0,
  (press_settings uuid key s).1,
)
