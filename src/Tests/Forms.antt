-- ===== src/Tests/Forms.antt =====
-- Keys in the forms.
use tukan.Prelude.{◌≡◌, refl, true, false, none, some, [], arith}
use tukan.Text.{units, ◌==◌}
use tukan.Board.{default_config}
use tukan.Tests.Data.{parser_card}
use tukan.Ui.Keys.{Key, typed}
use tukan.Ui.Forms.Inputs.{press_select}
use tukan.Ui.Forms.NewCard.{
  FormProps, FormState, creating, form_idle, field_count, press_form, open_form,
}
use tukan.Ui.Forms.NewCard.Pressing.{press_all}
use tukan.Ui.Forms.NewCard.Focus.{HandsOver, IsFocused, is_editor_key, press_all-IsFocused}
use tukan.Ui.Forms.Settings
use tukan.Ui.Forms.Settings.{SettingsState, current_field}
use tukan.Ui.Forms.Settings.Focus
use tukan.Ui.Forms.Settings.Focus.{IsField, press_settings-IsField}

abbrev props : FormProps
props = record {
  mode = creating;
  window_id = none;
  commands = default_config.commands;
  default_dir = units "/src";
  can_start = true;
  editor = λ text. some text;
}

-- A card whose command is not among those of the board gets the first of them.
opens_with_first :
    (open_form props (some (record parser_card { command = units "custom" }))).values.command
    ≡ units "shell"
unfolding open_form ◌==◌
opens_with_first = refl

-- The choice of a worktree has the focus.
abbrev choosing : FormState
choosing = record {
  values = record {
    name = units "Lexer";
    description = [];
    acceptance_criteria = [];
    dir = [];
    command = units "shell";
    worktree = true;
    worktree_path = [];
  };
  focus_idx = 4;
}

abbrev right_key : Key
right_key = record (typed []) { right_arrow = true }

-- The choice is now "No", and there is one field less.
abbrev chosen : FormState
chosen = record choosing { values = record choosing.values { worktree = false } }

chooses : press_all props right_key choosing ≡ some (chosen, form_idle)
unfolding press_all press_form press_select ◌==◌
chooses = refl

is_plain : is_editor_key right_key ≡ false
unfolding ◌==◌
is_plain = refl

is_focused : IsFocused props choosing
unfolding field_count
is_focused = omega arith

press_all-IsFocused_example : IsFocused props chosen × HandsOver props choosing.values form_idle
press_all-IsFocused_example =
    press_all-IsFocused props right_key choosing chosen form_idle is_plain is_focused chooses

-- The focus was on the last field before the commands were deleted.
abbrev deleted : SettingsState
deleted = record { columns = default_config.columns; commands = []; focus_idx = 9 }

abbrev enter_key : Key
enter_key = record (typed []) { return = true }

press_settings-IsField_example :
    IsField deleted deleted.focus_idx (current_field deleted)
    × Settings.Focus.HandsOver deleted (Settings.press_all (units "eeee-6") enter_key deleted).1
press_settings-IsField_example = press_settings-IsField (units "eeee-6") enter_key deleted
