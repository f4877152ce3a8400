-- ===== src/Ui/Forms/NewCard/Pressing.antt =====
-- src/ui/NewCardModal.tsx: a key reaches the input that has the focus, and the form.
use tukan.Prelude.{true, false, not, ◌&&◌, Option, none, some, List, [], ◌∷◌, map, if◌then◌else◌}
use tukan.Text.{units, ◌==◌}
use tukan.Board.{CommandDef}
use tukan.Ui.Keys.{Key}
use tukan.Ui.Forms.Inputs.{press_text, press_select, SelectOption}
use tukan.Ui.App.Handlers.{FormValues}
use tukan.Ui.Forms.NewCard.{
  Field, name_field, description_field, criteria_field, dir_field, worktree_field,
  worktree_path_field, command_field, FormProps, FormState, focused, FormEvent, press_form,
}

abbrev worktree_options : List SelectOption
worktree_options =
    record { label = units "No"; value = units "no" }
    ∷ record { label = units "Yes"; value = units "yes" }
    ∷ []

abbrev pub command_option : CommandDef → SelectOption
command_option c = record { label = c.label; value = c.id }

-- The input that has the focus; an arrow in a selection with no options throws.
unfoldable pub press_field : FormProps → Key → Option Field → FormValues → Option FormValues
press_field props key none values = some values
press_field props key (some name_field) values =
    some (record values { name = press_text false key values.name })
press_field props key (some description_field) values =
    some (record values { description = press_text true key values.description })
press_field props key (some criteria_field) values =
    some (record values { acceptance_criteria = press_text true key values.acceptance_criteria })
press_field props key (some dir_field) values =
    some (record values { dir = press_text false key values.dir })
press_field props key (some worktree_path_field) values =
    some (record values { worktree_path = press_text false key values.worktree_path })
press_field props key (some worktree_field) values =
    elim (press_select key worktree_options (if values.worktree then units "yes" else units "no")) [
      | none ↦ none
      | some v ↦ some (record values { worktree = v == units "yes" })
    ]
press_field props key (some command_field) values =
    elim (press_select key (map command_option props.commands) values.command) [
      | none ↦ none
      | some v ↦ some (record values { command = v })
    ]

-- A key reaches the focused input and the form. The one key that changes values in both is none: the
-- inputs ignore Ctrl+G, and the form changes no value at any other.
unfoldable pub press_all : FormProps → Key → FormState → Option (FormState × FormEvent)
unfolding press_field focused
press_all props key s = elim (press_field props key (focused props s) s.values) [
  | none ↦ none
  | some values ↦
      let (after, event) = press_form props key s in
      some (
        if (key.input == units "g" && key.ctrl) && not key.escape
            then after
            else record after { values = values },
        event,
      )
]
