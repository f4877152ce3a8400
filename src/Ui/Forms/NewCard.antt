-- ===== src/Ui/Forms/NewCard.antt =====
-- src/ui/NewCardModal.tsx: the form of a card.
pub mod Pressing
pub mod Fields
pub mod Focus
use tukan.Prelude.{
  ℕ, ◌+◌, ◌-◌, ◌%◌, Bool, true, false, not, ◌&&◌, Option, none, some, List, [], ◌∷◌, ◌++◌, min,
  if◌then◌else◌, or_else, is_some, any, length, get_elem?,
}
use tukan.Text.{Text, units, ◌==◌, trim, is_truthy, truthy?}
use tukan.Board.{Card, CommandDef}
use tukan.Board.Template.{TemplateValues, ParsedTemplate, build_card_template, parse_card_template}
use tukan.Ui.Keys.{Key}
use tukan.Ui.App.Handlers.{FormValues}

pub data FormMode : Type 0 where
  creating starting editing : FormMode

pub data Field : Type 0 where
  name_field description_field criteria_field dir_field worktree_field worktree_path_field
        command_field :
      Field

-- the properties of the form; `window_id` is that of the card that is edited, and `content` what the
-- editor makes of a text, none if the file cannot be read
pub record FormProps : Type 0 where
  pub mode : FormMode
  pub window_id : Option Text
  pub commands : List CommandDef
  pub default_dir : Text
  pub can_start : Bool
  pub editor : Text → Option Text

pub record FormState : Type 0 where
  pub values : FormValues
  pub focus_idx : ℕ

abbrev is_editing : FormMode → Bool
is_editing editing = true
is_editing creating = false
is_editing starting = false

-- `metaOnly`
unfoldable pub meta_only : FormProps → Bool
meta_only props = is_editing props.mode && is_some (truthy? props.window_id)

-- `commands[0]?.id ?? "shell"`
abbrev first_command : List CommandDef → Text
first_command [] = units "shell"
first_command (c ∷ commands) = c.id

-- `resolveInitialCommand`
unfoldable pub resolve_initial_command : List CommandDef → Option Text → Text
resolve_initial_command commands initial = elim (truthy? initial) [
  | none ↦ first_command commands
  | some ic ↦
      if ic == units "custom"
      then first_command commands
      else if any (λ (c : CommandDef). c.id == ic) commands
      then ic
      else first_command commands
]

-- the state that the form opens with; `card` is the card that is edited
unfoldable pub open_form : FormProps → Option Card → FormState
unfolding resolve_initial_command
open_form props none = record {
  values = record {
    name = [];
    description = [];
    acceptance_criteria = [];
    dir = props.default_dir;
    command = resolve_initial_command props.commands none;
    worktree = false;
    worktree_path = [];
  };
  focus_idx = 0;
}
open_form props (some card) = record {
  values = record {
    name = card.name;
    description = card.description;
    acceptance_criteria = card.acceptance_criteria;
    dir = card.dir;
    command = resolve_initial_command props.commands (some card.command);
    worktree = card.worktree;
    worktree_path = or_else card.worktree_path [];
  };
  focus_idx = 0;
}

-- `fields`, by their ids
unfoldable pub fields_of : (texts_only worktree : Bool) → List Field
fields_of texts_only worktree =
    if texts_only
    then name_field ∷ description_field ∷ criteria_field ∷ []
    else name_field
      ∷ description_field
      ∷ criteria_field
      ∷ dir_field
      ∷ worktree_field
      ∷ ((if worktree then worktree_path_field ∷ [] else []) ++ command_field ∷ [])

unfoldable pub field_count : FormProps → FormState → ℕ
unfolding fields_of meta_only
field_count props s = length (fields_of (meta_only props) s.values.worktree)

-- `fields[focusIdx]`
unfoldable pub focused : FormProps → FormState → Option Field
unfolding fields_of meta_only
focused props s = get_elem? (fields_of (meta_only props) s.values.worktree) s.focus_idx

abbrev pub is_multiline : Option Field → Bool
is_multiline (some description_field) = true
is_multiline (some criteria_field) = true
is_multiline _ = false

pub data FormEvent : Type 0 where
  form_idle form_cancelled : FormEvent
  form_submitted form_submitted_to_start : FormValues → FormEvent

-- `dir || defaultDir`
abbrev or_default : Text → Text → Text
or_default [] default_dir = default_dir
or_default (c ∷ s) default_dir = c ∷ s

-- the values that a form hands over
unfoldable pub submitted_values : FormProps → FormValues → FormValues
submitted_values props values = record values {
  name = trim values.name;
  dir = or_default values.dir props.default_dir;
}

unfoldable pub submit : FormProps → (to_start : Bool) → FormValues → FormEvent
unfolding submitted_values
submit props to_start values =
    if is_truthy (trim values.name)
    then (if to_start
        then form_submitted_to_start (submitted_values props values)
        else form_submitted (submitted_values props values))
    else form_idle

abbrev template_values : FormValues → TemplateValues
template_values values = record {
  name = values.name;
  description = values.description;
  acceptance_criteria = values.acceptance_criteria;
  dir = values.dir;
  worktree = values.worktree;
  worktree_path = values.worktree_path;
  command = values.command;
}

-- the fields that the text of the editor sets
unfoldable pub apply_parsed : (texts_only : Bool) → ParsedTemplate → FormValues → FormValues
apply_parsed texts_only parsed values =
    let texts : FormValues = record values {
      name = or_else parsed.name values.name;
      description = or_else parsed.description values.description;
      acceptance_criteria = or_else parsed.acceptance_criteria values.acceptance_criteria;
    } in
    if texts_only then texts else record texts {
      dir = or_else parsed.dir values.dir;
      worktree = or_else parsed.worktree values.worktree;
      worktree_path = or_else parsed.worktree_path values.worktree_path;
      command = or_else parsed.command values.command;
    }

-- The key Ctrl+G: the values as the editor leaves them.
unfoldable pub edit_values : FormProps → FormValues → FormValues
unfolding apply_parsed meta_only
edit_values props values =
    elim (props.editor (build_card_template (template_values values) (meta_only props))) [
      | none ↦ values
      | some content ↦
          apply_parsed (meta_only props) (parse_card_template content (meta_only props)) values
    ]

-- where the keys that move the focus lead
unfoldable pub move_focus : Key → (multiline : Bool) → (count i : ℕ) → ℕ
move_focus key multiline count i =
    if key.tab && key.shift
    then (i + count - 1) % count
    else if key.tab
    then (i + 1) % count
    else if not multiline && key.down_arrow
    then min (i + 1) (count - 1)
    else if not multiline && key.up_arrow
    then i - 1
    else i

-- The handler of the form.
unfoldable pub press_form : FormProps → Key → FormState → FormState × FormEvent
unfolding submit edit_values move_focus field_count focused
press_form props key s =
    if key.escape
    then (s, form_cancelled)
    else if key.input == units "s" && key.ctrl
    then (s, submit props props.can_start s.values)
    else if key.input == units "g" && key.ctrl
    then (record s { values = edit_values props s.values }, form_idle)
    else if key.return && not (is_multiline (focused props s))
    then (s, submit props false s.values)
    else (
      record s {
        focus_idx =
            move_focus key (is_multiline (focused props s)) (field_count props s) s.focus_idx;
      },
      form_idle,
    )
