-- ===== src/Ui/Forms/NewCard/Fields.antt =====
-- The fields of the form, how many they are, and the moves between them.
use tukan.Prelude.{
  ℕ, ◌≤◌, ◌<◌, ◌≡◌, refl, ◌⊎◌, inl, inr, Bool, true, false, Option, none, some, arith, length,
  get_elem?, map,
}
use tukan.Text.{Text}
use tukan.Ui.Keys.{Key}
use tukan.Ui.App.Handlers.{FormValues}
use tukan.Ui.Forms.Inputs.{press_select}
use tukan.Ui.Forms.NewCard.{
  Field, name_field, description_field, criteria_field, dir_field, worktree_field,
  worktree_path_field, command_field, FormProps, fields_of, move_focus,
}
use tukan.Ui.Forms.NewCard.Pressing.{command_option, press_field}

pub count_pos : (texts_only worktree : Bool) → 3 ≤ length (fields_of texts_only worktree)
unfolding fields_of
count_pos true worktree = omega arith
count_pos false true = omega arith
count_pos false false = omega arith

pub count_is_pos : (texts_only worktree : Bool) → 0 < length (fields_of texts_only worktree)
count_is_pos texts_only worktree = let h = count_pos texts_only worktree in omega arith

-- The choice of a worktree is the fifth field, and it has one field behind it at least.
pub worktree_field_at :
    (texts_only worktree : Bool) (i : ℕ)
    → get_elem? (fields_of texts_only worktree) i ≡ some worktree_field
    → (i ≡ 4) × (texts_only ≡ false)
unfolding fields_of
worktree_field_at true worktree i h = ground arith
worktree_field_at false true i h = ground arith
worktree_field_at false false i h = ground arith

pub worktree-press_field :
    (props : FormProps) (key : Key) (field : Option Field) (values after : FormValues)
    → press_field props key field values ≡ some after
    → (after.worktree ≡ values.worktree) ⊎ (field ≡ some worktree_field)
unfolding press_field
worktree-press_field props key none values after h = inl (ground arith)
worktree-press_field props key (some worktree_field) values after h = inr refl
worktree-press_field props key (some name_field) values after h = inl (ground arith)
worktree-press_field props key (some description_field) values after h = inl (ground arith)
worktree-press_field props key (some criteria_field) values after h = inl (ground arith)
worktree-press_field props key (some dir_field) values after h = inl (ground arith)
worktree-press_field props key (some worktree_path_field) values after h = inl (ground arith)
worktree-press_field props key (some command_field) values after h =
    inl (keeps (press_select key (map command_option props.commands) values.command) h)
  where
    keeps :
        (o : Option Text)
        → (elim o [ none ↦ none | some v ↦ some (record values { command = v }) ]) ≡ some after
        → after.worktree ≡ values.worktree
    keeps none e = absurd (cc e)
    keeps (some v) e = ground arith

pub move_focus-lt :
    (key : Key) (multiline : Bool) (count i : ℕ)
    → 0 < count
    → i < count
    → move_focus key multiline count i < count
unfolding move_focus
move_focus-lt key multiline count i p h = ground arith

-- from the fifth field to one beside it
pub move_focus-fifth :
    (key : Key) (multiline worktree : Bool)
    → move_focus key multiline (length (fields_of false worktree)) 4 < 6
unfolding move_focus fields_of
move_focus-fifth key multiline true = ground arith
move_focus-fifth key multiline false = ground arith

pub count_of_settings : (worktree : Bool) → 6 ≤ length (fields_of false worktree)
unfolding fields_of
count_of_settings true = omega arith
count_of_settings false = omega arith
