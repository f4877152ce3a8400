-- ===== src/Ui/Forms/Settings/Focus.antt =====
-- The field that has the focus.
use tukan.Prelude.{
  ℕ, ◌+◌, ◌-◌, ◌*◌, ◌%◌, ◌<◌, ◌≡◌, refl, ap, inl, inr, Bool, true, false, List, [], ◌∷◌, ◌++◌,
  arith, ◌≤◌, subst, List-cases, ltb, nat_eq, if◌then◌else◌, Bool-cases, length, length-append,
  take, ◌&&◌,
}
use tukan.Text.{Text, units, ◌==◌, trim}
use tukan.Board.{CommandDef}
use native.Mathlib.Decide.{dec_lt}
use tukan.Ui.Keys.{Key}
use tukan.Ui.Forms.Settings.{
  SettingsState, SettingsField, column_title, cmd_label, cmd_template, add_command, SettingsEvent,
  settings_idle, settings_cancelled, settings_submitted, total_fields, clamped_focus,
  get_field_info, current_field, add_new, valid_commands, press_enter, press_settings, press_all,
}

-- The field at an index of the form: the titles of the columns, then the label and the template of each
-- command, and the field for a new command last.
abbrev pub IsField : SettingsState → ℕ → SettingsField → Type 0
IsField s idx (column_title i) = (i < length s.columns) × (idx ≡ i)
IsField s idx (cmd_label i) = (i < length s.commands) × (idx ≡ length s.columns + i * 2)
IsField s idx (cmd_template i) = (i < length s.commands) × (idx ≡ length s.columns + i * 2 + 1)
IsField s idx add_command = length s.columns + length s.commands * 2 ≤ idx

IsField-info : (s : SettingsState) (idx : ℕ) → IsField s idx (get_field_info s idx)
unfolding get_field_info
IsField-info s idx = elim (Bool-cases (ltb idx (length s.columns))) [
  | inl column ↦ rw column (ground arith, refl)
  | inr behind ↦ elim (Bool-cases (ltb (idx - length s.columns) (length s.commands * 2))) [
    | inr last ↦ rw (behind, last) (ground arith)
    | inl command ↦ elim (Bool-cases (nat_eq ((idx - length s.columns) % 2) 0)) [
      | inl even ↦ rw (behind, command, even) (ground arith, ground arith)
      | inr odd ↦ rw (behind, command, odd) (ground arith, ground arith)
    ]
  ]
]

-- The stored focus may be past the last field, which then has it.
current_field-IsField : (s : SettingsState) → IsField s s.focus_idx (current_field s)
unfolding clamped_focus total_fields
current_field-IsField s = elim (dec_lt s.focus_idx (total_fields s)) [
  | yes inside ↦
      let same : clamped_focus s ≡ s.focus_idx = omega arith in
      subst (λ idx. IsField s idx (current_field s)) same (IsField-info s (clamped_focus s))
  | no outside ↦
      let last : clamped_focus s ≡ length s.columns + length s.commands * 2 = omega arith in
      widen (current_field s) (clamped_focus s) last (omega arith)
        (IsField-info s (clamped_focus s))
]
  where
    widen :
        (field : SettingsField) (idx : ℕ)
        → idx ≡ length s.columns + length s.commands * 2
        → length s.columns + length s.commands * 2 ≤ s.focus_idx
        → IsField s idx field
        → IsField s s.focus_idx field
    widen (column_title i) idx e le (lt, is) = absurd (omega arith)
    widen (cmd_label i) idx e le (lt, is) = absurd (omega arith)
    widen (cmd_template i) idx e le (lt, is) = absurd (omega arith)
    widen add_command idx e le h = le

-- The commands with a label that is not blank, in order.
pub labelled : List CommandDef → List CommandDef
labelled [] = []
labelled (c ∷ commands) =
    let rest = labelled commands in elim (trim c.label) [ [] ↦ rest | x ∷ s ↦ c ∷ rest ]

abbrev pub HandsOver : SettingsState → SettingsEvent → Type 0
HandsOver s (settings_submitted columns commands) =
    (columns ≡ s.columns) × (commands ≡ labelled s.commands)
HandsOver s settings_idle = Unit
HandsOver s settings_cancelled = Unit

valid_commands-eq-labelled :
    (commands : List CommandDef) → valid_commands commands ≡ labelled commands
unfolding labelled
valid_commands-eq-labelled [] = refl
valid_commands-eq-labelled (c ∷ commands) = elim (List-cases (trim c.label)) [
  | inl blank ↦ rw (blank, labelled) (valid_commands-eq-labelled commands)
  | inr (x, s, e) ↦ rw (e, labelled) (ap (λ cs. c ∷ cs) (valid_commands-eq-labelled commands))
]

HandsOver-enter :
    (uuid : Text) (field : SettingsField) (s : SettingsState)
    → HandsOver s (press_enter uuid field s).1
unfolding press_enter
HandsOver-enter uuid add_command s = tt
HandsOver-enter uuid (column_title i) s = (refl, valid_commands-eq-labelled s.commands)
HandsOver-enter uuid (cmd_label i) s = (refl, valid_commands-eq-labelled s.commands)
HandsOver-enter uuid (cmd_template i) s = (refl, valid_commands-eq-labelled s.commands)

-- In every state of the form, the field that has the focus is the one at the stored index among the
-- columns' titles and the commands' labels and templates, and the field for a new command from there
-- on; and whatever the key, what the form hands over are its columns, and those of its commands whose
-- label is not blank, in order.
pub press_settings-IsField :
    (uuid : Text) (key : Key) (s : SettingsState)
    → IsField s s.focus_idx (current_field s) × HandsOver s (press_all uuid key s).1
unfolding press_all press_settings
press_settings-IsField uuid key s = (
  current_field-IsField s,
  elim (Bool-cases key.escape) [
    | inl escaped ↦ rw escaped tt
    | inr on ↦ elim (Bool-cases key.return) [
      | inl entered ↦ rw (on, entered) (HandsOver-enter uuid (current_field s) s)
      | inr other ↦ rw (on, other) (quiet (key.input == units "d" && key.ctrl) _ _)
    ]
  ],
)
  where
    quiet :
        (b : Bool) (x y : SettingsState)
        → HandsOver s
            (if◌then◌else◌ {A = SettingsState × SettingsEvent} b
              (x, settings_idle)
              (y, settings_idle)).1
    quiet true x y = tt
    quiet false x y = tt

label_at :
    (s : SettingsState) (idx k : ℕ)
    → idx ≡ length s.columns + k * 2
    → k < length s.commands
    → get_field_info s idx ≡ cmd_label k
unfolding get_field_info
label_at s idx k e h = rw (outside, inside, even) (ap cmd_label (omega arith))
  where
    outside : ltb idx (length s.columns) ≡ false
    outside = ground arith

    inside : ltb (idx - length s.columns) (length s.commands * 2) ≡ true
    inside = ground arith

    even : nat_eq ((idx - length s.columns) % 2) 0 ≡ true
    even = ground arith

-- A new command has the focus on its label.
pub current_field-add_new :
    (uuid : Text) (s : SettingsState)
    → current_field (add_new uuid s) ≡ cmd_label (length s.commands)
unfolding add_new clamped_focus total_fields
current_field-add_new uuid s =
    let new : CommandDef = record { id = units "cmd-" ++ take 8 uuid; label = []; template = [] } in
    let count = length-append s.commands (new ∷ []) in
    label_at (add_new uuid s) (clamped_focus (add_new uuid s)) (length s.commands)
      (omega (arith, count)) (omega (arith, count))
