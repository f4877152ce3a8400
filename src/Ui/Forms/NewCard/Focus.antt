-- ===== src/Ui/Forms/NewCard/Focus.antt =====
-- The field that has the focus, and what the form hands over.
use tukan.Prelude.{
  ℕ, ◌<◌, ◌≡◌, refl, ap, sym, ◌∙◌, ◌⊎◌, inl, inr, Bool, true, false, not, ◌&&◌, Option, some, arith,
  if◌then◌else◌, Bool-cases, Option-cases, List-cases, length, or_else, subst,
}
use tukan.Text.{units, ◌==◌, trim, is_truthy}
use tukan.Ui.Keys.{Key}
use tukan.Ui.App.Handlers.{FormValues}
use tukan.Ui.Forms.NewCard.{
  worktree_field, FormProps, FormState, meta_only, fields_of, field_count, focused, is_multiline,
  FormEvent, form_idle, form_cancelled, form_submitted, form_submitted_to_start, submitted_values,
  submit, move_focus, press_form,
}
use tukan.Ui.Forms.NewCard.Fields.{
  count_is_pos, worktree_field_at, worktree-press_field, move_focus-lt, move_focus-fifth,
  count_of_settings,
}
use tukan.Ui.Forms.NewCard.Pressing.{press_field, press_all}

-- What is handed over: the values of the form with a trimmed name, which is not blank, and with the
-- default directory in place of an empty one.
abbrev pub HandsOverValues : FormProps → (values handed : FormValues) → Type 0
HandsOverValues props values handed =
    (is_truthy handed.name ≡ true)
    × (handed ≡ record {
      name = trim values.name;
      description = values.description;
      acceptance_criteria = values.acceptance_criteria;
      dir = if is_truthy values.dir then values.dir else props.default_dir;
      command = values.command;
      worktree = values.worktree;
      worktree_path = values.worktree_path;
    })

handed_over :
    (props : FormProps) (values : FormValues)
    → is_truthy (trim values.name) ≡ true
    → HandsOverValues props values (submitted_values props values)
unfolding submitted_values
handed_over props values named = elim (List-cases values.dir) [
  | inl empty ↦ rw empty (named, refl)
  | inr (c, s, e) ↦ rw e (named, refl)
]

abbrev pub HandsOver : FormProps → FormValues → FormEvent → Type 0
HandsOver props values (form_submitted v) = HandsOverValues props values v
HandsOver props values (form_submitted_to_start v) = HandsOverValues props values v
HandsOver props values form_idle = Unit
HandsOver props values form_cancelled = Unit

HandsOver-submit :
    (props : FormProps) (to_start : Bool) (values : FormValues)
    → HandsOver props values (submit props to_start values)
unfolding submit
HandsOver-submit props to_start values = elim (Bool-cases (is_truthy (trim values.name))) [
  | inr blank ↦ rw blank tt
  | inl named ↦ rw named (both to_start named)
]
  where
    both :
        (b : Bool)
        → is_truthy (trim values.name) ≡ true
        → HandsOver props values (
            if b
            then form_submitted_to_start (submitted_values props values)
            else form_submitted (submitted_values props values))
    both true named = handed_over props values named
    both false named = handed_over props values named

-- The key is Ctrl+G, which opens the editor.
abbrev pub is_editor_key : Key → Bool
is_editor_key key = key.input == units "g" && key.ctrl

-- A field of the form has the focus.
abbrev pub IsFocused : FormProps → FormState → Type 0
IsFocused props s = s.focus_idx < field_count props s

module _ (props : FormProps) (key : Key) (s : FormState) where
  event-press_form : HandsOver props s.values (press_form props key s).1
  unfolding press_form
  event-press_form = elim (Bool-cases key.escape) [
    | inl escaped ↦ rw escaped tt
    | inr on ↦ elim (Bool-cases (key.input == units "s" && key.ctrl)) [
      | inl to_start ↦ rw (on, to_start) (HandsOver-submit props props.can_start s.values)
      | inr other ↦ elim (Bool-cases (is_editor_key key)) [
        | inl editor ↦ rw (on, other, editor) tt
        | inr plain ↦ elim (Bool-cases (key.return && not (is_multiline (focused props s)))) [
          | inl entered ↦ rw (on, other, plain, entered) (HandsOver-submit props false s.values)
          | inr moves ↦ rw (on, other, plain, moves) tt
        ]
      ]
    ]
  ]

  -- The focus stays, or it is moved.
  focus-press_form :
      ((press_form props key s).0.focus_idx ≡ s.focus_idx)
      ⊎ ((press_form props key s).0.focus_idx
          ≡ move_focus key (is_multiline (focused props s)) (field_count props s) s.focus_idx)
  unfolding press_form
  focus-press_form = elim (Bool-cases key.escape) [
    | inl escaped ↦ rw escaped (inl refl)
    | inr on ↦ elim (Bool-cases (key.input == units "s" && key.ctrl)) [
      | inl to_start ↦ rw (on, to_start) (inl refl)
      | inr other ↦ elim (Bool-cases (is_editor_key key)) [
        | inl editor ↦ rw (on, other, editor) (inl refl)
        | inr plain ↦ elim (Bool-cases (key.return && not (is_multiline (focused props s)))) [
          | inl entered ↦ rw (on, other, plain, entered) (inl refl)
          | inr moves ↦ rw (on, other, plain, moves) (inr refl)
        ]
      ]
    ]
  ]

  -- the state behind a key that is not Ctrl+G
  press_all-parts :
      (s' : FormState) (event : FormEvent)
      → is_editor_key key ≡ false
      → press_all props key s ≡ some (s', event)
      → (values : FormValues) × (press_field props key (focused props s) s.values ≡ some values)
        × (s' ≡ record (press_form props key s).0 { values = values })
        × ((press_form props key s).1 ≡ event)
  unfolding press_all
  press_all-parts s' event plain h =
      elim (Option-cases (press_field props key (focused props s) s.values)) [
        | inl threw ↦ absurd (cc (rw (threw, press_all) at h))
        | inr (values, typed) ↦
            let after = rw (plain, press_all) at (rw (typed, press_all) at h) in
            (
              values,
              typed,
              sym (ap (λ (o : Option (FormState × FormEvent)). (or_else o (s', event)).0) after),
              ap (λ (o : Option (FormState × FormEvent)). (or_else o (s', event)).1) after,
            )
      ]

  focused-lt :
      (i : ℕ)
      → (i ≡ s.focus_idx)
        ⊎ (i ≡ move_focus key (is_multiline (focused props s)) (field_count props s) s.focus_idx)
      → s.focus_idx < field_count props s
      → i < field_count props s
  unfolding field_count
  focused-lt i (inl e) h = rw e h
  focused-lt i (inr e) h = rw e (
      move_focus-lt key (is_multiline (focused props s)) (field_count props s) s.focus_idx
        (count_is_pos (meta_only props) s.values.worktree) h)

  -- from the choice of a worktree the focus does not go past the fields of either choice
  focused-lt_six :
      (i : ℕ)
      → (i ≡ s.focus_idx)
        ⊎ (i ≡ move_focus key (is_multiline (focused props s)) (field_count props s) s.focus_idx)
      → focused props s ≡ some worktree_field
      → (i < 6) × (meta_only props ≡ false)
  unfolding field_count focused
  focused-lt_six i moved on =
      let (fifth, all) = worktree_field_at (meta_only props) s.values.worktree s.focus_idx on in
      (within moved fifth all, all)
    where
      within :
          (i ≡ s.focus_idx)
            ⊎ (i
                ≡ move_focus key (is_multiline (focused props s)) (field_count props s) s.focus_idx)
          → s.focus_idx ≡ 4
          → meta_only props ≡ false
          → i < 6
      within (inl e) fifth all = omega arith
      within (inr e) fifth all =
          let moves =
            ap
              (λ (b : Bool).
                move_focus key (is_multiline (focused props s))
                  (length (fields_of b s.values.worktree)) s.focus_idx)
              all
            ∙ ap
                (move_focus key (is_multiline (focused props s))
                  (length (fields_of false s.values.worktree)))
                fifth in
          rw (e ∙ moves) (move_focus-fifth key (is_multiline (focused props s)) s.values.worktree)

  same_count :
      (values : FormValues) (i : ℕ)
      → (i ≡ s.focus_idx)
        ⊎ (i ≡ move_focus key (is_multiline (focused props s)) (field_count props s) s.focus_idx)
      → IsFocused props s
      → (values.worktree ≡ s.values.worktree) ⊎ (focused props s ≡ some worktree_field)
      → IsFocused props (record { values = values; focus_idx = i })
  unfolding field_count
  same_count values i moved h (inl same) = rw same (focused-lt i moved h)
  same_count values i moved h (inr on) =
      let (lt, all) = focused-lt_six i moved on in
      let count = count_of_settings values.worktree in rw all (omega arith)

  -- Whatever key but Ctrl+G is pressed while a field of the form has the focus, a field of the form
  -- has it afterwards, also where the key changes how many fields there are; and if the key hands the
  -- form over, it is with the values from before the key, a trimmed name that is not blank, and the
  -- default directory in place of an empty one.
  pub press_all-IsFocused :
      (s' : FormState) (event : FormEvent)
      → is_editor_key key ≡ false
      → IsFocused props s
      → press_all props key s ≡ some (s', event)
      → IsFocused props s' × HandsOver props s.values event
  press_all-IsFocused s' event plain h pressed =
      let (values, typed, is, same) = press_all-parts s' event plain pressed in
      (
        subst (IsFocused props) (sym is) (
            same_count values (press_form props key s).0.focus_idx focus-press_form h
              (worktree-press_field props key (focused props s) s.values values typed)),
        subst (HandsOver props s.values) same event-press_form,
      )
