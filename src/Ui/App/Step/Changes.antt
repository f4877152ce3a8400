-- ===== src/Ui/App/Step/Changes.antt =====
-- What events do to the configuration of the board.
use tukan.Prelude.{◌⊎◌, ◌≡◌, refl, inl, inr, Option, none, some, List, [], Option-cases}
use tukan.Text.{Text}
use tukan.Dict.{Dict}
use tukan.Board.{BoardConfig, ColumnDef, CommandDef}
use tukan.Board.CardOps.Laws.{IsWellFormed}
use tukan.Ui.Keys.{Key}
use tukan.Ui.App.{
  Modal, create, quick_shell, settings, help, confirm_resolve, confirm_remove, confirm_start,
  start_form, edit, AppState, Env, Effect, Outcome,
}
use tukan.Ui.App.Handlers.{FormValues}
use tukan.Ui.App.Step.{
  Event, key_pressed, form_submitted, form_submitted_to_start, shell_named, settings_submitted,
  resolve_ended, form_cancelled, poll_due, card_started, tmux_seen, press, press_modal, submit,
  submit_to_start, submit_name, submit_settings, cancel, when_open, step,
}
use tukan.Ui.App.Change.{Change, same, Gives, Gives-some}
use tukan.Ui.App.Change.Press.{press_board-Ok}
use tukan.Ui.App.Change.Forms.{
  end_resolve-Ok, handle_create-Ok, handle_edit-Ok, finish_start-Ok, handle_create_and_start-Ok,
  handle_quick_shell-Ok, handle_settings-Ok, handle_start-Ok, press_confirm_resolve-Ok,
  press_confirm_remove-Ok, press_confirm_start-Ok, press_help-Ok,
}
use tukan.Ui.App.Change.Polls.{poll_step-Ok}

module _ (env : Env) (s : AppState) (ok : IsWellFormed s.config) where
  abbrev Ok : Outcome → Type 0
  Ok o = Gives (λ s' effects. Change s.config s'.config effects) o

  stays : (modal : Option Modal) → Ok (some (record s { modal = modal }, []))
  stays modal = Gives-some _ (record s { modal = modal }) [] (same refl)

  press_modal-Ok : (key : Key) (modal : Modal) → Ok (press_modal env key modal s)
  unfolding press_modal
  press_modal-Ok key (confirm_resolve bc merge dirty) =
      press_confirm_resolve-Ok env s ok key bc merge dirty
  press_modal-Ok key (confirm_remove bc) = press_confirm_remove-Ok env s ok key bc
  press_modal-Ok key (confirm_start bc) = press_confirm_start-Ok env s ok key bc
  press_modal-Ok key help = press_help-Ok env s ok key
  press_modal-Ok key _ = stays s.modal

  press-Ok : (key : Key) → Ok (press env key s)
  unfolding press
  press-Ok key = elim (Option-cases s.modal) [
    | inl closed ↦ rw (closed, press) (press_board-Ok env s ok key)
    | inr (modal, open_one) ↦ rw (open_one, press) (press_modal-Ok key modal)
  ]

  submit-Ok : (values : FormValues) (modal : Modal) → Ok (submit env values modal s)
  unfolding submit
  submit-Ok values create = handle_create-Ok env s ok values
  submit-Ok values (start_form bc) = handle_start-Ok env s ok values
  submit-Ok values (edit bc) = handle_edit-Ok env s ok values
  submit-Ok values _ = stays s.modal

  submit_to_start-Ok :
      (values : FormValues) (modal : Modal) → Ok (submit_to_start env values modal s)
  unfolding submit_to_start
  submit_to_start-Ok values create = handle_create_and_start-Ok env s ok values
  submit_to_start-Ok values _ = stays s.modal

  submit_name-Ok : (name : Text) (modal : Modal) → Ok (submit_name env name modal s)
  unfolding submit_name
  submit_name-Ok name quick_shell = handle_quick_shell-Ok env s ok name
  submit_name-Ok name _ = stays s.modal

  cancel-Ok : (modal : Modal) → Ok (cancel modal s)
  unfolding cancel
  cancel-Ok create = stays none
  cancel-Ok quick_shell = stays none
  cancel-Ok settings = stays none
  cancel-Ok (start_form bc) = stays none
  cancel-Ok (edit bc) = stays none
  cancel-Ok _ = stays s.modal

  submit_settings-Ok :
      (columns : List ColumnDef) (commands : List CommandDef) (modal : Modal)
      → Ok (submit_settings env columns commands modal s)
  unfolding submit_settings
  submit_settings-Ok columns commands settings = handle_settings-Ok env s ok columns commands
  submit_settings-Ok columns commands _ = stays s.modal

  when_open-Ok :
      (act : Modal → AppState → Outcome) (modal : Option Modal)
      → ((m : Modal) → Ok (act m s))
      → Ok (when_open modal act s)
  when_open-Ok act none h = stays s.modal
  when_open-Ok act (some modal) h = h modal

-- The configuration that an event starts from: the one of the state, and for the end of a resolve the
-- one that was there when it began.
abbrev pub basis : Event → AppState → BoardConfig
basis (resolve_ended bc seen) s = seen.config
basis _ s = s.config

module _ (hash : Text → Text) (capture : List Text → Dict Text) where
  abbrev Steps : Event → AppState → AppState → List Effect → Type 0
  Steps e s s' effects = (s'.config ≡ s.config) ⊎ Change (basis e s) s'.config effects

  changes :
      (s : AppState) (o : Outcome)
      → Gives (λ s' effects. Change s.config s'.config effects) o
      → Gives (λ s' effects. (s'.config ≡ s.config) ⊎ Change s.config s'.config effects) o
  changes s o g = record { holds = λ t effects h. inr (g.holds t effects h) }

  step-Ok :
      (env : Env) (e : Event) (s : AppState)
      → IsWellFormed (basis e s)
      → Gives (Steps e s) (step hash capture env e s)
  unfolding step
  step-Ok env (key_pressed key) s ok = changes s _ (press-Ok env s ok key)
  step-Ok env (form_submitted values) s ok =
      changes s _ (when_open-Ok env s ok _ s.modal (submit-Ok env s ok values))
  step-Ok env (form_submitted_to_start values) s ok =
      changes s _ (when_open-Ok env s ok _ s.modal (submit_to_start-Ok env s ok values))
  step-Ok env (shell_named name) s ok =
      changes s _ (when_open-Ok env s ok _ s.modal (submit_name-Ok env s ok name))
  step-Ok env (settings_submitted columns commands) s ok =
      changes s _ (when_open-Ok env s ok _ s.modal (submit_settings-Ok env s ok columns commands))
  step-Ok env form_cancelled s ok =
      changes s _ (when_open-Ok env s ok _ s.modal (cancel-Ok env s ok))
  step-Ok env poll_due s ok = changes s _ (poll_step-Ok hash capture env s ok)
  step-Ok env (card_started card window_id server) s ok =
      changes s _ (finish_start-Ok env s ok card window_id server)
  step-Ok env (resolve_ended bc seen) s ok = end_resolve-Ok env seen s ok bc
  step-Ok env (tmux_seen server) s ok = changes s _ (Gives-some _ _ _ (same refl))

  -- Whatever the event and what the world answers, on a well-formed board: the configuration stays,
  -- or one card is written under its id, or one card is removed, or the columns and the commands are
  -- replaced, or each card is changed and keeps its id; and every change is among the sessions that
  -- are saved, but for the card whose start begins with it. The end of a resolve that waited for git
  -- writes its card in the configuration that was there when it began, which is the well-formed one
  -- then, and every other event changes the present one.
  pub step-Change :
      (env : Env) (e : Event) (s s' : AppState) (effects : List Effect)
      → IsWellFormed (basis e s)
      → step hash capture env e s ≡ some (s', effects)
      → (s'.config ≡ s.config) ⊎ Change (basis e s) s'.config effects
  step-Change env e s s' effects ok h = (step-Ok env e s ok).holds s' effects h
