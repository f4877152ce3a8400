-- ===== src/Ui/App/Step.antt =====
-- src/ui/App.tsx: which handler an event goes to, and runs of events.
pub mod Changes
pub mod Runs
use tukan.Prelude.{Option, none, some, List, [], ◌∷◌, map}
use tukan.Text.{Text}
use tukan.Dict.{Dict}
use tukan.Tmux.{TmuxServer}
use tukan.Board.{Card, ColumnDef, CommandDef}
use tukan.Board.Derive.{BoardCard}
use tukan.Ui.Keys.{Key}
use tukan.Ui.Poll
use tukan.Ui.Poll.{PollState}
use tukan.Ui.App.{
  Modal, create, quick_shell, settings, help, confirm_resolve, confirm_remove, confirm_start,
  start_form, edit, AppState, Env, Effect, save, Outcome,
}
use tukan.Ui.App.Press.{press_board}
use tukan.Ui.App.Handlers.{
  FormValues, handle_create, handle_edit, finish_start, handle_create_and_start, handle_quick_shell,
  handle_settings, handle_start,
}
use tukan.Ui.App.Confirm.{
  end_resolve, press_confirm_resolve, press_confirm_remove, press_confirm_start, press_help,
  close_modal,
}

-- What the application reacts to: a key, what a form hands over, a start whose commands have run (with
-- the next answer of tmux), a resolve that waited for git (with the state in which it began), an answer
-- of tmux to the timer of one second, and the timer of the poll.
pub data Event : Type 0 where
  key_pressed : Key → Event
  form_submitted form_submitted_to_start : FormValues → Event
  shell_named : Text → Event
  settings_submitted : List ColumnDef → List CommandDef → Event
  form_cancelled poll_due : Event
  card_started : Card → Text → TmuxServer → Event
  resolve_ended : BoardCard → (seen : AppState) → Event
  tmux_seen : TmuxServer → Event

-- A key while a modal is open; the forms have handlers of their own.
unfoldable pub press_modal : Env → Key → Modal → AppState → Outcome
unfolding press_confirm_resolve press_confirm_remove press_confirm_start press_help
press_modal env key (confirm_resolve bc merge dirty) s =
    press_confirm_resolve env key bc merge dirty s
press_modal env key (confirm_remove bc) s = press_confirm_remove env key bc s
press_modal env key (confirm_start bc) s = press_confirm_start key bc s
press_modal env key help s = press_help key s
press_modal env key create s = some (s, [])
press_modal env key quick_shell s = some (s, [])
press_modal env key settings s = some (s, [])
press_modal env key (start_form bc) s = some (s, [])
press_modal env key (edit bc) s = some (s, [])

unfoldable pub press : Env → Key → AppState → Outcome
unfolding press_board press_modal
press env key s = elim s.modal [
  | none ↦ press_board env key s
  | some modal ↦ press_modal env key modal s
]

-- `onSubmit` of the form that is open
unfoldable pub submit : Env → FormValues → Modal → AppState → Outcome
unfolding handle_create handle_start handle_edit
submit env values create s = some (handle_create env values s)
submit env values (start_form bc) s = some (handle_start values s)
submit env values (edit bc) s = some (handle_edit env values s)
submit env values modal s = some (s, [])

abbrev when_open : Option Modal → (Modal → AppState → Outcome) → AppState → Outcome
when_open none act s = some (s, [])
when_open (some modal) act s = act modal s

unfoldable pub submit_to_start : Env → FormValues → Modal → AppState → Outcome
unfolding handle_create_and_start
submit_to_start env values create s = some (handle_create_and_start env values s)
submit_to_start env values modal s = some (s, [])

unfoldable pub submit_name : Env → Text → Modal → AppState → Outcome
unfolding handle_quick_shell
submit_name env name quick_shell s = some (handle_quick_shell env name s)
submit_name env name modal s = some (s, [])

unfoldable pub submit_settings : Env → List ColumnDef → List CommandDef → Modal → AppState → Outcome
unfolding handle_settings
submit_settings env columns commands settings s = some (handle_settings env columns commands s)
submit_settings env columns commands modal s = some (s, [])

-- `onCancel` of the form that is open
unfoldable pub cancel : Modal → AppState → Outcome
cancel create s = close_modal s
cancel quick_shell s = close_modal s
cancel settings s = close_modal s
cancel (start_form bc) s = close_modal s
cancel (edit bc) s = close_modal s
cancel modal s = some (s, [])

-- the references of the poll
abbrev pub poll_state : AppState → PollState
poll_state s = record { pane_hashes = s.pane_hashes; activity = s.activity; config = s.config }

abbrev pub after_poll : AppState → PollState → AppState
after_poll s p = record s { pane_hashes = p.pane_hashes; activity = p.activity; config = p.config }

-- `hash` is the digest of `hashContent`, and `capture` is `captureAllPaneContents`.
module _ (hash : Text → Text) (capture : List Text → Dict Text) where
  unfoldable pub poll_step : Env → AppState → AppState × List Effect
  poll_step env s =
      let (p, saves) =
        Poll.poll hash capture env.working_dir env.self_pane_id env.now s.tmux (poll_state s) in
      (after_poll s p, map save saves)

  unfoldable pub step : Env → Event → AppState → Outcome
  unfolding press submit submit_to_start submit_name submit_settings cancel finish_start poll_step
      end_resolve
  step env (key_pressed key) s = press env key s
  step env (form_submitted values) s = when_open s.modal (submit env values) s
  step env (form_submitted_to_start values) s = when_open s.modal (submit_to_start env values) s
  step env (shell_named name) s = when_open s.modal (submit_name env name) s
  step env (settings_submitted columns commands) s =
      when_open s.modal (submit_settings env columns commands) s
  step env form_cancelled s = when_open s.modal cancel s
  step env poll_due s = some (poll_step env s)
  step env (card_started card window_id server) s = some (finish_start env card window_id server s)
  step env (resolve_ended bc seen) s = end_resolve env bc seen s
  step env (tmux_seen server) s = some (record s { tmux = server }, [])

  -- A run of events, each with what the world answers then; none if a handler throws.
  unfoldable pub run : List (Env × Event) → AppState → Option AppState
  unfolding step
  run [] s = some s
  run ((env, e) ∷ events) s = elim (step env e s) [
    | none ↦ none
    | some (s', effects) ↦ run events s'
  ]
