-- ===== src/Ui/App/Change/Forms.antt =====
-- What the forms, the modals that ask and the end of a start do to the configuration.
use tukan.Prelude.{
  ◌≡◌, ◌⊎◌, refl, inl, inr, Bool, true, ◌&&◌, ◌||◌, Option, none, some, List, [], ◌∷◌, ◌++◌,
  if◌then◌else◌, Option-cases, Has, Has-behind,
}
use tukan.Text.{Text, units, ◌==◌, truthy?}
use tukan.Dict.{get}
use tukan.Tmux.{TmuxServer}
use tukan.Board.{Card, BoardConfig, Cursor, ColumnDef, CommandDef}
use tukan.Board.CardOps.Laws.{IsWellFormed}
use tukan.Board.Derive.{BoardCard}
use tukan.Ui.Poll.{state_to_save}
use tukan.Ui.Keys.{Key}
use tukan.Ui.App.{AppState, Env, Effect, begin_start, Outcome, focus, saving, with_card}
use tukan.Ui.App.Press.{find_card, begin, has_worktree}
use tukan.Ui.App.Handlers.{
  FormValues, build_card_from_values, handle_create, with_values, edit_card, handle_edit, edited,
  rename_window, requery_if, finish_start, handle_create_and_start, handle_quick_shell,
  handle_settings, handle_start, starting,
}
use tukan.Ui.App.Confirm.{
  end_resolve, finish_resolve, answer_resolve, answer_remove, press_confirm_resolve,
  press_confirm_remove, press_confirm_start, press_help, is_yes, is_no, resolved, closed_with,
  is_dirty, merge_effects, kill_window,
}
use tukan.Ui.App.Change.Outcomes.{
  Change, same, wrote, removed, arranged, IsSaved, IsStarting, Gives, Gives-some, Gives-none,
  Gives-if, own_id,
}

module _ (env : Env) (s : AppState) (ok : IsWellFormed s.config) where
  abbrev Changes : AppState → List Effect → Type 0
  Changes s' effects = Change s.config s'.config effects

  abbrev Ok : Outcome → Type 0
  Ok o = Gives Changes o

  is_saved :
      (config : BoardConfig) (effects : List Effect)
      → Has (saving env config s) effects
      → IsSaved config effects
  unfolding saving state_to_save
  is_saved config effects h = record {
    session = state_to_save env.working_dir s.activity s.pane_hashes config;
    board = refl;
    among = h;
  }

  begun : (card : Card) → IsStarting card (begin_start card ∷ [])
  begun card = record { among = inl refl }

  pub handle_create-Ok : (values : FormValues) → Ok (some (handle_create env values s))
  unfolding handle_create focus
  handle_create-Ok values =
      let card = build_card_from_values env values s in
      Gives-some Changes _ _ (wrote card.id card refl refl (inl (is_saved _ _ (inl refl))))

  edit_card-Ok : (values : FormValues) (id : Text) → Ok (some (edit_card env values id s))
  unfolding edit_card focus with_values
  edit_card-Ok values id = elim (Option-cases (get id s.config.cards)) [
    | inl missing ↦ rw (missing, edit_card) (Gives-some Changes _ _ (same refl))
    | inr (card, there) ↦
        rw (there, edit_card)
          (Gives-some Changes _ _ (
            wrote id (with_values values card) (own_id s.config id card ok there) refl (
              inl (
                is_saved _ _ (
                  Has-behind (rename_window env.server_name values.name (truthy? card.window_id))
                    (saving env (with_card id (with_values values card) s.config) s
                      ∷ requery_if (truthy? card.window_id))
                    _ (inl refl))))))
  ]

  pub handle_edit-Ok : (values : FormValues) → Ok (some (handle_edit env values s))
  unfolding handle_edit
  handle_edit-Ok values = elim (Option-cases (edited s.modal)) [
    | inl other ↦ rw (other, handle_edit) (Gives-some Changes _ _ (same refl))
    | inr (bc, open_one) ↦ rw (open_one, handle_edit) (edit_card-Ok values bc.card_id)
  ]

  pub finish_start-Ok :
      (card : Card) (window_id : Text) (server : TmuxServer)
      → Ok (some (finish_start env card window_id server s))
  unfolding finish_start focus
  finish_start-Ok card window_id server =
      Gives-some Changes _ _ (wrote card.id _ refl refl (inl (is_saved _ _ (inl refl))))

  pub handle_create_and_start-Ok :
      (values : FormValues) → Ok (some (handle_create_and_start env values s))
  unfolding handle_create_and_start
  handle_create_and_start-Ok values = Gives-some Changes _ _ (wrote _ _ refl refl (inr (begun _)))

  pub handle_quick_shell-Ok : (name : Text) → Ok (some (handle_quick_shell env name s))
  unfolding handle_quick_shell
  handle_quick_shell-Ok name = Gives-some Changes _ _ (wrote _ _ refl refl (inr (begun _)))

  pub handle_settings-Ok :
      (columns : List ColumnDef) (commands : List CommandDef)
      → Ok (some (handle_settings env columns commands s))
  unfolding handle_settings
  handle_settings-Ok columns commands =
      Gives-some Changes _ _ (arranged columns commands refl (is_saved _ _ (inl refl)))

  pub handle_start-Ok : (values : FormValues) → Ok (some (handle_start values s))
  unfolding handle_start with_values
  handle_start-Ok values = elim (Option-cases (starting s.modal)) [
    | inl other ↦ rw (other, handle_start) (Gives-some Changes _ _ (same refl))
    | inr (bc, open_one) ↦ elim (Option-cases (get bc.card_id s.config.cards)) [
      | inl missing ↦ rw (open_one, missing, handle_start) (Gives-some Changes _ _ (same refl))
      | inr (card, there) ↦
          rw (open_one, there, handle_start)
            (Gives-some Changes _ _
              (wrote card.id (with_values values card) refl refl (inr (begun _))))
    ]
  ]

  -- the answer to a question about a card, behind the end of `confirmResolve`
  closed_with-Ok :
      (effects : List Effect) (cursor : Option Cursor) (s' : AppState)
      → Change s.config s'.config effects
      → Ok (closed_with effects cursor s')
  closed_with-Ok effects none s' c = Gives-none Changes
  closed_with-Ok effects (some cursor) s' c =
      Gives-some Changes (record s' { cursor = cursor; modal = none }) effects c

  finish_resolve-Ok : (bc : BoardCard) (merge : Bool) → Ok (finish_resolve env bc merge s s)
  unfolding finish_resolve
  finish_resolve-Ok bc merge = elim (Option-cases (get bc.card_id s.config.cards)) [
    | inl missing ↦ rw (missing, finish_resolve) (closed_with-Ok _ _ _ (same refl))
    | inr (card, there) ↦
        rw (there, finish_resolve)
          (closed_with-Ok _ _ _ (
            wrote bc.card_id (resolved env card) (own_id s.config bc.card_id card ok there) refl
              (inl (is_saved _ _ (kept (with_card bc.card_id (resolved env card) s.config) card)))))
  ]
    where
      kept :
          (config : BoardConfig) (card : Card)
          → Has (saving env config s) (
              kill_window env.server_name (truthy? bc.window_id)
              ++ ((if merge then merge_effects env (some card) else [])
                  ++ (saving env config s ∷ requery_if (truthy? bc.window_id))))
      kept config card =
          let rest = saving env config s ∷ requery_if (truthy? bc.window_id) in
          let git_steps = if merge then merge_effects env (some card) else [] in
          Has-behind (kill_window env.server_name (truthy? bc.window_id)) (git_steps ++ rest) _
            (Has-behind git_steps rest _ (inl refl))

  answer_resolve-Ok : (bc : BoardCard) (merge : Bool) → Ok (answer_resolve env bc merge s)
  unfolding answer_resolve
  answer_resolve-Ok bc merge =
      Gives-if Changes (merge && has_worktree (get bc.card_id s.config.cards))
        (Gives-some Changes _ _ (same refl)) (finish_resolve-Ok bc merge)

  answer_remove-Ok : (bc : BoardCard) → Ok (answer_remove env bc s)
  unfolding answer_remove
  answer_remove-Ok bc = closed_with-Ok _ _ _ (removed bc.card_id refl (is_saved _ _ (inl refl)))

  pub press_confirm_resolve-Ok :
      (key : Key) (bc : BoardCard) (merge dirty : Bool)
      → Ok (press_confirm_resolve env key bc merge dirty s)
  unfolding press_confirm_resolve
  press_confirm_resolve-Ok key bc merge dirty =
      Gives-if Changes (is_yes key) (answer_resolve-Ok bc merge) (
        Gives-if Changes (is_no key) (Gives-some Changes _ _ (same refl)) (
          Gives-if Changes (key.input == units " ") (Gives-some Changes _ _ (same refl))
            (Gives-some Changes _ _ (same refl))))

  pub press_confirm_remove-Ok :
      (key : Key) (bc : BoardCard) → Ok (press_confirm_remove env key bc s)
  unfolding press_confirm_remove
  press_confirm_remove-Ok key bc = Gives-if Changes (is_yes key) (answer_remove-Ok bc) (
      Gives-if Changes (is_no key) (Gives-some Changes _ _ (same refl))
        (Gives-some Changes _ _ (same refl)))

  begin-Ok : (o : Option Card) → Ok (begin s o)
  begin-Ok none = Gives-some Changes _ _ (same refl)
  begin-Ok (some card) = Gives-some Changes _ _ (same refl)

  pub press_confirm_start-Ok : (key : Key) (bc : BoardCard) → Ok (press_confirm_start key bc s)
  unfolding press_confirm_start
  press_confirm_start-Ok key bc = Gives-if Changes (is_yes key) (begin-Ok (find_card bc s)) (
      Gives-if Changes (is_no key) (Gives-some Changes _ _ (same refl))
        (Gives-some Changes _ _ (same refl)))

  pub press_help-Ok : (key : Key) → Ok (press_help key s)
  unfolding press_help
  press_help-Ok key =
      Gives-if Changes (key.escape || key.input == units "?") (Gives-some Changes _ _ (same refl))
        (Gives-some Changes _ _ (same refl))

-- The end of a resolve changes the configuration that was there when it began.
module _ (env : Env) (seen s : AppState) (ok : IsWellFormed seen.config) where
  abbrev Ends : AppState → List Effect → Type 0
  Ends s' effects = (s'.config ≡ s.config) ⊎ Change seen.config s'.config effects

  Ends-closed_with :
      (effects : List Effect) (cursor : Option Cursor) (s' : AppState)
      → Ends s' effects
      → Gives Ends (closed_with effects cursor s')
  Ends-closed_with effects none s' c = Gives-none Ends
  Ends-closed_with effects (some cursor) s' c =
      Gives-some Ends (record s' { cursor = cursor; modal = none }) effects c

  Ends-finish_resolve : (bc : BoardCard) → Gives Ends (finish_resolve env bc true seen s)
  unfolding finish_resolve saving state_to_save
  Ends-finish_resolve bc = elim (Option-cases (get bc.card_id seen.config.cards)) [
    | inl missing ↦ rw (missing, finish_resolve) (Ends-closed_with _ _ _ (inl refl))
    | inr (card, there) ↦
        let config = with_card bc.card_id (resolved env card) seen.config in
        let git_steps = merge_effects env (some card) in
        let rest = saving env config s ∷ requery_if (truthy? bc.window_id) in
        let among =
          Has-behind (kill_window env.server_name (truthy? bc.window_id)) (git_steps ++ rest)
            (saving env config s) (Has-behind git_steps rest (saving env config s) (inl refl)) in
        rw (there, finish_resolve)
          (Ends-closed_with _ _ _ (
            inr (
              wrote bc.card_id (resolved env card) (own_id seen.config bc.card_id card ok there)
                refl
                (inl (record {
                  session = state_to_save env.working_dir s.activity s.pane_hashes config;
                  board = refl;
                  among = among;
                })))))
  ]

  pub end_resolve-Ok : (bc : BoardCard) → Gives Ends (end_resolve env bc seen s)
  unfolding end_resolve
  end_resolve-Ok bc =
      Gives-if Ends (is_dirty env (get bc.card_id seen.config.cards))
        (Gives-some Ends _ _ (inl refl)) (Ends-finish_resolve bc)
