-- ===== src/Ui/App/Confirm.antt =====
-- src/ui/App.tsx: the modals that ask before a card is resolved, removed or started, and the help.
use tukan.Prelude.{
  ◌-◌, Bool, true, false, not, ◌&&◌, ◌||◌, Option, none, some, List, [], ◌∷◌, ◌++◌, ltb,
  if◌then◌else◌, or_else, length, get_elem?,
}
use tukan.Text.{Text, units, ◌==◌, trim, is_truthy, truthy?}
use tukan.Dict.{get, without}
use tukan.Tmux.Create.{
  server_args, sanitize_branch_name, build_worktree_args, build_worktree_remove_args,
  build_worktree_merge_args,
}
use tukan.Tmux.Start.{World}
use tukan.Board.{Card, BoardConfig, Cursor, col_done}
use tukan.Board.Derive.{BoardCard, BoardColumn}
use tukan.Ui.Keys.{Key}
use tukan.Ui.App.{
  confirm_resolve, AppState, Env, Effect, run_tmux, run_git, begin_resolve, Outcome, columns_of,
  saving, with_card,
}
use tukan.Ui.App.Press.{find_card, begin, has_worktree}
use tukan.Ui.App.Handlers.{requery_if}

abbrev pub worktree_of : Env → Card → Text
worktree_of env card =
    (build_worktree_args env.locale env.path card.dir card.name card.worktree_path).worktree_path

abbrev pub status_args : Text → List Text
status_args worktree_path = units "-C" ∷ worktree_path ∷ units "status" ∷ units "--porcelain" ∷ []

abbrev has_changes : Option Text → Bool
has_changes none = false
has_changes (some out) = is_truthy (trim out)

-- The worktree has changes that are not committed; an error of git counts as none.
unfoldable pub is_dirty : Env → Option Card → Bool
is_dirty env none = false
is_dirty env (some card) =
    card.worktree && has_changes (env.world.git (status_args (worktree_of env card)))

-- git commands up to the first that fails
unfoldable pub git_until_error : World → List (List Text) → List Effect
git_until_error w [] = []
git_until_error w (args ∷ rest) =
    run_git args ∷ elim (w.git args) [ none ↦ [] | some out ↦ git_until_error w rest ]

unfoldable pub merge_effects : Env → Option Card → List Effect
unfolding git_until_error
merge_effects env none = []
merge_effects env (some card) =
    if card.worktree
    then git_until_error env.world (
        build_worktree_remove_args card.dir (worktree_of env card)
        ∷ build_worktree_merge_args card.dir (sanitize_branch_name env.locale card.name))
    else []

abbrev pub kill_window : Option Text → Option Text → List Effect
kill_window server_name none = []
kill_window server_name (some window_id) =
    run_tmux
      (server_args (or_else server_name []) ++ (units "kill-window" ∷ units "-t" ∷ window_id ∷ []))
    ∷ []

abbrev pub resolved : Env → Card → Card
resolved env card = record card { column_id = col_done; window_id = none; closed_at = some env.now }

-- The card in Done, in the configuration that was read when the question was answered.
abbrev pub resolve_in : Env → Text → BoardConfig → Option Card → Option BoardConfig
resolve_in env card_id config none = none
resolve_in env card_id config (some card) = some (with_card card_id (resolved env card) config)

abbrev pub updated : Env → Option BoardConfig → AppState → AppState × List Effect
updated env none s = (s, [])
updated env (some config) s = (record s { config = config }, saving env config s ∷ [])

-- the cursor in a column that loses a card
abbrev pub pull_back : Cursor → Cursor → BoardColumn → Cursor
pull_back seen cursor column =
    let new_max_row = length column.cards - 2 in
    if ltb new_max_row seen.row then record cursor { row = new_max_row } else cursor

abbrev pub back_on_column : List BoardColumn → Cursor → Cursor → Option Cursor
back_on_column columns seen cursor = elim (get_elem? columns seen.col) [
  | none ↦ none
  | some column ↦ some (pull_back seen cursor column)
]

abbrev pub closed_with : List Effect → Option Cursor → AppState → Outcome
closed_with effects none s = none
closed_with effects (some cursor) s = some (record s { cursor = cursor; modal = none }, effects)

-- The end of `confirmResolve`. `seen` is the state when the question was answered and `s` the state
-- once git has run, which is the same one where nothing waits; a cursor at no column is a TypeError.
unfoldable pub finish_resolve : Env → BoardCard → Bool → (seen s : AppState) → Outcome
unfolding saving columns_of merge_effects
finish_resolve env bc merge_worktree seen s =
    let card = get bc.card_id seen.config.cards in
    let window_id = truthy? bc.window_id in
    let (after, saves) = updated env (resolve_in env bc.card_id seen.config card) s in
    closed_with
      (kill_window env.server_name window_id
        ++ ((if merge_worktree then merge_effects env card else [])
            ++ (saves ++ requery_if window_id)))
      (back_on_column (columns_of env seen) seen.cursor s.cursor) after

-- What comes of a resolve that waited for git, in the state `s` that is there by then: the question
-- again, with a warning, if the worktree is dirty.
unfoldable pub end_resolve : Env → BoardCard → (seen s : AppState) → Outcome
unfolding is_dirty finish_resolve
end_resolve env bc seen s =
    if is_dirty env (get bc.card_id seen.config.cards)
    then some (record s { modal = some (confirm_resolve bc false true) }, [])
    else finish_resolve env bc true seen s

-- `confirmResolve`: it waits for git where it merges a worktree, and is at its end at once otherwise.
unfoldable pub answer_resolve : Env → BoardCard → Bool → AppState → Outcome
unfolding finish_resolve
answer_resolve env bc merge_worktree s =
    if merge_worktree && has_worktree (get bc.card_id s.config.cards)
    then some (s, begin_resolve bc ∷ [])
    else finish_resolve env bc merge_worktree s s

-- `confirmRemove`
unfoldable pub answer_remove : Env → BoardCard → AppState → Outcome
unfolding saving columns_of
answer_remove env bc s =
    let config = record s.config { cards = without bc.card_id s.config.cards } in
    closed_with (saving env config s ∷ []) (back_on_column (columns_of env s) s.cursor s.cursor)
      (record s { config = config })

abbrev pub is_yes : Key → Bool
is_yes key = key.input == units "y" || key.return

abbrev pub is_no : Key → Bool
is_no key = key.input == units "n" || key.escape

abbrev pub close_modal : AppState → Outcome
close_modal s = some (record s { modal = none }, [])

unfoldable pub press_confirm_resolve : Env → Key → BoardCard → Bool → Bool → AppState → Outcome
unfolding answer_resolve
press_confirm_resolve env key bc merge_worktree dirty_warning s =
    if is_yes key
    then answer_resolve env bc merge_worktree s
    else if is_no key
    then close_modal s
    else if key.input == units " "
    then some (record s { modal = some (confirm_resolve bc (not merge_worktree) false) }, [])
    else some (s, [])

unfoldable pub press_confirm_remove : Env → Key → BoardCard → AppState → Outcome
unfolding answer_remove
press_confirm_remove env key bc s =
    if is_yes key then answer_remove env bc s else if is_no key then close_modal s else some (s, [])

unfoldable pub press_confirm_start : Key → BoardCard → AppState → Outcome
unfolding find_card
press_confirm_start key bc s =
    if is_yes key
    then begin s (find_card bc s)
    else if is_no key
    then close_modal s
    else some (s, [])

unfoldable pub press_help : Key → AppState → Outcome
press_help key s = if key.escape || key.input == units "?" then close_modal s else some (s, [])
