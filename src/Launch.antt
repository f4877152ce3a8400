-- ===== src/Launch.antt =====
-- src/index.tsx: what the launcher makes of a session before it shows it, the state that
-- src/ui/App.tsx starts with, and where the arguments lead.
pub mod Panes
pub mod Times
use tukan.Prelude.{
  ℕ, Bool, true, false, ◌&&◌, ◌||◌, Option, none, some, List, [], ◌∷◌, ◌++◌, map, if◌then◌else◌,
  or_else,
}
use tukan.Text.{Text, units, truthy?, starts_with}
use tukan.Dict.{Dict, get, set, keys}
use tukan.Tmux.{TmuxPane, TmuxWindow, TmuxSession, TmuxServer}
use tukan.Board.{Cursor, BoardConfig}
use tukan.Board.Activity.{
  ActivityMap, PaneHashMap, contains, add, add_truthy, differs, compute_pane_hashes,
}
use tukan.State.{SessionState, EphemeralState}
use tukan.Cli.Refresh.{is_nonempty}
use tukan.Ui.App.{AppState}

-- the panes of the server, each with the window that it is in
unfoldable pub panes_of_windows : List TmuxWindow → List (Text × Text)
panes_of_windows [] = []
panes_of_windows (win ∷ windows) =
    map (λ (pane : TmuxPane). (pane.id, win.id)) win.panes ++ panes_of_windows windows

unfoldable pub panes_of_sessions : List TmuxSession → List (Text × Text)
unfolding panes_of_windows
panes_of_sessions [] = []
panes_of_sessions (session ∷ sessions) =
    panes_of_windows session.windows ++ panes_of_sessions sessions

-- `paneToWindow`
unfoldable pub pane_to_window_from : Dict Text → List (Text × Text) → Dict Text
pane_to_window_from result [] = result
pane_to_window_from result ((pane_id, window_id) ∷ panes) =
    pane_to_window_from (set pane_id window_id result) panes

-- the loop that collects `changedWindows`
unfoldable pub stale_windows_from :
    (saved : Dict Text) → (pane_to_window : Dict Text) → List Text → PaneHashMap → List Text
stale_windows_from saved pane_to_window windows [] = windows
stale_windows_from saved pane_to_window windows ((pane_id, hash) ∷ fresh) =
    stale_windows_from saved pane_to_window
      (if differs (get pane_id saved) hash
        then add_truthy (truthy? (get pane_id pane_to_window)) windows
        else windows)
      fresh

-- The loop over the times of change: an assignment to an entry that is there keeps its place.
unfoldable pub reset_times : (Text → Bool) → ℕ → Dict ℕ → Dict ℕ
reset_times is_stale now [] = []
reset_times is_stale now ((window_id, time) ∷ times) =
    (window_id, if is_stale window_id then now else time) ∷ reset_times is_stale now times

-- the properties `initialLastChangeTimes`, `initialActiveWindows` and `initialPaneHashes`
pub record Launched : Type 0 where
  pub last_change_times : Dict ℕ
  pub active_windows : List Text
  pub pane_hashes : Option PaneHashMap

abbrev pub ephemeral_of : Option SessionState → EphemeralState
ephemeral_of none = record { last_change_times = none; active_windows = none; pane_hashes = none }
ephemeral_of (some session) = session.ephemeral

-- `hash` is the digest of `hashContent`, and `capture` is `captureAllPaneContents`.
module _ (hash : Text → Text) (capture : List Text → Dict Text) where
  unfoldable pub launch : ℕ → TmuxServer → Option SessionState → Launched
  unfolding panes_of_sessions pane_to_window_from stale_windows_from reset_times compute_pane_hashes
  launch now tmux session =
      let state = ephemeral_of session in
      let times = or_else state.last_change_times [] in
      let saved_hashes = or_else state.pane_hashes [] in
      let panes = panes_of_sessions tmux.sessions in
      let pane_ids = map (λ (p : Text × Text). p.0) panes in
      let fresh = compute_pane_hashes hash (capture pane_ids) in
      let stale = stale_windows_from saved_hashes (pane_to_window_from [] panes) [] fresh in
      let active = or_else state.active_windows [] in
      if is_nonempty pane_ids && is_nonempty (keys saved_hashes)
      then record {
        last_change_times = reset_times (λ w. contains w stale) now times;
        active_windows = active;
        pane_hashes = some fresh;
      }
      else record {
        last_change_times = reset_times (λ w. true) now times;
        active_windows = active;
        pane_hashes = none;
      }

-- the first value of `activity`
unfoldable pub seed_activity : ActivityMap → List Text → Dict ℕ → ActivityMap
seed_activity result active [] = result
seed_activity result active ((window_id, time) ∷ times) =
    seed_activity
      (set window_id
        (record {
          has_activity = contains window_id active;
          last_change_time = time;
          spinning = false;
        })
        result)
      active times

-- the first state of `App`; the cursor is the one that an earlier round ended with
unfoldable pub initial_state : TmuxServer → BoardConfig → Option Cursor → Launched → AppState
unfolding seed_activity
initial_state tmux config cursor launched = record {
  config = config;
  cursor = or_else cursor (record { col = 0; row = 0; col_scroll = none });
  tmux = tmux;
  modal = none;
  activity = seed_activity [] launched.active_windows launched.last_change_times;
  pane_hashes = or_else launched.pane_hashes [];
}

-- `KNOWN_SUBCOMMANDS`
abbrev pub known_subcommands : List Text
known_subcommands =
    units "add"
    ∷ units "start"
    ∷ units "stop"
    ∷ units "resolve"
    ∷ units "edit"
    ∷ units "list"
    ∷ units "show"
    ∷ units "sessions"
    ∷ units "refresh"
    ∷ units "send"
    ∷ units "peek"
    ∷ units "register"
    ∷ units "migrate"
    ∷ units "help"
    ∷ []

-- The arguments go to the command line, or the interface is shown for a session.
pub data Route : Type 0 where
  command_line : Route
  interface : Option Text → Route

unfoldable pub route : List Text → Route
route [] = interface none
route (arg ∷ args) =
    if contains arg known_subcommands || starts_with arg (units "-")
    then command_line
    else interface (some arg)
