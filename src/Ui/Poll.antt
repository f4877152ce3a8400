-- ===== src/Ui/Poll.antt =====
-- src/ui/App.tsx: the poll of the panes. The references `paneHashesRef` and `configRef` are set at
-- once; `activityRef` is the activity of the last rendering, which is what `saveState` saves.
pub mod Scans
pub mod Laws
use tukan.Prelude.{
  ℕ, Bool, true, false, not, ◌&&◌, ◌||◌, Option, none, some, List, [], ◌∷◌, ◌++◌, if◌then◌else◌,
  any,
}
use tukan.Text.{Text, ◌==◌, truthy?}
use tukan.Dict.{Dict, set}
use tukan.Tmux.{TmuxPane, TmuxWindow, TmuxSession, TmuxServer}
use tukan.Board.{BoardConfig}
use tukan.Board.Activity.{
  ActivityMap, PaneHashMap, compute_pane_hashes, detect_changed_panes, build_activity_map,
  changed_windows, get_idle_promotions, get_review_demotions, idle_promote_ms,
}
use tukan.Board.Derive.{is_own}
use tukan.State.{SessionState}
use tukan.Cli.Refresh.{move_cards, is_nonempty}

-- `tukanSessionId`: the first session with a window of the own pane
unfoldable pub tukan_session_id : Option Text → List TmuxSession → Option Text
tukan_session_id self_pane_id [] = none
tukan_session_id self_pane_id (session ∷ sessions) =
    let rest = tukan_session_id self_pane_id sessions in
    if any (is_own self_pane_id) session.windows then some session.id else rest

-- the variables `paneIds`, `paneToWindow` and `activeWindowId`
pub record Scan : Type 0 where
  pub pane_ids : List Text
  pub pane_to_window : Dict Text
  pub active_window_id : Option Text

unfoldable pub scan_panes : Text → Scan → List TmuxPane → Scan
scan_panes window_id scan [] = scan
scan_panes window_id scan (pane ∷ panes) =
    scan_panes window_id
      (record scan {
        pane_ids = scan.pane_ids ++ pane.id ∷ [];
        pane_to_window = set pane.id window_id scan.pane_to_window;
      })
      panes

abbrev pub is_session : Option Text → Text → Bool
is_session none id = false
is_session (some own_id) id = id == own_id

unfoldable pub scan_window : Option Text → Option Text → Text → Scan → TmuxWindow → Scan
unfolding scan_panes
scan_window self_pane_id own_id session_id scan win =
    if is_own self_pane_id win
    then scan
    else scan_panes win.id
        (if win.active && is_session own_id session_id
          then record scan { active_window_id = some win.id }
          else scan)
        win.panes

unfoldable pub scan_windows : Option Text → Option Text → Text → Scan → List TmuxWindow → Scan
unfolding scan_window
scan_windows self_pane_id own_id session_id scan [] = scan
scan_windows self_pane_id own_id session_id scan (win ∷ windows) =
    scan_windows self_pane_id own_id session_id
      (scan_window self_pane_id own_id session_id scan win) windows

unfoldable pub scan_sessions : Option Text → Option Text → Scan → List TmuxSession → Scan
unfolding scan_windows
scan_sessions self_pane_id own_id scan [] = scan
scan_sessions self_pane_id own_id scan (session ∷ sessions) =
    scan_sessions self_pane_id own_id
      (scan_windows self_pane_id own_id session.id scan session.windows) sessions

unfoldable pub scan_server : Option Text → TmuxServer → Scan
unfolding scan_sessions tukan_session_id
scan_server self_pane_id server =
    let self = truthy? self_pane_id in
    scan_sessions self (tukan_session_id self server.sessions)
      (record { pane_ids = []; pane_to_window = []; active_window_id = none }) server.sessions

-- the times of change in an activity map
unfoldable pub times_from : Dict ℕ → ActivityMap → Dict ℕ
times_from times [] = times
times_from times ((window_id, entry) ∷ activity) =
    times_from (set window_id entry.last_change_time times) activity

abbrev pub active_windows : ActivityMap → List Text
active_windows [] = []
active_windows ((window_id, entry) ∷ activity) =
    let rest = active_windows activity in if entry.has_activity then window_id ∷ rest else rest

pub record PollState : Type 0 where
  pub pane_hashes : PaneHashMap
  pub activity : ActivityMap
  pub config : BoardConfig

-- what `saveState` saves (the hashes of a map, written to a record, are its entries)
unfoldable pub state_to_save : Text → ActivityMap → PaneHashMap → BoardConfig → SessionState
unfolding times_from
state_to_save working_dir activity pane_hashes config = record {
  board = config;
  working_dir = working_dir;
  ephemeral = record {
    last_change_times = some (times_from [] activity);
    active_windows = some (active_windows activity);
    pane_hashes = some pane_hashes;
  };
}

abbrev is_empty : PaneHashMap → Bool
is_empty [] = true
is_empty (x ∷ d) = false

-- `hash` is the digest of `hashContent`, and `capture` is `captureAllPaneContents`.
module _ (hash : Text → Text) (capture : List Text → Dict Text) (working_dir : Text)
    (self_pane_id : Option Text) where
  -- the sessions that are saved at a change of the panes
  abbrev pub saved_on_change : List Text → PollState → PaneHashMap → List SessionState
  saved_on_change changed s next_hashes =
      if is_nonempty changed || (is_empty s.pane_hashes && not (is_empty next_hashes))
      then state_to_save working_dir s.activity next_hashes s.config ∷ []
      else []

  -- the poll behind its early return
  unfoldable pub poll_panes : ℕ → Scan → PollState → PollState × List SessionState
  poll_panes now scan s =
      let next_hashes = compute_pane_hashes hash (capture scan.pane_ids) in
      let changed = detect_changed_panes s.pane_hashes next_hashes in
      let next_activity =
        build_activity_map changed scan.pane_to_window scan.active_window_id s.activity now in
      let promotions =
        get_idle_promotions s.config.cards (times_from [] next_activity) now idle_promote_ms in
      let demotions =
        get_review_demotions s.config.cards (changed_windows scan.pane_to_window changed) in
      let config = move_cards promotions demotions s.config in
      (
        record { pane_hashes = next_hashes; activity = next_activity; config = config },
        saved_on_change changed s next_hashes
            ++ (if is_nonempty promotions || is_nonempty demotions
                then state_to_save working_dir s.activity next_hashes config ∷ []
                else []),
      )

  -- One poll, at one time, with the states that it saves.
  unfoldable pub poll : ℕ → TmuxServer → PollState → PollState × List SessionState
  unfolding scan_server poll_panes
  poll now server s =
      let scan = scan_server self_pane_id server in
      if not (is_nonempty scan.pane_ids) then (s, []) else poll_panes now scan s
