-- ===== src/Tests/Tmux.antt =====
-- Listings of tmux, branch names and switching.
use tukan.Prelude.{
  ℕ, ◌≡◌, refl, ◌≢◌, true, false, if◌then◌else◌, Option, none, some, List, [], ◌∷◌, map, arith,
}
use tukan.Text.{Text, units, ◌==◌, ascii_only, ascii_lower, trim, join, is_space}
use tukan.Tmux.{TmuxPane, TmuxWindow, TmuxSession}
use tukan.Tmux.Parse.{session_of, window_of, pane_of, map?}
use tukan.Tmux.Parse.Assembly.{occupied}
use tukan.Tmux.Parse.Lines.{IsRow, print_lines, print_row}
use tukan.Tmux.Start.{World}
use tukan.Tmux.Client.{session_query, window_query, pane_query, get_tmux_state}
use tukan.Tmux.Client.Listings.{
  server_flags, scoped, all_sessions_args, list_windows_args, list_panes_args, sessions_named,
  get_tmux_state-listed,
}
use tukan.Tmux.Create.{sanitize_branch_name}
use tukan.Tmux.Create.Branch.{IsBranchName, sanitize_branch_name-IsBranchName}
use tukan.Tmux.Switch.{SwitchTarget, detect_server_name, resolve_switch_args}
use tukan.Tmux.Switch.Laws.{tmux_value, expected_switch, resolve_switch_args-tmux_value}
use tukan.Tests.Data.{pane_at, window_with, server}

abbrev empty_session : TmuxSession
empty_session = record { id = units "$0"; name = units "main"; attached = true; windows = [] }

abbrev window_rows : List (Text × TmuxWindow)
window_rows =
    (units "$0", window_with (units "@1") (units "parser") (units "%9"))
    ∷ (units "$3", window_with (units "@2") (units "lost") (units "%9"))
    ∷ []

abbrev pane_rows : List (Text × TmuxPane)
pane_rows = (units "@1", pane_at (units "%1")) ∷ (units "@1", pane_at (units "%2")) ∷ []

abbrev row : List Text
row = units "$0" ∷ units "my session" ∷ units "1" ∷ []

row_nonempty : row ≢ []
row_nonempty e = cc

row-IsRow : IsRow row
unfolding join is_space
row-IsRow = record {
  nonempty = row_nonempty;
  no_tab = omega arith;
  no_newline = omega arith;
  starts_plain = refl;
  ends_plain = refl;
}

abbrev one_digit : Text → Option ℕ
one_digit s = none

sanitizes : sanitize_branch_name ascii_only (units " Fix: the  Parser.. ") ≡ units "fix-the-parser"
unfolding sanitize_branch_name ascii_lower trim
sanitizes = refl

sanitize_branch_name-IsBranchName_example :
    IsBranchName (sanitize_branch_name ascii_only (units "--Fix: the  Parser.."))
sanitize_branch_name-IsBranchName_example =
    sanitize_branch_name-IsBranchName ascii_only (units "--Fix: the  Parser..")

abbrev target : SwitchTarget
target = record { session_name = units "main"; window_id = units "@1" }

name_set : server.server_name ≢ []
name_set e = cc

resolve_switch_args-tmux_value_example :
    (detect_server_name (some (tmux_value (units "/tmp/tmux-1") (units "other") (units "77,0")))
      ≡ some (units "other"))
    × (resolve_switch_args target server
          (some (tmux_value (units "/tmp/tmux-1") (units "other") (units "77,0")))
        ≡ expected_switch (units "other" == server.server_name) server target)
resolve_switch_args-tmux_value_example =
    resolve_switch_args-tmux_value target server (units "/tmp/tmux-1") (units "other")
      (units "77,0") (omega arith) (omega arith) (omega arith) name_set

abbrev window_row : List Text
window_row = units "$0" ∷ units "@1" ∷ units "0" ∷ units "parser" ∷ units "1" ∷ []

window_row_nonempty : window_row ≢ []
window_row_nonempty e = cc

window_row-IsRow : IsRow window_row
unfolding join is_space
window_row-IsRow = record {
  nonempty = window_row_nonempty;
  no_tab = omega arith;
  no_newline = omega arith;
  starts_plain = refl;
  ends_plain = refl;
}

abbrev pane_row : List Text
pane_row =
    units "@1"
    ∷ units "%1"
    ∷ units "0"
    ∷ units "1"
    ∷ units "vim"
    ∷ units "77"
    ∷ units "/src"
    ∷ units "80"
    ∷ units "24"
    ∷ []

pane_row_nonempty : pane_row ≢ []
pane_row_nonempty e = cc

pane_row-IsRow : IsRow pane_row
unfolding join is_space
pane_row-IsRow = record {
  nonempty = pane_row_nonempty;
  no_tab = omega arith;
  no_newline = omega arith;
  starts_plain = refl;
  ends_plain = refl;
}

-- A server with one session, which has one window with one pane.
abbrev answer : List Text → Option Text
answer [] = none
answer (subcommand ∷ more) =
    if subcommand == units "list-sessions"
    then some (print_lines (map print_row (row ∷ [])))
    else if subcommand == units "list-windows"
    then some (print_lines (map print_row (window_row ∷ [])))
    else some (print_lines (map print_row (pane_row ∷ [])))

abbrev listing : World
listing = record { exists_path = λ p. false; git = λ args. none; tmux = answer }

abbrev listed_session : TmuxSession
listed_session = record {
  id = units "$0";
  name = units "my session";
  attached = true;
  windows = [];
}

abbrev listed_window : Text × TmuxWindow
listed_window = (
  units "$0",
  record { id = units "@1"; index = none; name = units "parser"; active = true; panes = [] },
)

abbrev listed_pane : Text × TmuxPane
listed_pane = (
  units "@1",
  record {
    id = units "%1";
    index = none;
    active = true;
    command = units "vim";
    pid = none;
    working_dir = units "/src";
    width = none;
    height = none;
  },
)

converts :
    (map? session_of (row ∷ []) ≡ some (listed_session ∷ []))
    × (map? (window_of one_digit) (window_row ∷ []) ≡ some (listed_window ∷ []))
    × (map? (pane_of one_digit) (pane_row ∷ []) ≡ some (listed_pane ∷ []))
unfolding map? session_of window_of pane_of ◌==◌
converts = (refl, refl, refl)

answers :
    (answer (all_sessions_args none) ≡ some (print_lines (map print_row (row ∷ []))))
    × (answer (list_windows_args none (some (units "my session")))
        ≡ some (print_lines (map print_row (window_row ∷ []))))
    × (answer (list_panes_args none (some (units "my session")))
        ≡ some (print_lines (map print_row (pane_row ∷ []))))
unfolding ◌==◌ session_query window_query pane_query server_flags scoped join
answers = (refl, refl, refl)

get_tmux_state-listed_example :
    get_tmux_state one_digit listing none (some (units "my session"))
    ≡ some (record {
      server_name = [];
      sessions =
          sessions_named
            (some (units "my session"))
            (map (occupied (listed_window ∷ []) (listed_pane ∷ [])) (listed_session ∷ []));
    })
get_tmux_state-listed_example =
    get_tmux_state-listed one_digit listing none (some (units "my session")) (row ∷ [])
      (window_row ∷ []) (pane_row ∷ []) (listed_session ∷ []) (listed_window ∷ [])
      (listed_pane ∷ []) (row-IsRow, tt) (window_row-IsRow, tt) (pane_row-IsRow, tt) converts.0
      converts.1 converts.2 answers.0 answers.1 answers.2
