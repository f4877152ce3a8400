-- ===== src/Tmux/Parse.antt =====
-- src/tmux/parse.ts: the output of the tmux list commands, and the server that it describes. A
-- result `none` stands for records with an `undefined` field, made from a line with too few fields;
-- the formats that the program asks for give every line all its fields.
pub mod Assembly
pub mod Lines
use tukan.Prelude.{ℕ, ◌+◌, Option, none, some, List, [], ◌∷◌, ◌++◌, map, if◌then◌else◌, or_else}
use tukan.Text.{Text, units, ◌==◌, trim, split, is_truthy}
use tukan.Dict.{Dict, get, set}
use tukan.Tmux.{TmuxPane, TmuxWindow, TmuxSession, TmuxServer}

abbrev pub tab : ℕ
tab = 9

abbrev pub newline : ℕ
newline = 10

-- `lines.map(parseLine)`, of which each may lack a field
unfoldable pub map? : {A B : Type 0} → (A → Option B) → List A → Option (List B)
map? f [] = some []
map? f (line ∷ lines) = elim (f line) [
  | none ↦ none
  | some a ↦ elim (map? f lines) [ none ↦ none | some rest ↦ some (a ∷ rest) ]
]

-- `if (!output.trim()) return []; return output.trim().split("\n").map(parseLine);`
pub parse_lines : {A : Type 0} → (Text → Option A) → Text → Option (List A)
unfolding map?
parse_lines f output =
    if is_truthy (trim output) then map? f (split newline (trim output)) else some []

unfoldable pub session_of : List Text → Option TmuxSession
session_of (id ∷ name ∷ attached ∷ more) =
    some (record { id = id; name = name; attached = attached == units "1"; windows = [] })
session_of _ = none

pub parse_session_line : Text → Option TmuxSession
unfolding session_of
parse_session_line line = session_of (split tab line)

unfoldable pub parse_sessions : Text → Option (List TmuxSession)
unfolding parse_lines parse_session_line
parse_sessions output = parse_lines parse_session_line output

-- `number` is JavaScript's `Number` on a text.
module _ (number : Text → Option ℕ) where
  -- a window with the id of its session
  unfoldable pub window_of : List Text → Option (Text × TmuxWindow)
  window_of (session_id ∷ id ∷ index ∷ name ∷ active ∷ more) = some (
    session_id,
    record { id = id; index = number index; name = name; active = active == units "1"; panes = [] },
  )
  window_of _ = none

  pub parse_window_line : Text → Option (Text × TmuxWindow)
  unfolding window_of
  parse_window_line line = window_of (split tab line)

  unfoldable pub parse_windows : Text → Option (List (Text × TmuxWindow))
  unfolding parse_lines parse_window_line
  parse_windows output = parse_lines parse_window_line output

  -- a pane with the id of its window
  unfoldable pub pane_of : List Text → Option (Text × TmuxPane)
  pane_of (window_id ∷ id ∷ index ∷ active ∷ command ∷ pid ∷ working_dir ∷ width ∷ height ∷ more) =
      some (
        window_id,
        record {
          id = id;
          index = number index;
          active = active == units "1";
          command = command;
          pid = number pid;
          working_dir = working_dir;
          width = number width;
          height = number height;
        },
      )
  pane_of _ = none

  pub parse_pane_line : Text → Option (Text × TmuxPane)
  unfolding pane_of
  parse_pane_line line = pane_of (split tab line)

  unfoldable pub parse_panes : Text → Option (List (Text × TmuxPane))
  unfolding parse_lines parse_pane_line
  parse_panes output = parse_lines parse_pane_line output

-- `const list = map.get(key) ?? []; list.push(item); map.set(key, list);` for each row
pub group_from : {A : Type 0} → Dict (List A) → List (Text × A) → Dict (List A)
group_from groups [] = groups
group_from groups ((key, item) ∷ rows) =
    group_from (set key (or_else (get key groups) [] ++ item ∷ []) groups) rows

pub with_panes : Dict (List TmuxPane) → Text × TmuxWindow → Text × TmuxWindow
with_panes panes_by_window (session_id, window) =
    (session_id, record window { panes = or_else (get window.id panes_by_window) [] })

pub with_windows : Dict (List TmuxWindow) → TmuxSession → TmuxSession
with_windows windows_by_session session = record session {
  windows = or_else (get session.id windows_by_session) [];
}

-- (The loop over the windows fills in their panes and groups them in one pass.)
unfoldable pub assemble_server :
    Text → List TmuxSession → List (Text × TmuxWindow) → List (Text × TmuxPane) → TmuxServer
unfolding group_from with_panes with_windows
assemble_server server_name sessions windows panes =
    let panes_by_window = group_from [] panes in
    let windows_by_session = group_from [] (map (with_panes panes_by_window) windows) in
    record { server_name = server_name; sessions = map (with_windows windows_by_session) sessions }
