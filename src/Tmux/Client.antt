-- ===== src/Tmux/Client.antt =====
-- src/tmux/client.ts: what the program asks tmux, and what it makes of the answers.
pub mod Listings
use tukan.Prelude.{ℕ, Option, none, some, List, [], ◌∷◌, ◌++◌, or_else, keep}
use tukan.Text.{Text, units, ◌==◌, trim, join, truthy?}
use tukan.Dict.{Dict, set}
use tukan.Tmux.{TmuxSession, TmuxServer}
use tukan.Tmux.Parse.{tab, parse_sessions, parse_windows, parse_panes, assemble_server}
use tukan.Tmux.Create.{server_args}
use tukan.Tmux.Start.{World}

unfoldable pub tmux_args :
    Option Text → (subcommand : Text) → (format_fields extra : List Text) → List Text
tmux_args server_name subcommand format_fields extra =
    server_args (or_else server_name [])
    ++ (subcommand ∷ extra ++ (units "-F" ∷ join (tab ∷ []) format_fields ∷ []))

-- `windowTarget` and `paneTarget`
abbrev pub window_target : Option Text → List Text
window_target none = units "-a" ∷ []
window_target (some session_name) = units "-t" ∷ session_name ∷ []

abbrev pub pane_target : Option Text → List Text
pane_target none = units "-a" ∷ []
pane_target (some session_name) = units "-s" ∷ units "-t" ∷ session_name ∷ []

unfoldable pub session_query : Option Text → List Text
unfolding tmux_args
session_query server_name =
    tmux_args server_name (units "list-sessions")
      (units "#{session_id}" ∷ units "#{session_name}" ∷ units "#{session_attached}" ∷ []) []

unfoldable pub window_query : Option Text → Option Text → List Text
unfolding tmux_args
window_query server_name session_name =
    tmux_args server_name (units "list-windows")
      (units "#{session_id}"
        ∷ units "#{window_id}"
        ∷ units "#{window_index}"
        ∷ units "#{window_name}"
        ∷ units "#{window_active}"
        ∷ [])
      (window_target (truthy? session_name))

unfoldable pub pane_query : Option Text → Option Text → List Text
unfolding tmux_args
pane_query server_name session_name =
    tmux_args server_name (units "list-panes")
      (units "#{window_id}"
        ∷ units "#{pane_id}"
        ∷ units "#{pane_index}"
        ∷ units "#{pane_active}"
        ∷ units "#{pane_current_command}"
        ∷ units "#{pane_pid}"
        ∷ units "#{pane_current_path}"
        ∷ units "#{pane_width}"
        ∷ units "#{pane_height}"
        ∷ [])
      (pane_target (truthy? session_name))

-- the sessions with the name, if there is one
abbrev pub in_scope : Option Text → List TmuxSession → List TmuxSession
in_scope none sessions = sessions
in_scope (some session_name) sessions = keep (λ (s : TmuxSession). s.name == session_name) sessions

abbrev pub no_server : Option Text → TmuxServer
no_server server_name = record { server_name = or_else server_name []; sessions = [] }

infixl 5 ◌>>=◌
abbrev ◌>>=◌ : {A B : Type 0} → Option A → (A → Option B) → Option B
none >>= f = none
(some a) >>= f = f a

-- `number` is JavaScript's `Number` on a text.
module _ (number : Text → Option ℕ) where
  -- the body of the `try`, behind its three queries
  unfoldable pub read_listings :
      Option Text → Option Text → (sessions_raw windows_raw panes_raw : Text) → Option TmuxServer
  read_listings server_name session_name sessions_raw windows_raw panes_raw = do
    sessions ← parse_sessions sessions_raw
    windows ← parse_windows number windows_raw
    panes ← parse_panes number panes_raw
    let server = assemble_server (or_else server_name []) sessions windows panes
    some (record server { sessions = in_scope (truthy? session_name) server.sessions })

  -- An error of tmux is a server with no session.
  abbrev pub server_of :
      Option Text
      → Option Text
      → (sessions_raw windows_raw panes_raw : Option Text) → Option TmuxServer
  server_of server_name session_name (some sessions_raw) (some windows_raw) (some panes_raw) =
      read_listings server_name session_name sessions_raw windows_raw panes_raw
  server_of server_name session_name _ _ _ = some (no_server server_name)

  -- A result `none` stands for records with an `undefined` field, as in parsing.
  unfoldable pub get_tmux_state : World → Option Text → Option Text → Option TmuxServer
  unfolding read_listings
  get_tmux_state w server_name session_name =
      server_of server_name session_name (w.tmux (session_query server_name))
        (w.tmux (window_query server_name session_name))
        (w.tmux (pane_query server_name session_name))

abbrev pub trimmed_truthy : Option Text → Option Text
trimmed_truthy none = none
trimmed_truthy (some out) = truthy? (some (trim out))

-- `pane_id` is the variable `TMUX_PANE`.
unfoldable pub detect_current_session : World → (pane_id server_name : Option Text) → Option Text
detect_current_session w pane_id server_name = elim (truthy? pane_id) [
  | none ↦ none
  | some id ↦ trimmed_truthy (
      w.tmux (
        server_args (or_else server_name [])
        ++ (units "display-message" ∷ units "-t" ∷ id ∷ units "-p" ∷ units "#{session_name}" ∷ [])))
]

abbrev pub capture_args : Option Text → Text → List Text
capture_args server_name pane_id =
    server_args (or_else server_name [])
    ++ (units "capture-pane" ∷ units "-p" ∷ units "-t" ∷ pane_id ∷ [])

abbrev pub add_capture : Option Text → Text → Dict Text → Dict Text
add_capture none pane_id result = result
add_capture (some out) pane_id result = set pane_id out result

-- The captures of the panes that exist; here they are answered in the order of the panes.
unfoldable pub capture_from : World → Option Text → Dict Text → List Text → Dict Text
capture_from w server_name result [] = result
capture_from w server_name result (pane_id ∷ pane_ids) =
    capture_from w server_name
      (add_capture (w.tmux (capture_args server_name pane_id)) pane_id result) pane_ids

unfoldable pub capture_all_pane_contents : World → Option Text → List Text → Dict Text
unfolding capture_from
capture_all_pane_contents w server_name pane_ids = capture_from w server_name [] pane_ids
