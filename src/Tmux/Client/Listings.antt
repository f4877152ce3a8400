-- ===== src/Tmux/Client/Listings.antt =====
-- The server that the listings of tmux describe.
use tukan.Prelude.{
  ℕ, ◌≡◌, ap, ◌∙◌, Option, none, some, List, [], ◌∷◌, ◌++◌, refl, if◌then◌else◌, map, or_else, All,
}
use tukan.Text.{Text, units, join, ◌==◌, truthy?}
use tukan.Tmux.{TmuxPane, TmuxWindow, TmuxSession, TmuxServer}
use tukan.Tmux.Parse.{map?, session_of, window_of, pane_of}
use tukan.Tmux.Parse.Lines.{IsRow, print_lines, print_row, parse_listing}
use tukan.Tmux.Parse.Assembly.{occupied, assemble_server-eq-occupied}
use tukan.Tmux.Start.{World}
use tukan.Tmux.Client.{
  session_query, window_query, pane_query, in_scope, read_listings, get_tmux_state,
}

-- The flags of a named server, and the target of a listing: a named session or all of them.
unfoldable pub server_flags : Option Text → List Text
server_flags none = []
server_flags (some []) = []
server_flags (some (c ∷ s)) = units "-L" ∷ (c ∷ s) ∷ []

unfoldable pub scoped :
    (all_flags : List Text) → (of_session : Text → List Text) → Option Text → List Text
scoped all_flags of_session none = all_flags
scoped all_flags of_session (some []) = all_flags
scoped all_flags of_session (some (c ∷ s)) = of_session (c ∷ s)

abbrev pub all_sessions_args : Option Text → List Text
all_sessions_args server_name =
    server_flags server_name
    ++ (units "list-sessions"
        ∷ units "-F"
        ∷ join (9 ∷ [])
            (units "#{session_id}" ∷ units "#{session_name}" ∷ units "#{session_attached}" ∷ [])
        ∷ [])

abbrev pub list_windows_args : (server_name session_name : Option Text) → List Text
list_windows_args server_name session_name =
    server_flags server_name
    ++ (units "list-windows"
        ∷ (scoped (units "-a" ∷ []) (λ s. units "-t" ∷ s ∷ []) session_name
            ++ (units "-F"
                ∷ join (9 ∷ []) (
                    units "#{session_id}"
                    ∷ units "#{window_id}"
                    ∷ units "#{window_index}"
                    ∷ units "#{window_name}"
                    ∷ units "#{window_active}"
                    ∷ [])
                ∷ [])))

abbrev pub list_panes_args : (server_name session_name : Option Text) → List Text
list_panes_args server_name session_name =
    server_flags server_name
    ++ (units "list-panes"
        ∷ (scoped (units "-a" ∷ []) (λ s. units "-s" ∷ units "-t" ∷ s ∷ []) session_name
            ++ (units "-F"
                ∷ join (9 ∷ []) (
                    units "#{window_id}"
                    ∷ units "#{pane_id}"
                    ∷ units "#{pane_index}"
                    ∷ units "#{pane_active}"
                    ∷ units "#{pane_current_command}"
                    ∷ units "#{pane_pid}"
                    ∷ units "#{pane_current_path}"
                    ∷ units "#{pane_width}"
                    ∷ units "#{pane_height}"
                    ∷ [])
                ∷ [])))

-- The sessions of the given name, or all if no name is given.
pub sessions_named : Option Text → List TmuxSession → List TmuxSession
sessions_named none sessions = sessions
sessions_named (some []) sessions = sessions
sessions_named (some (c ∷ s)) [] = []
sessions_named (some (c ∷ s)) (session ∷ sessions) =
    let rest = sessions_named (some (c ∷ s)) sessions in
    if session.name == c ∷ s then session ∷ rest else rest

session_query-eq-args :
    (server_name : Option Text) → session_query server_name ≡ all_sessions_args server_name
unfolding session_query server_flags join
session_query-eq-args none = refl
session_query-eq-args (some []) = refl
session_query-eq-args (some (c ∷ s)) = refl

window_query-eq-args :
    (server_name session_name : Option Text)
    → window_query server_name session_name ≡ list_windows_args server_name session_name
unfolding window_query server_flags scoped join
window_query-eq-args none none = refl
window_query-eq-args none (some []) = refl
window_query-eq-args none (some (c ∷ s)) = refl
window_query-eq-args (some []) none = refl
window_query-eq-args (some []) (some []) = refl
window_query-eq-args (some []) (some (c ∷ s)) = refl
window_query-eq-args (some (d ∷ t)) none = refl
window_query-eq-args (some (d ∷ t)) (some []) = refl
window_query-eq-args (some (d ∷ t)) (some (c ∷ s)) = refl

pane_query-eq-args :
    (server_name session_name : Option Text)
    → pane_query server_name session_name ≡ list_panes_args server_name session_name
unfolding pane_query server_flags scoped join
pane_query-eq-args none none = refl
pane_query-eq-args none (some []) = refl
pane_query-eq-args none (some (c ∷ s)) = refl
pane_query-eq-args (some []) none = refl
pane_query-eq-args (some []) (some []) = refl
pane_query-eq-args (some []) (some (c ∷ s)) = refl
pane_query-eq-args (some (d ∷ t)) none = refl
pane_query-eq-args (some (d ∷ t)) (some []) = refl
pane_query-eq-args (some (d ∷ t)) (some (c ∷ s)) = refl

in_scope-eq-named :
    (session_name : Option Text) (sessions : List TmuxSession)
    → in_scope (truthy? session_name) sessions ≡ sessions_named session_name sessions
unfolding sessions_named
in_scope-eq-named none sessions = refl
in_scope-eq-named (some []) sessions = refl
in_scope-eq-named (some (c ∷ s)) [] = refl
in_scope-eq-named (some (c ∷ s)) (session ∷ sessions) =
    ap (λ rest. if session.name == c ∷ s then session ∷ rest else rest)
      (in_scope-eq-named (some (c ∷ s)) sessions)

module _ (number : Text → Option ℕ) (w : World) (server_name session_name : Option Text)
    (session_rows window_rows pane_rows : List (List Text)) (sessions : List TmuxSession)
    (windows : List (Text × TmuxWindow)) (panes : List (Text × TmuxPane)) where
  -- Where tmux, asked for its sessions and for the windows and the panes of all of them or of the given
  -- one (with `-t`, for panes `-s -t`), lists rows that have all their fields, the answer is its server: the sessions in the
  -- order of their listing, or only those of the given name, each with the windows that are listed
  -- under its id, and each window with the panes that are listed under its id.
  pub get_tmux_state-listed :
      All IsRow session_rows
      → All IsRow window_rows
      → All IsRow pane_rows
      → map? session_of session_rows ≡ some sessions
      → map? (window_of number) window_rows ≡ some windows
      → map? (pane_of number) pane_rows ≡ some panes
      → w.tmux (all_sessions_args server_name) ≡ some (print_lines (map print_row session_rows))
      → w.tmux (list_windows_args server_name session_name)
        ≡ some (print_lines (map print_row window_rows))
      → w.tmux (list_panes_args server_name session_name)
        ≡ some (print_lines (map print_row pane_rows))
      → get_tmux_state number w server_name session_name
        ≡ some (record {
          server_name = or_else server_name [];
          sessions = sessions_named session_name (map (occupied windows panes) sessions);
        })
  unfolding get_tmux_state read_listings
  get_tmux_state-listed s_rows w_rows p_rows s_of w_of p_of s_out w_out p_out =
      let s = (parse_listing number session_rows s_rows).0 ∙ s_of in
      let ws = (parse_listing number window_rows w_rows).1 ∙ w_of in
      let ps = (parse_listing number pane_rows p_rows).2 ∙ p_of in
      let s_answer = ap w.tmux (session_query-eq-args server_name) ∙ s_out in
      let w_answer = ap w.tmux (window_query-eq-args server_name session_name) ∙ w_out in
      let p_answer = ap w.tmux (pane_query-eq-args server_name session_name) ∙ p_out in
      rw (s_answer, w_answer, p_answer, get_tmux_state)
        (rw (s, ws, ps, read_listings)
          (ap
              (λ (server : TmuxServer).
                some (record server { sessions = in_scope (truthy? session_name) server.sessions }))
              (assemble_server-eq-occupied (or_else server_name []) sessions windows panes)
            ∙ ap (λ l. some (record { server_name = or_else server_name []; sessions = l }))
                (in_scope-eq-named session_name (map (occupied windows panes) sessions))))
