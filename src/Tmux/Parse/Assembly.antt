-- ===== src/Tmux/Parse/Assembly.antt =====
-- How `assembleServer` groups windows and panes.
use tukan.Prelude.{
  fun_ext, ◌≡◌, refl, sym, ap, ◌∙◌, inl, inr, List, [], ◌∷◌, ◌++◌, map, if◌then◌else◌, Bool-cases,
  append-nil, append_assoc, or_else,
}
use tukan.Text.{Text, ◌==◌}
use tukan.Text.Equality.{eq_iff}
use tukan.Dict.{Dict, get, set}
use tukan.Dict.Laws.{get-set}
use tukan.Tmux.{TmuxPane, TmuxWindow, TmuxSession}
use tukan.Tmux.Parse.{group_from, with_panes, with_windows, assemble_server}

-- The items of the rows with a key, in the order of the rows.
abbrev pub with_key : {A : Type 0} → Text → List (Text × A) → List A
with_key key [] = []
with_key key ((k, item) ∷ rows) =
    let rest = with_key key rows in if k == key then item ∷ rest else rest

get-group_from :
    {A : Type 0} (groups : Dict (List A)) (rows : List (Text × A)) (key : Text)
    → or_else (get key (group_from groups rows)) []
      ≡ or_else (get key groups) [] ++ with_key key rows
unfolding group_from
get-group_from groups [] key = sym (append-nil _)
get-group_from groups ((k, item) ∷ rows) key =
    let here = or_else (get k groups) [] in
    get-group_from (set k (here ++ item ∷ []) groups) rows key ∙ elim (Bool-cases (k == key)) [
      | inl same ↦
          let e = (eq_iff k key).0 same in
          rw (get-set, same) (rw e (append_assoc _ (item ∷ []) (with_key key rows)))
      | inr other ↦ rw (get-set, other) refl
    ]

-- the window with the panes that are listed under it, and the session with its windows
abbrev pub filled : List (Text × TmuxPane) → Text × TmuxWindow → Text × TmuxWindow
filled panes (session_id, window) = (session_id, record window { panes = with_key window.id panes })

abbrev pub occupied : List (Text × TmuxWindow) → List (Text × TmuxPane) → TmuxSession → TmuxSession
occupied windows panes session = record session {
  windows = with_key session.id (map (filled panes) windows);
}

with_panes-eq-filled :
    (panes : List (Text × TmuxPane)) (row : Text × TmuxWindow)
    → with_panes (group_from [] panes) row ≡ filled panes row
unfolding with_panes get
with_panes-eq-filled panes (session_id, window) =
    ap (λ l. (session_id, record window { panes = l })) (get-group_from [] panes window.id)

with_windows-eq-occupied :
    (windows : List (Text × TmuxWindow)) (panes : List (Text × TmuxPane)) (session : TmuxSession)
    → with_windows (group_from [] (map (filled panes) windows)) session
      ≡ occupied windows panes session
unfolding with_windows get
with_windows-eq-occupied windows panes session =
    ap (λ l. record session { windows = l })
      (get-group_from [] (map (filled panes) windows) session.id)

-- Every session holds the windows that are listed under its id and no other, and every window the
-- panes that are listed under its id, in the order of the listings, whatever the listings say.
pub assemble_server-eq-occupied :
    (server_name : Text) (sessions : List TmuxSession) (windows : List (Text × TmuxWindow))
    (panes : List (Text × TmuxPane))
    → assemble_server server_name sessions windows panes
      ≡ record { server_name = server_name; sessions = map (occupied windows panes) sessions }
unfolding assemble_server
assemble_server-eq-occupied server_name sessions windows panes =
    rw (fun_ext (with_panes-eq-filled panes))
      (rw (fun_ext (with_windows-eq-occupied windows panes)) refl)
