-- ===== src/Launch/Panes.antt =====
-- The panes that the launcher collects from the sessions, and the window of each.
use tukan.Prelude.{
  ◌≡◌, refl, sym, ap, ap₂, ◌∙◌, Bool, true, false, ◌||◌, Option, none, some, List, [], ◌∷◌, ◌++◌,
  map, any, if◌then◌else◌,
}
use tukan.Text.{Text, ◌==◌}
use tukan.Dict.{Dict, get, set}
use tukan.Dict.Laws.{get-set}
use tukan.Tmux.{TmuxPane, TmuxWindow, TmuxSession}
use tukan.Tmux.Panes.{
  pane_ids_of, owner, or_before, or_before-none, or_before_assoc, owner-cons, owner-append,
  pane_ids_of-append,
}
use tukan.Board.Derive.Once.{all_windows}
use tukan.Launch.{panes_of_windows, panes_of_sessions, pane_to_window_from}

-- the last window that a list of panes with their windows gives for a pane
abbrev listed_owner : Text → List (Text × Text) → Option Text
listed_owner pane_id [] = none
listed_owner pane_id ((p, w) ∷ panes) =
    or_before (listed_owner pane_id panes) (if p == pane_id then some w else none)

get-pane_to_window_from :
    (result : Dict Text) (panes : List (Text × Text)) (pane_id : Text)
    → get pane_id (pane_to_window_from result panes)
      ≡ or_before (listed_owner pane_id panes) (get pane_id result)
unfolding pane_to_window_from
get-pane_to_window_from result [] pane_id = refl
get-pane_to_window_from result ((p, w) ∷ panes) pane_id =
    get-pane_to_window_from (set p w result) panes pane_id
    ∙ ap (or_before (listed_owner pane_id panes))
        (get-set p pane_id w result ∙ here (p == pane_id) w (get pane_id result))
    ∙ or_before_assoc (listed_owner pane_id panes) (if p == pane_id then some w else none)
        (get pane_id result)
  where
    here :
        (b : Bool) (w : Text) (before : Option Text)
        → (if b then some w else before) ≡ or_before (if b then some w else none) before
    here true w before = refl
    here false w before = refl

listed_owner-append :
    (pane_id : Text) (xs ys : List (Text × Text))
    → listed_owner pane_id (xs ++ ys)
      ≡ or_before (listed_owner pane_id ys) (listed_owner pane_id xs)
listed_owner-append pane_id [] ys = sym (or_before-none (listed_owner pane_id ys))
listed_owner-append pane_id ((p, w) ∷ xs) ys =
    let here = if p == pane_id then some w else none in
    ap (λ o. or_before o here) (listed_owner-append pane_id xs ys)
    ∙ sym (or_before_assoc (listed_owner pane_id ys) (listed_owner pane_id xs) here)

listed_owner-map :
    (pane_id window_id : Text) (panes : List TmuxPane)
    → listed_owner pane_id (map (λ (pane : TmuxPane). (pane.id, window_id)) panes)
      ≡ (if any (λ (pane : TmuxPane). pane.id == pane_id) panes then some window_id else none)
listed_owner-map pane_id window_id [] = refl
listed_owner-map pane_id window_id (pane ∷ panes) =
    ap (λ o. or_before o (if pane.id == pane_id then some window_id else none))
      (listed_owner-map pane_id window_id panes)
    ∙ either (any (λ (p : TmuxPane). p.id == pane_id) panes) (pane.id == pane_id)
  where
    either :
        (a b : Bool)
        → or_before (if a then some window_id else none) (if b then some window_id else none)
          ≡ (if b || a then some window_id else none)
    either true true = refl
    either true false = refl
    either false true = refl
    either false false = refl

listed_owner-windows :
    (pane_id : Text) (windows : List TmuxWindow)
    → listed_owner pane_id (panes_of_windows windows) ≡ owner pane_id windows
unfolding panes_of_windows owner
listed_owner-windows pane_id [] = refl
listed_owner-windows pane_id (win ∷ windows) =
    listed_owner-append pane_id (map (λ (pane : TmuxPane). (pane.id, win.id)) win.panes)
      (panes_of_windows windows)
    ∙ ap₂ or_before (listed_owner-windows pane_id windows)
        (listed_owner-map pane_id win.id win.panes)
    ∙ sym (owner-cons pane_id win windows)

listed_owner-sessions :
    (pane_id : Text) (sessions : List TmuxSession)
    → listed_owner pane_id (panes_of_sessions sessions) ≡ owner pane_id (all_windows sessions)
unfolding panes_of_sessions all_windows owner
listed_owner-sessions pane_id [] = refl
listed_owner-sessions pane_id (session ∷ sessions) =
    listed_owner-append pane_id (panes_of_windows session.windows) (panes_of_sessions sessions)
    ∙ ap₂ or_before (listed_owner-sessions pane_id sessions)
        (listed_owner-windows pane_id session.windows)
    ∙ sym (owner-append pane_id session.windows (all_windows sessions))

ids-windows :
    (windows : List TmuxWindow)
    → map (λ (p : Text × Text). p.0) (panes_of_windows windows) ≡ pane_ids_of windows
unfolding panes_of_windows pane_ids_of
ids-windows [] = refl
ids-windows (win ∷ windows) = go win.panes (ids-windows windows)
  where
    go :
        (panes : List TmuxPane)
        → map (λ (p : Text × Text). p.0) (panes_of_windows windows) ≡ pane_ids_of windows
        → map
            (λ (p : Text × Text). p.0)
            (map (λ (pane : TmuxPane). (pane.id, win.id)) panes ++ panes_of_windows windows)
          ≡ map (λ (pane : TmuxPane). pane.id) panes ++ pane_ids_of windows
    go [] h = h
    go (pane ∷ panes) h = ap (λ l. pane.id ∷ l) (go panes h)

map-append :
    (xs ys : List (Text × Text))
    → map (λ (p : Text × Text). p.0) (xs ++ ys)
      ≡ map (λ (p : Text × Text). p.0) xs ++ map (λ (p : Text × Text). p.0) ys
map-append [] ys = refl
map-append (x ∷ xs) ys = ap (λ l. x.0 ∷ l) (map-append xs ys)

pub ids-sessions :
    (sessions : List TmuxSession)
    → map (λ (p : Text × Text). p.0) (panes_of_sessions sessions)
      ≡ pane_ids_of (all_windows sessions)
unfolding panes_of_sessions all_windows pane_ids_of
ids-sessions [] = refl
ids-sessions (session ∷ sessions) =
    map-append (panes_of_windows session.windows) (panes_of_sessions sessions)
    ∙ ap₂ ◌++◌ (ids-windows session.windows) (ids-sessions sessions)
    ∙ sym (pane_ids_of-append session.windows (all_windows sessions))

pub get-pane_to_window :
    (sessions : List TmuxSession) (pane_id : Text)
    → get pane_id (pane_to_window_from [] (panes_of_sessions sessions))
      ≡ owner pane_id (all_windows sessions)
unfolding get
get-pane_to_window sessions pane_id =
    get-pane_to_window_from [] (panes_of_sessions sessions) pane_id
    ∙ or_before-none (listed_owner pane_id (panes_of_sessions sessions))
    ∙ listed_owner-sessions pane_id sessions
