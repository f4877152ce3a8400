-- ===== src/Ui/Poll/Scans.antt =====
-- What the scan of the server in a poll finds: the panes of all windows but the own one, and the window
-- of each.
use tukan.Prelude.{
  ◌≡◌, refl, sym, subst, ap, ◌∙◌, inl, inr, Bool, true, false, ◌&&◌, ◌||◌, Option, none, some, List,
  [], ◌∷◌, ◌++◌, map, any, if◌then◌else◌, Bool-cases, append_assoc, append-nil,
}
use tukan.Text.{Text, ◌==◌, truthy?}
use tukan.Dict.{get, set}
use tukan.Dict.Laws.{get-set}
use tukan.Tmux.{TmuxPane, TmuxWindow, TmuxSession, TmuxServer}
use tukan.Tmux.Panes.{
  pane_ids_of, owner, or_before, or_before-none, or_before_assoc, owner-append, pane_ids_of-append,
  has_pane, without_own, without_own-append,
}
use tukan.Board.Derive.{is_own}
use tukan.Board.Derive.Once.{all_windows}
use tukan.Ui.Poll.{
  Scan, is_session, scan_panes, scan_window, scan_windows, scan_sessions, scan_server,
}

-- The scan has gone on by these windows.
pub record Adds (before after : Scan) (windows : List TmuxWindow) : Type 0 where
  pub ids : after.pane_ids ≡ before.pane_ids ++ pane_ids_of windows
  pub at :
      (pane_id : Text)
      → get pane_id after.pane_to_window
        ≡ or_before (owner pane_id windows) (get pane_id before.pane_to_window)

Adds-nil : (scan : Scan) → Adds scan scan []
unfolding pane_ids_of owner
Adds-nil scan = record { ids = sym (append-nil scan.pane_ids); at = λ p. refl }

Adds-append :
    (a b c : Scan) (xs ys : List TmuxWindow) → Adds a b xs → Adds b c ys → Adds a c (xs ++ ys)
Adds-append a b c xs ys h k = record {
  ids =
      k.ids
      ∙ ap (λ l. l ++ pane_ids_of ys) h.ids
      ∙ append_assoc a.pane_ids (pane_ids_of xs) (pane_ids_of ys)
      ∙ ap (λ l. a.pane_ids ++ l) (sym (pane_ids_of-append xs ys));
  at = λ p.
      k.at p
      ∙ ap (or_before (owner p ys)) (h.at p)
      ∙ or_before_assoc (owner p ys) (owner p xs) (get p a.pane_to_window)
      ∙ ap (λ o. or_before o (get p a.pane_to_window)) (sym (owner-append p xs ys));
}

ids-scan_panes :
    (window_id : Text) (scan : Scan) (panes : List TmuxPane)
    → (scan_panes window_id scan panes).pane_ids
      ≡ scan.pane_ids ++ map (λ (pane : TmuxPane). pane.id) panes
unfolding scan_panes
ids-scan_panes window_id scan [] = sym (append-nil scan.pane_ids)
ids-scan_panes window_id scan (pane ∷ panes) =
    ids-scan_panes window_id
      (record scan {
        pane_ids = scan.pane_ids ++ pane.id ∷ [];
        pane_to_window = set pane.id window_id scan.pane_to_window;
      })
      panes
    ∙ append_assoc scan.pane_ids (pane.id ∷ []) (map (λ (pane : TmuxPane). pane.id) panes)

at-scan_panes :
    (window_id : Text) (scan : Scan) (panes : List TmuxPane) (p : Text)
    → get p (scan_panes window_id scan panes).pane_to_window
      ≡ or_before
          (if any (λ (pane : TmuxPane). pane.id == p) panes then some window_id else none)
          (get p scan.pane_to_window)
unfolding scan_panes
at-scan_panes window_id scan [] p = refl
at-scan_panes window_id scan (pane ∷ panes) p =
    at-scan_panes window_id
      (record scan {
        pane_ids = scan.pane_ids ++ pane.id ∷ [];
        pane_to_window = set pane.id window_id scan.pane_to_window;
      })
      panes p
    ∙ ap
        (or_before (if any (λ (pane : TmuxPane). pane.id == p) panes then some window_id else none))
        (get-set pane.id p window_id scan.pane_to_window)
    ∙ either (pane.id == p) (any (λ (pane : TmuxPane). pane.id == p) panes)
        (get p scan.pane_to_window)
  where
    either :
        (a b : Bool) (before : Option Text)
        → or_before (if b then some window_id else none) (if a then some window_id else before)
          ≡ or_before (if a || b then some window_id else none) before
    either true true before = refl
    either true false before = refl
    either false true before = refl
    either false false before = refl

scan_panes-Adds :
    (scan : Scan) (win : TmuxWindow) → Adds scan (scan_panes win.id scan win.panes) (win ∷ [])
unfolding pane_ids_of owner
scan_panes-Adds scan win = record {
  ids =
      ids-scan_panes win.id scan win.panes
      ∙ ap (λ l. scan.pane_ids ++ l)
          (sym (append-nil (map (λ (pane : TmuxPane). pane.id) win.panes)));
  at = at-scan_panes win.id scan win.panes;
}

is_own-eq-has_pane :
    (self_pane_id : Option Text) (win : TmuxWindow)
    → is_own (truthy? self_pane_id) win ≡ has_pane self_pane_id win
unfolding has_pane
is_own-eq-has_pane none win = refl
is_own-eq-has_pane (some []) win = refl
is_own-eq-has_pane (some (c ∷ s)) win = refl

module _ (self_pane_id own_id : Option Text) where
  scan_window-Adds :
      (session_id : Text) (scan : Scan) (win : TmuxWindow)
      → Adds scan
          (scan_window (truthy? self_pane_id) own_id session_id scan win)
          (without_own self_pane_id (win ∷ []))
  unfolding scan_window without_own
  scan_window-Adds session_id scan win = elim (Bool-cases (has_pane self_pane_id win)) [
    | inl own ↦ rw (is_own-eq-has_pane self_pane_id win, own) (Adds-nil scan)
    | inr other ↦
        rw (is_own-eq-has_pane self_pane_id win, other)
          (active (win.active && is_session own_id session_id))
  ]
    where
      active :
          (b : Bool)
          → Adds scan
              (scan_panes win.id
                (if b then record scan { active_window_id = some win.id } else scan)
                win.panes)
              (win ∷ [])
      active true =
          let h = scan_panes-Adds (record scan { active_window_id = some win.id }) win in
          record { ids = h.ids; at = h.at }
      active false = scan_panes-Adds scan win

  scan_windows-Adds :
      (session_id : Text) (scan : Scan) (windows : List TmuxWindow)
      → Adds scan
          (scan_windows (truthy? self_pane_id) own_id session_id scan windows)
          (without_own self_pane_id windows)
  unfolding scan_windows without_own
  scan_windows-Adds session_id scan [] = Adds-nil scan
  scan_windows-Adds session_id scan (win ∷ windows) =
      let next = scan_window (truthy? self_pane_id) own_id session_id scan win in
      subst (Adds scan (scan_windows (truthy? self_pane_id) own_id session_id next windows))
        (sym (without_own-append self_pane_id (win ∷ []) windows))
        (Adds-append scan next _ (without_own self_pane_id (win ∷ []))
          (without_own self_pane_id windows) (scan_window-Adds session_id scan win)
          (scan_windows-Adds session_id next windows))

  scan_sessions-Adds :
      (scan : Scan) (sessions : List TmuxSession)
      → Adds scan
          (scan_sessions (truthy? self_pane_id) own_id scan sessions)
          (without_own self_pane_id (all_windows sessions))
  unfolding scan_sessions without_own all_windows
  scan_sessions-Adds scan [] = Adds-nil scan
  scan_sessions-Adds scan (session ∷ sessions) =
      let next = scan_windows (truthy? self_pane_id) own_id session.id scan session.windows in
      subst (Adds scan (scan_sessions (truthy? self_pane_id) own_id next sessions))
        (sym (without_own-append self_pane_id session.windows (all_windows sessions)))
        (Adds-append scan next _ (without_own self_pane_id session.windows)
          (without_own self_pane_id (all_windows sessions))
          (scan_windows-Adds session.id scan session.windows) (scan_sessions-Adds next sessions))

-- The windows that a poll looks at: those of all sessions, but for the own one.
abbrev pub polled : Option Text → TmuxServer → List TmuxWindow
polled self_pane_id server = without_own self_pane_id (all_windows server.sessions)

-- A scan finds the panes of these windows, and the last window of each pane.
pub scan_server-finds :
    (self_pane_id : Option Text) (server : TmuxServer)
    → ((scan_server self_pane_id server).pane_ids ≡ pane_ids_of (polled self_pane_id server))
      × ((pane_id : Text)
          → get pane_id (scan_server self_pane_id server).pane_to_window
            ≡ owner pane_id (polled self_pane_id server))
unfolding scan_server get
scan_server-finds self_pane_id server =
    let h =
      scan_sessions-Adds self_pane_id _
        (record { pane_ids = []; pane_to_window = []; active_window_id = none }) server.sessions in
    (h.ids, λ p. h.at p ∙ or_before-none (owner p (polled self_pane_id server)))
