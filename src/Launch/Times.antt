-- ===== src/Launch/Times.antt =====
-- The times of change that the interface starts with.
use tukan.Prelude.{
  ℕ, ◌≡◌, refl, sym, ap, ap₂, ◌∙◌, inl, inr, Bool, true, false, not, ◌&&◌, ◌||◌, Option, none, some,
  List, [], ◌∷◌, map, arith, any, if◌then◌else◌, or_else, Bool-cases,
}
use tukan.Text.{Text, truthy?}
use tukan.Text.Equality.{eq_iff}
use tukan.Dict.{Dict, get, keys, IsDistinct}
use tukan.Dict.Extension.{map_values}
use tukan.Tmux.{TmuxServer, TmuxSession, TmuxWindow}
use tukan.Tmux.Panes.{pane_ids_of, owner, is_the, is_other_pane, has_other_pane}
use tukan.Board.Derive.Once.{all_windows}
use tukan.Board.Activity.Hashes.{compute_pane_hashes-eq-map, differs-eq-was_other}
use tukan.Board.Activity.{PaneHashMap, contains, add_truthy, differs, compute_pane_hashes}
use tukan.Board.Activity.Changes.{is_window, contains-add}
use tukan.State.{SessionState}
use tukan.Cli.Refresh.{is_nonempty}
use tukan.Launch.Panes.{ids-sessions, get-pane_to_window}
use tukan.Launch.{
  panes_of_sessions, pane_to_window_from, stale_windows_from, reset_times, ephemeral_of, launch,
}

-- The pane has another hash than the saved one, and is in the window, in the terms of the code.
abbrev is_stale_pane : Dict Text → Dict Text → Text → Text × Text → Bool
is_stale_pane saved pane_to_window window_id (pane_id, hash) =
    differs (get pane_id saved) hash && is_window window_id (truthy? (get pane_id pane_to_window))

any-ext :
    (p q : Text × Text → Bool) (xs : List (Text × Text))
    → ((x : Text × Text) → p x ≡ q x)
    → any p xs ≡ any q xs
any-ext p q [] h = refl
any-ext p q (x ∷ xs) h = ap₂ ◌||◌ (h x) (any-ext p q xs h)

is_window-eq-is_the : (w : Text) (o : Option Text) → is_window w o ≡ is_the o w
is_window-eq-is_the w none = refl
is_window-eq-is_the w (some v) = refl

is_stale_pane-eq-other :
    (saved : Dict Text) (sessions : List TmuxSession) (window_id : Text) (pane : Text × Text)
    → is_stale_pane saved (pane_to_window_from [] (panes_of_sessions sessions)) window_id pane
      ≡ is_other_pane saved (all_windows sessions) window_id pane
is_stale_pane-eq-other saved sessions window_id (pane_id, hash) =
    ap₂ ◌&&◌ (differs-eq-was_other (get pane_id saved) hash) (
      ap (λ o. is_window window_id (truthy? o)) (get-pane_to_window sessions pane_id)
      ∙ is_window-eq-is_the window_id (truthy? (owner pane_id (all_windows sessions))))

contains-add_truthy :
    (o : Option Text) (window_id : Text) (windows : List Text)
    → contains window_id (add_truthy o windows)
      ≡ (contains window_id windows || is_window window_id o)
contains-add_truthy none window_id windows = ground arith
contains-add_truthy (some w) window_id windows = contains-add w window_id windows

contains-stale_windows_from :
    (saved pane_to_window : Dict Text) (window_id : Text) (windows : List Text)
    (fresh : PaneHashMap)
    → contains window_id (stale_windows_from saved pane_to_window windows fresh)
      ≡ (contains window_id windows || any (is_stale_pane saved pane_to_window window_id) fresh)
unfolding stale_windows_from
contains-stale_windows_from saved p2w window_id windows [] = ground arith
contains-stale_windows_from saved p2w window_id windows ((pane_id, hash) ∷ fresh) =
    elim (Bool-cases (differs (get pane_id saved) hash)) [
      | inl changed ↦ rw changed (
          contains-stale_windows_from saved p2w window_id
            (add_truthy (truthy? (get pane_id p2w)) windows) fresh
          ∙ ground (arith, contains-add_truthy (truthy? (get pane_id p2w)) window_id windows))
      | inr same ↦
          rw same (contains-stale_windows_from saved p2w window_id windows fresh ∙ ground arith)
    ]

get-reset_times :
    (is_stale : Text → Bool) (now : ℕ) (times : Dict ℕ) (window_id : Text) (time : ℕ)
    → get window_id times ≡ some time
    → get window_id (reset_times is_stale now times)
      ≡ some (if is_stale window_id then now else time)
unfolding reset_times get
get-reset_times is_stale now [] window_id time h = cc
get-reset_times is_stale now ((w, t) ∷ times) window_id time h =
    ground (arith, eq_iff w window_id, get-reset_times is_stale now times window_id time)

if_not : (a b : ℕ) (test : Bool) → (if test then a else b) ≡ (if not test then b else a)
if_not a b true = refl
if_not a b false = refl

module _ (hash : Text → Text) (capture : List Text → Dict Text) (now : ℕ) (tmux : TmuxServer)
    (session : Option SessionState) where
  abbrev windows : List TmuxWindow
  windows = all_windows tmux.sessions

  abbrev saved_hashes : Dict Text
  saved_hashes = or_else (ephemeral_of session).pane_hashes []

  -- The saved hashes can be compared with the panes that are there.
  abbrev pub has_hashes : Bool
  has_hashes = is_nonempty (pane_ids_of windows) && is_nonempty (keys saved_hashes)

  -- the hash of each captured pane
  abbrev hashes : PaneHashMap
  hashes = map_values hash (capture (pane_ids_of windows))

  -- A pane of the window has changed since its hash was saved.
  abbrev pub is_stale_window : Text → Bool
  is_stale_window window_id = has_other_pane saved_hashes hashes windows window_id

  stale-eq-stale_window :
      (window_id : Text)
      → IsDistinct (capture (pane_ids_of windows))
      → any
          (is_stale_pane saved_hashes
            (pane_to_window_from [] (panes_of_sessions tmux.sessions))
            window_id)
          (compute_pane_hashes hash
            (capture (map (λ (p : Text × Text). p.0) (panes_of_sessions tmux.sessions))))
        ≡ is_stale_window window_id
  stale-eq-stale_window window_id d =
      let test =
        is_stale_pane saved_hashes (pane_to_window_from [] (panes_of_sessions tmux.sessions))
          window_id in
      ap (λ ids. any test (compute_pane_hashes hash (capture ids))) (ids-sessions tmux.sessions)
      ∙ ap (any test) (compute_pane_hashes-eq-map hash (capture (pane_ids_of windows)) d)
      ∙ any-ext test (is_other_pane saved_hashes windows window_id) hashes
          (is_stale_pane-eq-other saved_hashes tmux.sessions window_id)

  -- The interface starts with the saved time of change of a window if there are saved hashes and panes,
  -- and no pane of the window has a saved hash that differs from that of its content now; it starts with
  -- the present time otherwise. (A pane without a saved hash keeps the time.) No pane is captured twice.
  pub get-launch :
      (window_id : Text) (time : ℕ)
      → IsDistinct (capture (pane_ids_of windows))
      → get window_id (or_else (ephemeral_of session).last_change_times []) ≡ some time
      → get window_id (launch hash capture now tmux session).last_change_times
        ≡ some (if has_hashes && not (is_stale_window window_id) then time else now)
  unfolding launch
  get-launch window_id time d h =
      let panes = panes_of_sessions tmux.sessions in
      let ids = map (λ (p : Text × Text). p.0) panes in
      let fresh = compute_pane_hashes hash (capture ids) in
      let same_ids =
        ap (λ l. is_nonempty l && is_nonempty (keys saved_hashes)) (ids-sessions tmux.sessions) in
      elim (Bool-cases (is_nonempty ids && is_nonempty (keys saved_hashes))) [
        | inr none_saved ↦
            rw (sym same_ids ∙ none_saved, none_saved)
              (get-reset_times (λ w. true) now (or_else (ephemeral_of session).last_change_times [])
                window_id time h)
        | inl compared ↦
            let stale = stale_windows_from saved_hashes (pane_to_window_from [] panes) [] fresh in
            let found =
              contains-stale_windows_from saved_hashes (pane_to_window_from [] panes) window_id []
                fresh
              ∙ stale-eq-stale_window window_id d in
            rw (sym same_ids ∙ compared, compared)
              (get-reset_times (λ w. contains w stale) now
                  (or_else (ephemeral_of session).last_change_times []) window_id time h
                ∙ ap (λ b. some (if b then now else time)) found
                ∙ ap some (if_not now time (is_stale_window window_id)))
      ]
