-- ===== src/Board/Activity/Changes.antt =====
-- Which panes `detectChangedPanes` reports, and which windows those are of.
use tukan.Prelude.{
  any-append, ◌≡◌, inl, inr, Bool, false, ◌||◌, Option, none, some, List, [], ◌∷◌, arith,
  Bool-cases, Option-cases, any,
}
use tukan.Text.{Text, ◌==◌, truthy?}
use tukan.Text.Equality.{eq_iff}
use tukan.Dict.{Dict, get, IsDistinct}
use tukan.Board.Activity.{
  PaneHashMap, contains, add, differs, changed_panes_from, detect_changed_panes,
  changed_windows_from, changed_windows,
}

pub contains-add : (x y : Text) (xs : List Text) → contains y (add x xs) ≡ (contains y xs || x == y)
unfolding add
contains-add x y xs = elim (Bool-cases (contains x xs)) [
  | inl there ↦ rw there (ground (arith, eq_iff x y))
  | inr new ↦ rw (new, any-append) (ground arith)
]

-- A pane has changed if it has a hash now and had another one before.
abbrev pub has_changed : PaneHashMap → PaneHashMap → Text → Bool
has_changed prev next pane_id = elim (get pane_id next) [
  | none ↦ false
  | some hash ↦ differs (get pane_id prev) hash
]

changed_panes_from-has_changed :
    (prev : PaneHashMap) (changed : List Text) (next : PaneHashMap) (pane_id : Text)
    → IsDistinct next
    → contains pane_id (changed_panes_from prev changed next)
      ≡ (contains pane_id changed || has_changed prev next pane_id)
unfolding changed_panes_from get
changed_panes_from-has_changed prev changed [] pane_id d = ground arith
changed_panes_from-has_changed prev changed ((p, hash) ∷ next) pane_id (fresh, d) = ground (
  arith,
  changed_panes_from-has_changed prev changed next pane_id d,
  changed_panes_from-has_changed prev (add p changed) next pane_id d,
  contains-add p pane_id changed,
  eq_iff p pane_id,
)

-- A pane is reported as changed exactly when it had a hash at the last poll and has another one now:
-- never when it is seen for the first time, and never when it is gone. No pane has two hashes now.
pub detect_changed_panes-has_changed :
    (prev next : PaneHashMap) (pane_id : Text)
    → IsDistinct next
    → contains pane_id (detect_changed_panes prev next) ≡ has_changed prev next pane_id
unfolding detect_changed_panes
detect_changed_panes-has_changed prev next pane_id d =
    changed_panes_from-has_changed prev [] next pane_id d

abbrev pub is_window : Text → Option Text → Bool
is_window window_id none = false
is_window window_id (some w) = w == window_id

-- A pane of the window is among the changed ones.
abbrev pub has_changed_pane : Dict Text → Text → List Text → Bool
has_changed_pane pane_to_window window_id panes =
    any (λ pane_id. is_window window_id (truthy? (get pane_id pane_to_window))) panes

changed_windows_from-has_changed_pane :
    (pane_to_window : Dict Text) (windows panes : List Text) (window_id : Text)
    → contains window_id (changed_windows_from pane_to_window windows panes)
      ≡ (contains window_id windows || has_changed_pane pane_to_window window_id panes)
unfolding changed_windows_from
changed_windows_from-has_changed_pane pane_to_window windows [] window_id = ground arith
changed_windows_from-has_changed_pane pane_to_window windows (pane_id ∷ panes) window_id =
    elim (Option-cases (truthy? (get pane_id pane_to_window))) [
      | inl nothing ↦
          rw nothing (changed_windows_from-has_changed_pane pane_to_window windows panes window_id)
      | inr (w, e) ↦ rw e (
          ground (
            arith,
            changed_windows_from-has_changed_pane pane_to_window (add w windows) panes window_id,
            contains-add w window_id windows,
          ))
    ]

-- A window has changed exactly when it is the known window of a changed pane.
pub changed_windows-has_changed_pane :
    (pane_to_window : Dict Text) (panes : List Text) (window_id : Text)
    → contains window_id (changed_windows pane_to_window panes)
      ≡ has_changed_pane pane_to_window window_id panes
unfolding changed_windows
changed_windows-has_changed_pane pane_to_window panes window_id =
    changed_windows_from-has_changed_pane pane_to_window [] panes window_id
