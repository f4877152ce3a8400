-- ===== src/Board/Activity/Windows.antt =====
-- What `buildActivityMap` says of each window.
use tukan.Prelude.{
  ℕ, ◌≡◌, refl, inl, inr, Bool, true, false, Option, none, some, List, [], ◌∷◌, arith,
  if◌then◌else◌, Option-cases,
}
use tukan.Text.{Text, truthy?}
use tukan.Text.Equality.{eq_iff}
use tukan.Dict.{Dict, get, set, values, IsDistinct}
use tukan.Dict.Laws.{get-set}
use mathlib.Core.Option
use tukan.Board.Activity.{
  ActivityEntry, ActivityMap, contains, carry_forward, add_baseline, mark_changed, clear_active,
  changed_windows, build_activity_map,
}
use tukan.Board.Activity.Changes.{has_changed_pane, changed_windows-has_changed_pane, is_window}

abbrev calm : ActivityEntry → ActivityEntry
calm entry = record entry { spinning = false }

abbrev pub seen : ActivityEntry → ActivityEntry
seen entry = record entry { has_activity = false; spinning = false }

abbrev first_seen : ℕ → ActivityEntry
first_seen now = record { has_activity = false; last_change_time = now; spinning = false }

abbrev changed_at : ℕ → ActivityEntry
changed_at now = record { has_activity = true; last_change_time = now; spinning = true }

abbrev or_later {ℓ} : {A : Type ℓ} → Option A → Option A → Option A
or_later none later = later
or_later (some a) later = some a

get-carry_forward :
    (result prev : ActivityMap) (w : Text)
    → IsDistinct prev
    → get w (carry_forward result prev) ≡ or_later (Option.map calm (get w prev)) (get w result)
unfolding carry_forward get
get-carry_forward result [] w d = refl
get-carry_forward result ((i, entry) ∷ prev) w (fresh, d) = ground (
  arith,
  get-carry_forward (set i (calm entry) result) prev w d,
  get-set i w (calm entry) result,
  eq_iff i w,
)

carried_before :
    (prev : ActivityMap) (w : Text)
    → IsDistinct prev
    → get w (carry_forward [] prev) ≡ Option.map calm (get w prev)
unfolding get
carried_before prev w d = ground (arith, get-carry_forward [] prev w d)

get-add_baseline :
    (now : ℕ) (result : ActivityMap) (windows : List Text) (w : Text)
    → get w (add_baseline now result windows)
      ≡ or_later (get w result) (if contains w windows then some (first_seen now) else none)
unfolding add_baseline
get-add_baseline now result [] w = ground arith
get-add_baseline now result (i ∷ windows) w = elim (Option-cases (get i result)) [
  | inl new ↦ rw new (
      ground (
        arith,
        get-add_baseline now (set i (first_seen now) result) windows w,
        get-set i w (first_seen now) result,
        eq_iff i w,
      ))
  | inr (entry, there) ↦
      rw there (ground (arith, get-add_baseline now result windows w, eq_iff i w))
]

get-mark_changed :
    (now : ℕ) (result : ActivityMap) (windows : List Text) (w : Text)
    → get w (mark_changed now result windows)
      ≡ (if contains w windows then some (changed_at now) else get w result)
unfolding mark_changed
get-mark_changed now result [] w = refl
get-mark_changed now result (i ∷ windows) w = ground (
  arith,
  get-mark_changed now (set i (changed_at now) result) windows w,
  get-set i w (changed_at now) result,
  eq_iff i w,
)

get-clear_active :
    (active : Option Text) (result : ActivityMap) (w : Text)
    → get w (clear_active active result)
      ≡ (if is_window w active then Option.map seen (get w result) else get w result)
unfolding clear_active
get-clear_active none result w = refl
get-clear_active (some i) result w = elim (Option-cases (get i result)) [
  | inl missing ↦ ground (arith, eq_iff i w)
  | inr (entry, there) ↦ ground (arith, get-set i w (seen entry) result, eq_iff i w)
]

-- The entry of a window after a poll, from its entry before it.
abbrev pub expected : Bool → Bool → ℕ → Option ActivityEntry → Option ActivityEntry
expected changed listed now prev =
    if changed
    then some (changed_at now)
    else or_later (Option.map calm prev) (if listed then some (first_seen now) else none)

-- A window with a changed pane becomes active and spins; any other keeps its entry and stops
-- spinning; one that is seen for the first time starts idle at the time of the poll; the window that
-- the user looks at is then shown without activity. The time of the last change moves only for a
-- changed window. No window stands twice in the entries before the poll.
pub get-build_activity_map :
    (changed_panes : List Text) (pane_to_window : Dict Text) (active_window_id : Option Text)
    (prev : ActivityMap) (now : ℕ) (w : Text)
    → IsDistinct prev
    → get w (build_activity_map changed_panes pane_to_window active_window_id prev now) ≡ (
        let entry =
          expected
            (has_changed_pane pane_to_window w changed_panes)
            (contains w (values pane_to_window))
            now
            (get w prev) in
        if is_window w (truthy? active_window_id) then Option.map seen entry else entry)
unfolding build_activity_map
get-build_activity_map changed_panes pane_to_window active_window_id prev now w d =
    let carried = carry_forward [] prev in
    let listed = add_baseline now carried (values pane_to_window) in
    let marked = mark_changed now listed (changed_windows pane_to_window changed_panes) in
    rw (
      get-clear_active (truthy? active_window_id) marked w,
      get-mark_changed now listed (changed_windows pane_to_window changed_panes) w,
      get-add_baseline now carried (values pane_to_window) w,
      carried_before prev w d,
      changed_windows-has_changed_pane pane_to_window changed_panes w,
    )
