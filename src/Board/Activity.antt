-- ===== src/Board/Activity.antt =====
-- src/board/activity.ts: which panes changed, what that says of their windows, and which cards move
-- between In Progress and Review.
pub mod Hashes
pub mod Changes
pub mod Moves
pub mod Windows
use tukan.Prelude.{
  ℕ, ◌+◌, Bool, true, false, not, Option, none, some, List, [], ◌∷◌, ◌++◌, ◌*◌, leb, if◌then◌else◌,
  any,
}
use tukan.Text.{Text, ◌==◌, truthy?}
use tukan.Dict.{Dict, get, set, has, values}
use tukan.Board.{Card, col_in_progress, col_review}

pub record ActivityEntry : Type 0 where
  pub has_activity : Bool
  pub last_change_time : ℕ
  pub spinning : Bool

abbrev pub ActivityMap : Type 0
ActivityMap = Dict ActivityEntry

abbrev pub PaneHashMap : Type 0
PaneHashMap = Dict Text

-- A `Set<string>`: a member is added once, at the end.
abbrev pub contains : Text → List Text → Bool
contains x xs = any (λ y. y == x) xs

unfoldable pub add : Text → List Text → List Text
add x xs = if contains x xs then xs else xs ++ x ∷ []

-- `hash` is the SHA-1 digest of `hashContent`.
pub pane_hashes_from : (Text → Text) → PaneHashMap → Dict Text → PaneHashMap
pane_hashes_from hash result [] = result
pane_hashes_from hash result ((pane_id, content) ∷ contents) =
    pane_hashes_from hash (set pane_id (hash content) result) contents

unfoldable pub compute_pane_hashes : (Text → Text) → Dict Text → PaneHashMap
unfolding pane_hashes_from
compute_pane_hashes hash pane_contents = pane_hashes_from hash [] pane_contents

-- `prevHash !== undefined && prevHash !== hash`
abbrev pub differs : Option Text → Text → Bool
differs none hash = false
differs (some prev_hash) hash = not (prev_hash == hash)

pub changed_panes_from : PaneHashMap → List Text → PaneHashMap → List Text
changed_panes_from prev changed [] = changed
changed_panes_from prev changed ((pane_id, hash) ∷ next) =
    changed_panes_from prev
      (if differs (get pane_id prev) hash then add pane_id changed else changed) next

unfoldable pub detect_changed_panes : PaneHashMap → PaneHashMap → List Text
unfolding changed_panes_from add
detect_changed_panes prev next = changed_panes_from prev [] next

abbrev pub idle_promote_ms : ℕ
idle_promote_ms = 30 * 1000

-- `now - lastChange >= thresholdMs`, which may be negative on the left
abbrev pub is_idle : ℕ → ℕ → ℕ → Bool
is_idle now threshold_ms last_change = leb (last_change + threshold_ms) now

-- A loop over `Object.entries(cards)` that skips the cards outside a column and those with no
-- window, and collects the ids of the others that pass a test of their window.
pub collect : Text → (Text → Bool) → Dict Card → List Text
collect column test [] = []
collect column test ((card_id, card) ∷ cards) =
    let rest = collect column test cards in
    if not (card.column_id == column) then rest else elim (truthy? card.window_id) [
      | none ↦ rest
      | some window_id ↦ if test window_id then card_id ∷ rest else rest
    ]

abbrev pub passes : (ℕ → Bool) → Option ℕ → Bool
passes test none = false
passes test (some last_change) = test last_change

unfoldable pub get_idle_promotions : Dict Card → Dict ℕ → ℕ → ℕ → List Text
unfolding collect
get_idle_promotions cards last_change_times now threshold_ms =
    collect col_in_progress
      (λ window_id. passes (is_idle now threshold_ms) (get window_id last_change_times)) cards

unfoldable pub get_review_demotions : Dict Card → List Text → List Text
unfolding collect
get_review_demotions cards changed_window_ids =
    collect col_review (λ window_id. contains window_id changed_window_ids) cards

unfoldable pub get_review_demotions_by_time : Dict Card → Dict ℕ → ℕ → ℕ → List Text
unfolding collect
get_review_demotions_by_time cards last_change_times now threshold_ms =
    collect col_review
      (λ window_id.
        passes (λ last_change. not (is_idle now threshold_ms last_change))
          (get window_id last_change_times))
      cards

-- `if (windowId) changedWindows.add(windowId)`
abbrev pub add_truthy : Option Text → List Text → List Text
add_truthy none windows = windows
add_truthy (some window_id) windows = add window_id windows

pub changed_windows_from : Dict Text → List Text → List Text → List Text
changed_windows_from pane_to_window windows [] = windows
changed_windows_from pane_to_window windows (pane_id ∷ panes) =
    changed_windows_from pane_to_window (add_truthy (truthy? (get pane_id pane_to_window)) windows)
      panes

-- the windows of the changed panes
unfoldable pub changed_windows : Dict Text → List Text → List Text
unfolding changed_windows_from add
changed_windows pane_to_window panes = changed_windows_from pane_to_window [] panes

pub carry_forward : ActivityMap → ActivityMap → ActivityMap
carry_forward result [] = result
carry_forward result ((window_id, entry) ∷ prev) =
    carry_forward (set window_id (record entry { spinning = false }) result) prev

pub add_baseline : ℕ → ActivityMap → List Text → ActivityMap
add_baseline now result [] = result
add_baseline now result (window_id ∷ windows) =
    add_baseline now
      (if has window_id result
        then result
        else set window_id
            (record { has_activity = false; last_change_time = now; spinning = false }) result)
      windows

pub mark_changed : ℕ → ActivityMap → List Text → ActivityMap
mark_changed now result [] = result
mark_changed now result (window_id ∷ windows) =
    mark_changed now
      (set window_id (record { has_activity = true; last_change_time = now; spinning = true })
        result)
      windows

pub clear_entry : Text → ActivityMap → ActivityMap
clear_entry window_id result = elim (get window_id result) [
  | none ↦ result
  | some entry ↦ set window_id (record entry { has_activity = false; spinning = false }) result
]

pub clear_active : Option Text → ActivityMap → ActivityMap
unfolding clear_entry
clear_active none result = result
clear_active (some window_id) result = clear_entry window_id result

-- (The loop over `allWindows`, a set, is a loop over the values: a second visit changes nothing.)
unfoldable pub build_activity_map :
    List Text → Dict Text → Option Text → ActivityMap → ℕ → ActivityMap
unfolding changed_windows carry_forward add_baseline mark_changed clear_active
build_activity_map changed_panes pane_to_window active_window_id prev_activity now =
    clear_active (truthy? active_window_id) (
      mark_changed now (add_baseline now (carry_forward [] prev_activity) (values pane_to_window))
        (changed_windows pane_to_window changed_panes))
