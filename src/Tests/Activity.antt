-- ===== src/Tests/Activity.antt =====
-- Polls of the sample board's windows.
use tukan.Prelude.{◌≡◌, refl, some, [], ◌∷◌, if◌then◌else◌}
use mathlib.Core.Option
use tukan.Text.{Text, units, ◌==◌, truthy?}
use tukan.Dict.{Dict, get, values, IsDistinct}
use tukan.Board.Activity.{
  contains, PaneHashMap, detect_changed_panes, get_idle_promotions, build_activity_map,
}
use tukan.Board.Activity.Changes.{has_changed_pane, is_window}
use tukan.Board.Activity.Windows.{expected, seen, get-build_activity_map}
use tukan.Tests.Data.{cards, activity, times}

abbrev before : PaneHashMap
before = (units "%1", units "a") ∷ (units "%2", units "b") ∷ []

abbrev after : PaneHashMap
after = (units "%1", units "c") ∷ (units "%2", units "b") ∷ (units "%5", units "d") ∷ []

abbrev pane_to_window : Dict Text
pane_to_window = (units "%1", units "@1") ∷ (units "%2", units "@2") ∷ (units "%5", units "@5") ∷ []

after-IsDistinct : IsDistinct after
unfolding get ◌==◌
after-IsDistinct = (refl, (refl, (refl, tt)))

activity-IsDistinct : IsDistinct activity
unfolding get ◌==◌
activity-IsDistinct = (refl, (refl, tt))

detects : detect_changed_panes before after ≡ units "%1" ∷ []
unfolding detect_changed_panes get ◌==◌
detects = refl

promotes : get_idle_promotions cards times 100000 30000 ≡ units "aaaa-1" ∷ []
unfolding get_idle_promotions ◌==◌ get
promotes = refl

get-build_activity_map_example :
    get
      (units "@1")
      (build_activity_map (units "%1" ∷ []) pane_to_window (some (units "@2")) activity 100000)
    ≡ (let entry =
          expected
            (has_changed_pane pane_to_window (units "@1") (units "%1" ∷ []))
            (contains (units "@1") (values pane_to_window))
            100000
            (get (units "@1") activity) in
        if is_window (units "@1") (truthy? (some (units "@2")))
        then Option.map seen entry
        else entry)
get-build_activity_map_example =
    get-build_activity_map (units "%1" ∷ []) pane_to_window (some (units "@2")) activity 100000
      (units "@1") activity-IsDistinct
