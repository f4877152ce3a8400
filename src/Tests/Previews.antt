-- ===== src/Tests/Previews.antt =====
-- Previews of small contents.
use tukan.Prelude.{◌≡◌, refl, [], ◌∷◌, ◌++◌}
use tukan.Text.{Text, units, split, trim_end, ◌==◌}
use tukan.Dict.{Dict, get, set}
use tukan.Board.Preview.{extract_preview_lines, build_preview_map}
use tukan.Board.Preview.Laws.{first_preview, get-build_preview_map}

-- four lines, one of them blank
abbrev screen : Text
screen = units "one" ++ 10 ∷ units "two  " ++ 10 ∷ units " " ++ 10 ∷ units "three"

extracts : extract_preview_lines screen 2 ≡ units "two" ∷ units "three" ∷ []
unfolding extract_preview_lines split trim_end
extracts = refl

abbrev contents : Dict Text
contents = (units "%1", units " ") ∷ (units "%2", units "ready") ∷ (units "%3", screen) ∷ []

abbrev windows : Dict Text
windows = (units "%1", units "@1") ∷ (units "%2", units "@1") ∷ (units "%3", units "@1") ∷ []

second_pane : build_preview_map contents windows 3 ≡ (units "@1", units "ready" ∷ []) ∷ []
unfolding build_preview_map split trim_end get set ◌==◌
second_pane = refl

get-build_preview_map_example :
    get (units "@1") (build_preview_map contents windows 3)
    ≡ first_preview 3 windows (units "@1") contents
get-build_preview_map_example = get-build_preview_map contents windows 3 (units "@1")
