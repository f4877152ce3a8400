-- ===== src/Board/Preview.antt =====
-- src/board/pane-preview.ts: the last lines of a window's content.
pub mod Laws
use tukan.Prelude.{
  ℕ, ◌-◌, Option, none, some, List, [], ◌∷◌, map, if◌then◌else◌, nat_eq, length, drop, keep,
}
use tukan.Text.{Text, split, trim_end, is_truthy, truthy?}
use tukan.Dict.{Dict, get, set, has}

abbrev pub preview_max_lines : ℕ
preview_max_lines = 3

-- the lines that hold more than spaces, without the spaces at their ends
unfoldable pub non_blank : Text → List Text
non_blank raw_content = keep is_truthy (map trim_end (split 10 raw_content))

-- `lines.slice(-maxLines)`, which is all of them for 0
unfoldable pub last_lines : ℕ → List Text → List Text
last_lines max_lines lines =
    if nat_eq max_lines 0 then lines else drop (length lines - max_lines) lines

-- `if (nonBlank.length === 0) return []; return nonBlank.slice(-maxLines);`
unfoldable pub preview_of : List Text → ℕ → List Text
unfolding last_lines
preview_of [] max_lines = []
preview_of (line ∷ lines) max_lines = last_lines max_lines (line ∷ lines)

unfoldable pub extract_preview_lines : Text → ℕ → List Text
unfolding non_blank preview_of
extract_preview_lines raw_content max_lines = preview_of (non_blank raw_content) max_lines

abbrev pub set_if_any : Text → List Text → Dict (List Text) → Dict (List Text)
set_if_any window_id [] result = result
set_if_any window_id (line ∷ lines) result = set window_id (line ∷ lines) result

-- one round of the loop over the contents
unfoldable pub add_preview : ℕ → Option Text → Text → Dict (List Text) → Dict (List Text)
unfolding extract_preview_lines
add_preview max_lines none content result = result
add_preview max_lines (some window_id) content result =
    if has window_id result
    then result
    else set_if_any window_id (extract_preview_lines content max_lines) result

unfoldable pub previews_from : ℕ → Dict Text → Dict (List Text) → Dict Text → Dict (List Text)
unfolding add_preview
previews_from max_lines pane_to_window result [] = result
previews_from max_lines pane_to_window result ((pane_id, content) ∷ contents) =
    previews_from max_lines pane_to_window
      (add_preview max_lines (truthy? (get pane_id pane_to_window)) content result) contents

unfoldable pub build_preview_map : Dict Text → Dict Text → ℕ → Dict (List Text)
unfolding previews_from
build_preview_map pane_contents pane_to_window max_lines =
    previews_from max_lines pane_to_window [] pane_contents
