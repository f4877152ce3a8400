-- ===== src/Tests/Cli.antt =====
-- A refresh of the sample board, and the watch of a pane.
use tukan.Prelude.{◌≡◌, refl, true, List, [], ◌∷◌}
use tukan.Text.{Text, units, ◌==◌, split, join, trim}
use tukan.Dict.Extension.{map_values}
use tukan.Cli.Refresh.{refresh_session}
use tukan.Cli.Refresh.Laws.{advance, refresh_session-eq-advance}
use tukan.Cli.Watch.{
  strip_trailing_blanks, Output, json, start, snapshot, idle, closed, window_closed, Poll, gone,
  content, watch_card_pane,
}
use tukan.Cli.Watch.Laws.{
  Paced, AreStripped, contents, changes, snapshots, watch_card_pane-Paced,
  snapshots-watch_card_pane,
}
use tukan.Tests.Data.{config, times}
use tukan.Tests.Cards.{cards-IsDistinct}

refresh_session-eq-advance_example :
    refresh_session 100000 times config
    ≡ record config { cards = map_values (advance 100000 times) config.cards }
refresh_session-eq-advance_example = refresh_session-eq-advance 100000 times config cards-IsDistinct

-- The digest of a text is the text.
abbrev same_text : Text → Text
same_text s = s

abbrev polls : List Poll
polls =
    content (units "$ make") 2000
    ∷ content (units "$ make") 3000
    ∷ content (units "$ make") 7500
    ∷ content (units "$ done") 8000
    ∷ gone 9000
    ∷ []

watches :
    watch_card_pane same_text true 5000 1000 polls
    ≡ json (start 1000)
      ∷ json (snapshot (units "$ make") 2000)
      ∷ json (idle 5500 7500)
      ∷ json (snapshot (units "$ done") 8000)
      ∷ json (closed window_closed 9000)
      ∷ []
unfolding watch_card_pane ◌==◌ strip_trailing_blanks join split trim
watches = refl

watch_card_pane-Paced_example :
    (out : List Output) × (watch_card_pane same_text true 5000 1000 polls ≡ json (start 1000) ∷ out)
    × Paced 5000 1000 out
watch_card_pane-Paced_example = watch_card_pane-Paced same_text 5000 1000 polls

snapshots-watch_card_pane_example :
    AreStripped
      (changes same_text [] (contents polls))
      (snapshots (watch_card_pane same_text true 5000 1000 polls))
snapshots-watch_card_pane_example = snapshots-watch_card_pane same_text 5000 1000 polls
