-- ===== src/Tests/Polls.antt =====
-- A poll of the sample board.
use tukan.Prelude.{◌≡◌, refl, true, List, [], ◌∷◌}
use tukan.Text.{Text, units, ◌==◌}
use tukan.Dict.{Dict, get, set, IsDistinct}
use tukan.Dict.Extension.{map_values}
use tukan.Cli.Refresh.{is_nonempty}
use tukan.Tmux.Panes.{pane_ids_of, has_other_pane, has_pane, without_own}
use tukan.Board.Derive.Once.{all_windows}
use tukan.Ui.Poll.Scans.{polled}
use tukan.Ui.Poll.{PollState, scan_server, times_from, poll}
use tukan.Ui.Poll.Laws.{poll_move, poll-expected_move}
use tukan.Tests.Data.{config, server, own_pane, activity}
use tukan.Tests.Cards.{cards-IsDistinct}

abbrev pub same_text : Text → Text
same_text s = s

-- The pane of the first card is as before, and that of the second has changed.
abbrev pub capture : List Text → Dict Text
capture pane_ids = (units "%1", units "$ make") ∷ (units "%2", units "$ done") ∷ []

abbrev before : PollState
before = record {
  pane_hashes = (units "%1", units "$ make") ∷ (units "%2", units "$ wait") ∷ [];
  activity = activity;
  config = config;
}

finds_panes : (scan_server own_pane server).pane_ids ≡ units "%1" ∷ units "%2" ∷ units "%5" ∷ []
unfolding scan_server set ◌==◌
finds_panes = refl

finds_some : is_nonempty (pane_ids_of (polled own_pane server)) ≡ true
unfolding pane_ids_of without_own has_pane all_windows ◌==◌
finds_some = refl

captures_once : IsDistinct (capture (pane_ids_of (polled own_pane server)))
unfolding get ◌==◌
captures_once = (refl, (refl, tt))

poll-expected_move_example :
    let after = (poll same_text capture (units "/src") own_pane 100000 server before).0 in
    (after.pane_hashes ≡ map_values same_text (capture (pane_ids_of (polled own_pane server))))
    × (after.config ≡ record config {
      cards =
          map_values
            (poll_move 100000
              (times_from [] after.activity)
              (has_other_pane before.pane_hashes after.pane_hashes (polled own_pane server)))
            config.cards;
    })
poll-expected_move_example =
    poll-expected_move same_text capture (units "/src") own_pane 100000 server before finds_some
      cards-IsDistinct captures_once
