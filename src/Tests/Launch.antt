-- ===== src/Tests/Launch.antt =====
-- The launch of the sample session, and routes.
use tukan.Prelude.{◌≡◌, refl, ◌&&◌, not, some, [], ◌∷◌, if◌then◌else◌}
use tukan.Text.{units, ◌==◌, starts_with}
use tukan.Dict.{get, IsDistinct}
use tukan.Tmux.Panes.{pane_ids_of}
use tukan.Board.Derive.Once.{all_windows}
use tukan.State.{SessionState}
use tukan.State.Store.{no_runtime}
use tukan.Launch.{launch, command_line, interface, route}
use tukan.Launch.Times.{has_hashes, is_stale_window, get-launch}
use tukan.Tests.Data.{config, server, times}
use tukan.Tests.Polls.{same_text, capture}

-- The first pane was saved with another content.
abbrev session : SessionState
session = record {
  board = config;
  working_dir = units "/src";
  ephemeral = record no_runtime {
    last_change_times = some times;
    pane_hashes = some ((units "%1", units "$ ls") ∷ (units "%2", units "$ done") ∷ []);
  };
}

time_stored : get (units "@1") times ≡ some 1000
unfolding get ◌==◌
time_stored = refl

captures_once : IsDistinct (capture (pane_ids_of (all_windows server.sessions)))
unfolding get ◌==◌
captures_once = (refl, (refl, tt))

get-launch_example :
    get (units "@1") (launch same_text capture 100000 server (some session)).last_change_times
    ≡ some (
        if has_hashes same_text capture 100000 server (some session)
          && not (is_stale_window same_text capture 100000 server (some session) (units "@1"))
        then 1000
        else 100000)
get-launch_example =
    get-launch same_text capture 100000 server (some session) (units "@1") 1000 captures_once
      time_stored

routes :
    (route (units "list" ∷ []) ≡ command_line)
    × (route (units "--help" ∷ []) ≡ command_line)
    × (route (units "work" ∷ []) ≡ interface (some (units "work")))
unfolding route ◌==◌ starts_with
routes = (refl, refl, refl)
