-- ===== src/Tests/Sessions.antt =====
-- The names of sessions, and a refresh of an old session in the directory of another project.
use tukan.Prelude.{◌≡◌, refl, none, some, [], ◌∷◌, ◌||◌}
use tukan.Text.{Text, units, ◌==◌}
use tukan.Dict.{get, has}
use tukan.Board.Activity.{contains, add}
use tukan.State.Migrate.{saved, migrate_config}
use tukan.State.Store.{
  Files, legacy, runtime, no_runtime, read_registry, lookup_project_dir, read_session_state,
}
use tukan.State.Listing.{leq, insert, sort, list_session_names}
use tukan.State.Listing.Names.{IsSorted, list_session_names-IsSorted}
use tukan.Cli.Sessions.{Surroundings, refresh_from}
use tukan.Cli.Sessions.Takeover.{refresh_takes_cwd}
use tukan.Tests.Data.{config, server}
use tukan.Tests.State.{as_id, always, no_files, old_session}

-- one session of the present format, and one of an older format that is not registered
abbrev mixed_files : Files
mixed_files = record no_files {
  registry = some ((units "main", record { project_dir = units "/src" }) ∷ []);
  project_cards = (units "/src", some (saved config)) ∷ [];
  session_files = (units "main", runtime no_runtime) ∷ (units "Old", legacy old_session) ∷ [];
}

lists_both : list_session_names mixed_files ≡ units "Old" ∷ units "main" ∷ []
unfolding list_session_names sort insert leq add ◌==◌ read_registry
lists_both = refl

list_session_names-IsSorted_example :
    IsSorted (list_session_names mixed_files)
    × ((name : Text)
        → contains name (list_session_names mixed_files)
          ≡ (has name (read_registry mixed_files) || has name mixed_files.session_files))
list_session_names-IsSorted_example = list_session_names-IsSorted mixed_files

abbrev surroundings : Surroundings
surroundings = record {
  now = 100000;
  server_name = none;
  tmux = λ session_name. server;
  cwd = units "/src";
  base = units "src";
  current = none;
}

not_registered : lookup_project_dir (units "Old") mixed_files ≡ none
unfolding lookup_project_dir read_registry get ◌==◌
not_registered = refl

in_its_file : get (units "Old") mixed_files.session_files ≡ some (legacy old_session)
unfolding get ◌==◌
in_its_file = refl

has_cards : get (units "/src") mixed_files.project_cards ≡ some (some (saved config))
unfolding get ◌==◌
has_cards = refl

refresh_takes_cwd_example :
    let migrate = migrate_config 5000 as_id in
    ((read_session_state migrate always (units "Old") none mixed_files).0
      ≡ some (record {
        board = migrate old_session.board;
        working_dir = old_session.working_dir;
        ephemeral = old_session.ephemeral;
      }))
    × ((after : Files) × (refresh_from migrate always surroundings
            (some (units "Old") ∷ [])
            mixed_files
          ≡ some after)
        × (get (units "Old") after.session_files ≡ some (runtime no_runtime))
        × (lookup_project_dir (units "Old") after ≡ some (units "/src")))
refresh_takes_cwd_example =
    refresh_takes_cwd (migrate_config 5000 as_id) always surroundings (units "Old") mixed_files
      old_session (saved config) refl refl not_registered in_its_file has_cards
