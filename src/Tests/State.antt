-- ===== src/Tests/State.antt =====
-- Boards of older formats, and the files of a session.
use tukan.Prelude.{◌≡◌, refl, ◌≢◌, Bool, true, false, none, some, [], ◌∷◌, if◌then◌else◌}
use tukan.Text.{Text, units, ◌==◌, ascii_lower}
use tukan.Dict.{get}
use tukan.Dict.Laws.{All-get}
use tukan.Board.{Card, default_commands}
use tukan.State.{SessionState}
use tukan.State.Migrate.{
  RawBoard, unified, split_up, saved, migrate_config, command_slug, custom_of,
}
use tukan.State.Migrate.Entries.{IsCurrent}
use tukan.State.Migrate.Current.{HasDistinctCards, migrate_config-IsCurrent}
use tukan.State.Store.{
  LegacySession, legacy, runtime, Files, lookup_project_dir, read_registry, no_runtime,
  read_session_state, write_session_state,
}
use tukan.State.Store.Laws.{read-write_session_state}
use tukan.State.Store.Lazy.{migrated, read_session_state_twice}
use tukan.Cli.Refresh.{refresh_session}
use tukan.Cli.Context.{Context, last_change_times_of, refresh_context}
use tukan.Cli.Context.Forgets.{refresh_context_forgets}
use tukan.Tests.Data.{parser_card, docs_card, config, times}
use tukan.Tests.Cards.{cards-IsDistinct}

abbrev pub as_id : Text → Text
as_id window_id = window_id

-- two cards with commands of their own that begin alike
abbrev train_card : Card
train_card = record parser_card {
  command = units "custom";
  custom_command = some (units "python scripts/train.py");
}

abbrev test_card : Card
test_card = record docs_card {
  command = units "custom";
  custom_command = some (units "python scripts/test.py");
}

abbrev scripts : RawBoard
scripts = unified [] ((units "aaaa-1", train_card) ∷ (units "bbbb-3", test_card) ∷ []) none none

abbrev windows_only : RawBoard
windows_only = split_up none none (some ((units "@1", units "2") ∷ [])) none

scripts-IsDistinct : HasDistinctCards scripts
unfolding get ◌==◌
scripts-IsDistinct = (refl, (refl, tt))

-- The second command is taken for the first: their ids are equal.
same_slug :
    command_slug (units "python scripts/train.py") ≡ command_slug (units "python scripts/test.py")
unfolding command_slug ascii_lower
same_slug = refl

migrate_config-IsCurrent_example : IsCurrent (migrate_config 5000 as_id scripts)
migrate_config-IsCurrent_example = migrate_config-IsCurrent 5000 as_id scripts scripts-IsDistinct

no_custom : (k : Text) (card : Card) → get k config.cards ≡ some card → custom_of card ≡ none
unfolding ◌==◌
no_custom k card h =
    All-get (λ (e : Text × Card). custom_of e.1 ≡ none) k card config.cards
      (refl, (refl, (refl, (refl, tt)))) h

pub config-IsCurrent : IsCurrent config
unfolding ◌==◌
config-IsCurrent = record {
  done = refl;
  commands = some_commands;
  distinct = cards-IsDistinct;
  converted = no_custom;
}
  where
    some_commands : default_commands ≢ []
    some_commands e = cc

abbrev session : SessionState
session = record { board = config; working_dir = units "/src"; ephemeral = no_runtime }

abbrev pub no_files : Files
no_files = record { registry = none; project_cards = []; session_files = []; state_file = none }

abbrev pub always : Text → Bool
always dir = true

read-write_session_state_example :
    (after : Files) × (write_session_state
        (migrate_config 5000 as_id)
        always
        (units "main")
        session
        no_files
      ≡ some after)
    × (read_session_state (migrate_config 5000 as_id) always (units "main") none after
        ≡ (some session, after))
read-write_session_state_example =
    read-write_session_state always 5000 as_id (units "main") none session no_files refl refl
      config-IsCurrent

abbrev pub old_session : LegacySession
old_session = record { board = windows_only; working_dir = units "/gone"; ephemeral = no_runtime }

abbrev old_files : Files
old_files = record no_files { session_files = (units "main", legacy old_session) ∷ [] }

abbrev never : Text → Bool
never dir = false

unregistered : lookup_project_dir (units "main") old_files ≡ none
unfolding lookup_project_dir read_registry get
unregistered = refl

old_file : get (units "main") old_files.session_files ≡ some (legacy old_session)
unfolding get ◌==◌
old_file = refl

no_cards : get (units "/gone") old_files.project_cards ≡ none
unfolding get
no_cards = refl

read_session_state_twice_example :
    let run = read_session_state (migrate_config 5000 as_id) never (units "main") none in
    ((run old_files).0 ≡ some (migrated never 5000 as_id old_session))
    × (run (run old_files).1
        ≡ (if false then some (migrated never 5000 as_id old_session) else none, (run old_files).1))
read_session_state_twice_example =
    read_session_state_twice never 5000 as_id (units "main") old_session old_files tt refl
      unregistered old_file no_cards

abbrev pub context : Context
context = record {
  server_name = none;
  session_name = units "main";
  config = config;
  working_dir = units "/src";
}

-- the files of that session, with the times of change of its windows
abbrev pub busy_files : Files
busy_files = record no_files {
  registry = some ((units "main", record { project_dir = units "/src" }) ∷ []);
  project_cards = (units "/src", some (saved config)) ∷ [];
  session_files =
      (units "main", runtime (record no_runtime { last_change_times = some times })) ∷ [];
}

refresh_context_forgets_example :
    let run = read_session_state (migrate_config 5000 as_id) always (units "main") none in
    let board = refresh_session 100000 (last_change_times_of (run busy_files).0) config in
    (after : Files) × (refresh_context (migrate_config 5000 as_id) always 100000 context busy_files
      ≡ some after)
    × ((run after).0
        ≡ some (record { board = board; working_dir = units "/src"; ephemeral = no_runtime }))
    × (refresh_session 200000 (last_change_times_of (run after).0) board ≡ board)
refresh_context_forgets_example =
    refresh_context_forgets always 5000 as_id 100000 200000 context busy_files refl refl
      config-IsCurrent
