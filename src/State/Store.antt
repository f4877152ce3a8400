-- ===== src/State/Store.antt =====
-- src/state/store.ts: the sessions in the registry, the projects' card files and the sessions'
-- files. A file is missing, holds what the program can parse, or holds something else.
pub mod Laws
pub mod Lazy
use tukan.Prelude.{Bool, true, false, ◌&&◌, Option, none, some, [], ◌∷◌, if◌then◌else◌, or_else}
use tukan.Text.{Text, ◌==◌, is_truthy, truthy?}
use tukan.Dict.{Dict, get, set, has}
use tukan.Board.{BoardConfig}
use tukan.State.{EphemeralState, RegistryEntry, Registry, SessionState}
use tukan.State.Migrate.{RawBoard, saved}

-- a session as the older formats keep it, with its board inside
pub record LegacySession : Type 0 where
  pub board : RawBoard
  pub working_dir : Text
  pub ephemeral : EphemeralState

-- The JSON in a session's file has a `board` or none.
pub data SessionFile : Type 0 where
  legacy : LegacySession → SessionFile
  runtime : EphemeralState → SessionFile
  unreadable : SessionFile

-- `state.json`, the oldest format: with `sessions`, or JSON without
pub data StateFile : Type 0 where
  with_sessions : Dict LegacySession → StateFile
  no_sessions : StateFile

-- The files that the program reads and writes; `none` is a missing file or one that does not parse.
pub record Files : Type 0 where
  pub registry : Option Registry
  pub project_cards : Dict (Option RawBoard)
  pub session_files : Dict SessionFile
  pub state_file : Option StateFile

abbrev pub no_runtime : EphemeralState
no_runtime = record { last_change_times = none; active_windows = none; pane_hashes = none }

unfoldable pub read_registry : Files → Registry
read_registry files = or_else files.registry []

abbrev pub project_dir_of : Option RegistryEntry → Option Text
project_dir_of none = none
project_dir_of (some entry) = some entry.project_dir

unfoldable pub lookup_project_dir : Text → Files → Option Text
unfolding read_registry
lookup_project_dir session_name files = project_dir_of (get session_name (read_registry files))

abbrev is_current : Option Text → Text → Bool
is_current none project_dir = false
is_current (some dir) project_dir = dir == project_dir

unfoldable pub register_session : Text → Text → Files → Files
unfolding lookup_project_dir read_registry
register_session session_name project_dir files =
    if is_current (lookup_project_dir session_name files) project_dir then files else record files {
      registry =
          some (set session_name (record { project_dir = project_dir }) (read_registry files));
    }

abbrev pub parsed : Option (Option RawBoard) → Option RawBoard
parsed none = none
parsed (some content) = content

unfoldable pub write_project_cards : Text → BoardConfig → Files → Files
write_project_cards project_dir board files = record files {
  project_cards = set project_dir (some (saved board)) files.project_cards;
}

unfoldable pub read_ephemeral_state : Text → Files → EphemeralState
read_ephemeral_state session_name files = elim (get session_name files.session_files) [
  | none ↦ no_runtime
  | some file ↦ elim file [
    | legacy session ↦ no_runtime
    | runtime state ↦ state
    | unreadable ↦ no_runtime
  ]
]

-- (A session name with a slash names a file in a directory that is not there, and the write throws;
-- that error is left out.)
unfoldable pub write_ephemeral_state : Text → EphemeralState → Files → Files
write_ephemeral_state session_name state files = record files {
  session_files = set session_name (runtime state) files.session_files;
}

-- the loop of `migrateLegacyState`, which leaves the files that are there
unfoldable pub add_session_files : Dict SessionFile → Dict LegacySession → Dict SessionFile
add_session_files files [] = files
add_session_files files ((name, session) ∷ sessions) =
    add_session_files (if has name files then files else set name (legacy session) files) sessions

unfoldable pub migrate_legacy_state : Files → Files
unfolding add_session_files
migrate_legacy_state files = elim files.state_file [
  | none ↦ files
  | some content ↦ elim content [
    | no_sessions ↦ files
    | with_sessions all ↦ record files {
      session_files = add_session_files files.session_files all;
      state_file = none;
    }
  ]
]

abbrev pub legacy_of : Option SessionFile → Option LegacySession
legacy_of none = none
legacy_of (some (legacy session)) = some session
legacy_of (some (runtime state)) = none
legacy_of (some unreadable) = none

abbrev pub is_parsed : Option SessionFile → Bool
is_parsed none = false
is_parsed (some (legacy session)) = true
is_parsed (some (runtime state)) = true
is_parsed (some unreadable) = false

-- Only a file that is missing or does not parse leads to the oldest format.
unfoldable pub read_legacy_session_state : Text → Files → Option LegacySession × Files
unfolding migrate_legacy_state
read_legacy_session_state session_name files =
    if is_parsed (get session_name files.session_files)
    then (legacy_of (get session_name files.session_files), files)
    else (let migrated = migrate_legacy_state files in
        (legacy_of (get session_name migrated.session_files), migrated))

-- `migrate` is `migrateConfig`, and `exists_dir` is `existsSync` of a directory. A write to a file
-- of a project succeeds where its directory exists, and throws elsewhere.
module _ (migrate : RawBoard → BoardConfig) (exists_dir : Text → Bool) where
  unfoldable pub read_project_cards : Text → Files → Option BoardConfig
  read_project_cards project_dir files = elim (parsed (get project_dir files.project_cards)) [
    | none ↦ none
    | some raw ↦ some (migrate raw)
  ]

  unfoldable pub lazy_migrate : Text → LegacySession → Files → SessionState × Files
  unfolding write_project_cards write_ephemeral_state register_session
  lazy_migrate session_name session files =
      let board = migrate session.board in
      let project_dir = session.working_dir in
      let with_cards =
        if is_truthy project_dir && exists_dir project_dir
        then write_project_cards project_dir board files
        else files in
      let with_state = write_ephemeral_state session_name session.ephemeral with_cards in
      (
        record { board = board; working_dir = project_dir; ephemeral = session.ephemeral },
        if is_truthy project_dir
            then register_session session_name project_dir with_state
            else with_state,
      )

  -- `const legacy = await readLegacySessionState(…); if (legacy) return lazyMigrate(…); return null;`
  unfoldable pub read_legacy : Text → Files → Option SessionState × Files
  unfolding lazy_migrate read_legacy_session_state
  read_legacy session_name files =
      let (found, read) = read_legacy_session_state session_name files in
      elim found [
        | none ↦ (none, read)
        | some session ↦
            let (state, after) = lazy_migrate session_name session read in (some state, after)
      ]

  abbrev cards_in_cwd : Option Text → Files → Option (Text × BoardConfig)
  cards_in_cwd none files = none
  cards_in_cwd (some cwd) files = elim (read_project_cards cwd files) [
    | none ↦ none
    | some board ↦ some (cwd, board)
  ]

  unfoldable pub read_session_state : Text → Option Text → Files → Option SessionState × Files
  unfolding read_project_cards read_legacy read_ephemeral_state register_session lookup_project_dir
  read_session_state session_name cwd files =
      elim (truthy? (lookup_project_dir session_name files)) [
        | none ↦ elim (cards_in_cwd (truthy? cwd) files) [
          | some (dir, board) ↦ (
            some (record {
              board = board;
              working_dir = dir;
              ephemeral = read_ephemeral_state session_name files;
            }),
            register_session session_name dir files,
          )
          | none ↦ read_legacy session_name files
        ]
        | some project_dir ↦ elim (read_project_cards project_dir files) [
          | none ↦ read_legacy session_name files
          | some board ↦ (
            some (record {
              board = board;
              working_dir = project_dir;
              ephemeral = read_ephemeral_state session_name files;
            }),
            files,
          )
        ]
      ]

  -- A result `none` is the error of the first write.
  unfoldable pub write_session_state : Text → SessionState → Files → Option Files
  unfolding write_project_cards write_ephemeral_state register_session
  write_session_state session_name session files =
      if exists_dir session.working_dir
      then some (
          register_session session_name session.working_dir (
            write_ephemeral_state session_name session.ephemeral
              (write_project_cards session.working_dir session.board files)))
      else none
