-- ===== src/State/Store/Lazy.antt =====
-- The first reads of a session that an older format keeps.
use tukan.Prelude.{
  ℕ, ◌≡◌, refl, sym, ap, ◌∙◌, inl, inr, Bool, true, Option, none, some, arith, if◌then◌else◌,
  Bool-cases,
}
use tukan.Text.{Text, is_truthy, truthy?}
use tukan.Dict.{get}
use tukan.State.{EphemeralState, SessionState}
use tukan.State.Migrate.{saved, migrate_config}
use tukan.State.Migrate.Current.{HasDistinctCards, migrate_config-IsCurrent, migrate_config-saved}
use tukan.State.Store.{
  LegacySession, legacy, runtime, Files, lookup_project_dir, register_session, write_project_cards,
  write_ephemeral_state, read_legacy_session_state, read_project_cards, lazy_migrate, read_legacy,
  read_session_state,
}
use tukan.State.Store.Laws.{
  truthy_self, lookup-register_session, project_cards-register_session,
  session_files-register_session, get-write_ephemeral_state, get-write_project_cards,
  read-register_session,
}

module _ (exists_dir : Text → Bool) (now : ℕ) (uuid : Text → Text) where
  abbrev read : Text → Files → Option SessionState × Files
  read name files = read_session_state (migrate_config now uuid) exists_dir name none files

  -- the session with its board in the present format
  abbrev pub migrated : LegacySession → SessionState
  migrated session = record {
    board = migrate_config now uuid session.board;
    working_dir = session.working_dir;
    ephemeral = session.ephemeral;
  }

  abbrev with_cards : LegacySession → Files → Files
  with_cards session files =
      if exists_dir session.working_dir
      then write_project_cards session.working_dir (migrate_config now uuid session.board) files
      else files

  -- the files after the first read
  abbrev after_read : Text → LegacySession → Files → Files
  after_read name session files =
      register_session name session.working_dir
        (write_ephemeral_state name session.ephemeral (with_cards session files))

  first_read :
      (name : Text) (session : LegacySession) (files : Files)
      → is_truthy session.working_dir ≡ true
      → lookup_project_dir name files ≡ none
      → get name files.session_files ≡ some (legacy session)
      → read name files ≡ (some (migrated session), after_read name session files)
  unfolding read_session_state read_legacy read_legacy_session_state lazy_migrate
  first_read name session files t l f = ground (arith, l, f)

  -- A registered session whose directory holds no cards, with a file of the present format, is lost.
  lost_read :
      (name dir : Text) (state : EphemeralState) (files : Files)
      → is_truthy dir ≡ true
      → lookup_project_dir name files ≡ some dir
      → get dir files.project_cards ≡ none
      → get name files.session_files ≡ some (runtime state)
      → read name files ≡ (none, files)
  unfolding read_session_state read_project_cards read_legacy read_legacy_session_state
  lost_read name dir state files t l c r =
      let found : truthy? (lookup_project_dir name files) ≡ some dir =
        ap truthy? l ∙ truthy_self dir t in
      ground (arith, found, c, r)

  project_cards-write_ephemeral_state :
      (name : Text) (state : EphemeralState) (files : Files)
      → (write_ephemeral_state name state files).project_cards ≡ files.project_cards
  unfolding write_ephemeral_state
  project_cards-write_ephemeral_state name state files = refl

  second_read :
      (name : Text) (session : LegacySession) (files : Files)
      → HasDistinctCards session.board
      → is_truthy session.working_dir ≡ true
      → get session.working_dir files.project_cards ≡ none
      → read name (after_read name session files) ≡ (
        if exists_dir session.working_dir then some (migrated session) else none,
        after_read name session files,
      )
  second_read name session files d t c = elim (Bool-cases (exists_dir session.working_dir)) [
    | inl there ↦
        let board = migrate_config now uuid session.board in
        let dir = session.working_dir in
        let state = session.ephemeral in
        let cards = write_project_cards dir board files in
        let written = write_ephemeral_state name state cards in
        let after = register_session name dir written in
        rw there (
          read-register_session (migrate_config now uuid) exists_dir name dir none written
            (saved board) state t (get-write_project_cards dir name board state files)
            (get-write_ephemeral_state name state cards)
          ∙ ap (λ b. (some (record { board = b; working_dir = dir; ephemeral = state }), after))
              (migrate_config-saved now uuid board
                (migrate_config-IsCurrent now uuid session.board d)))
    | inr missing ↦
        let dir = session.working_dir in
        let state = session.ephemeral in
        let written = write_ephemeral_state name state files in
        rw missing (
          lost_read name dir state (register_session name dir written) t
            (lookup-register_session name dir written)
            (ap (get dir) (
                project_cards-register_session name dir written
                ∙ project_cards-write_ephemeral_state name state files)
              ∙ c)
            (ap (get name) (session_files-register_session name dir written)
              ∙ get-write_ephemeral_state name state files))
  ]

  -- A session that is kept in an older format with a working directory, is not registered and has no
  -- cards in that directory, read by its name alone, without the current directory that
  -- `loadContext` passes: the first read returns it, migrated. If the directory exists, the next read
  -- returns the same and changes no file; if it does not, the first read has replaced the file that
  -- held the board, and the next read finds no session.
  pub read_session_state_twice :
      (name : Text) (session : LegacySession) (files : Files)
      → HasDistinctCards session.board
      → is_truthy session.working_dir ≡ true
      → lookup_project_dir name files ≡ none
      → get name files.session_files ≡ some (legacy session)
      → get session.working_dir files.project_cards ≡ none
      → let run = read_session_state (migrate_config now uuid) exists_dir name none in
        ((run files).0 ≡ some (migrated session))
        × (run (run files).1 ≡ (
          if exists_dir session.working_dir then some (migrated session) else none,
          (run files).1,
        ))
  read_session_state_twice name session files d t l f c =
      let first = first_read name session files t l f in
      (
        ap (λ (r : Option SessionState × Files). r.0) first,
        ap (λ (r : Option SessionState × Files). read name r.1) first
            ∙ second_read name session files d t c
            ∙ ap
                (λ (r : Option SessionState × Files).
                  (if exists_dir session.working_dir then some (migrated session) else none, r.1))
                (sym first),
      )
