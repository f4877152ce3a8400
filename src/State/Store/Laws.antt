-- ===== src/State/Store/Laws.antt =====
-- Reading a session after it is written.
use tukan.Prelude.{
  ℕ, ◌≡◌, refl, ap, ◌∙◌, inl, inr, Bool, true, Option, some, [], ◌∷◌, arith, Option-cases, or_else,
}
use tukan.Text.{Text, is_truthy, truthy?}
use tukan.Text.Equality.{eq_iff, eq_refl}
use tukan.Dict.{get}
use tukan.Dict.Laws.{get-set}
use tukan.Board.{BoardConfig}
use tukan.State.{EphemeralState, SessionState}
use tukan.State.Migrate.{RawBoard, saved, migrate_config}
use tukan.State.Migrate.Entries.{IsCurrent}
use tukan.State.Migrate.Current.{migrate_config-saved}
use tukan.State.Store.{
  runtime, Files, read_registry, lookup_project_dir, register_session, write_project_cards,
  read_ephemeral_state, write_ephemeral_state, read_project_cards, read_session_state,
  write_session_state,
}

pub truthy_self : (s : Text) → is_truthy s ≡ true → truthy? (some s) ≡ some s
truthy_self [] h = cc
truthy_self (c ∷ s) h = refl

pub lookup-register_session :
    (name dir : Text) (files : Files)
    → lookup_project_dir name (register_session name dir files) ≡ some dir
unfolding lookup_project_dir register_session read_registry
lookup-register_session name dir files =
    elim (Option-cases (get name (or_else files.registry []))) [
      | inl missing ↦ ground (
        arith,
        get-set name name (record { project_dir = dir }) (or_else files.registry []),
        eq_refl name,
      )
      | inr (entry, there) ↦ ground (
        arith,
        get-set name name (record { project_dir = dir }) (or_else files.registry []),
        eq_refl name,
        eq_iff entry.project_dir dir,
      )
    ]

pub project_cards-register_session :
    (name dir : Text) (files : Files)
    → (register_session name dir files).project_cards ≡ files.project_cards
unfolding register_session
project_cards-register_session name dir files = ground arith

pub session_files-register_session :
    (name dir : Text) (files : Files)
    → (register_session name dir files).session_files ≡ files.session_files
unfolding register_session
session_files-register_session name dir files = ground arith

runtime_state :
    (name : Text) (files : Files) (state : EphemeralState)
    → get name files.session_files ≡ some (runtime state)
    → read_ephemeral_state name files ≡ state
unfolding read_ephemeral_state
runtime_state name files state h = rw (h, read_ephemeral_state) refl

module _ (migrate : RawBoard → BoardConfig) (exists_dir : Text → Bool) where
  -- A session of a registered directory with cards that parse is read from there.
  read-registered :
      (name dir : Text) (cwd : Option Text) (files : Files) (raw : RawBoard)
      → is_truthy dir ≡ true
      → lookup_project_dir name files ≡ some dir
      → get dir files.project_cards ≡ some (some raw)
      → read_session_state migrate exists_dir name cwd files ≡ (
        some (record {
          board = migrate raw;
          working_dir = dir;
          ephemeral = read_ephemeral_state name files;
        }),
        files,
      )
  unfolding read_session_state read_project_cards
  read-registered name dir cwd files raw t l c =
      let found : truthy? (lookup_project_dir name files) ≡ some dir =
        ap truthy? l ∙ truthy_self dir t in
      ground (arith, found, c)

  -- So is a session whose cards and runtime state are there when its directory is registered.
  pub read-register_session :
      (name dir : Text) (cwd : Option Text) (files : Files) (raw : RawBoard)
      (state : EphemeralState)
      → is_truthy dir ≡ true
      → get dir files.project_cards ≡ some (some raw)
      → get name files.session_files ≡ some (runtime state)
      → read_session_state migrate exists_dir name cwd (register_session name dir files) ≡ (
        some (record { board = migrate raw; working_dir = dir; ephemeral = state }),
        register_session name dir files,
      )
  read-register_session name dir cwd files raw state t c r =
      let after = register_session name dir files in
      read-registered name dir cwd after raw t (lookup-register_session name dir files)
        (ap (get dir) (project_cards-register_session name dir files) ∙ c)
      ∙ ap (λ s. (some (record { board = migrate raw; working_dir = dir; ephemeral = s }), after))
          (runtime_state name after state
            (ap (get name) (session_files-register_session name dir files) ∙ r))

pub get-write_ephemeral_state :
    (name : Text) (state : EphemeralState) (files : Files)
    → get name (write_ephemeral_state name state files).session_files ≡ some (runtime state)
unfolding write_ephemeral_state
get-write_ephemeral_state name state files =
    get-set name name (runtime state) files.session_files ∙ rw (eq_refl name) refl

pub get-write_project_cards :
    (dir name : Text) (board : BoardConfig) (state : EphemeralState) (files : Files)
    → get dir (write_ephemeral_state name state (write_project_cards dir board files)).project_cards
      ≡ some (some (saved board))
unfolding write_ephemeral_state write_project_cards
get-write_project_cards dir name board state files =
    get-set dir dir (some (saved board)) files.project_cards ∙ rw (eq_refl dir) refl

module _ (exists_dir : Text → Bool) (now : ℕ) (uuid : Text → Text) where
  -- A session with a working directory that exists and a board of the present format is written
  -- without an error, and reading it gives it back and changes no file, whatever was in the files
  -- before.
  pub read-write_session_state :
      (name : Text) (cwd : Option Text) (session : SessionState) (files : Files)
      → is_truthy session.working_dir ≡ true
      → exists_dir session.working_dir ≡ true
      → IsCurrent session.board
      → (after : Files) × (write_session_state
            (migrate_config now uuid)
            exists_dir
            name
            session
            files
          ≡ some after)
        × (read_session_state (migrate_config now uuid) exists_dir name cwd after
            ≡ (some session, after))
  unfolding write_session_state
  read-write_session_state name cwd session files t e h =
      let dir = session.working_dir in
      let written =
        write_ephemeral_state name session.ephemeral
          (write_project_cards dir session.board files) in
      let after = register_session name dir written in
      (
        after,
        rw e refl,
        read-register_session (migrate_config now uuid) exists_dir name dir cwd written
              (saved session.board) session.ephemeral t
              (get-write_project_cards dir name session.board session.ephemeral files)
              (get-write_ephemeral_state name session.ephemeral
                (write_project_cards dir session.board files))
            ∙ ap
                (λ b. (
                  some (record { board = b; working_dir = dir; ephemeral = session.ephemeral }),
                  after,
                ))
                (migrate_config-saved now uuid session.board h),
      )
