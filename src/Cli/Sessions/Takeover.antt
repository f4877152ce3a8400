-- ===== src/Cli/Sessions/Takeover.antt =====
-- What a refresh of all sessions does to a session of an older format.
use tukan.Prelude.{◌≡◌, refl, ap, ◌∙◌, Bool, true, Option, none, some, [], ◌∷◌, arith}
use tukan.Text.{Text, is_truthy, truthy?}
use tukan.Dict.{get}
use tukan.Board.{BoardConfig}
use tukan.State.Migrate.{RawBoard, saved}
use tukan.State.Store.{
  LegacySession, legacy, runtime, Files, no_runtime, lookup_project_dir, register_session,
  write_project_cards, write_ephemeral_state, read_ephemeral_state, read_project_cards, read_legacy,
  read_legacy_session_state, lazy_migrate, read_session_state, write_session_state,
}
use tukan.State.Store.Laws.{
  truthy_self, lookup-register_session, session_files-register_session, get-write_ephemeral_state,
}
use tukan.Cli.Refresh.{refresh_session}
use tukan.Cli.Context.{
  Context, working_dir_of, last_change_times_of, load_context, save_config, refresh_context,
}
use tukan.Cli.Sessions.{Surroundings, context_of, refresh_from}

module _ (migrate : RawBoard → BoardConfig) (exists_dir : Text → Bool) where
  -- What a save leaves of the session's file and of its entry in the registry.
  save_config-leaves :
      (ctx : Context) (config : BoardConfig) (files : Files)
      → exists_dir ctx.working_dir ≡ true
      → (after : Files) × (save_config migrate exists_dir ctx config files ≡ some after)
        × (get ctx.session_name after.session_files ≡ some (runtime no_runtime))
        × (lookup_project_dir ctx.session_name after ≡ some ctx.working_dir)
  unfolding save_config write_session_state
  save_config-leaves ctx config files exists =
      let written =
        write_ephemeral_state ctx.session_name no_runtime
          (write_project_cards ctx.working_dir config files) in
      (
        register_session ctx.session_name ctx.working_dir written,
        rw exists refl,
        ap (get ctx.session_name)
              (session_files-register_session ctx.session_name ctx.working_dir written)
            ∙ get-write_ephemeral_state ctx.session_name no_runtime
                (write_project_cards ctx.working_dir config files),
        lookup-register_session ctx.session_name ctx.working_dir written,
      )

  -- A session that is not registered is read from the working directory, if that has cards.
  working_dir-read_session_state :
      (name cwd : Text) (files : Files) (raw : RawBoard)
      → is_truthy cwd ≡ true
      → lookup_project_dir name files ≡ none
      → get cwd files.project_cards ≡ some (some raw)
      → (read_session_state migrate exists_dir name (some cwd) files).0
        ≡ some (record {
          board = migrate raw;
          working_dir = cwd;
          ephemeral = read_ephemeral_state name files;
        })
  unfolding read_session_state read_project_cards
  working_dir-read_session_state name cwd files raw t unregistered c =
      let none_found : truthy? (lookup_project_dir name files) ≡ none = ap truthy? unregistered in
      let here : truthy? (some cwd) ≡ some cwd = truthy_self cwd t in
      ground (arith, none_found, here, c)

  -- Without a working directory it is read from its file, in an older format.
  board-read_session_state :
      (name : Text) (files : Files) (session : LegacySession)
      → lookup_project_dir name files ≡ none
      → get name files.session_files ≡ some (legacy session)
      → (read_session_state migrate exists_dir name none files).0
        ≡ some (record {
          board = migrate session.board;
          working_dir = session.working_dir;
          ephemeral = session.ephemeral;
        })
  unfolding read_session_state read_legacy read_legacy_session_state lazy_migrate
  board-read_session_state name files session unregistered stored =
      let none_found : truthy? (lookup_project_dir name files) ≡ none = ap truthy? unregistered in
      ground (arith, none_found, stored)

  refresh_one :
      (env : Surroundings) (flag : Option Text) (files after : Files)
      → refresh_context migrate exists_dir env.now
          (context_of migrate exists_dir env flag files).0
          (context_of migrate exists_dir env flag files).1
        ≡ some after
      → refresh_from migrate exists_dir env (flag ∷ []) files ≡ some after
  unfolding refresh_from
  refresh_one env flag files after h =
      ap
        (λ (o : Option Files). elim o [
          | none ↦ none
          | some a ↦ refresh_from migrate exists_dir env [] a
        ])
        h

  module _ (env : Surroundings) (name : Text) (files : Files) where
    -- A session of an older format, whose board stands in its own file, is read from there. But if it
    -- is not registered and `refresh` comes to it in another project's directory, one that exists and
    -- has a file of cards that parses, then the refresh ends without an error, the file of the session
    -- holds no board any more, and the session is registered with that directory.
    pub refresh_takes_cwd :
        (session : LegacySession) (raw : RawBoard)
        → is_truthy env.cwd ≡ true
        → exists_dir env.cwd ≡ true
        → lookup_project_dir name files ≡ none
        → get name files.session_files ≡ some (legacy session)
        → get env.cwd files.project_cards ≡ some (some raw)
        → ((read_session_state migrate exists_dir name none files).0
            ≡ some (record {
              board = migrate session.board;
              working_dir = session.working_dir;
              ephemeral = session.ephemeral;
            }))
          × ((after : Files) × (refresh_from migrate exists_dir env (some name ∷ []) files
                ≡ some after)
              × (get name after.session_files ≡ some (runtime no_runtime))
              × (lookup_project_dir name after ≡ some env.cwd))
    unfolding refresh_context load_context
    refresh_takes_cwd session raw t exists unregistered stored c =
        let (ctx, read) = context_of migrate exists_dir env (some name) files in
        let dir : ctx.working_dir ≡ env.cwd =
          ap (λ o. working_dir_of o env.cwd)
            (working_dir-read_session_state name env.cwd files raw t unregistered c) in
        let (existing, again) = read_session_state migrate exists_dir name none read in
        let (after, saved, file, entry) =
          save_config-leaves ctx
            (refresh_session env.now (last_change_times_of existing) ctx.config) again
            (ap exists_dir dir ∙ exists) in
        (
          board-read_session_state name files session unregistered stored,
          (after, refresh_one env (some name) files after saved, file, entry ∙ ap some dir),
        )
