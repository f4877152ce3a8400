-- ===== src/Cli/Context.antt =====
-- src/cli.ts: the context of a command, and the round of `refresh` for one session.
pub mod Forgets
use tukan.Prelude.{ℕ, Bool, Option, none, some, [], or_else}
use tukan.Text.{Text}
use tukan.Dict.{Dict}
use tukan.Tmux.{TmuxServer}
use tukan.Board.{BoardConfig, default_config}
use tukan.Board.Reconcile.{reconcile_config}
use tukan.State.{SessionState}
use tukan.State.Migrate.{RawBoard, saved}
use tukan.State.Store.{Files, no_runtime, register_session, read_session_state, write_session_state}
use tukan.Cli.Refresh.{refresh_session}

pub record Context : Type 0 where
  pub server_name : Option Text
  pub session_name : Text
  pub config : BoardConfig
  pub working_dir : Text

-- `existingSession?.lastChangeTimes ?? {}`
abbrev pub last_change_times_of : Option SessionState → Dict ℕ
last_change_times_of none = []
last_change_times_of (some session) = or_else session.ephemeral.last_change_times []

abbrev pub working_dir_of : Option SessionState → Text → Text
working_dir_of none cwd = cwd
working_dir_of (some session) cwd = session.working_dir

-- `migrate` is `migrateConfig`, and `exists_dir` is `existsSync` of a directory.
module _ (migrate : RawBoard → BoardConfig) (exists_dir : Text → Bool) where
  abbrev pub raw_config : Option SessionState → BoardConfig
  raw_config none = default_config
  raw_config (some session) = migrate (saved session.board)

  -- `sessionFlag ?? current ?? basename(cwd)`, where `current` is the session that tmux reports
  abbrev pub session_name_of : Option Text → Option Text → Text → Text
  session_name_of flag current base = or_else flag (or_else current base)

  -- `tmux session_name` is the result of `getTmuxState`.
  unfoldable pub load_context :
      ℕ
      → Option Text
      → (Text → TmuxServer)
      → (cwd base : Text) → (flag current : Option Text) → Files
      → Context × Files
  load_context now server_name tmux cwd base flag current files =
      let session_name = session_name_of flag current base in
      let (existing, read) = read_session_state migrate exists_dir session_name (some cwd) files in
      let working_dir = working_dir_of existing cwd in
      (
        record {
          server_name = server_name;
          session_name = session_name;
          config = reconcile_config now (raw_config existing) (tmux session_name);
          working_dir = working_dir;
        },
        register_session session_name working_dir read,
      )

  unfoldable pub save_config : Context → BoardConfig → Files → Option Files
  save_config ctx config files =
      write_session_state migrate exists_dir ctx.session_name
        (record { board = config; working_dir = ctx.working_dir; ephemeral = no_runtime }) files

  -- the round of `refresh` for one session, behind `loadContext`
  unfoldable pub refresh_context : ℕ → Context → Files → Option Files
  unfolding save_config
  refresh_context now ctx files =
      let (existing, read) = read_session_state migrate exists_dir ctx.session_name none files in
      save_config ctx (refresh_session now (last_change_times_of existing) ctx.config) read
