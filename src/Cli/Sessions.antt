-- ===== src/Cli/Sessions.antt =====
-- src/cli.ts: finding a card in all sessions, and the commands on sessions: `refresh`, `register` and
-- `migrate`.
pub mod Takeover
use tukan.Prelude.{ℕ, Bool, Option, none, some, List, [], ◌∷◌, if◌then◌else◌, or_else}
use tukan.Text.{Text, truthy?, LowerCase}
use tukan.Dict.{Dict}
use tukan.Tmux.{TmuxServer}
use tukan.Tmux.Create.{NodePath}
use tukan.Board.{Card, BoardConfig}
use tukan.Board.CardOps.{
  ResolveResult, MultiSessionResolveResult, resolve_card, resolve_card_across_sessions,
}
use tukan.Board.CardOps.Queries
use tukan.State.{SessionState}
use tukan.State.Migrate.{RawBoard, saved}
use tukan.State.Store.{Files, register_session, read_session_state, write_session_state}
use tukan.State.Listing.{list_session_names, read_all_sessions}
use tukan.Cli.Context.{Context, load_context, refresh_context}

-- What a query finds; the text is an error, which is printed, with the exit code 1.
pub data Found : Type 0 where
  found : Context → Text → Card → Found
  not_found : Text → Found

-- the surroundings of a command; `current` is the session that tmux reports, and `tmux` gives the
-- result of `getTmuxState` for a session
pub record Surroundings : Type 0 where
  pub now : ℕ
  pub server_name : Option Text
  pub tmux : Text → TmuxServer
  pub cwd : Text
  pub base : Text
  pub current : Option Text

-- `migrate` is `migrateConfig`, and `exists_dir` is `existsSync` of a directory.
module _ (migrate : RawBoard → BoardConfig) (exists_dir : Text → Bool) (env : Surroundings) where
  abbrev pub context_of : Option Text → Files → Context × Files
  context_of flag files =
      load_context migrate exists_dir env.now env.server_name env.tmux env.cwd env.base flag
        env.current files

  -- the cards of each session, as they are stored
  abbrev pub cards_by_session : Dict SessionState → Dict (Dict Card)
  cards_by_session [] = []
  cards_by_session ((name, session) ∷ sessions) =
      (name, (migrate (saved session.board)).cards) ∷ cards_by_session sessions

  unfoldable pub load_all_session_cards : Files → Dict (Dict Card) × Files
  load_all_session_cards files =
      let (sessions, read) = read_all_sessions migrate exists_dir files in
      (cards_by_session sessions, read)

  -- the search in all sessions
  abbrev pub in_any_session : MultiSessionResolveResult → Files → Found × Files
  in_any_session (Queries.MultiSessionResolveResult.failed error) files = (not_found error, files)
  in_any_session (Queries.MultiSessionResolveResult.resolved session_name id card) files =
      let (ctx, read) = context_of (some session_name) files in (found ctx id card, read)

  abbrev pub in_session : ResolveResult → Context → Files → Found × Files
  in_session (Queries.ResolveResult.failed error) ctx files = (not_found error, files)
  in_session (Queries.ResolveResult.resolved id card) ctx files = (found ctx id card, files)

  abbrev pub in_session_or_any :
      LowerCase → (member : Text → Card) → Text → ResolveResult → Context → Files → Found × Files
  in_session_or_any locale member query (Queries.ResolveResult.resolved id card) ctx files =
      (found ctx id card, files)
  in_session_or_any locale member query (Queries.ResolveResult.failed error) ctx files =
      let (cards, read) = load_all_session_cards files in
      in_any_session (resolve_card_across_sessions locale member cards query) read

  unfoldable pub load_context_for_card :
      LowerCase
      → (member : Text → Card) → (query : Text) → (flag : Option Text) → Files
      → Found × Files
  unfolding load_all_session_cards
  load_context_for_card locale member query flag files = elim (truthy? flag) [
    | some session_name ↦
        let (ctx, read) = context_of (some session_name) files in
        in_session (resolve_card locale member ctx.config.cards query) ctx read
    | none ↦
        let (ctx, read) = context_of none files in
        in_session_or_any locale member query (resolve_card locale member ctx.config.cards query)
          ctx read
  ]

  -- the loop of `refresh`; a session `none` is the one that is detected
  unfoldable pub refresh_from : List (Option Text) → Files → Option Files
  refresh_from [] files = some files
  refresh_from (flag ∷ flags) files =
      let (ctx, read) = context_of flag files in
      elim (refresh_context migrate exists_dir env.now ctx read) [
        | none ↦ none
        | some after ↦ refresh_from flags after
      ]

  abbrev pub all_or_detected : List Text → List (Option Text)
  all_or_detected [] = none ∷ []
  all_or_detected (name ∷ []) = some name ∷ []
  all_or_detected (name ∷ second ∷ names) = some name ∷ all_or_detected (second ∷ names)

  unfoldable pub refresh : (flag : Option Text) → Files → Option Files
  unfolding refresh_from
  refresh flag files = elim (truthy? flag) [
    | some session_name ↦ refresh_from (some session_name ∷ []) files
    | none ↦ refresh_from (all_or_detected (list_session_names files)) files
  ]

  -- the loop of `migrate`, which counts nothing and prints nothing here
  unfoldable pub migrate_from : (dry_run : Bool) → List Text → Files → Option Files
  migrate_from dry_run [] files = some files
  migrate_from dry_run (name ∷ names) files =
      let (session, read) = read_session_state migrate exists_dir name none files in
      elim session [
        | none ↦ migrate_from dry_run names read
        | some state ↦
            elim (if dry_run
              then some read
              else write_session_state migrate exists_dir name state read) [
                | none ↦ none
                | some after ↦ migrate_from dry_run names after
              ]
      ]

  unfoldable pub migrate_all : (dry_run : Bool) → Files → Option Files
  unfolding migrate_from
  migrate_all dry_run files = migrate_from dry_run (list_session_names files) files

-- The command `register`.
unfoldable pub register : NodePath → (cwd : Text) → (path_arg flag : Option Text) → Files → Files
register path cwd path_arg flag files =
    let project_dir : Text = elim (truthy? path_arg) [
      | none ↦ cwd
      | some arg ↦ path.resolve cwd (arg ∷ [])
    ] in
    register_session (or_else flag (path.basename project_dir)) project_dir files
