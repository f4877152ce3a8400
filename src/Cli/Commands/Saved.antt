-- ===== src/Cli/Commands/Saved.antt =====
-- What a command that changes a card leaves in the files.
use tukan.Prelude.{
  ℕ, ◌≡◌, refl, ap, sym, ◌∙◌, subst, inl, inr, Bool, true, Option, none, some, List, arith,
  Bool-cases, Option-cases, or_else, not, ◌&&◌,
}
use tukan.Text.{Text, units, ◌==◌, is_truthy, truthy?, LowerCase}
use tukan.Dict.{get, set}
use tukan.Dict.Laws.{get-set, set-IsDistinct}
use tukan.Tmux.Create.{NodePath}
use tukan.Tmux.Start.{Command, World, start_window}
use tukan.Board.{Card, BoardConfig}
use tukan.Board.CardOps.{EditCardFields, apply_fields}
use tukan.Board.CardOps.Laws.{
  Update, start, stop, finish, edit, update, changed, write, update_stored,
}
use tukan.State.{SessionState}
use tukan.State.Migrate.{RawBoard, custom_of, migrate_config}
use tukan.State.Migrate.Entries.{IsCurrent}
use tukan.State.Store.{Files, no_runtime, read_session_state}
use tukan.State.Store.Laws.{read-write_session_state}
use tukan.Cli.Context.{Context, save_config}
use tukan.Cli.Commands
use tukan.Cli.Commands.{Ending, finished, ended, EditFlags, fields_of_flags, or_name, has_output}
use tukan.Cli.Commands.Changing

-- An update that a flag or no text at all asks for, which sets no custom command.
abbrev pub IsPlain : Update → Type 0
IsPlain (edit fields) = fields.custom_command ≡ none
IsPlain _ = Unit

custom_of-apply_fields :
    (fields : EditCardFields) (card : Card)
    → fields.custom_command ≡ none
    → custom_of card ≡ none
    → custom_of (apply_fields fields card) ≡ none
unfolding apply_fields
custom_of-apply_fields fields card p h = elim (Option-cases fields.command) [
  | inl kept ↦ rw kept h
  | inr (command, given) ↦ elim (Bool-cases (command == units "custom")) [
    | inl is ↦ rw (given, is, p) refl
    | inr other ↦ rw (given, other) refl
  ]
]

custom_of-changed :
    (now : ℕ) (u : Update) (card : Card)
    → IsPlain u
    → custom_of card ≡ none
    → custom_of (changed now u card) ≡ none
unfolding changed
custom_of-changed now (start window_id) card p h = h
custom_of-changed now stop card p h = h
custom_of-changed now finish card p h = h
custom_of-changed now (edit fields) card p h = custom_of-apply_fields fields card p h

IsCurrent-write :
    (now : ℕ) (id : Text) (u : Update) (config : BoardConfig) (card : Card)
    → IsPlain u
    → get id config.cards ≡ some card
    → IsCurrent config
    → IsCurrent (write id (changed now u card) config)
unfolding write
IsCurrent-write now id u config card p stored ok = record {
  done = ok.done;
  commands = ok.commands;
  distinct = set-IsDistinct id (changed now u card) config.cards ok.distinct;
  converted = converted;
}
  where
    converted :
        (k : Text) (c : Card)
        → get k (set id (changed now u card) config.cards) ≡ some c
        → custom_of c ≡ none
    converted k c there = elim (Bool-cases (id == k)) [
      | inl same ↦
          let here = sym (get-set id k (changed now u card) config.cards) ∙ there in
          let is : some (changed now u card) ≡ some c = rw same at here in
          subst (λ (o : Option Card). custom_of (or_else o c) ≡ none) is
            (custom_of-changed now u card p (ok.converted id card stored))
      | inr other ↦
          let here = sym (get-set id k (changed now u card) config.cards) ∙ there in
          ok.converted k c (rw other at here)
    ]

module _ (exists_dir : Text → Bool) (now : ℕ) (uuid : Text → Text) (ctx : Context) (id : Text)
    (card : Card) (files : Files) (has_dir : is_truthy ctx.working_dir ≡ true)
    (exists : exists_dir ctx.working_dir ≡ true) (current : IsCurrent ctx.config)
    (stored : get id ctx.config.cards ≡ some card) where
  abbrev migrate : RawBoard → BoardConfig
  migrate = migrate_config now uuid

  -- the session that the command leaves
  abbrev session_with : BoardConfig → SessionState
  session_with config = record {
    board = config;
    working_dir = ctx.working_dir;
    ephemeral = no_runtime;
  }

  abbrev read_back : Files → Option SessionState
  read_back after = (read_session_state migrate exists_dir ctx.session_name none after).0

  -- An update of the card is saved, and read back.
  saves :
      (u : Update)
      → IsPlain u
      → (after : Files) × (save_config migrate exists_dir ctx (update now id u ctx.config) files
          ≡ some after)
        × (read_back after ≡ some (session_with (write id (changed now u card) ctx.config)))
  unfolding save_config
  saves u plain =
      let board = write id (changed now u card) ctx.config in
      let (after, saved, back) =
        read-write_session_state exists_dir now uuid ctx.session_name none (session_with board)
          files has_dir exists (IsCurrent-write now id u ctx.config card plain stored current) in
      (
        after,
        rw (update_stored now id u ctx.config card stored) saved,
        ap (λ (r : Option SessionState × Files). r.0) back,
      )

  -- The command ended well, with this update of the card.
  abbrev pub Leaves : Update → Ending → Type 0
  Leaves u ending =
      (after : Files) × (ending ≡ finished after)
      × (read_back after ≡ some (session_with (write id (changed now u card) ctx.config)))

  Leaves-ended :
      (u : Update)
      → IsPlain u
      → Leaves u (ended (save_config migrate exists_dir ctx (update now id u ctx.config) files))
  Leaves-ended u plain = let (after, saved, back) = saves u plain in (after, ap ended saved, back)

  module _ (locale : LowerCase) (path : NodePath) (w : World) where
    -- In a directory that exists, for a board of the present format that holds the card: `stop`,
    -- `edit` with flags, and `resolve` with `--force` end well, whatever git and tmux answer. What is
    -- read from the files afterwards is the board with exactly that card changed, and no runtime
    -- state.
    pub commands_leave :
        (merge : Bool) (flags : EditFlags)
        → Leaves stop (Commands.stop migrate exists_dir now ctx id card files).ending
          × Leaves
              (edit (fields_of_flags flags))
              (Changing.edit_by_flags migrate exists_dir ctx id card flags files).ending
          × Leaves finish
              (Changing.resolve migrate exists_dir now locale path w ctx id card merge true
                files).ending
    unfolding Commands.stop Changing.resolve Changing.edit_by_flags update
    commands_leave merge flags = (
      Leaves-ended stop tt,
      Leaves-ended (edit (fields_of_flags flags)) refl,
      elim (Bool-cases (
          (merge && card.worktree)
          && (has_output (w.git (Changing.status_command locale path card)) && not true))) [
            | inl asks ↦ absurd (ground (arith, asks))
            | inr goes_on ↦ rw (goes_on, Changing.resolve) (Leaves-ended finish tt)
          ],
    )

    -- In a directory that exists, for a board of the present format that holds the card: `start` of a
    -- card without a window ends well once its window is open. What is read from the files afterwards
    -- is the board with exactly that card started in the window, and no runtime state.
    pub start-Leaves :
        (has_server : Bool) (log : List Command) (window_id : Text)
        → truthy? card.window_id ≡ none
        → start_window locale path w has_server ctx.server_name
            (or_name card.session_name ctx.session_name)
            ctx.config
            card
          ≡ (log, some window_id)
        → Leaves
            (start window_id)
            (Commands.start migrate exists_dir now locale path w ctx id card has_server
              files).ending
    unfolding Commands.start update
    start-Leaves has_server log window_id unstarted opened =
        rw (unstarted, opened, Commands.start) (Leaves-ended (start window_id) tt)
