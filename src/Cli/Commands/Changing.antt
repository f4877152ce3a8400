-- ===== src/Cli/Commands/Changing.antt =====
-- src/cli.ts: the commands `resolve`, `edit` and `send`.
use tukan.Prelude.{
  ℕ, Bool, not, ◌&&◌, Option, none, some, List, [], ◌∷◌, ◌++◌, if◌then◌else◌, or_else, is_some,
}
use tukan.Text.{Text, units, join, truthy?, LowerCase}
use tukan.Tmux.Create.{
  NodePath, server_args, sanitize_branch_name, build_worktree_args, build_worktree_remove_args,
  build_worktree_merge_args,
}
use tukan.Tmux.Start.{git_command, World, send_all}
use tukan.Board.{Card, BoardConfig}
use tukan.Board.CardOps.{resolve_card_in_config, edit_card_in_config}
use tukan.Board.Template.{build_card_template, parse_card_template}
use tukan.State.Migrate.{RawBoard}
use tukan.State.Store.{Files}
use tukan.Cli.Context.{Context, save_config}
use tukan.Cli.Commands.{
  Ending, finished, refused, crashed, Ran, EditFlags, has_flags, fields_of_flags,
  fields_of_template, template_of_card, EditorResult, editor_failed, unreadable_file, edited_to,
  kill_commands, rename_commands, run_until_error, has_output, saving_config,
}

-- An error of the save is caught where the edited file is read.
abbrev pub caught_save : Option Files → Ending
caught_save none = refused (units "Could not read edited file, aborting.")
caught_save (some files) = finished files

abbrev pub sent : Option (Unit {0}) → Files → Ending
sent none files = crashed
sent (some u) files = finished files

module _ (locale : LowerCase) (path : NodePath) where
  abbrev pub worktree_of_card : Card → Text
  worktree_of_card card =
      (build_worktree_args locale path card.dir card.name card.worktree_path).worktree_path

  abbrev pub status_command : Card → List Text
  status_command card =
      units "-C" ∷ worktree_of_card card ∷ units "status" ∷ units "--porcelain" ∷ []

  -- the removal of the worktree and the merge of its branch
  abbrev pub merge_steps : Card → List (List Text)
  merge_steps card =
      build_worktree_remove_args card.dir (worktree_of_card card)
      ∷ build_worktree_merge_args card.dir (sanitize_branch_name locale card.name)

-- `migrate` and `exists_dir` are those of the store.
module _ (migrate : RawBoard → BoardConfig) (exists_dir : Text → Bool) where
  -- The command `edit` without a flag; `editor` is the run of the editor on a file with the text.
  unfoldable pub edit_in_editor : Context → Text → Card → (Text → EditorResult) → Files → Ran
  edit_in_editor ctx id card editor files =
      let texts_only = is_some (truthy? card.window_id) in
      record {
        commands = [];
        ending = elim (editor (build_card_template (template_of_card card) texts_only)) [
          | editor_failed ↦ refused (units "Editor exited with non-zero status, aborting.")
          | unreadable_file ↦ refused (units "Could not read edited file, aborting.")
          | edited_to content ↦ caught_save (
              save_config migrate exists_dir ctx
                (edit_card_in_config ctx.config id
                  (fields_of_template (parse_card_template content texts_only)))
                files)
        ];
      }

  -- With flags, the window is renamed once the board is saved.
  unfoldable pub edit_by_flags : Context → Text → Card → EditFlags → Files → Ran
  edit_by_flags ctx id card flags files =
      let config = edit_card_in_config ctx.config id (fields_of_flags flags) in
      record {
        commands = elim (save_config migrate exists_dir ctx config files) [
          | none ↦ []
          | some after ↦ rename_commands ctx card (truthy? flags.name)
        ];
        ending = saving_config migrate exists_dir ctx config files;
      }

  unfoldable pub edit : Context → Text → Card → EditFlags → (Text → EditorResult) → Files → Ran
  unfolding edit_in_editor edit_by_flags
  edit ctx id card flags editor files =
      if has_flags flags
      then edit_by_flags ctx id card flags files
      else edit_in_editor ctx id card editor files

-- `now` is the clock.
module _ (migrate : RawBoard → BoardConfig) (exists_dir : Text → Bool) (now : ℕ)
    (locale : LowerCase) (path : NodePath) (w : World) where
  -- `merge` is false at `--no-merge`.
  unfoldable pub resolve : Context → Text → Card → (merge force : Bool) → Files → Ran
  unfolding run_until_error
  resolve ctx id card merge force files =
      let should_merge = merge && card.worktree in
      let status =
        if should_merge then git_command (status_command locale path card) ∷ [] else [] in
      if should_merge && (has_output (w.git (status_command locale path card)) && not force)
      then record {
        commands = status;
        ending = refused (
            units "Worktree has uncommitted changes. Commit or stash first, "
            ++ units "or use --force to resolve anyway.");
      }
      else record {
        commands =
            status
            ++ (kill_commands ctx card
                ++ (if should_merge then run_until_error w (merge_steps locale path card) else []));
        ending =
            saving_config migrate exists_dir ctx (resolve_card_in_config now ctx.config id) files;
      }

-- the keys of the text, and of the return key behind it
abbrev pub key_args : Context → Text → (enter : Bool) → Text → List (List Text)
key_args ctx window_id enter text =
    let server = server_args (or_else ctx.server_name []) in
    (server ++ (units "send-keys" ∷ units "-t" ∷ window_id ∷ units "-l" ∷ text ∷ []))
    ∷ (if enter
        then (server ++ (units "send-keys" ∷ units "-t" ∷ window_id ∷ units "Enter" ∷ [])) ∷ []
        else [])

-- `enter` is false at `--no-enter`.
unfoldable pub send :
    World → Context → Card → (text_parts : List Text) → (enter : Bool) → Files → Ran
send w ctx card text_parts enter files = elim (truthy? card.window_id) [
  | none ↦ record {
    commands = [];
    ending =
        refused (units "Card \"" ++ (card.name ++ units "\" has no live window. Start it first."));
  }
  | some window_id ↦
      let (log, result) = send_all w (key_args ctx window_id enter (join (units " ") text_parts)) in
      record { commands = log; ending = sent result files }
]
