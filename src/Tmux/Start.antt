-- ===== src/Tmux/Start.antt =====
-- src/ui/App.tsx, `startCard`, and src/cli.ts, the command `start`: the git and tmux commands that
-- give a card its worktree and its window.
pub mod Arguments
pub mod Opening
use tukan.Prelude.{
  Bool, true, false, not, Option, none, some, List, [], ◌∷◌, ◌++◌, if◌then◌else◌, or_else, keep,
  find,
}
use tukan.Text.{Text, units, ◌==◌, trim, is_truthy, LowerCase}
use tukan.Board.{Card, BoardConfig, CommandDef}
use tukan.Tmux.Create.{
  NodePath, Worktree, NewWindowOpts, sanitize_branch_name, build_worktree_args,
  build_new_session_args, build_new_window_args, build_send_keys_args,
}

pub data Command : Type 0 where
  git_command : List Text → Command
  tmux_command : List Text → Command

-- What the file system, git and tmux answer; `none` is an exit with an error.
pub record World : Type 0 where
  pub exists_path : Text → Bool
  pub git : List Text → Option Text
  pub tmux : List Text → Option Text

-- The commands that were run, in order, and the result, which is `none` if an error was thrown.
abbrev pub Run : Type 0 → Type 0
Run A = List Command × Option A

infixl 5 ◌>>=◌
abbrev pub ◌>>=◌ : {A B : Type 0} → Run A → (A → Run B) → Run B
(log, none) >>= f = (log, none)
(log, some a) >>= f = let (rest, b) = f a in (log ++ rest, b)

abbrev pub done : {A : Type 0} → A → Run A
done a = ([], some a)

abbrev pub ignore_output : Option Text → Option (Unit {0})
ignore_output none = none
ignore_output (some out) = some tt

abbrev pub trimmed : Option Text → Option Text
trimmed none = none
trimmed (some out) = some (trim out)

-- `execFileAsync("git", args)`
unfoldable pub exec_git : World → List Text → Run (Unit {0})
exec_git w args = (git_command args ∷ [], ignore_output (w.git args))

-- `execTmuxCommand`
unfoldable pub exec_tmux_command : World → List Text → Run (Unit {0})
exec_tmux_command w args = (tmux_command args ∷ [], ignore_output (w.tmux args))

-- `execTmuxCommandWithOutput`
unfoldable pub exec_tmux_command_with_output : World → List Text → Run Text
exec_tmux_command_with_output w args = (tmux_command args ∷ [], trimmed (w.tmux args))

-- the arguments without `-b`, for a branch that exists
abbrev pub checkout_args : Worktree → List Text
checkout_args wt = keep (λ a. not (a == units "-b")) wt.args

abbrev pub caught : {A : Type 0} → Run A → Run A → Run A
caught (log, some a) handler = (log, some a)
caught (log, none) handler = let (rest, b) = handler in (log ++ rest, b)

unfoldable pub add_worktree : World → Worktree → Run (Unit {0})
unfolding exec_git
add_worktree w wt =
    if w.exists_path wt.worktree_path
    then done tt
    else caught (exec_git w wt.args) (exec_git w (checkout_args wt))

unfoldable pub prepare_dir : LowerCase → NodePath → World → Card → Run Text
unfolding add_worktree
prepare_dir locale path w card =
    if card.worktree
    then (let wt = build_worktree_args locale path card.dir card.name card.worktree_path in
        add_worktree w wt >>= λ _. done wt.worktree_path)
    else done card.dir

abbrev template_of : Option CommandDef → Text
template_of none = []
template_of (some command) = command.template

-- `cmdDef?.template ?? ""`
unfoldable pub command_template : BoardConfig → Card → Text
command_template config card = template_of (find (λ c. c.id == card.command) config.commands)

abbrev pub window_opts : LowerCase → Text → Text → Text → Card → NewWindowOpts
window_opts locale session_name dir template card = record {
  session_name = session_name;
  name = sanitize_branch_name locale card.name;
  dir = dir;
  command_template = template;
  description = some card.description;
  acceptance_criteria = some card.acceptance_criteria;
}

abbrev pub open_args : Bool → NewWindowOpts → Text → List Text
open_args true opts server_name = build_new_window_args opts server_name
open_args false opts server_name = build_new_session_args opts server_name

-- the loop over the key commands, which ends at the first that fails
unfoldable pub send_all : World → List (List Text) → Run (Unit {0})
unfolding exec_tmux_command
send_all w [] = done tt
send_all w (args ∷ rest) = exec_tmux_command w args >>= λ _. send_all w rest

abbrev pub description_keys : Text → Card → Text → Text → List (List Text)
description_keys template card server_name window_id =
    if is_truthy template
    then []
    else if is_truthy card.description
    then build_send_keys_args window_id card.description server_name
    else []

-- `has_server` says that tmux has a session, and `session_name` is the session of the new window.
unfoldable pub start_window :
    LowerCase
    → NodePath
    → World
    → (has_server : Bool) (server_name : Option Text) (session_name : Text) → BoardConfig
    → Card
    → Run Text
unfolding prepare_dir exec_tmux_command_with_output send_all command_template
start_window locale path w has_server server_name session_name config card =
    let server = or_else server_name [] in
    let template = command_template config card in
    prepare_dir locale path w card >>= λ dir.
    exec_tmux_command_with_output w
      (open_args has_server (window_opts locale session_name dir template card) server)
    >>= λ window_id.
        send_all w (description_keys template card server window_id) >>= λ _. done window_id
