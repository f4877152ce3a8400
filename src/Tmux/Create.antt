-- ===== src/Tmux/Create.antt =====
-- src/tmux/create.ts: branch names, and the argument lists of the tmux and git commands.
pub mod Branch
use tukan.Prelude.{
  ℕ, ◌+◌, ◌-◌, ◌/◌, Bool, ◌&&◌, ◌||◌, Option, none, some, List, [], ◌∷◌, ◌++◌, map, leb, nat_eq,
  if◌then◌else◌, or_else, keep,
}
use tukan.Text.{Text, units, ◌==◌, is_space, trim, split, join, is_truthy, LowerCase}

-- `.replace(/\s+/g, "-")`: a space that another follows gives nothing
unfoldable pub dash_spaces : Text → Text
dash_spaces [] = []
dash_spaces (c ∷ []) = if is_space c then b'-' ∷ [] else c ∷ []
dash_spaces (c ∷ d ∷ s) =
    let rest = dash_spaces (d ∷ s) in
    if is_space c then (if is_space d then rest else b'-' ∷ rest) else c ∷ rest

-- the class `[a-z0-9._/-]`
unfoldable pub is_branch_char : ℕ → Bool
is_branch_char c =
    (leb b'a' c && leb c b'z')
    || (leb b'0' c && leb c b'9')
    || nat_eq c b'.'
    || nat_eq c b'_'
    || nat_eq c b'/'
    || nat_eq c b'-'

-- the class `[-./]`
unfoldable pub is_edge : ℕ → Bool
is_edge c = nat_eq c b'-' || nat_eq c b'.' || nat_eq c b'/'

-- `.replace(/\.{2,}/g, ".")`
pub put_dot : ℕ → Text → Text
put_dot c [] = c ∷ []
put_dot c (d ∷ s) = if nat_eq c b'.' && nat_eq d b'.' then d ∷ s else c ∷ d ∷ s

unfoldable pub single_dots : Text → Text
unfolding put_dot
single_dots [] = []
single_dots (c ∷ s) = put_dot c (single_dots s)

-- `.replace(/^[-./]+|[-./]+$/g, "")`
unfoldable pub strip_start : Text → Text
unfolding is_edge
strip_start [] = []
strip_start (c ∷ s) = let rest = strip_start s in if is_edge c then rest else c ∷ s

pub put_unless_edge : ℕ → Text → Text
unfolding is_edge
put_unless_edge c [] = if is_edge c then [] else c ∷ []
put_unless_edge c (d ∷ s) = c ∷ d ∷ s

unfoldable pub strip_end : Text → Text
unfolding put_unless_edge
strip_end [] = []
strip_end (c ∷ s) = put_unless_edge c (strip_end s)

abbrev pub or_worktree : Text → Text
or_worktree [] = units "worktree"
or_worktree (c ∷ s) = c ∷ s

unfoldable pub sanitize_branch_name : LowerCase → Text → Text
unfolding dash_spaces is_branch_char single_dots strip_start strip_end
sanitize_branch_name locale name = or_worktree (
    strip_end (
      strip_start
        (single_dots (keep is_branch_char (dash_spaces (locale.to_lower_case (trim name)))))))

-- The functions of `node:path` that the program calls, with the base directory of `resolve` first.
pub record NodePath : Type 0 where
  pub basename : Text → Text
  pub resolve : Text → List Text → Text

pub record Worktree : Type 0 where
  pub args : List Text
  pub worktree_path : Text

-- An optional path that is `undefined` or empty is not given.
abbrev pub worktree_dir : NodePath → Text → Text → Option Text → Text
worktree_dir path dir dir_name none = path.resolve dir (units ".." ∷ dir_name ∷ [])
worktree_dir path dir dir_name (some []) = path.resolve dir (units ".." ∷ dir_name ∷ [])
worktree_dir path dir dir_name (some (c ∷ s)) = path.resolve dir ((c ∷ s) ∷ [])

unfoldable pub build_worktree_args : LowerCase → NodePath → Text → Text → Option Text → Worktree
build_worktree_args locale path dir name relative_path =
    let branch = sanitize_branch_name locale name in
    let dir_name = path.basename dir ++ (units "-" ++ branch) in
    let worktree_path = worktree_dir path dir dir_name relative_path in
    record {
      args =
          units "-C"
          ∷ dir
          ∷ units "worktree"
          ∷ units "add"
          ∷ worktree_path
          ∷ units "-b"
          ∷ branch
          ∷ [];
      worktree_path = worktree_path;
    }

pub record NewWindowOpts : Type 0 where
  pub session_name : Text
  pub name : Text
  pub dir : Text
  pub command_template : Text
  pub description : Option Text
  pub acceptance_criteria : Option Text

abbrev present : Option Text → (Text → Text) → List Text
present none f = []
present (some []) f = []
present (some (c ∷ s)) f = f (c ∷ s) ∷ []

unfoldable pub build_prompt : Option Text → Option Text → Text
build_prompt description acceptance_criteria = join (10 ∷ 10 ∷ []) (
    present description (λ d. d)
    ++ present acceptance_criteria (λ a. units "Acceptance criteria: " ++ a))

-- `...(serverName ? ["-L", serverName] : [])`
abbrev pub server_args : Text → List Text
server_args [] = []
server_args (c ∷ s) = units "-L" ∷ (c ∷ s) ∷ []

unfoldable pub env_vars : NewWindowOpts → List Text
env_vars opts =
    units "-e"
    ∷ (units "TUKAN_CARD_NAME=" ++ opts.name)
    ∷ units "-e"
    ∷ (units "TUKAN_CARD_DESCRIPTION=" ++ or_else opts.description [])
    ∷ units "-e"
    ∷ (units "TUKAN_CARD_AC=" ++ or_else opts.acceptance_criteria [])
    ∷ []

abbrev quote : Text
quote = 34 ∷ []

-- `exec "${SHELL:-sh}"`
abbrev exec_shell : Text
exec_shell = units "exec " ++ (quote ++ (units "${SHELL:-sh}" ++ quote))

abbrev pub prompt_args : Text → List Text
prompt_args [] = []
prompt_args (c ∷ s) = (c ∷ s) ∷ []

-- what `appendCommand` pushes behind the environment
unfoldable pub command_args : NewWindowOpts → List Text
unfolding build_prompt
command_args opts =
    if is_truthy opts.command_template
    then (if opts.command_template == units "claude"
        then units "sh"
          ∷ units "-c"
          ∷ (units "claude " ++ (quote ++ (units "$@" ++ (quote ++ (units "; " ++ exec_shell)))))
          ∷ units "--"
          ∷ prompt_args (build_prompt opts.description opts.acceptance_criteria)
        else units "sh" ∷ units "-c" ∷ (opts.command_template ++ (units "; " ++ exec_shell)) ∷ [])
    else []

unfoldable pub build_new_session_args : NewWindowOpts → Text → List Text
unfolding env_vars command_args
build_new_session_args opts server_name =
    server_args server_name
    ++ (units "new-session"
        ∷ units "-d"
        ∷ units "-P"
        ∷ units "-F"
        ∷ units "#{window_id}"
        ∷ units "-s"
        ∷ opts.session_name
        ∷ units "-n"
        ∷ opts.name
        ∷ units "-c"
        ∷ opts.dir
        ∷ (env_vars opts ++ command_args opts))

unfoldable pub build_new_window_args : NewWindowOpts → Text → List Text
unfolding env_vars command_args
build_new_window_args opts server_name =
    server_args server_name
    ++ (units "new-window"
        ∷ units "-P"
        ∷ units "-F"
        ∷ units "#{window_id}"
        ∷ units "-t"
        ∷ opts.session_name
        ∷ units "-n"
        ∷ opts.name
        ∷ units "-c"
        ∷ opts.dir
        ∷ (env_vars opts ++ command_args opts))

unfoldable pub build_worktree_merge_args : Text → Text → List (List Text)
build_worktree_merge_args dir branch_name =
    (units "-C" ∷ dir ∷ units "merge" ∷ branch_name ∷ [])
    ∷ (units "-C" ∷ dir ∷ units "branch" ∷ units "-d" ∷ branch_name ∷ [])
    ∷ []

unfoldable pub build_worktree_remove_args : Text → Text → List Text
build_worktree_remove_args dir worktree_path =
    units "-C" ∷ dir ∷ units "worktree" ∷ units "remove" ∷ worktree_path ∷ []

abbrev pub send_line : Text → Text → Text → List Text
send_line window_id server_name line =
    server_args server_name
    ++ (units "send-keys" ∷ units "-t" ∷ window_id ∷ line ∷ units "Enter" ∷ [])

unfoldable pub build_send_keys_args : Text → Text → Text → List (List Text)
build_send_keys_args window_id text server_name =
    map (send_line window_id server_name) (keep (λ l. is_truthy (trim l)) (split 10 text))
