-- ===== src/Tmux/Switch.antt =====
-- src/tmux/switch.ts and the server name of src/index.tsx: how a client gets to a window.
pub mod Laws
use tukan.Prelude.{
  ◌+◌, ◌-◌, ◌/◌, Bool, false, ◌&&◌, Option, none, some, List, [], ◌∷◌, ◌++◌, nat_eq, if◌then◌else◌,
  any,
}
use tukan.Text.{Text, units, ◌==◌, split, is_truthy, truthy?}
use tukan.Tmux.{TmuxServer}
use tukan.Tmux.Create.{server_args}

pub data Mode : Type 0 where
  switch attach : Mode

pub record SwitchResult : Type 0 where
  pub mode : Mode
  pub args : List Text

pub record SwitchTarget : Type 0 where
  pub session_name : Text
  pub window_id : Text

-- `s.split(",")[0]`, of a list that is never empty
abbrev pub first : List Text → Text
first [] = []
first (w ∷ ws) = w

-- `s.substring(s.lastIndexOf("/") + 1)`
unfoldable pub after_last_slash : Text → Text
after_last_slash [] = []
after_last_slash (c ∷ s) =
    let rest = after_last_slash s in
    if any (λ d. nat_eq d b'/') s then rest else if nat_eq c b'/' then s else c ∷ s

-- the name of the server in the variable `TMUX`
unfoldable pub socket_name : Text → Text
unfolding after_last_slash
socket_name tmux = after_last_slash (first (split b',' tmux))

-- `detectServerName`, from the variable `TMUX`
unfoldable pub detect_server_name : Option Text → Option Text
unfolding socket_name
detect_server_name tmux = elim (truthy? tmux) [ none ↦ none | some env ↦ some (socket_name env) ]

abbrev pub tmux_target : SwitchTarget → Text
tmux_target target = target.session_name ++ (units ":" ++ target.window_id)

abbrev pub is_same_server : Option Text → Text → Bool
is_same_server none server_name = false
is_same_server (some env) server_name = is_truthy server_name && socket_name env == server_name

-- `tmux` is `env.TMUX`.
unfoldable pub resolve_switch_args : SwitchTarget → TmuxServer → Option Text → SwitchResult
unfolding socket_name
resolve_switch_args target server tmux =
    if is_same_server (truthy? tmux) server.server_name
    then record {
      mode = switch;
      args =
          server_args server.server_name
          ++ (units "switch-client" ∷ units "-t" ∷ tmux_target target ∷ []);
    }
    else record {
      mode = attach;
      args =
          server_args server.server_name
          ++ (units "attach-session" ∷ units "-t" ∷ tmux_target target ∷ []);
    }
