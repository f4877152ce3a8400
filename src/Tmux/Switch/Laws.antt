-- ===== src/Tmux/Switch/Laws.antt =====
-- The server name in `TMUX`, and the command that it leads to.
use tukan.Prelude.{
  ap₂, ℕ, ◌≡◌, refl, ap, ◌∙◌, ◌≢◌, Bool, true, false, ◌&&◌, Option, some, [], ◌∷◌, ◌++◌, arith,
  nat_eq, if◌then◌else◌, any,
}
use tukan.Text.{Text, units, ◌==◌, truthy?, is_truthy}
use tukan.Text.Split.{IsFree, IsFree-append, split-append}
use tukan.Tmux.{TmuxServer}
use tukan.Tmux.Create.{server_args}
use tukan.Tmux.Switch.{
  switch, attach, SwitchTarget, SwitchResult, first, after_last_slash, socket_name,
  detect_server_name, resolve_switch_args, tmux_target, is_same_server,
}

no_slash : (s : Text) → IsFree b'/' s → any (λ d. nat_eq d b'/') s ≡ false
no_slash [] h = refl
no_slash (c ∷ s) (ne, h) = ground (arith, no_slash s h)

after_last_slash_free : (s : Text) → IsFree b'/' s → after_last_slash s ≡ s
unfolding after_last_slash
after_last_slash_free [] h = refl
after_last_slash_free (c ∷ s) (ne, h) = ground (arith, no_slash s h)

slash_behind : (dir name : Text) → any (λ d. nat_eq d b'/') (dir ++ b'/' ∷ name) ≡ true
slash_behind [] name = refl
slash_behind (c ∷ dir) name = ground (arith, slash_behind dir name)

after_last_slash-append :
    (dir name : Text) → IsFree b'/' name → after_last_slash (dir ++ b'/' ∷ name) ≡ name
unfolding after_last_slash
after_last_slash-append [] name h = ground (arith, no_slash name h)
after_last_slash-append (c ∷ dir) name h =
    ground (arith, slash_behind dir name, after_last_slash-append dir name h)

-- The value of `TMUX` for a socket in a directory: the path, and behind a comma what follows it.
abbrev pub tmux_value : (dir name rest : Text) → Text
tmux_value dir name rest = (dir ++ b'/' ∷ name) ++ b',' ∷ rest

socket_name-tmux_value :
    (dir name rest : Text)
    → IsFree b',' dir
    → IsFree b',' name
    → IsFree b'/' name
    → socket_name (tmux_value dir name rest) ≡ name
unfolding socket_name
socket_name-tmux_value dir name rest d n s =
    ap (λ l. after_last_slash (first l))
      (split-append b',' (dir ++ b'/' ∷ name) rest
        (IsFree-append b',' dir (b'/' ∷ name) d (omega arith, n)))
    ∙ after_last_slash-append dir name s

is_truthy-not_empty : (s : Text) → s ≢ [] → is_truthy s ≡ true
is_truthy-not_empty [] ne = absurd (ne refl)
is_truthy-not_empty (c ∷ s) ne = refl

-- What a client run in the tmux server `running` has to run to get to a window of the board's server.
pub expected_switch : Bool → TmuxServer → SwitchTarget → SwitchResult
expected_switch true server target = record {
  mode = switch;
  args =
      server_args server.server_name
      ++ (units "switch-client" ∷ units "-t" ∷ tmux_target target ∷ []);
}
expected_switch false server target = record {
  mode = attach;
  args =
      server_args server.server_name
      ++ (units "attach-session" ∷ units "-t" ∷ tmux_target target ∷ []);
}

resolve_switch_args-expected :
    (target : SwitchTarget)
    → (server : TmuxServer) → (tmux : Option Text)
    → resolve_switch_args target server tmux
      ≡ expected_switch (is_same_server (truthy? tmux) server.server_name) server target
unfolding resolve_switch_args expected_switch
resolve_switch_args-expected target server tmux =
    chosen (is_same_server (truthy? tmux) server.server_name)
  where
    chosen :
        (same : Bool)
        → (if same then expected_switch true server target else expected_switch false server target)
          ≡ expected_switch same server target
    chosen true = refl
    chosen false = refl

switch-found :
    (target : SwitchTarget)
    → (server : TmuxServer) → (c : ℕ) (env name : Text) → is_truthy server.server_name ≡ true
    → socket_name (c ∷ env) ≡ name
    → resolve_switch_args target server (some (c ∷ env))
      ≡ expected_switch (name == server.server_name) server target
switch-found target server c env name t e =
    resolve_switch_args-expected target server (some (c ∷ env))
    ∙ ap (λ same. expected_switch same server target)
        (ap₂ (λ b n. b && (n == server.server_name)) t e)

detect_server_name-found :
    (c : ℕ) (env name : Text)
    → socket_name (c ∷ env) ≡ name
    → detect_server_name (some (c ∷ env)) ≡ some name
unfolding detect_server_name
detect_server_name-found c env name e = ap some e

-- In a tmux whose socket is `dir/name`, with commas and slashes only where they separate, and for a
-- board with a server name: the server found is `name`, and the client is switched when that is the
-- board's server and attached to the board's server when it is another.
pub resolve_switch_args-tmux_value :
    (target : SwitchTarget)
    → (server : TmuxServer) → (dir name rest : Text) → IsFree b',' dir
    → IsFree b',' name
    → IsFree b'/' name
    → server.server_name ≢ []
    → (detect_server_name (some (tmux_value dir name rest)) ≡ some name)
      × (resolve_switch_args target server (some (tmux_value dir name rest))
          ≡ expected_switch (name == server.server_name) server target)
resolve_switch_args-tmux_value target server [] name rest d n s ne =
    let e = socket_name-tmux_value [] name rest d n s in
    (
      detect_server_name-found b'/' (name ++ b',' ∷ rest) name e,
      switch-found target server b'/' (name ++ b',' ∷ rest) name
          (is_truthy-not_empty server.server_name ne) e,
    )
resolve_switch_args-tmux_value target server (c ∷ dir) name rest d n s ne =
    let e = socket_name-tmux_value (c ∷ dir) name rest d n s in
    (
      detect_server_name-found c ((dir ++ b'/' ∷ name) ++ b',' ∷ rest) name e,
      switch-found target server c ((dir ++ b'/' ∷ name) ++ b',' ∷ rest) name
          (is_truthy-not_empty server.server_name ne) e,
    )
