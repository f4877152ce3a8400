-- ===== src/Tmux/Start/Opening.antt =====
-- What a start runs, and what it answers.
use tukan.Prelude.{
  ◌≡◌, refl, ap, ap₂, sym, ◌∙◌, inl, inr, Bool, Option, none, some, List, [], ◌∷◌, ◌++◌, map,
  append-nil, if◌then◌else◌, or_else, Bool-cases, Option-cases,
}
use tukan.Text.{Text, trim, LowerCase}
use tukan.Board.{Card, BoardConfig}
use tukan.Tmux.Create.{NodePath, Worktree, build_worktree_args}
use tukan.Tmux.Start.Arguments.{
  opening_command, typing_commands, open_args-eq-opening_command,
  description_keys-eq-typing_commands,
}
use tukan.Tmux.Start.{
  Command, git_command, tmux_command, World, Run, ◌>>=◌, done, exec_git, exec_tmux_command,
  exec_tmux_command_with_output, checkout_args, add_worktree, prepare_dir, command_template,
  window_opts, open_args, send_all, description_keys, start_window,
}

-- The parts of a bind that did not throw.
>>=-some :
    {A B : Type 0} (m : Run A) (f : A → Run B) (log : List Command) (b : B)
    → (m >>= f) ≡ (log, some b)
    → (l : List Command) × (a : A) × (r : List Command) × (m ≡ (l, some a))
      × (f a ≡ (r, some b))
      × (log ≡ l ++ r)
>>=-some (l, none) f log b h = absurd (cc (ap (λ p. p.1) h))
>>=-some (l, some a) f log b h =
    (l, a, (f a).0, refl, ap (λ p. ((f a).0, p.1)) h, sym (ap (λ p. p.0) h))

-- The git commands for a worktree: none if it exists, and a checkout if its branch cannot be made.
abbrev pub worktree_steps : World → Worktree → List (List Text)
worktree_steps w wt =
    if w.exists_path wt.worktree_path
    then []
    else wt.args ∷ elim (w.git wt.args) [ some out ↦ [] | none ↦ checkout_args wt ∷ [] ]

-- The directory of the new window, and the git commands in front of it.
abbrev pub start_dir : LowerCase → NodePath → Card → Text
start_dir locale path card =
    if card.worktree
    then (build_worktree_args locale path card.dir card.name card.worktree_path).worktree_path
    else card.dir

abbrev pub git_steps : LowerCase → NodePath → World → Card → List (List Text)
git_steps locale path w card =
    if card.worktree
    then worktree_steps w (build_worktree_args locale path card.dir card.name card.worktree_path)
    else []

log-add_worktree :
    (w : World) (wt : Worktree) → (add_worktree w wt).0 ≡ map git_command (worktree_steps w wt)
unfolding add_worktree exec_git
log-add_worktree w wt = elim (Bool-cases (w.exists_path wt.worktree_path)) [
  | inl there ↦ rw there refl
  | inr missing ↦ elim (Option-cases (w.git wt.args)) [
    | inl failed ↦ rw (missing, failed) refl
    | inr (out, made) ↦ rw (missing, made) refl
  ]
]

prepare_dir-some :
    (locale : LowerCase) (path : NodePath) (w : World) (card : Card) (log : List Command)
    (dir : Text)
    → prepare_dir locale path w card ≡ (log, some dir)
    → (log ≡ map git_command (git_steps locale path w card)) × (dir ≡ start_dir locale path card)
unfolding prepare_dir
prepare_dir-some locale path w card log dir h = elim (Bool-cases card.worktree) [
  | inl on ↦
      let wt = build_worktree_args locale path card.dir card.name card.worktree_path in
      let (l, a, r, ran, last, all) =
        >>=-some (add_worktree w wt) (λ _. done wt.worktree_path) log dir (rw on at h) in
      rw on (
        all
            ∙ ap (λ p. l ++ p.0) (sym last)
            ∙ append-nil l
            ∙ sym (ap (λ p. p.0) ran)
            ∙ log-add_worktree w wt,
        cc last,
      )
  | inr off ↦ rw off (cc (rw off at h), cc (rw off at h))
]

send_all-some :
    (w : World) (commands : List (List Text)) (log : List Command) (u : Unit {0})
    → send_all w commands ≡ (log, some u)
    → log ≡ map tmux_command commands
unfolding send_all exec_tmux_command
send_all-some w [] log u h = cc h
send_all-some w (args ∷ rest) log u h =
    let (l, a, r, ran, last, all) =
      >>=-some (exec_tmux_command w args) (λ _. send_all w rest) log u h in
    let head : l ≡ tmux_command args ∷ [] = cc ran in
    rw all (rw head (rw (send_all-some w rest r u last) refl))

opened_parts :
    (w : World) (args : List Text) (log : List Command) (id : Text)
    → exec_tmux_command_with_output w args ≡ (log, some id)
    → (out : Text) × (w.tmux args ≡ some out) × (id ≡ trim out) × (log ≡ tmux_command args ∷ [])
unfolding exec_tmux_command_with_output
opened_parts w args log id h = elim (Option-cases (w.tmux args)) [
  | inl failed ↦ absurd (cc (rw failed at h))
  | inr (out, answered) ↦ (out, answered, cc (rw answered at h), cc (rw answered at h))
]

-- the log of a start, from those of its parts
joined :
    {log l r l' r' l'' r'' : List Command} (git : List Command) (opened : Command)
    (keys : List Command)
    → log ≡ l ++ r
    → r ≡ l' ++ r'
    → r' ≡ l'' ++ r''
    → l ≡ git
    → l' ≡ opened ∷ []
    → l'' ≡ keys
    → r'' ≡ []
    → log ≡ git ++ opened ∷ keys
joined git opened keys a b c d e f g =
    a ∙ ap₂ ◌++◌ d (b ∙ ap₂ ◌++◌ e (c ∙ ap₂ ◌++◌ f g ∙ append-nil keys))

-- A card that was started.
pub record Started (locale : LowerCase) (path : NodePath) (w : World) (has_server : Bool)
    (server_name : Option Text) (session_name : Text) (config : BoardConfig) (card : Card)
    (log : List Command) (window_id : Text) : Type 0 where
  pub opened : List Text
  pub opens :
      opened
      ≡ opening_command locale has_server
          (or_else server_name [])
          session_name
          (start_dir locale path card)
          config
          card
  pub answer : Text
  pub answered : w.tmux opened ≡ some answer
  pub id : window_id ≡ trim answer
  pub ran :
      log
      ≡ map git_command (git_steps locale path w card)
        ++ (tmux_command opened
            ∷ map tmux_command (typing_commands (or_else server_name []) window_id config card))

module _ (locale : LowerCase) (path : NodePath) (w : World) (has_server : Bool)
    (server_name : Option Text) (session_name : Text) (config : BoardConfig) (card : Card) where
  abbrev opening : Text → List Text
  opening dir =
      open_args has_server (window_opts locale session_name dir (command_template config card) card)
        (or_else server_name [])

  abbrev keys_for : Text → List (List Text)
  keys_for = description_keys (command_template config card) card (or_else server_name [])

  -- A start that returns a window id ran these commands and no other, in this order: the git
  -- commands for the worktree, if the card has one that does not exist; one command that opens a
  -- window, in a new session if tmux has none, with the sanitized name, the directory, the environment
  -- and the command of the card, whose answer is the id; and, where the card runs a plain shell, the
  -- keys that type the lines of its description which are not blank.
  pub start_window-Started :
      (log : List Command) (window_id : Text)
      → start_window locale path w has_server server_name session_name config card
        ≡ (log, some window_id)
      → Started locale path w has_server server_name session_name config card log window_id
  unfolding start_window exec_tmux_command_with_output
  start_window-Started log window_id h =
      let (l, dir, r, prepared, rest, all) =
        >>=-some (prepare_dir locale path w card)
          (λ dir. exec_tmux_command_with_output w (opening dir) >>= λ id.
            send_all w (keys_for id) >>= λ _. done id)
          log window_id h in
      let (l', id, r', opened, rest', all') =
        >>=-some (exec_tmux_command_with_output w (opening dir))
          (λ id. send_all w (keys_for id) >>= λ _. done id) r window_id rest in
      let (l'', u, r'', sent, last, all'') =
        >>=-some (send_all w (keys_for id)) (λ _. done id) r' window_id rest' in
      let (git_log, dir_is) = prepare_dir-some locale path w card l dir prepared in
      let (out, answered, is, opening_log) = opened_parts w (opening dir) l' id opened in
      let same : id ≡ window_id = cc last in
      let keys_log = send_all-some w (keys_for id) l'' u sent in
      let made =
        ap opening dir_is
        ∙ open_args-eq-opening_command locale session_name (start_dir locale path card) card
            has_server (or_else server_name []) config in
      let typed =
        ap keys_for same
        ∙ description_keys-eq-typing_commands (or_else server_name []) window_id config card in
      record {
        opened = opening dir;
        opens = made;
        answer = out;
        answered = answered;
        id = sym same ∙ is;
        ran =
            joined (map git_command (git_steps locale path w card)) (tmux_command (opening dir))
              (map tmux_command (typing_commands (or_else server_name []) window_id config card))
              all all' all'' git_log opening_log (keys_log ∙ ap (map tmux_command) typed) (cc last);
      }
