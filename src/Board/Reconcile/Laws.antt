-- ===== src/Board/Reconcile/Laws.antt =====
-- What `reconcileConfig` makes of each card.
use tukan.Prelude.{
  ℕ, ◌<◌, ◌≡◌, refl, sym, ap, ◌∙◌, inl, inr, false, ◌&&◌, none, some, [], ◌∷◌, arith, if◌then◌else◌,
  Bool, true, Option, List, ◌++◌, Bool-cases, Option-cases,
}
use tukan.Text.{Text, units, starts_with, truthy?, is_truthy, ◌==◌}
use tukan.Text.Equality.{eq_iff, eq_refl}
use tukan.Dict.{Dict, get, set, IsDistinct}
use tukan.Dict.Laws.{get-set, set-get_self, set-set_self}
use tukan.Dict.Extension.{
  map_values, write_all, write_all_self, map_values-IsDistinct, map_values-map_values,
}
use tukan.Tmux.{TmuxServer, TmuxSession, TmuxWindow}
use tukan.Board.Derive.Once.{all_windows}
use tukan.Board.{Card, BoardConfig, is_set}
use tukan.Board.Reconcile.{
  names_of_windows, names_of_sessions, window_names, Pass, reconcile_entry, reconcile_entries,
  reconcile_config,
}

-- The card with a live window of some name: it is open, and has the name of its window if its own is
-- a placeholder.
abbrev pub opened : Text → Card → Card
opened win_name card = record card {
  closed_at = if is_set card.closed_at then none else card.closed_at;
  name = if starts_with card.name (units "@") && is_truthy win_name then win_name else card.name;
}

-- The card whose window is gone: closed since now, unless it was closed before.
abbrev pub gone : ℕ → Card → Card
gone now card = record card {
  closed_at = if is_set card.closed_at then card.closed_at else some now;
}

-- `live` is the name of a live window, and none for a window that is gone. A card without a window
-- stays as it is.
pub settle : ℕ → (live : Text → Option Text) → Card → Card
settle now live card = elim (truthy? card.window_id) [
  | none ↦ card
  | some window_id ↦ elim (live window_id) [
    | none ↦ gone now card
    | some win_name ↦ opened win_name card
  ]
]

-- The name of the last window with the id in the list, if there is one.
pub last_name : List TmuxWindow → Text → Option Text
last_name [] window_id = none
last_name (win ∷ windows) window_id = elim (last_name windows window_id) [
  | some name ↦ some name
  | none ↦ if win.id == window_id then some win.name else none
]

-- The name of a window that any session of the server has.
abbrev pub live_name : TmuxServer → Text → Option Text
live_name server = last_name (all_windows server.sessions)

get-names_of_windows :
    (names : Dict Text) (windows : List TmuxWindow) (w : Text)
    → get w (names_of_windows names windows)
      ≡ elim (last_name windows w) [ some name ↦ some name | none ↦ get w names ]
unfolding names_of_windows last_name
get-names_of_windows names [] w = refl
get-names_of_windows names (win ∷ windows) w =
    get-names_of_windows (set win.id win.name names) windows w
    ∙ (elim (Option-cases (last_name windows w)) [
      | inl nothing ↦
          rw nothing (get-set win.id w win.name names ∙ later (win.id == w) win.name (get w names))
      | inr (name, e) ↦ rw e refl
    ])
  where
    later :
        (b : Bool) (name : Text) (before : Option Text)
        → (if b then some name else before)
          ≡ elim (if◌then◌else◌ {A = Option Text} b (some name) none) [
            | some n ↦ some n
            | none ↦ before
          ]
    later true name before = refl
    later false name before = refl

last_name-append :
    (xs ys : List TmuxWindow) (w : Text)
    → last_name (xs ++ ys) w
      ≡ elim (last_name ys w) [ some name ↦ some name | none ↦ last_name xs w ]
unfolding last_name
last_name-append [] ys w = elim (Option-cases (last_name ys w)) [
  | inl nothing ↦ rw nothing refl
  | inr (name, e) ↦ rw e refl
]
last_name-append (win ∷ xs) ys w = elim (Option-cases (last_name ys w)) [
  | inl nothing ↦ rw nothing (rw (last_name-append xs ys w) (rw nothing refl))
  | inr (name, e) ↦ rw e (rw (last_name-append xs ys w) (rw e refl))
]

get-names_of_sessions :
    (names : Dict Text) (sessions : List TmuxSession) (w : Text)
    → get w (names_of_sessions names sessions)
      ≡ elim (last_name (all_windows sessions) w) [ some name ↦ some name | none ↦ get w names ]
unfolding names_of_sessions last_name all_windows
get-names_of_sessions names [] w = refl
get-names_of_sessions names (session ∷ sessions) w =
    get-names_of_sessions (names_of_windows names session.windows) sessions w
    ∙ (elim (Option-cases (last_name (all_windows sessions) w)) [
      | inl nothing ↦ rw nothing (
          rw (last_name-append session.windows (all_windows sessions) w)
            (rw nothing (get-names_of_windows names session.windows w)))
      | inr (name, e) ↦
          rw e (rw (last_name-append session.windows (all_windows sessions) w) (rw e refl))
    ])

get-window_names :
    (server : TmuxServer) (w : Text) → get w (window_names server) ≡ live_name server w
unfolding window_names get
get-window_names server w =
    get-names_of_sessions [] server.sessions w ∙ unnamed (last_name (all_windows server.sessions) w)
  where
    unnamed : (o : Option Text) → elim o [ some name ↦ some name | none ↦ none ] ≡ o
    unnamed none = refl
    unnamed (some name) = refl

module _ (now : ℕ) (names : Dict Text) where
  abbrev named : Text → Option Text
  named w = get w names

  cards-reconcile_entry :
      (id : Text) (card : Card) (pass : Pass)
      → get id pass.cards ≡ some card
      → (reconcile_entry now names id card pass).cards ≡ set id (settle now named card) pass.cards
  unfolding reconcile_entry settle
  cards-reconcile_entry id card pass h = elim (Option-cases (truthy? card.window_id)) [
    | inl unlinked ↦ ground (arith, set-get_self id card pass.cards h)
    | inr (w, linked) ↦ elim (Option-cases (get w names)) [
      | inl missing ↦ ground (arith, set-get_self id card pass.cards h)
      | inr (win_name, live) ↦ ground (
        arith,
        set-get_self id card pass.cards h,
        set-set_self id (opened win_name card) (record card { closed_at = none }) pass.cards,
        get-set id id (record card { closed_at = none }) pass.cards,
        eq_refl id,
      )
    ]
  ]

  unchanged-reconcile_entry :
      (id : Text) (card : Card) (pass : Pass)
      → (reconcile_entry now names id card pass).changed ≡ false
      → reconcile_entry now names id card pass ≡ pass
  unfolding reconcile_entry
  unchanged-reconcile_entry id card pass h = ground arith

  abbrev Agrees : Dict Card → Dict Card → Type 0
  Agrees entries cards = (k : Text) (c : Card) → get k entries ≡ some c → get k cards ≡ some c

  cards-reconcile_entries :
      (entries : Dict Card) (pass : Pass)
      → IsDistinct entries
      → Agrees entries pass.cards
      → (reconcile_entries now names pass entries).cards
        ≡ write_all (settle now named) entries pass.cards
  unfolding reconcile_entries write_all get
  cards-reconcile_entries [] pass d h = refl
  cards-reconcile_entries ((id, card) ∷ entries) pass (fresh, d) h =
      let here = h id card (rw (eq_refl id)) in
      let step = cards-reconcile_entry id card pass here in
      let next = reconcile_entry now names id card pass in
      let agrees : Agrees entries next.cards = λ k c e. rw step (
        rw (get-set id k (settle now named card) pass.cards)
          (ground (arith, h k c, eq_iff id k))) in
      cards-reconcile_entries entries next d agrees ∙ ap (write_all (settle now named) entries) step

  unchanged-reconcile_entries :
      (entries : Dict Card) (pass : Pass)
      → (reconcile_entries now names pass entries).changed ≡ false
      → reconcile_entries now names pass entries ≡ pass
  unfolding reconcile_entries
  unchanged-reconcile_entries [] pass h = refl
  unchanged-reconcile_entries ((id, card) ∷ entries) pass h =
      let next = reconcile_entry now names id card pass in
      let rest = unchanged-reconcile_entries entries next h in
      let still : next.changed ≡ false = ap (λ (p : Pass). p.changed) (sym rest) ∙ h in
      rest ∙ unchanged-reconcile_entry id card pass still

-- Reconciling a board with distinct ids settles every card by its window, and changes nothing else: a
-- card whose window no session has is closed, one whose window a session has is open and takes the window's name in place of a placeholder,
-- and one without a window stays as it is.
pub reconcile_config-eq-settle :
    (now : ℕ) (config : BoardConfig) (server : TmuxServer)
    → IsDistinct config.cards
    → reconcile_config now config server
      ≡ record config { cards = map_values (settle now (live_name server)) config.cards }
unfolding reconcile_config
reconcile_config-eq-settle now config server d =
    let names = window_names server in
    let start : Pass = record { cards = config.cards; changed = false } in
    let end_pass = reconcile_entries now names start config.cards in
    let settled : end_pass.cards ≡ map_values (settle now (live_name server)) config.cards =
      cards-reconcile_entries now names config.cards start d (λ k c e. e)
      ∙ write_all_self (settle now (λ w. get w names)) config.cards d
      ∙ ap (λ live. map_values (settle now live) config.cards)
          (λ i w. get-window_names server w i) in
    elim (Bool-cases end_pass.changed) [
      | inl changed ↦ rw changed (ap (λ c. record config { cards = c }) settled)
      | inr unchanged ↦ rw unchanged (
          ap (λ c. record config { cards = c })
            (ap (λ (p : Pass). p.cards)
                (sym (unchanged-reconcile_entries now names config.cards start unchanged))
              ∙ settled))
    ]

settle_idempotent :
    (now later : ℕ) (live : Text → Option Text) (card : Card)
    → 0 < now
    → settle later live (settle now live card) ≡ settle now live card
unfolding settle
settle_idempotent now later live card pos = elim (Option-cases (truthy? card.window_id)) [
  | inl unlinked ↦ ground arith
  | inr (w, linked) ↦ elim (Option-cases (live w)) [
    | inl missing ↦ ground arith
    | inr (win_name, is_live) ↦ ground arith
  ]
]

-- On a board with distinct ids, reconciling a second time, at any time after a first time that is not
-- 0 and with the same windows, changes nothing.
pub reconcile_config_idempotent :
    (now later : ℕ) (config : BoardConfig) (server : TmuxServer)
    → IsDistinct config.cards
    → 0 < now
    → reconcile_config later (reconcile_config now config server) server
      ≡ reconcile_config now config server
reconcile_config_idempotent now later config server d pos =
    let names = live_name server in
    let once = reconcile_config-eq-settle now config server d in
    let settled : BoardConfig = record config {
      cards = map_values (settle now names) config.cards;
    } in
    ap (λ c. reconcile_config later c server) once
    ∙ reconcile_config-eq-settle later settled server
        (map_values-IsDistinct (settle now names) config.cards d)
    ∙ ap (λ c. record config { cards = c })
        (map_values-map_values (settle later names) (settle now names) config.cards
          (λ c. settle_idempotent now later names c pos))
    ∙ sym once
