-- ===== src/Tmux/Panes.antt =====
-- The panes of the windows of a server, and the window that each of them is in: what the loops over
-- `sessions`, `windows` and `panes` in src/index.tsx and src/ui/App.tsx collect, said without them.
use tukan.Prelude.{
  ◌≡◌, refl, ap, ◌∙◌, sym, Bool, true, false, Option, none, some, List, [], ◌∷◌, ◌++◌, map, not,
  ◌&&◌, any, if◌then◌else◌, append_assoc,
}
use tukan.Text.{Text, ◌==◌, truthy?}
use tukan.Dict.{Dict, get}
use tukan.Tmux.{TmuxPane, TmuxWindow}

-- The ids of all panes, in order.
unfoldable pub pane_ids_of : List TmuxWindow → List Text
pane_ids_of [] = []
pane_ids_of (win ∷ windows) = map (λ (pane : TmuxPane). pane.id) win.panes ++ pane_ids_of windows

-- The last window that has a pane with the id.
unfoldable pub owner : Text → List TmuxWindow → Option Text
owner pane_id [] = none
owner pane_id (win ∷ windows) = elim (owner pane_id windows) [
  | some window_id ↦ some window_id
  | none ↦ if any (λ (pane : TmuxPane). pane.id == pane_id) win.panes then some win.id else none
]

-- `later` if it is there, `before` otherwise
abbrev pub or_before : Option Text → Option Text → Option Text
or_before (some later) before = some later
or_before none before = before

pub or_before-none : (o : Option Text) → or_before o none ≡ o
or_before-none none = refl
or_before-none (some w) = refl

pub or_before_assoc :
    (a b c : Option Text) → or_before a (or_before b c) ≡ or_before (or_before a b) c
or_before_assoc none b c = refl
or_before_assoc (some a) b c = refl

pub owner-cons :
    (pane_id : Text) (win : TmuxWindow) (windows : List TmuxWindow)
    → owner pane_id (win ∷ windows)
      ≡ or_before
          (owner pane_id windows)
          (if any (λ (pane : TmuxPane). pane.id == pane_id) win.panes then some win.id else none)
unfolding owner
owner-cons pane_id win windows = go (owner pane_id windows)
  where
    go :
        (o : Option Text)
        → elim o [
          | some window_id ↦ some window_id
          | none ↦
              if any (λ (pane : TmuxPane). pane.id == pane_id) win.panes then some win.id else none
        ]
          ≡ or_before o (
              if any (λ (pane : TmuxPane). pane.id == pane_id) win.panes then some win.id else none)
    go none = refl
    go (some w) = refl

pub owner-append :
    (pane_id : Text) (xs ys : List TmuxWindow)
    → owner pane_id (xs ++ ys) ≡ or_before (owner pane_id ys) (owner pane_id xs)
unfolding owner
owner-append pane_id [] ys = sym (or_before-none (owner pane_id ys))
owner-append pane_id (win ∷ xs) ys =
    let here =
      if any (λ (pane : TmuxPane). pane.id == pane_id) win.panes then some win.id else none in
    owner-cons pane_id win (xs ++ ys)
    ∙ ap (λ o. or_before o here) (owner-append pane_id xs ys)
    ∙ sym (or_before_assoc (owner pane_id ys) (owner pane_id xs) here)
    ∙ ap (or_before (owner pane_id ys)) (sym (owner-cons pane_id win xs))

pub pane_ids_of-append :
    (xs ys : List TmuxWindow) → pane_ids_of (xs ++ ys) ≡ pane_ids_of xs ++ pane_ids_of ys
unfolding pane_ids_of
pane_ids_of-append [] ys = refl
pane_ids_of-append (win ∷ xs) ys =
    ap (λ l. map (λ (pane : TmuxPane). pane.id) win.panes ++ l) (pane_ids_of-append xs ys)
    ∙ sym (
        append_assoc (map (λ (pane : TmuxPane). pane.id) win.panes) (pane_ids_of xs)
          (pane_ids_of ys))

abbrev pub is_the : Option Text → Text → Bool
is_the none window_id = false
is_the (some w) window_id = w == window_id

-- The hash of a pane was known before, and was another one.
abbrev pub was_other : Option Text → Text → Bool
was_other none hash = false
was_other (some old) hash = not (old == hash)

-- The pane, which has this hash now, had another one before, and is in the window.
abbrev pub is_other_pane : Dict Text → List TmuxWindow → Text → Text × Text → Bool
is_other_pane before windows window_id (pane_id, hash) =
    was_other (get pane_id before) hash && is_the (truthy? (owner pane_id windows)) window_id

-- A pane of the window has another hash now than it had before.
abbrev pub has_other_pane : (before now : Dict Text) → List TmuxWindow → Text → Bool
has_other_pane before now windows window_id = any (is_other_pane before windows window_id) now

-- The window has the pane.
unfoldable pub has_pane : Option Text → TmuxWindow → Bool
has_pane none win = false
has_pane (some []) win = false
has_pane (some (c ∷ s)) win = any (λ (pane : TmuxPane). pane.id == c ∷ s) win.panes

-- The windows but for those that have the pane.
unfoldable pub without_own : Option Text → List TmuxWindow → List TmuxWindow
without_own self_pane_id [] = []
without_own self_pane_id (win ∷ windows) =
    let rest = without_own self_pane_id windows in
    if has_pane self_pane_id win then rest else win ∷ rest

pub without_own-append :
    (self_pane_id : Option Text) (xs ys : List TmuxWindow)
    → without_own self_pane_id (xs ++ ys)
      ≡ without_own self_pane_id xs ++ without_own self_pane_id ys
unfolding without_own
without_own-append self_pane_id [] ys = refl
without_own-append self_pane_id (win ∷ xs) ys =
    ap (λ rest. if has_pane self_pane_id win then rest else win ∷ rest)
      (without_own-append self_pane_id xs ys)
    ∙ either (has_pane self_pane_id win)
  where
    either :
        (b : Bool)
        → (if b
            then without_own self_pane_id xs ++ without_own self_pane_id ys
            else win ∷ (without_own self_pane_id xs ++ without_own self_pane_id ys))
          ≡ (if b then without_own self_pane_id xs else win ∷ without_own self_pane_id xs)
            ++ without_own self_pane_id ys
    either true = refl
    either false = refl
