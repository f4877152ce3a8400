-- ===== src/Board/Derive/Once.antt =====
-- How often the loops of `deriveBoard` over the windows show a card.
use tukan.Prelude.{
  ℕ, ◌+◌, ◌≡◌, refl, ◌≢◌, inl, inr, Bool, true, false, not, ◌&&◌, ◌||◌, Option, none, some, List,
  [], ◌∷◌, ◌++◌, arith, if◌then◌else◌, Bool-cases, Option-cases, keep-append, any-append,
  length-append, length, keep, any, All,
}
use tukan.Text.{Text, ◌==◌, truthy?}
use tukan.Dict.{Dict, get}
use tukan.Tmux.{TmuxSession, TmuxWindow}
use tukan.Board.{Card}
use tukan.Board.Activity.{ActivityMap, contains}
use tukan.Board.Activity.Changes.{contains-add}
use tukan.Board.Derive.{
  BoardCard, Shown, is_own, show_window, show_windows, show_sessions, owned_card,
  uncategorized_card,
}

unfoldable pub count : (BoardCard → Bool) → List BoardCard → ℕ
count p bcs = length (keep p bcs)

-- The card of the board shows the card of the configuration with the id.
abbrev pub shows : Text → BoardCard → Bool
shows id bc = not bc.uncategorized && bc.card_id == id

abbrev pub is_card : Text → Option Card → Bool
is_card id none = false
is_card id (some card) = card.id == id

-- the windows that the board shows
unfoldable pub visible : Option Text → List TmuxWindow → List TmuxWindow
visible self_pane_id windows = keep (λ w. not (is_own (truthy? self_pane_id) w)) windows

unfoldable pub all_windows : List TmuxSession → List TmuxWindow
all_windows [] = []
all_windows (session ∷ sessions) = session.windows ++ all_windows sessions

pub count-snoc :
    (p : BoardCard → Bool) (xs : List BoardCard) (x : BoardCard)
    → count p (xs ++ x ∷ []) ≡ count p xs + (if p x then 1 else 0)
unfolding count
count-snoc p [] x = ground arith
count-snoc p (y ∷ xs) x = ground (arith, count-snoc p xs x)

module _ (now : ℕ) (activity_map : ActivityMap) (self_pane_id : Option Text) (index : Dict Card)
    (id : Text) where
  abbrev pub shown_by : TmuxWindow → Bool
  shown_by win = is_card id (get win.id index)

  -- what the loops over the windows add: cards of the board, and seen ids
  pub record Adds (before after : Shown) (windows : List TmuxWindow) : Type 0 where
    pub counted :
        count (shows id) after.board_cards
        ≡ count (shows id) before.board_cards
          + length (keep shown_by (visible self_pane_id windows))
    pub seen :
        contains id after.seen
        ≡ (contains id before.seen || any shown_by (visible self_pane_id windows))

  show_window-Adds :
      (name : Text) (shown : Shown) (win : TmuxWindow)
      → Adds shown (show_window now activity_map self_pane_id index name shown win) (win ∷ [])
  unfolding show_window visible
  show_window-Adds name shown win = elim (Bool-cases (is_own (truthy? self_pane_id) win)) [
    | inl own ↦ record { counted = ground (arith); seen = ground arith }
    | inr other ↦ elim (Option-cases (get win.id index)) [
      | inl missing ↦ record {
        counted = ground (
          arith,
          count-snoc (shows id) shown.board_cards (uncategorized_card now activity_map name win),
        );
        seen = ground arith;
      }
      | inr (card, there) ↦ record {
        counted = ground (
          arith,
          count-snoc (shows id) shown.board_cards (owned_card now activity_map name win card),
        );
        seen = ground (arith, contains-add card.id id shown.seen);
      }
    ]
  ]

  Adds-nil : (shown : Shown) → Adds shown shown []
  unfolding visible
  Adds-nil shown = record { counted = omega arith; seen = ground arith }

  Adds-append :
      {a b c : Shown} (ws vs : List TmuxWindow) → Adds a b ws → Adds b c vs → Adds a c (ws ++ vs)
  unfolding visible
  Adds-append ws vs h k = record {
    counted = rw (keep-append, keep-append, length-append) (omega (arith, h.counted, k.counted));
    seen = rw (keep-append, any-append) (ground (arith, h.seen, k.seen));
  }

  show_windows-Adds :
      (name : Text) (shown : Shown) (windows : List TmuxWindow)
      → Adds shown (show_windows now activity_map self_pane_id index name shown windows) windows
  unfolding show_windows
  show_windows-Adds name shown [] = Adds-nil shown
  show_windows-Adds name shown (w ∷ windows) =
      Adds-append (w ∷ []) windows (show_window-Adds name shown w) (
        show_windows-Adds name (show_window now activity_map self_pane_id index name shown w)
          windows)

  pub show_sessions-Adds :
      (shown : Shown) (sessions : List TmuxSession)
      → Adds shown
          (show_sessions now activity_map self_pane_id index shown sessions)
          (all_windows sessions)
  unfolding show_sessions all_windows
  show_sessions-Adds shown [] = Adds-nil shown
  show_sessions-Adds shown (session ∷ sessions) =
      Adds-append session.windows (all_windows sessions)
        (show_windows-Adds session.name shown session.windows)
        (show_sessions-Adds
          (show_windows now activity_map self_pane_id index session.name shown session.windows)
          sessions)

-- No window id stands twice.
abbrev pub HasDistinctIds : List TmuxWindow → Type 0
HasDistinctIds [] = Unit
HasDistinctIds (w ∷ ws) = All (λ v. v.id ≢ w.id) ws × HasDistinctIds ws

All-keep :
    (P : TmuxWindow → Type 0) (q : TmuxWindow → Bool) (ws : List TmuxWindow)
    → All P ws
    → All P (keep q ws)
All-keep P q [] h = tt
All-keep P q (w ∷ ws) (p, h) = elim (Bool-cases (q w)) [
  | inl here ↦ rw here (p, All-keep P q ws h)
  | inr out ↦ rw out (All-keep P q ws h)
]

pub HasDistinctIds-keep :
    (q : TmuxWindow → Bool) (ws : List TmuxWindow) → HasDistinctIds ws → HasDistinctIds (keep q ws)
HasDistinctIds-keep q [] h = tt
HasDistinctIds-keep q (w ∷ ws) (p, h) = elim (Bool-cases (q w)) [
  | inl here ↦ rw here (All-keep (λ v. v.id ≢ w.id) q ws p, HasDistinctIds-keep q ws h)
  | inr out ↦ rw out (HasDistinctIds-keep q ws h)
]

module _ (p : TmuxWindow → Bool)
    (same : (w v : TmuxWindow) → p w ≡ true → p v ≡ true → w.id ≡ v.id) where
  none_left :
      (w : TmuxWindow) (ws : List TmuxWindow)
      → p w ≡ true
      → All (λ v. v.id ≢ w.id) ws
      → keep p ws ≡ []
  none_left w [] here h = refl
  none_left w (v ∷ ws) here (ne, h) = elim (Bool-cases (p v)) [
    | inl there ↦ absurd (ne (same v w there here))
    | inr out ↦ rw out (none_left w ws here h)
  ]

  pub at_most_once :
      (ws : List TmuxWindow) → HasDistinctIds ws → length (keep p ws) ≡ (if any p ws then 1 else 0)
  at_most_once [] h = refl
  at_most_once (w ∷ ws) (ne, h) = elim (Bool-cases (p w)) [
    | inl here ↦ rw here (rw (none_left w ws here ne) refl)
    | inr out ↦ rw out (at_most_once ws h)
  ]
