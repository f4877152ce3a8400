-- ===== src/Board/Derive/Total.antt =====
-- The card that a window belongs to, and how often the whole board shows a card.
use tukan.Prelude.{
  ℕ, ◌+◌, ◌≡◌, refl, ap, ◌∙◌, subst, inl, inr, Bool, true, false, ◌||◌, Option, none, some, List,
  [], ◌∷◌, ◌++◌, arith, if◌then◌else◌, Bool-cases, Option-cases, is_some, length, keep, any, All,
  All-weaken,
}
use tukan.Text.{Text, ◌==◌, truthy?}
use tukan.Text.Equality.{eq_iff}
use tukan.Dict.{Dict, get, set, has, values, IsDistinct}
use tukan.Dict.Laws.{get-set}
use tukan.Tmux.{TmuxServer, TmuxWindow}
use tukan.Board.{Card, BoardConfig}
use tukan.Board.CardOps.Laws.{IsWellFormed}
use tukan.Board.Activity.{ActivityMap, contains}
use tukan.Board.Derive.{
  BoardCard, Shown, show_sessions, show_idle, board_cards, card_index, window_to_card_from,
  idle_card,
}
use tukan.Board.Derive.Once.{
  count, count-snoc, shows, is_card, visible, all_windows, show_sessions-Adds, HasDistinctIds,
  HasDistinctIds-keep, at_most_once,
}

-- A card stands in the board under its id, and has the window.
record Owns (cards : Dict Card) (w : Text) (card : Card) : Type 0 where
  stored : get card.id cards ≡ some card
  window : truthy? card.window_id ≡ some w

abbrev IsSound : Dict Card → Dict Card → Type 0
IsSound cards index = (w : Text) (card : Card) → get w index ≡ some card → Owns cards w card

abbrev IsStored : Dict Card → Card → Type 0
IsStored cards card = get card.id cards ≡ some card

window_to_card_from-IsSound :
    (cards index : Dict Card) (rest : List Card)
    → IsSound cards index
    → All (IsStored cards) rest
    → IsSound cards (window_to_card_from index rest)
unfolding window_to_card_from
window_to_card_from-IsSound cards index [] h _ = h
window_to_card_from-IsSound cards index (card ∷ rest) h (k, ks) =
    elim (Option-cases (truthy? card.window_id)) [
      | inl none_set ↦ rw none_set (window_to_card_from-IsSound cards index rest h ks)
      | inr (v, e) ↦ rw e (
          window_to_card_from-IsSound cards (set v card index) rest
            (λ w c found. written v e w c (rw (← get-set v w card index) found)) ks)
    ]
  where
    written :
        (v : Text)
        → truthy? card.window_id ≡ some v
        → (w : Text) (c : Card) → (if v == w then some card else get w index) ≡ some c
        → Owns cards w c
    written v e w c found = elim (Bool-cases (v == w)) [
      | inl here ↦
          let is : card ≡ c = ground arith in
          subst (Owns cards w) is
            (record { stored = k; window = e ∙ ap some ((eq_iff v w).0 here) })
      | inr other ↦ h w c (ground arith)
    ]

IsStored-cons :
    (id : Text) (card : Card) (cards : Dict Card) (c : Card)
    → get id cards ≡ none
    → IsStored cards c
    → IsStored ((id, card) ∷ cards) c
unfolding get
IsStored-cons id card cards c fresh h = ground (arith, eq_iff id c.id)

values-IsStored :
    (cards : Dict Card)
    → IsDistinct cards
    → All (λ e. e.1.id ≡ e.0) cards
    → All (IsStored cards) (values cards)
unfolding get
values-IsStored [] d o = tt
values-IsStored ((id, card) ∷ cards) (fresh, d) (own, o) = (
  ground (arith, eq_iff id card.id),
  All-weaken (IsStored cards) (IsStored ((id, card) ∷ cards)) (values cards)
      (λ c h. IsStored-cons id card cards c fresh h) (values-IsStored cards d o),
)

-- the number of cards with an id
pub held : Text → List Card → ℕ
held id cards = length (keep (λ (c : Card). c.id == id) cards)

held-values :
    (cards : Dict Card) (id : Text)
    → IsDistinct cards
    → All (λ e. e.1.id ≡ e.0) cards
    → held id (values cards) ≡ (if has id cards then 1 else 0)
unfolding held get
held-values [] id d o = refl
held-values ((i, card) ∷ cards) id (fresh, d) (own, o) =
    ground (arith, held-values cards id d o, eq_iff i id, eq_iff card.id id)

count-show_idle :
    (id : Text) (seen : List Text) (bcs : List BoardCard) (cards : List Card)
    → count (shows id) (show_idle seen bcs cards)
      ≡ count (shows id) bcs + (if contains id seen then 0 else held id cards)
unfolding show_idle held
count-show_idle id seen bcs [] = ground arith
count-show_idle id seen bcs (card ∷ cards) = ground (
  arith,
  count-show_idle id seen bcs cards,
  count-show_idle id seen (bcs ++ idle_card card ∷ []) cards,
  count-snoc (shows id) bcs (idle_card card),
  eq_iff card.id id,
)

module _ (config : BoardConfig) (ok : IsWellFormed config) where
  card_index-IsSound : IsSound config.cards (card_index config)
  unfolding get
  card_index-IsSound =
      window_to_card_from-IsSound config.cards [] (values config.cards) (λ w card h. cc)
        (values-IsStored config.cards ok.distinct ok.own_ids)

  -- The card that a window shows is stored under the id, and the window is its own.
  shown_card :
      (id w : Text)
      → is_card id (get w (card_index config)) ≡ true
      → (card : Card) × (get id config.cards ≡ some card) × (truthy? card.window_id ≡ some w)
  shown_card id w p = elim (Option-cases (get w (card_index config))) [
    | inl missing ↦ absurd (no_card (rw missing at p))
    | inr (card, there) ↦
        let owns = card_index-IsSound w card there in
        let e : card.id ≡ id = (eq_iff card.id id).0 (rw there at p) in
        (card, subst (λ j. get j config.cards ≡ some card) e owns.stored, owns.window)
  ]
    where
      no_card : false ≡ true → ⊥
      no_card e = cc

  shown_by_unique :
      (id : Text) (w v : TmuxWindow)
      → is_card id (get w.id (card_index config)) ≡ true
      → is_card id (get v.id (card_index config)) ≡ true
      → w.id ≡ v.id
  shown_by_unique id w v p q =
      let (c, at_c, win_c) = shown_card id w.id p in
      let (d, at_d, win_d) = shown_card id v.id q in cc

  shown_by_stored :
      (id : Text) (ws : List TmuxWindow)
      → get id config.cards ≡ none
      → any (λ w. is_card id (get w.id (card_index config))) ws ≡ false
  shown_by_stored id [] h = refl
  shown_by_stored id (w ∷ ws) h = elim (Bool-cases (is_card id (get w.id (card_index config)))) [
    | inl here ↦ let (c, at_c, win_c) = shown_card id w.id here in cc
    | inr out ↦ rw out (shown_by_stored id ws h)
  ]

  -- Every card of a well-formed configuration stands on the board exactly once, whether its window is
  -- live, gone, hidden or not yet made, and the board shows no other card as categorized; where no
  -- window id is listed twice.
  pub count-board_cards :
      (server : TmuxServer) (self_pane_id : Option Text) (activity_map : ActivityMap) (now : ℕ)
      (id : Text)
      → HasDistinctIds (all_windows server.sessions)
      → count (shows id) (board_cards server config self_pane_id activity_map now)
        ≡ (if has id config.cards then 1 else 0)
  unfolding board_cards visible count
  count-board_cards server self_pane_id activity_map now id distinct =
      let index = card_index config in
      let nothing : Shown = record { board_cards = []; seen = [] } in
      let shown = show_sessions now activity_map self_pane_id index nothing server.sessions in
      let adds =
        show_sessions-Adds now activity_map self_pane_id index id nothing server.sessions in
      let ws = visible self_pane_id (all_windows server.sessions) in
      let once =
        at_most_once (λ w. is_card id (get w.id index)) (shown_by_unique id) ws
          (HasDistinctIds-keep _ _ distinct) in
      count-show_idle id shown.seen shown.board_cards (values config.cards)
      ∙ add_up (count (shows id) shown.board_cards)
          (length (keep (λ w. is_card id (get w.id index)) ws)) (held id (values config.cards))
          (any (λ w. is_card id (get w.id index)) ws) (contains id shown.seen) (has id config.cards)
          adds.counted adds.seen once (held-values config.cards id ok.distinct ok.own_ids)
          (λ missing. shown_by_stored id ws (get_of_not_has (get id config.cards) missing))
    where
      get_of_not_has : {A : Type 0} (o : Option A) → is_some o ≡ false → o ≡ none
      get_of_not_has none e = refl
      get_of_not_has (some a) e = cc

      add_up :
          (counted lives idles : ℕ) (live seen stored : Bool)
          → counted ≡ 0 + lives
          → seen ≡ (false || live)
          → lives ≡ (if live then 1 else 0)
          → idles ≡ (if stored then 1 else 0)
          → (stored ≡ false → live ≡ false)
          → counted + (if seen then 0 else idles) ≡ (if stored then 1 else 0)
      add_up counted lives idles live seen stored c s l i n = ground (arith, n)
