-- ===== src/Ui/Poll/Laws.antt =====
-- Which cards a poll moves.
use tukan.Prelude.{
  ℕ, ◌≡◌, refl, ap₂, any, ◌||◌, ◌∷◌, sym, ap, subst, ◌∙◌, inl, inr, Bool, true, false, not, ◌&&◌,
  Option, none, some, List, [], arith, if◌then◌else◌, Option-cases,
}
use tukan.Text.{Text, ◌==◌, truthy?}
use tukan.Text.Equality.{eq_iff}
use tukan.Dict.{Dict, get, IsDistinct}
use tukan.Dict.Extension.{
  ext, map_values, get-map_values, keys-map_values, map_values-IsDistinct, or_mapped,
}
use tukan.Tmux.{TmuxServer}
use tukan.Board.{Card, BoardConfig, col_in_progress, col_review}
use tukan.Board.Activity.{
  PaneHashMap, compute_pane_hashes, contains, is_idle, idle_promote_ms, changed_windows,
  detect_changed_panes, get_idle_promotions, get_review_demotions,
}
use tukan.Board.Activity.Moves.{
  is_collected, holds, is_timed, get_idle_promotions_iff, get_review_demotions_iff,
}
use tukan.Cli.Refresh.{put_in_column, move_cards, is_nonempty}
use tukan.Cli.Refresh.Laws.{
  in_column, moved, get-put_in_column, keys-put_in_column, cards-move_cards,
}
use tukan.Board.Activity.Changes.{is_window, changed_windows-has_changed_pane}
use tukan.Board.Activity.Hashes.{compute_pane_hashes-eq-map, any-detect_changed_panes}
use tukan.Tmux.Panes.{pane_ids_of, owner, is_the, was_other, has_other_pane}
use tukan.Ui.Poll.Scans.{polled, scan_server-finds}
use tukan.Ui.Poll.{scan_server, Scan, times_from, PollState, poll_panes, poll}
use tukan.State.{SessionState}

-- Moves of the cards that pass `p` to Review and of those that pass `q` to In Progress.
abbrev moves_of : (Card → Bool) → (Card → Bool) → Card → Card
moves_of p q card =
    if p card
    then in_column col_review card
    else if q card
    then in_column col_in_progress card
    else card

module _ (promotions demotions : List Text) (cards : Dict Card) (d : IsDistinct cards)
    (p q : Card → Bool) (promoted : (j : Text) → contains j promotions ≡ holds p (get j cards))
    (demoted : (j : Text) → contains j demotions ≡ holds q (get j cards))
    (apart : (card : Card) → p card ≡ true → q card ≡ false) where
  get-moved_of :
      (j : Text)
      → get j (moved promotions demotions cards) ≡ or_mapped (moves_of p q) (get j cards) none
  get-moved_of j =
      let inner = put_in_column col_review promotions cards in
      let outer_law = get-put_in_column col_in_progress demotions inner j in
      let inner_law = get-put_in_column col_review promotions cards j in
      elim (Option-cases (get j cards)) [
        | inl missing ↦ ground (arith, outer_law, inner_law, promoted j, demoted j)
        | inr (card, there) ↦
            ground (arith, outer_law, inner_law, promoted j, demoted j, apart card)
      ]

  moved-eq-moves_of : moved promotions demotions cards ≡ map_values (moves_of p q) cards
  moved-eq-moves_of = sym (
      ext (map_values (moves_of p q) cards) (moved promotions demotions cards)
        (keys-map_values (moves_of p q) cards
          ∙ sym (
              keys-put_in_column col_in_progress demotions
                (put_in_column col_review promotions cards)
              ∙ keys-put_in_column col_review promotions cards))
        (map_values-IsDistinct (moves_of p q) cards d)
        (λ j. get-map_values (moves_of p q) cards j ∙ sym (get-moved_of j)))

abbrev pub is_promoted : ℕ → Dict ℕ → Card → Bool
is_promoted now times card =
    (card.column_id == col_in_progress) && is_timed (is_idle now idle_promote_ms) times card

-- Where a poll puts a card, from the times of change and a test of its window.
abbrev pub poll_move : ℕ → Dict ℕ → (changed : Text → Bool) → Card → Card
poll_move now times changed card =
    moves_of (is_promoted now times) (is_collected col_review changed) card

any-ext :
    (p q : Text × Text → Bool) (xs : List (Text × Text))
    → ((x : Text × Text) → p x ≡ q x)
    → any p xs ≡ any q xs
any-ext p q [] h = refl
any-ext p q (x ∷ xs) h = ap₂ ◌||◌ (h x) (any-ext p q xs h)

is_window-eq-is_the : (w : Text) (o : Option Text) → is_window w o ≡ is_the o w
is_window-eq-is_the w none = refl
is_window-eq-is_the w (some v) = refl

-- Where a poll puts a card, from the times of change and the windows that have changed.
pub expected_move : ℕ → Dict ℕ → List Text → Card → Card
expected_move now times windows card =
    moves_of (is_promoted now times) (is_collected col_review (λ w. contains w windows)) card

pub id-expected_move :
    (now : ℕ) (times : Dict ℕ) (windows : List Text) (card : Card)
    → (expected_move now times windows card).id ≡ card.id
unfolding expected_move
id-expected_move now times windows card = ground arith

columns_apart :
    (now : ℕ) (times : Dict ℕ) (windows : List Text) (card : Card)
    → is_promoted now times card ≡ true
    → is_collected col_review (λ w. contains w windows) card ≡ false
unfolding ◌==◌
columns_apart now times windows card h =
    ground (arith, eq_iff card.column_id col_in_progress, eq_iff card.column_id col_review)

pub move_cards-expected :
    (now : ℕ) (times : Dict ℕ) (windows : List Text) (config : BoardConfig)
    → IsDistinct config.cards
    → move_cards
        (get_idle_promotions config.cards times now idle_promote_ms)
        (get_review_demotions config.cards windows)
        config
      ≡ record config { cards = map_values (expected_move now times windows) config.cards }
unfolding expected_move
move_cards-expected now times windows config d =
    let promotions = get_idle_promotions config.cards times now idle_promote_ms in
    let demotions = get_review_demotions config.cards windows in
    cards-move_cards promotions demotions config
    ∙ ap (λ c. record config { cards = c })
        (moved-eq-moves_of promotions demotions config.cards d (is_promoted now times)
          (is_collected col_review (λ w. contains w windows))
          (λ j. get_idle_promotions_iff config.cards times now idle_promote_ms j d)
          (λ j. get_review_demotions_iff config.cards windows j d)
          (columns_apart now times windows))

module _ (hash : Text → Text) (capture : List Text → Dict Text) (working_dir : Text)
    (self_pane_id : Option Text) where
  poll-found :
      (now : ℕ) (server : TmuxServer) (s : PollState)
      → is_nonempty (scan_server self_pane_id server).pane_ids ≡ true
      → poll hash capture working_dir self_pane_id now server s
        ≡ poll_panes hash capture working_dir self_pane_id now (scan_server self_pane_id server) s
  unfolding poll
  poll-found now server s found =
      ap
        (λ b.
          if not b
          then (s, [])
          else poll_panes hash capture working_dir self_pane_id now
              (scan_server self_pane_id server) s)
        found

  -- what a poll that found some panes makes of the configuration
  abbrev Moves : ℕ → Scan → PollState → PollState → Type 0
  Moves now scan s after = after.config ≡ record s.config {
    cards =
        map_values
          (poll_move now (times_from [] after.activity) (λ w. contains w (
            changed_windows scan.pane_to_window
              (detect_changed_panes s.pane_hashes after.pane_hashes))))
          s.config.cards;
  }

  poll_panes-Moves :
      (now : ℕ) (scan : Scan) (s : PollState)
      → IsDistinct s.config.cards
      → Moves now scan s (poll_panes hash capture working_dir self_pane_id now scan s).0
  unfolding poll_panes expected_move
  poll_panes-Moves now scan s d = move_cards-expected now _ _ s.config d

  changed-eq-other_pane :
      (server : TmuxServer) (s : PollState) (next : PaneHashMap) (w : Text)
      → contains w (
          changed_windows
            (scan_server self_pane_id server).pane_to_window
            (detect_changed_panes s.pane_hashes next))
        ≡ has_other_pane s.pane_hashes next (polled self_pane_id server) w
  changed-eq-other_pane server s next w =
      changed_windows-has_changed_pane _ _ w
      ∙ any-detect_changed_panes _ s.pane_hashes next
      ∙ any-ext _ _ next (λ e.
        ap (λ b. was_other (get e.0 s.pane_hashes) e.1 && b)
          (ap (λ o. is_window w (truthy? o)) ((scan_server-finds self_pane_id server).1 e.0)
            ∙ is_window-eq-is_the w (truthy? (owner e.0 (polled self_pane_id server)))))

  hashes-poll_panes :
      (now : ℕ) (scan : Scan) (s : PollState)
      → (poll_panes hash capture working_dir self_pane_id now scan s).0.pane_hashes
        ≡ compute_pane_hashes hash (capture scan.pane_ids)
  unfolding poll_panes
  hashes-poll_panes now scan s = refl

  -- A poll that finds a pane in another window than its own, on a board with distinct ids, where no pane
  -- is captured twice: the hashes are then those of the captured contents; each card in progress whose
  -- window has not changed for the threshold moves to Review, each card in Review whose window has a
  -- pane that had another hash at the last poll moves back, no card does both, and nothing else of the
  -- board changes.
  pub poll-expected_move :
      (now : ℕ) (server : TmuxServer) (s : PollState)
      → is_nonempty (pane_ids_of (polled self_pane_id server)) ≡ true
      → IsDistinct s.config.cards
      → IsDistinct (capture (pane_ids_of (polled self_pane_id server)))
      → let after = (poll hash capture working_dir self_pane_id now server s).0 in
        (after.pane_hashes ≡ map_values hash (capture (pane_ids_of (polled self_pane_id server))))
        × (after.config ≡ record s.config {
          cards =
              map_values
                (poll_move now
                  (times_from [] after.activity)
                  (has_other_pane s.pane_hashes after.pane_hashes (polled self_pane_id server)))
                s.config.cards;
        })
  poll-expected_move now server s found d captured =
      let scan = scan_server self_pane_id server in
      let ids = (scan_server-finds self_pane_id server).0 in
      let after = (poll_panes hash capture working_dir self_pane_id now scan s).0 in
      let test = has_other_pane s.pane_hashes after.pane_hashes (polled self_pane_id server) in
      subst
        (λ (r : PollState × List SessionState).
          (r.0.pane_hashes ≡ map_values hash (capture (pane_ids_of (polled self_pane_id server))))
          × (r.0.config ≡ record s.config {
            cards =
                map_values
                  (poll_move now (times_from [] r.0.activity)
                    (has_other_pane s.pane_hashes r.0.pane_hashes (polled self_pane_id server)))
                  s.config.cards;
          }))
        (sym (poll-found now server s (ap is_nonempty ids ∙ found)))
        (
          hashes-poll_panes now scan s
              ∙ ap (λ l. compute_pane_hashes hash (capture l)) ids
              ∙ compute_pane_hashes-eq-map hash _ captured,
          poll_panes-Moves now scan s d
              ∙ ap (λ c. record s.config { cards = c })
                  (ap
                    (λ (f : Text → Bool).
                      map_values (poll_move now (times_from [] after.activity) f) s.config.cards)
                    (λ i w. changed-eq-other_pane server s after.pane_hashes w i)),
        )
