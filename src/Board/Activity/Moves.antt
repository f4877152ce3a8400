-- ===== src/Board/Activity/Moves.antt =====
-- Which cards move between In Progress and Review.
use tukan.Prelude.{ℕ, ◌≡◌, refl, Bool, false, not, ◌&&◌, Option, none, some, List, [], ◌∷◌, arith}
use tukan.Text.{Text, ◌==◌, truthy?}
use tukan.Text.Equality.{eq_iff}
use tukan.Dict.{Dict, get, IsDistinct}
use tukan.Board.{Card, col_in_progress, col_review}
use tukan.Board.Activity.{
  contains, is_idle, collect, passes, get_idle_promotions, get_review_demotions,
  get_review_demotions_by_time,
}

-- The card stands in the column and has a window that passes the test.
abbrev pub is_collected : Text → (Text → Bool) → Card → Bool
is_collected column test card =
    (card.column_id == column) && (elim (truthy? card.window_id) [ none ↦ false | some w ↦ test w ])

abbrev pub holds : (Card → Bool) → Option Card → Bool
holds p none = false
holds p (some card) = p card

collect-is_fresh :
    (column : Text) (test : Text → Bool) (cards : Dict Card) (id : Text)
    → get id cards ≡ none
    → contains id (collect column test cards) ≡ false
unfolding collect get
collect-is_fresh column test [] id h = refl
collect-is_fresh column test ((i, card) ∷ cards) id h =
    ground (arith, collect-is_fresh column test cards id)

collect-is_collected :
    (column : Text) (test : Text → Bool) (cards : Dict Card) (id : Text)
    → IsDistinct cards
    → contains id (collect column test cards) ≡ holds (is_collected column test) (get id cards)
unfolding collect get
collect-is_collected column test [] id d = refl
collect-is_collected column test ((i, card) ∷ cards) id (fresh, d) = ground (
  arith,
  collect-is_collected column test cards id d,
  collect-is_fresh column test cards id,
  eq_iff i id,
)

-- The card has a window, and its last change is known and passes the test.
abbrev pub is_timed : (ℕ → Bool) → Dict ℕ → Card → Bool
is_timed test times card = elim (truthy? card.window_id) [
  | none ↦ false
  | some w ↦ passes test (get w times)
]

-- On a board with distinct ids, a card is promoted exactly when it is in progress and has a window
-- whose last change is known and lies the threshold back or more.
pub get_idle_promotions_iff :
    (cards : Dict Card) (times : Dict ℕ) (now threshold_ms : ℕ) (id : Text)
    → IsDistinct cards
    → contains id (get_idle_promotions cards times now threshold_ms)
      ≡ holds
          (λ card.
            (card.column_id == col_in_progress) && is_timed (is_idle now threshold_ms) times card)
          (get id cards)
unfolding get_idle_promotions
get_idle_promotions_iff cards times now threshold_ms id d =
    collect-is_collected col_in_progress (λ w. passes (is_idle now threshold_ms) (get w times))
      cards id d

-- On a board with distinct ids, a card is demoted by time exactly when it is in Review and has a
-- window whose last change is known and lies less than the threshold back.
pub get_review_demotions_by_time_iff :
    (cards : Dict Card) (times : Dict ℕ) (now threshold_ms : ℕ) (id : Text)
    → IsDistinct cards
    → contains id (get_review_demotions_by_time cards times now threshold_ms)
      ≡ holds
          (λ card.
            (card.column_id == col_review)
            && is_timed (λ t. not (is_idle now threshold_ms t)) times card)
          (get id cards)
unfolding get_review_demotions_by_time
get_review_demotions_by_time_iff cards times now threshold_ms id d =
    collect-is_collected col_review
      (λ w. passes (λ t. not (is_idle now threshold_ms t)) (get w times)) cards id d

-- On a board with distinct ids, a card is demoted by activity exactly when it is in Review and its
-- window is among the changed ones.
pub get_review_demotions_iff :
    (cards : Dict Card) (changed : List Text) (id : Text)
    → IsDistinct cards
    → contains id (get_review_demotions cards changed)
      ≡ holds (is_collected col_review (λ w. contains w changed)) (get id cards)
unfolding get_review_demotions
get_review_demotions_iff cards changed id d =
    collect-is_collected col_review (λ w. contains w changed) cards id d
