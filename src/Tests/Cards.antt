-- ===== src/Tests/Cards.antt =====
-- Finding and changing the cards of the sample board.
use tukan.Prelude.{false, ◌⊎◌, any, All, ◌≡◌, refl, ◌≢◌, ◌<◌, none, some, [], ◌∷◌, Has, inl, true}
use tukan.Text.{Text, units, ascii_only, ◌==◌, starts_with, includes, ascii_lower}
use tukan.Dict.{get, IsDistinct}
use tukan.Board.CardOps.{
  EditCardFields, find_cards, prefix_matches, name_matches, resolve_card, resolved,
}
use tukan.Board.CardOps.Finding.{rank, resolve_card-best}
use tukan.Board.CardOps.Laws.{IsWellFormed, Touches, finish, edit, update, changed, update-Touches}
use tukan.Board.{Card}
use tukan.Board.Columns.{object_members}
use tukan.Tests.Data.{parser_card, printer_card, cards, config}

pub cards-IsDistinct : IsDistinct cards
unfolding get ◌==◌
cards-IsDistinct = (refl, (refl, (refl, (refl, tt))))

pub config-IsWellFormed : IsWellFormed config
config-IsWellFormed = record {
  distinct = cards-IsDistinct;
  own_ids = (refl, (refl, (refl, (refl, tt))));
}

abbrev no_member : Text → Card
no_member name = parser_card

find_prefix :
    find_cards ascii_only no_member cards (units "aaaa")
    ≡ record { id = units "aaaa-1"; card = parser_card }
      ∷ record { id = units "aaaa-2"; card = printer_card }
      ∷ []
unfolding find_cards get ◌==◌ prefix_matches starts_with name_matches
find_prefix = refl

find_short : find_cards ascii_only no_member cards (units "aaa") ≡ []
unfolding find_cards get ◌==◌ prefix_matches starts_with name_matches ascii_lower includes
find_short = refl

resolves :
    resolve_card ascii_only no_member cards (units "parser") ≡ resolved (units "aaaa-1") parser_card
unfolding resolve_card find_cards get ◌==◌ prefix_matches starts_with name_matches ascii_lower
    includes
resolves = refl

is_own_query : any (λ name. name == units "parser") object_members ≡ false
unfolding ◌==◌
is_own_query = refl

resolve_card-best_example :
    (get (units "aaaa-1") cards ≡ some parser_card)
    × (rank ascii_only (units "parser") (record { id = units "aaaa-1"; card = parser_card }) < 4)
    × All
        (λ (e : Text × Card).
          (e.0 ≡ units "aaaa-1")
          ⊎ (rank ascii_only (units "parser") (record { id = units "aaaa-1"; card = parser_card })
              < rank ascii_only (units "parser") (record { id = e.0; card = e.1 })))
        cards
resolve_card-best_example =
    resolve_card-best ascii_only (units "parser") no_member cards (units "aaaa-1") parser_card
      is_own_query cards-IsDistinct resolves

update-Touches_example :
    Touches
      (units "aaaa-1")
      (changed 5000 finish)
      config
      (update 5000 (units "aaaa-1") finish config)
update-Touches_example = update-Touches 5000 (units "aaaa-1") finish config

no_edit : (fields : EditCardFields) → finish ≢ edit fields
no_edit fields e = cc

abbrev new_fields : EditCardFields
new_fields = record {
  name = some (units "Lexer");
  description = none;
  acceptance_criteria = none;
  dir = none;
  command = some (units "shell");
  custom_command = none;
  worktree = some true;
  worktree_path = some (units "../lexer");
}

is_member : Has (ascii_only.to_lower_case (units "Constructor")) object_members
unfolding ascii_lower
is_member = inl refl
