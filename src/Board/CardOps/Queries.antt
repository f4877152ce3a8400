-- ===== src/Board/CardOps/Queries.antt =====
-- src/board/card-ops.ts: finding the cards that a query names.
use tukan.Prelude.{
  any, ◌&&◌, none, some, List, [], ◌∷◌, ◌++◌, map, leb, if◌then◌else◌, length, take,
}
use tukan.Text.{Text, units, ◌==◌, starts_with, includes, join, LowerCase}
use tukan.Dict.{Dict, get}
use tukan.Board.{Card}
use tukan.Board.Columns.{object_members}

pub record CardMatch : Type 0 where
  pub id : Text
  pub card : Card

pub record MultiSessionCardMatch : Type 0 where
  pub session_name : Text
  pub id : Text
  pub card : Card

pub data ResolveResult : Type 0 where
  resolved : Text → Card → ResolveResult
  failed : Text → ResolveResult

pub data MultiSessionResolveResult : Type 0 where
  resolved : Text → Text → Card → MultiSessionResolveResult
  failed : Text → MultiSessionResolveResult

-- the loop over `Object.entries(cards)` that collects `prefixMatches`
unfoldable pub prefix_matches : Dict Card → Text → List CardMatch
prefix_matches [] query = []
prefix_matches ((id, card) ∷ cards) query =
    let rest = prefix_matches cards query in
    if starts_with id query && leb 4 (length query)
    then record { id = id; card = card } ∷ rest
    else rest

-- one round of the loop over the names, on `exactName` and `partialName`
add_by_name :
    LowerCase → Text → CardMatch → List CardMatch × List CardMatch → List CardMatch × List CardMatch
add_by_name locale lower m (exact_name, partial_name) =
    let name = locale.to_lower_case m.card.name in
    if name == lower
    then (m ∷ exact_name, partial_name)
    else if includes name lower
    then (exact_name, m ∷ partial_name)
    else (exact_name, partial_name)

unfoldable pub name_matches : LowerCase → Dict Card → Text → List CardMatch × List CardMatch
unfolding add_by_name
name_matches locale [] lower = ([], [])
name_matches locale ((id, card) ∷ cards) lower =
    add_by_name locale lower (record { id = id; card = card }) (name_matches locale cards lower)

-- `if (first.length > 0) return first; …`
abbrev pub or_next {ℓ} : {A : Type ℓ} → List A → List A → List A
or_next [] later = later
or_next (x ∷ xs) later = x ∷ xs

-- `cards[query]` answers with the member of `Object.prototype` of that name, such as "constructor", if
-- no card has the id. `member` is what the program takes that member for: a card whose fields are what
-- reading them from the member gives.
unfoldable pub find_cards : LowerCase → (member : Text → Card) → Dict Card → Text → List CardMatch
find_cards locale member cards query = elim (get query cards) [
  | some card ↦ record { id = query; card = card } ∷ []
  | none ↦
      if any (λ name. name == query) object_members
      then record { id = query; card = member query } ∷ []
      else (let (exact_name, partial_name) =
            name_matches locale cards (locale.to_lower_case query) in
          or_next (prefix_matches cards query) (or_next exact_name partial_name))
]

abbrev newline : Text
newline = 10 ∷ []

abbrev quote : Text
quote = 34 ∷ []

abbrev describe_match : CardMatch → Text
describe_match m = units "  " ++ (take 8 m.id ++ (units " " ++ m.card.name))

abbrev no_card_found : Text → Text
no_card_found query = units "No card found matching " ++ (quote ++ (query ++ quote))

abbrev ambiguous_match : Text → Text → Text
ambiguous_match query names =
    units "Ambiguous match for "
    ++ (quote ++ (query ++ (quote ++ (units " — multiple cards found:" ++ (newline ++ names)))))

-- `resolveCard` behind the call of `findCards`
unfoldable pub resolve_matches : Text → List CardMatch → ResolveResult
resolve_matches query [] = failed (no_card_found query)
resolve_matches query (m ∷ []) = resolved m.id m.card
resolve_matches query (m ∷ n ∷ ms) =
    failed (ambiguous_match query (join newline (map describe_match (m ∷ n ∷ ms))))

unfoldable pub resolve_card : LowerCase → (member : Text → Card) → Dict Card → Text → ResolveResult
unfolding resolve_matches
resolve_card locale member cards query =
    resolve_matches query (find_cards locale member cards query)

abbrev in_session : Text → CardMatch → MultiSessionCardMatch
in_session session_name m = record { session_name = session_name; id = m.id; card = m.card }

unfoldable pub find_cards_across_sessions :
    LowerCase → (member : Text → Card) → Dict (Dict Card) → Text → List MultiSessionCardMatch
find_cards_across_sessions locale member [] query = []
find_cards_across_sessions locale member ((session_name, cards) ∷ session_cards) query =
    map (in_session session_name) (find_cards locale member cards query)
    ++ find_cards_across_sessions locale member session_cards query

abbrev describe_in_session : MultiSessionCardMatch → Text
describe_in_session m =
    units "  "
    ++ (take 8 m.id
        ++ (units " " ++ (m.card.name ++ (units " [" ++ (m.session_name ++ units "]")))))

resolve_matches_across : Text → List MultiSessionCardMatch → MultiSessionResolveResult
resolve_matches_across query [] = failed (no_card_found query)
resolve_matches_across query (m ∷ []) = resolved m.session_name m.id m.card
resolve_matches_across query (m ∷ n ∷ ms) = failed (
    ambiguous_match query (
      join newline (map describe_in_session (m ∷ n ∷ ms))
      ++ (newline ++ units "Use -s <session> to specify.")))

unfoldable pub resolve_card_across_sessions :
    LowerCase → (member : Text → Card) → Dict (Dict Card) → Text → MultiSessionResolveResult
unfolding resolve_matches_across
resolve_card_across_sessions locale member session_cards query =
    resolve_matches_across query (find_cards_across_sessions locale member session_cards query)
