-- ===== src/Board/CardOps/Finding.antt =====
-- How well a card answers a query, and what `findCards` and `resolveCard` make of that.
use tukan.Prelude.{
  ℕ, zero, suc, ◌+◌, ◌≤◌, ◌<◌, ◌≡◌, refl, sym, ap, ◌∙◌, subst, ◌≢◌, ◌⊎◌, false, any, inl, inr, ◌&&◌,
  none, some, List, [], ◌∷◌, arith, leb, nat_eq, if◌then◌else◌, Bool-cases, Option-cases,
  List-cases, length, All, Has, All-weaken, nat_eq_iff,
}
use tukan.Text.{Text, ◌==◌, starts_with, includes, LowerCase}
use tukan.Text.Equality.{eq_iff, eq_refl}
use tukan.Dict.{Dict, get, IsDistinct}
use tukan.Board.{Card}
use tukan.Board.Columns.{object_members}
use native.Mathlib.Decide.{dec_lt}
use tukan.Board.CardOps.{
  CardMatch, prefix_matches, name_matches, or_next, find_cards, resolve_matches, resolve_card,
  resolved,
}

module _ (locale : LowerCase) (query : Text) where
  abbrev lower : Text → Text
  lower = locale.to_lower_case

  -- How well an entry answers the query: 0 by its id, 1 by a prefix of its id of four characters or
  -- more, 2 by its name, 3 by a part of its name, 4 not at all. Letter case does not count in names.
  pub rank : CardMatch → ℕ
  rank m =
      if m.id == query
      then 0
      else if starts_with m.id query && leb 4 (length query)
      then 1
      else if lower m.card.name == lower query
      then 2
      else if includes (lower m.card.name) (lower query)
      then 3
      else 4

  pub of_rank : ℕ → Dict Card → List CardMatch
  of_rank n [] = []
  of_rank n ((id, card) ∷ cards) =
      let m : CardMatch = record { id = id; card = card } in
      let rest = of_rank n cards in if nat_eq (rank m) n then m ∷ rest else rest

  -- The entries of the first of `count` ranks from `n` on that has any.
  pub best_from : (count n : ℕ) → Dict Card → List CardMatch
  best_from zero n cards = []
  best_from (suc count) n cards = or_next (of_rank n cards) (best_from count (n + 1) cards)

  pub best : Dict Card → List CardMatch
  unfolding best_from
  best cards = best_from 4 0 cards

  of_rank-zero_of_missing : (cards : Dict Card) → get query cards ≡ none → of_rank 0 cards ≡ []
  unfolding get of_rank rank
  of_rank-zero_of_missing [] h = refl
  of_rank-zero_of_missing ((id, card) ∷ cards) h = ground (arith, of_rank-zero_of_missing cards)

  of_rank-zero_of_stored :
      (cards : Dict Card) (card : Card)
      → IsDistinct cards
      → get query cards ≡ some card
      → of_rank 0 cards ≡ record { id = query; card = card } ∷ []
  unfolding get of_rank rank
  of_rank-zero_of_stored [] card d h = cc
  of_rank-zero_of_stored ((id, c) ∷ cards) card (fresh, d) h =
      ground
        (arith, eq_iff id query, of_rank-zero_of_missing cards, of_rank-zero_of_stored cards card d)

  prefix_matches-eq-of_rank :
      (cards : Dict Card) → get query cards ≡ none → prefix_matches cards query ≡ of_rank 1 cards
  unfolding get of_rank rank prefix_matches
  prefix_matches-eq-of_rank [] h = refl
  prefix_matches-eq-of_rank ((id, card) ∷ cards) h = ground (arith, prefix_matches-eq-of_rank cards)

  name_matches-eq-of_rank :
      (cards : Dict Card)
      → get query cards ≡ none
      → prefix_matches cards query ≡ []
      → name_matches locale cards (lower query) ≡ (of_rank 2 cards, of_rank 3 cards)
  unfolding get of_rank rank prefix_matches name_matches
  name_matches-eq-of_rank [] h p = refl
  name_matches-eq-of_rank ((id, card) ∷ cards) h p = ground (arith, name_matches-eq-of_rank cards)

  -- `findCards` returns the entries of the best rank that any entry has, all of them and no other,
  -- in the board's order, for a board with distinct ids and a query that names no inherited member.
  pub find_cards-eq-best :
      (member : Text → Card) (cards : Dict Card)
      → any (λ name. name == query) object_members ≡ false
      → IsDistinct cards
      → find_cards locale member cards query ≡ best cards
  unfolding find_cards best
  find_cards-eq-best member cards own d = elim (Option-cases (get query cards)) [
    | inl missing ↦
        rw (missing, find_cards)
          (rw (own, find_cards)
            (ground (
              arith,
              of_rank-zero_of_missing cards,
              prefix_matches-eq-of_rank cards,
              name_matches-eq-of_rank cards,
            )))
    | inr (card, stored) ↦ ground (arith, of_rank-zero_of_stored cards card d stored)
  ]

  abbrev IsAnswer : Dict Card → ℕ → CardMatch → Type 0
  IsAnswer cards n m = (get m.id cards ≡ some m.card) × (rank m ≡ n)

  IsAnswer-cons :
      (id : Text) (card : Card) (cards : Dict Card) (n : ℕ)
      → get id cards ≡ none
      → (m : CardMatch) → IsAnswer cards n m
      → IsAnswer ((id, card) ∷ cards) n m
  unfolding get
  IsAnswer-cons id card cards n fresh m (g, r) = ground (arith, eq_iff id m.id)

  of_rank_sound :
      (n : ℕ) (cards : Dict Card) → IsDistinct cards → All (IsAnswer cards n) (of_rank n cards)
  unfolding of_rank get
  of_rank_sound n [] d = tt
  of_rank_sound n ((id, card) ∷ cards) (fresh, d) =
      let later =
        All-weaken _ _ (of_rank n cards) (IsAnswer-cons id card cards n fresh)
          (of_rank_sound n cards d) in
      let m : CardMatch = record { id = id; card = card } in
      elim (Bool-cases (nat_eq (rank m) n)) [
        | inl same ↦ rw same ((rw (eq_refl id), (nat_eq_iff _ _).0 same), later)
        | inr other ↦ rw other later
      ]

  of_rank_complete :
      (n : ℕ) (cards : Dict Card) (m : CardMatch) → IsAnswer cards n m → Has m (of_rank n cards)
  unfolding of_rank get
  of_rank_complete n [] m (g, r) = cc
  of_rank_complete n ((id, card) ∷ cards) m (g, r) =
      ground (arith, of_rank_complete n cards m, eq_iff id m.id)

  best_from-singleton :
      (count n : ℕ) (cards : Dict Card) (m : CardMatch)
      → best_from count n cards ≡ m ∷ []
      → (k : ℕ) × (of_rank k cards ≡ m ∷ [])
        × (k < n + count)
        × ((i : ℕ) → n ≤ i → i < k → of_rank i cards ≡ [])
  unfolding best_from
  best_from-singleton zero n cards m h = cc
  best_from-singleton (suc count) n cards m h = elim (List-cases (of_rank n cards)) [
    | inl nothing ↦
        let (k, found, bound, before) = best_from-singleton count (n + 1) cards m (ground arith) in
        (
          k,
          found,
          omega arith,
          λ i ge lt. elim (dec_lt n i) [
            | yes after ↦ before i (omega arith) lt
            | no here ↦ let e : i ≡ n = omega arith in rw e nothing
          ],
        )
    | inr (x, rest, e) ↦ (n, ground arith, omega arith, λ i ge lt. absurd (omega arith))
  ]

  resolve_matches-singleton :
      (ms : List CardMatch) (id : Text) (card : Card)
      → resolve_matches query ms ≡ resolved id card
      → ms ≡ record { id = id; card = card } ∷ []
  unfolding resolve_matches
  resolve_matches-singleton [] id card h = cc
  resolve_matches-singleton (m ∷ []) id card h = ground arith
  resolve_matches-singleton (m ∷ n ∷ ms) id card h = cc

  -- The only entry of the first rank that has any is better than all others.
  singleton_is_best :
      (k : ℕ) (cards : Dict Card) (m o : CardMatch)
      → of_rank k cards ≡ m ∷ []
      → ((i : ℕ) → i < k → of_rank i cards ≡ [])
      → get o.id cards ≡ some o.card
      → o.id ≢ m.id
      → k < rank o
  singleton_is_best k cards m o found before stored ne = elim (dec_lt k (rank o)) [
    | yes worse ↦ worse
    | no same_or_better ↦ elim (dec_lt (rank o) k) [
      | yes better ↦ absurd (
          subst (Has o) (before (rank o) better) (of_rank_complete (rank o) cards o (stored, refl)))
      | no not_better ↦
          let same : rank o ≡ k = omega arith in
          let here : Has o (m ∷ []) =
            subst (Has o) found (of_rank_complete k cards o (stored, same)) in
          absurd (only m o ne here)
    ]
  ]
    where
      only : (m o : CardMatch) → o.id ≢ m.id → Has o (m ∷ []) → ⊥
      only m o ne (inl e) = ne (ap (λ (c : CardMatch). c.id) (sym e))
      only m o ne (inr h) = h

  All-entries :
      (P : Text × Card → Type 0) (cards : Dict Card)
      → IsDistinct cards
      → ((j : Text) (other : Card) → get j cards ≡ some other → P (j, other))
      → All P cards
  unfolding get
  All-entries P [] d h = tt
  All-entries P ((id, card) ∷ cards) (fresh, d) h = (
    h id card (rw (eq_refl id)),
    All-entries P cards d (λ j other there. h j other (ground (arith, eq_iff id j))),
  )

  -- On a board with distinct ids, a query that resolves, and is not the name of a member of
  -- `Object.prototype`, names a card of the board that answers it, and every other card of the board
  -- answers it strictly worse.
  pub resolve_card-best :
      (member : Text → Card) (cards : Dict Card) (id : Text) (card : Card)
      → any (λ name. name == query) object_members ≡ false
      → IsDistinct cards
      → resolve_card locale member cards query ≡ resolved id card
      → (get id cards ≡ some card)
        × (rank (record { id = id; card = card }) < 4)
        × All
            (λ (e : Text × Card).
              (e.0 ≡ id)
              ⊎ (rank (record { id = id; card = card }) < rank (record { id = e.0; card = e.1 })))
            cards
  unfolding resolve_card best
  resolve_card-best member cards id card own d h =
      let m : CardMatch = record { id = id; card = card } in
      let one =
        sym (find_cards-eq-best member cards own d) ∙ resolve_matches-singleton _ id card h in
      let (k, found, bound, before) = best_from-singleton 4 0 cards m one in
      let answer : IsAnswer cards k m =
        (subst (All (IsAnswer cards k)) found (of_rank_sound k cards d)).0 in
      let (stored, r) = answer in
      (
        stored,
        rw r bound,
        All-entries _ cards d (λ j other there. elim (Bool-cases (j == id)) [
          | inl same ↦ inl ((eq_iff j id).0 same)
          | inr differs ↦ inr (
              rw r (
                singleton_is_best k cards m (record { id = j; card = other }) found
                  (λ i lt. before i (omega arith) lt) there (ground (arith, eq_iff j id))))
        ]),
      )
