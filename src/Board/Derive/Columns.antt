-- ===== src/Board/Derive/Columns.antt =====
-- The loop of `deriveBoard` that distributes the cards to the columns.
use tukan.Prelude.{
  ap₂, ℕ, ◌≡◌, refl, sym, ap, ◌∙◌, inl, inr, Bool, true, false, ◌||◌, Option, none, some, List, [],
  ◌∷◌, ◌++◌, map, reverse, arith, if◌then◌else◌, Option-cases, append-nil, append_assoc, or_else,
  keep, any, Has, Has-reverse, Bool-cases,
}
use tukan.Text.{Text, units, ◌==◌}
use tukan.Text.Equality.{eq_iff, eq_refl}
use tukan.Dict.{get, set, has}
use tukan.Dict.Laws.{get-set}
use tukan.Tmux.{TmuxServer}
use tukan.Board.{BoardConfig, ColumnDef}
use tukan.Board.Activity.{ActivityMap}
use tukan.Board.Derive.{
  reverse_buckets, BoardCard, BoardColumn, Buckets, default_column_id, column_id_of, empty_buckets,
  push_to, place, distribute, board_cards, derive_board,
}

-- The id is that of a column.
abbrev pub is_column : List ColumnDef → Text → Bool
is_column columns id = any (λ col. col.id == id) columns

abbrev pub is_column? : List ColumnDef → Option Text → Bool
is_column? columns none = false
is_column? columns (some id) = is_column columns id

abbrev pub first_column : List ColumnDef → Option Text
first_column [] = none
first_column (col ∷ columns) = some col.id

-- The column that a card asks for: Unassigned for an uncategorized window, the column of the card that
-- the configuration has under its id, and the first one for a card that it does not have.
abbrev pub wanted : BoardConfig → BoardCard → Option Text
wanted config bc =
    if bc.uncategorized then some (units "0") else elim (get bc.card_id config.cards) [
      | none ↦ first_column config.columns
      | some card ↦ some card.column_id
    ]

-- The column in which a card is shown: the one that it asks for if the board has it, the first one
-- otherwise.
abbrev pub home : BoardConfig → BoardCard → Option Text
home config bc =
    if is_column? config.columns (wanted config bc)
    then wanted config bc
    else first_column config.columns

default_column_id-eq-first :
    (columns : List ColumnDef) → default_column_id columns ≡ first_column columns
default_column_id-eq-first [] = refl
default_column_id-eq-first (col ∷ columns) = refl

column_id_of-eq-wanted :
    (config : BoardConfig) (bc : BoardCard) → column_id_of config bc ≡ wanted config bc
unfolding column_id_of
column_id_of-eq-wanted config bc = ground (arith, default_column_id-eq-first config.columns)

abbrev pub is_home : Option Text → Text → Bool
is_home none id = false
is_home (some home_id) id = home_id == id

-- the buckets are those of the columns
abbrev Covers : List ColumnDef → Buckets → Type 0
Covers columns buckets = (id : Text) → has id buckets ≡ is_column columns id

has-empty_buckets :
    (buckets : Buckets) (columns : List ColumnDef) (id : Text)
    → has id (empty_buckets buckets columns) ≡ (has id buckets || is_column columns id)
unfolding empty_buckets
has-empty_buckets buckets [] id = ground arith
has-empty_buckets buckets (col ∷ columns) id =
    ground
      (arith, has-empty_buckets (set col.id [] buckets) columns id, get-set col.id id [] buckets)

empty_buckets-empty :
    (buckets : Buckets) (columns : List ColumnDef) (id : Text)
    → or_else (get id buckets) [] ≡ []
    → or_else (get id (empty_buckets buckets columns)) [] ≡ []
unfolding empty_buckets
empty_buckets-empty buckets [] id h = h
empty_buckets-empty buckets (col ∷ columns) id h =
    empty_buckets-empty (set col.id [] buckets) columns id
      (ground (arith, get-set col.id id [] buckets))

push_to-Covers :
    (columns : List ColumnDef) (target : Option Text) (bc : BoardCard) (buckets : Buckets)
    → Covers columns buckets
    → Covers columns (push_to target bc buckets)
unfolding push_to
push_to-Covers columns none bc buckets c = c
push_to-Covers columns (some t) bc buckets c = λ id. elim (Option-cases (get t buckets)) [
  | inl missing ↦ ground (arith, c id)
  | inr (bucket, there) ↦
      ground (arith, c id, get-set t id (bucket ++ bc ∷ []) buckets, eq_iff t id)
]

get-push_to :
    (target : Option Text) (bc : BoardCard) (buckets : Buckets) (id : Text)
    → has id buckets ≡ true
    → or_else (get id (push_to target bc buckets)) []
      ≡ or_else (get id buckets) [] ++ (if is_home target id then bc ∷ [] else [])
unfolding push_to
get-push_to none bc buckets id h = sym (append-nil (or_else (get id buckets) []))
get-push_to (some t) bc buckets id h = elim (Option-cases (get t buckets)) [
  | inl missing ↦ ground (arith, eq_iff t id, append-nil (or_else (get id buckets) []))
  | inr (bucket, there) ↦ ground (
    arith,
    eq_iff t id,
    get-set t id (bucket ++ bc ∷ []) buckets,
    append-nil (or_else (get id buckets) []),
  )
]

place-eq-push_to :
    (config : BoardConfig) (buckets : Buckets) (bc : BoardCard)
    → Covers config.columns buckets
    → place config buckets bc ≡ push_to (home config bc) bc buckets
unfolding place
place-eq-push_to config buckets bc c =
    let wants = column_id_of-eq-wanted config bc in
    let first = default_column_id-eq-first config.columns in
    rw wants (
      rw first (elim (Option-cases (wanted config bc)) [
        | inl nowhere ↦ ground arith
        | inr (t, e) ↦ ground (arith, c t)
      ]))

get-distribute :
    (config : BoardConfig) (buckets : Buckets) (bcs : List BoardCard) (id : Text)
    → Covers config.columns buckets
    → is_column config.columns id ≡ true
    → or_else (get id (distribute config buckets bcs)) []
      ≡ or_else (get id buckets) [] ++ keep (λ bc. is_home (home config bc) id) bcs
unfolding distribute
get-distribute config buckets [] id c h = sym (append-nil (or_else (get id buckets) []))
get-distribute config buckets (bc ∷ bcs) id c h =
    let next = push_to (home config bc) bc buckets in
    ap (λ b. or_else (get id (distribute config b bcs)) []) (place-eq-push_to config buckets bc c)
    ∙ get-distribute config next bcs id
        (push_to-Covers config.columns (home config bc) bc buckets c) h
    ∙ ap (λ l. l ++ keep (λ b. is_home (home config b) id) bcs)
        (get-push_to (home config bc) bc buckets id (c id ∙ h))
    ∙ append_assoc (or_else (get id buckets) [])
        (if is_home (home config bc) id then bc ∷ [] else [])
        (keep (λ b. is_home (home config b) id) bcs)
    ∙ ap (λ l. or_else (get id buckets) [] ++ l)
        (keep-cons (λ b. is_home (home config b) id) bc bcs)
  where
    keep-cons :
        (p : BoardCard → Bool) (b : BoardCard) (bs : List BoardCard)
        → (if p b then b ∷ [] else []) ++ keep p bs ≡ keep p (b ∷ bs)
    keep-cons p b bs = ground arith

starting_buckets : (columns : List ColumnDef) → Covers columns (empty_buckets [] columns)
unfolding get
starting_buckets columns id = has-empty_buckets [] columns id

-- The cards, turned round once for each column with the id.
abbrev pub turned : Text → List ColumnDef → List BoardCard → List BoardCard
turned id [] bcs = bcs
turned id (col ∷ columns) bcs = turned id columns (if col.id == id then reverse bcs else bcs)

pub Has-turned :
    (id : Text) (columns : List ColumnDef) (bcs : List BoardCard) (bc : BoardCard)
    → Has bc bcs
    → Has bc (turned id columns bcs)
Has-turned id [] bcs bc h = h
Has-turned id (col ∷ columns) bcs bc h = elim (Bool-cases (col.id == id)) [
  | inl same ↦ rw same (Has-turned id columns (reverse bcs) bc (Has-reverse bcs bc h))
  | inr other ↦ rw other (Has-turned id columns bcs bc h)
]

get-reverse_buckets :
    (buckets : Buckets) (columns : List ColumnDef) (id : Text)
    → or_else (get id (reverse_buckets buckets columns)) []
      ≡ turned id columns (or_else (get id buckets) [])
unfolding reverse_buckets
get-reverse_buckets buckets [] id = refl
get-reverse_buckets buckets (col ∷ columns) id =
    let reversed = reverse (or_else (get col.id buckets) []) in
    get-reverse_buckets (set col.id reversed buckets) columns id
    ∙ ap (turned id columns) (ground (arith, get-set col.id id reversed buckets, eq_iff col.id id))

column_cards :
    (server : TmuxServer) (config : BoardConfig) (self_pane_id : Option Text)
    (activity_map : ActivityMap) (now : ℕ) (id : Text)
    → is_column config.columns id ≡ true
    → or_else
        (get id (
          distribute config
            (empty_buckets [] config.columns)
            (board_cards server config self_pane_id activity_map now)))
        []
      ≡ keep
          (λ bc. is_home (home config bc) id)
          (board_cards server config self_pane_id activity_map now)
unfolding get
column_cards server config self_pane_id activity_map now id h =
    let bcs = board_cards server config self_pane_id activity_map now in
    get-distribute config (empty_buckets [] config.columns) bcs id (starting_buckets config.columns)
      h
    ∙ ap (λ l. l ++ keep (λ bc. is_home (home config bc) id) bcs)
        (empty_buckets-empty [] config.columns id refl)

abbrev pub expected_column : BoardConfig → List BoardCard → ColumnDef → BoardColumn
expected_column config bcs col = record {
  id = col.id;
  title = col.title;
  cards = turned col.id config.columns (keep (λ bc. is_home (home config bc) col.id) bcs);
}

map-columns :
    (f g : ColumnDef → BoardColumn) (columns : List ColumnDef)
    → ((col : ColumnDef) → is_column columns col.id ≡ true → f col ≡ g col)
    → map f columns ≡ map g columns
map-columns f g [] h = refl
map-columns f g (col ∷ columns) h =
    ap₂ (λ x xs. x ∷ xs) (h col (rw (eq_refl col.id)))
      (map-columns f g columns (λ c e. h c (ground arith)))

-- The derived board has the columns of the configuration, in order. Each shows the cards whose home it
-- is, last first if its id is that of one column (or of an odd number of them: columns with one id
-- share an array that each of them reverses). The home is the column that the card asks for if the
-- board has it, the first column otherwise; an uncategorized window asks for Unassigned.
pub derive_board-eq-expected :
    (server : TmuxServer) (config : BoardConfig) (self_pane_id : Option Text)
    (activity_map : ActivityMap) (now : ℕ)
    → derive_board server config self_pane_id activity_map now
      ≡ map
          (expected_column config (board_cards server config self_pane_id activity_map now))
          config.columns
unfolding derive_board
derive_board-eq-expected server config self_pane_id activity_map now =
    map-columns _ _ config.columns (λ col h.
      ap (λ l. record { id = col.id; title = col.title; cards = l })
        (get-reverse_buckets _ config.columns col.id
          ∙ ap (turned col.id config.columns)
              (column_cards server config self_pane_id activity_map now col.id h)))
