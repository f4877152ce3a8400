-- ===== src/State/Listing/Names.antt =====
-- The names of the sessions: which they are, and their order.
use tukan.Prelude.{
  ℕ, ◌<◌, ◌⊎◌, sym, subst, ltb, false, ◌≡◌, refl, ap, ap₂, ◌∙◌, inl, inr, true, false, ◌||◌, List,
  [], ◌∷◌, ◌++◌, arith, Bool-cases,
}
use tukan.Text.{Text, ◌==◌}
use tukan.Text.Equality.{eq_iff}
use tukan.Dict.{Dict, get, has, keys}
use tukan.Board.Activity.{contains, add}
use tukan.Board.Activity.Changes.{contains-add}
use tukan.State.Store.{Files, read_registry}
use tukan.State.Listing.{leq, insert, sort, add_names, list_registered_sessions, list_session_names}

contains-insert :
    (name a : Text) (xs : List Text) → contains name (insert a xs) ≡ (a == name || contains name xs)
unfolding insert
contains-insert name a [] = refl
contains-insert name a (b ∷ bs) = elim (Bool-cases (leq a b)) [
  | inl le ↦ rw le refl
  | inr gt ↦ rw gt (ground (arith, contains-insert name a bs))
]

contains-sort : (name : Text) (xs : List Text) → contains name (sort xs) ≡ contains name xs
unfolding sort
contains-sort name [] = refl
contains-sort name (a ∷ xs) =
    contains-insert name a (sort xs) ∙ ap (λ b. a == name || b) (contains-sort name xs)

contains-append :
    (name : Text) (xs bs : List Text)
    → contains name (xs ++ bs) ≡ (contains name xs || contains name bs)
contains-append name [] bs = refl
contains-append name (a ∷ xs) bs = ground (arith, contains-append name xs bs)

contains-add_names :
    (name : Text) (found xs : List Text)
    → contains name (add_names found xs) ≡ (contains name found || contains name xs)
unfolding add_names
contains-add_names name found [] = ground arith
contains-add_names name found (a ∷ xs) =
    contains-add_names name (add a found) xs ∙ ground (arith, contains-add a name found)

contains-keys : {V : Type 0} (name : Text) (d : Dict V) → contains name (keys d) ≡ has name d
unfolding get
contains-keys name [] = refl
contains-keys name ((k, v) ∷ d) = ground (arith, contains-keys name d)

abbrev InOrder : List Text → Type 0
InOrder [] = Unit
InOrder (a ∷ []) = Unit
InOrder (a ∷ b ∷ bs) = (leq a b ≡ true) × InOrder (b ∷ bs)

leq_total : (a b : Text) → leq a b ≡ false → leq b a ≡ true
unfolding leq
leq_total [] b h = cc
leq_total (c ∷ a) [] h = refl
leq_total (c ∷ a) (d ∷ b) h = ground (arith, leq_total a b)

insert-InOrder : (a : Text) (xs : List Text) → InOrder xs → InOrder (insert a xs)
unfolding insert
insert-InOrder a [] h = tt
insert-InOrder a (b ∷ []) h = elim (Bool-cases (leq a b)) [
  | inl lt ↦ rw lt (lt, tt)
  | inr gt ↦ rw gt (leq_total a b gt, tt)
]
insert-InOrder a (b ∷ c ∷ cs) (le, h) = elim (Bool-cases (leq a b)) [
  | inl lt ↦ rw lt (lt, (le, h))
  | inr gt ↦ elim (Bool-cases (leq a c)) [
    | inl lt ↦ rw (gt, lt) (leq_total a b gt, (lt, h))
    | inr more ↦ rw (gt, more) (le, rw more at (insert-InOrder a (c ∷ cs) h))
  ]
]

sort-InOrder : (xs : List Text) → InOrder (sort xs)
unfolding sort
sort-InOrder [] = tt
sort-InOrder (a ∷ xs) = insert-InOrder a (sort xs) (sort-InOrder xs)

-- `a` stands in front of `b` in the order of code units: it is a beginning of `b`, or it has the smaller
-- unit at the first place where they differ.
pub data Before : (a b : Text) → Type 0 where
  beginning : {c : ℕ} {b : Text} → Before [] (c ∷ b)
  smaller : {c d : ℕ} {a b : Text} → c < d → Before (c ∷ a) (d ∷ b)
  further : {c : ℕ} {a b : Text} → Before a b → Before (c ∷ a) (c ∷ b)

-- Each name stands in front of the next.
abbrev pub IsSorted : List Text → Type 0
IsSorted [] = Unit
IsSorted (a ∷ []) = Unit
IsSorted (a ∷ b ∷ bs) = Before a b × IsSorted (b ∷ bs)

leq-cases : (a b : Text) → leq a b ≡ true → (a ≡ b) ⊎ Before a b
unfolding leq
leq-cases [] [] h = inl refl
leq-cases [] (d ∷ b) h = inr beginning
leq-cases (c ∷ a) [] h = absurd (cc h)
leq-cases (c ∷ a) (d ∷ b) h = elim (Bool-cases (ltb c d)) [
  | inl less ↦ inr (smaller (ground arith))
  | inr not_less ↦ elim (Bool-cases (ltb d c)) [
    | inl more ↦ absurd (cc (rw (not_less, more) at h))
    | inr not_more ↦
        let same : c ≡ d = ground arith in
        elim (leq-cases a b (rw (not_less, not_more) at h)) [
          | inl e ↦ inl (ap₂ (λ x xs. x ∷ xs) same e)
          | inr before ↦ inr (subst (λ x. Before (c ∷ a) (x ∷ b)) same (further before))
        ]
  ]
]

-- No name stands in the list twice.
abbrev IsOnce : List Text → Type 0
IsOnce [] = Unit
IsOnce (a ∷ xs) = (contains a xs ≡ false) × IsOnce xs

insert-IsOnce :
    (a : Text) (xs : List Text) → contains a xs ≡ false → IsOnce xs → IsOnce (insert a xs)
unfolding insert
insert-IsOnce a [] new h = (refl, tt)
insert-IsOnce a (b ∷ bs) new (fresh, h) = elim (Bool-cases (leq a b)) [
  | inl le ↦ rw le (new, (fresh, h))
  | inr gt ↦ rw gt (
    contains-insert b a bs ∙ ground (arith, eq_iff a b, eq_iff b a),
    insert-IsOnce a bs (ground arith) h,
  )
]

sort-IsOnce : (xs : List Text) → IsOnce xs → IsOnce (sort xs)
unfolding sort
sort-IsOnce [] h = tt
sort-IsOnce (a ∷ xs) (fresh, h) =
    insert-IsOnce a (sort xs) (contains-sort a xs ∙ fresh) (sort-IsOnce xs h)

snoc-IsOnce :
    (xs : List Text) (a : Text) → contains a xs ≡ false → IsOnce xs → IsOnce (xs ++ a ∷ [])
snoc-IsOnce [] a new h = (refl, tt)
snoc-IsOnce (b ∷ xs) a new (fresh, h) = (
  contains-append b xs (a ∷ []) ∙ ground (arith, eq_iff a b, eq_iff b a),
  snoc-IsOnce xs a (ground arith) h,
)

add_names-IsOnce : (found xs : List Text) → IsOnce found → IsOnce (add_names found xs)
unfolding add_names add
add_names-IsOnce found [] h = h
add_names-IsOnce found (a ∷ xs) h = elim (Bool-cases (contains a found)) [
  | inl there ↦ rw there (add_names-IsOnce found xs h)
  | inr new ↦ rw new (add_names-IsOnce (found ++ a ∷ []) xs (snoc-IsOnce found a new h))
]

InOrder-IsSorted : (xs : List Text) → InOrder xs → IsOnce xs → IsSorted xs
InOrder-IsSorted [] h once = tt
InOrder-IsSorted (a ∷ []) h once = tt
InOrder-IsSorted (a ∷ b ∷ bs) (le, h) (fresh, once) = elim (leq-cases a b le) [
  | inl e ↦
      let there : contains a (b ∷ bs) ≡ true = ground (arith, eq_iff b a) in
      absurd (cc (sym fresh ∙ there))
  | inr before ↦ (before, InOrder-IsSorted (b ∷ bs) h once)
]

-- The names that are listed are those that are registered or have a session file, each once, in the
-- order of their code units.
pub list_session_names-IsSorted :
    (files : Files)
    → IsSorted (list_session_names files)
      × ((name : Text)
          → contains name (list_session_names files)
            ≡ (has name (read_registry files) || has name files.session_files))
unfolding list_session_names list_registered_sessions
list_session_names-IsSorted files = (
  InOrder-IsSorted (list_session_names files)
      (sort-InOrder (add_names [] (list_registered_sessions files ++ keys files.session_files)))
      (sort-IsOnce (add_names [] (list_registered_sessions files ++ keys files.session_files))
        (add_names-IsOnce [] (list_registered_sessions files ++ keys files.session_files) tt)),
  λ name.
      contains-sort name _
      ∙ contains-add_names name [] _
      ∙ contains-append name (sort (keys (read_registry files))) (keys files.session_files)
      ∙ ap₂ ◌||◌ (contains-sort name _ ∙ contains-keys name (read_registry files))
          (contains-keys name files.session_files),
)
