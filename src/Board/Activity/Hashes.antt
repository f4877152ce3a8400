-- ===== src/Board/Activity/Hashes.antt =====
-- The hashes of the panes: what `computePaneHashes` and `detectChangedPanes` make of the contents.
use tukan.Prelude.{
  ◌≡◌, refl, sym, ap, ◌∙◌, inl, inr, Bool, true, false, ◌||◌, ◌&&◌, Option, none, some, List, [],
  ◌∷◌, ◌++◌, arith, Bool-cases, append_assoc, append-nil, any, any-append, All,
}
use tukan.Text.{Text, ◌==◌}
use tukan.Text.Equality.{eq_iff}
use tukan.Dict.{Dict, get, set, IsDistinct}
use tukan.Dict.Laws.{get-set}
use tukan.Dict.Extension.{map_values}
use tukan.Tmux.Panes.{was_other}
use tukan.Board.Activity.{
  PaneHashMap, contains, add, differs, pane_hashes_from, compute_pane_hashes, changed_panes_from,
  detect_changed_panes,
}

set-fresh : (k v : Text) (d : Dict Text) → get k d ≡ none → set k v d ≡ d ++ (k, v) ∷ []
unfolding get set
set-fresh k v [] h = refl
set-fresh k v ((j, w) ∷ d) h = ground (arith, set-fresh k v d)

abbrev AreFresh : Dict Text → Dict Text → Type 0
AreFresh result contents = All (λ (e : Text × Text). get e.0 result ≡ none) contents

AreFresh-set :
    (k v : Text) (result contents : Dict Text)
    → get k contents ≡ none
    → AreFresh result contents
    → AreFresh (set k v result) contents
unfolding get
AreFresh-set k v result [] h fresh = tt
AreFresh-set k v result ((j, w) ∷ contents) h (here, fresh) = (
  get-set k j v result ∙ ground (arith, eq_iff j k, eq_iff k j),
  AreFresh-set k v result contents (ground arith) fresh,
)

pane_hashes_from-eq-map :
    (hash : Text → Text) (result contents : Dict Text)
    → IsDistinct contents
    → AreFresh result contents
    → pane_hashes_from hash result contents ≡ result ++ map_values hash contents
unfolding pane_hashes_from map_values
pane_hashes_from-eq-map hash result [] d fresh = sym (append-nil result)
pane_hashes_from-eq-map hash result ((k, content) ∷ contents) (new, d) (here, fresh) =
    pane_hashes_from-eq-map hash (set k (hash content) result) contents d
      (AreFresh-set k (hash content) result contents new fresh)
    ∙ ap (λ r. r ++ map_values hash contents) (set-fresh k (hash content) result here)
    ∙ append_assoc result ((k, hash content) ∷ []) (map_values hash contents)

no_hashes-AreFresh : (contents : Dict Text) → AreFresh [] contents
unfolding get
no_hashes-AreFresh [] = tt
no_hashes-AreFresh (e ∷ contents) = (refl, no_hashes-AreFresh contents)

-- Where no pane is captured twice, each has the hash of its content.
pub compute_pane_hashes-eq-map :
    (hash : Text → Text) (contents : Dict Text)
    → IsDistinct contents
    → compute_pane_hashes hash contents ≡ map_values hash contents
unfolding compute_pane_hashes
compute_pane_hashes-eq-map hash contents d =
    pane_hashes_from-eq-map hash [] contents d (no_hashes-AreFresh contents)

pub differs-eq-was_other :
    (before : Option Text) (hash : Text) → differs before hash ≡ was_other before hash
differs-eq-was_other none hash = refl
differs-eq-was_other (some old) hash = refl

any-add : (p : Text → Bool) (x : Text) (xs : List Text) → any p (add x xs) ≡ (any p xs || p x)
unfolding add
any-add p x xs = elim (Bool-cases (contains x xs)) [
  | inr new ↦ rw new (any-append p xs (x ∷ []) ∙ ap (λ b. any p xs || b) (or-false (p x)))
  | inl there ↦ rw there (absorb (any p xs) (p x) (any-there xs there))
]
  where
    or-false : (b : Bool) → (b || false) ≡ b
    or-false true = refl
    or-false false = refl

    absorb : (a b : Bool) → (b ≡ true → a ≡ true) → a ≡ (a || b)
    absorb true b h = refl
    absorb false true h = h refl
    absorb false false h = refl

    any-there : (ys : List Text) → contains x ys ≡ true → p x ≡ true → any p ys ≡ true
    any-there [] h px = absurd (cc h)
    any-there (y ∷ ys) h px = elim (Bool-cases (y == x)) [
      | inl same ↦ rw ((eq_iff y x).0 same) (rw px refl)
      | inr other ↦ elim (Bool-cases (p y)) [
        | inl py ↦ rw py refl
        | inr fails ↦ rw fails (any-there ys (rw other at h) px)
      ]
    ]

any-changed_panes_from :
    (p : Text → Bool) (prev : PaneHashMap) (changed : List Text) (next : PaneHashMap)
    → any p (changed_panes_from prev changed next)
      ≡ (any p changed || any (λ e. was_other (get e.0 prev) e.1 && p e.0) next)
unfolding changed_panes_from
any-changed_panes_from p prev changed [] = ground arith
any-changed_panes_from p prev changed ((k, hash) ∷ next) =
    elim (Bool-cases (was_other (get k prev) hash)) [
      | inl other ↦
          rw (differs-eq-was_other (get k prev) hash, other)
            (any-changed_panes_from p prev (add k changed) next
              ∙ ground (arith, any-add p k changed))
      | inr same ↦
          rw (differs-eq-was_other (get k prev) hash, same)
            (any-changed_panes_from p prev changed next)
    ]

-- Some changed pane passes a test exactly when some pane does whose hash was another one before.
pub any-detect_changed_panes :
    (p : Text → Bool) (prev next : PaneHashMap)
    → any p (detect_changed_panes prev next) ≡ any (λ e. was_other (get e.0 prev) e.1 && p e.0) next
unfolding detect_changed_panes
any-detect_changed_panes p prev next = any-changed_panes_from p prev [] next
