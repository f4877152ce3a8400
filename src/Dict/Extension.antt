-- ===== src/Dict/Extension.antt =====
-- Equality of dictionaries by their keys and values, and loops that rewrite each entry.
use tukan.Prelude.{
  ap₂, ◌≡◌, refl, sym, ◌∙◌, inl, inr, true, false, Option, none, some, List, [], ◌∷◌, arith,
  Option-cases, is_some,
}
use tukan.Text.{Text}
use tukan.Text.Equality.{eq_iff, eq_refl}
use tukan.Dict.{Dict, get, set, keys, IsDistinct}
use tukan.Dict.Laws.{get-set, keys-set}

keys-cons_injective : {k j : Text} {ks js : List Text} → k ∷ ks ≡ j ∷ js → (k ≡ j) × (ks ≡ js)
keys-cons_injective e = (cc, cc)

module _ {ℓ} {V : Type ℓ} where
  get_of_keys : (d e : Dict V) (k : Text) → keys d ≡ keys e → get k d ≡ none → get k e ≡ none
  unfolding get
  get_of_keys [] [] k h m = refl
  get_of_keys [] ((j, w) ∷ e) k h m = cc
  get_of_keys ((i, v) ∷ d) [] k h m = cc
  get_of_keys ((i, v) ∷ d) ((j, w) ∷ e) k h m =
      let (same, rest) = keys-cons_injective h in ground (arith, get_of_keys d e k rest)

  pub ext :
      (d e : Dict V) → keys d ≡ keys e → IsDistinct d → ((k : Text) → get k d ≡ get k e) → d ≡ e
  unfolding get
  ext [] [] h _ g = refl
  ext [] ((j, w) ∷ e) h _ g = cc
  ext ((i, v) ∷ d) [] h _ g = cc
  ext ((i, v) ∷ d) ((j, w) ∷ e) h (fresh, dist) g =
      let (same, rest) = keys-cons_injective h in
      let fresh' = get_of_keys d e i rest fresh in
      let here : v ≡ w = ground (arith, g i, eq_refl i, eq_iff j i) in
      let tail = ext d e rest dist (λ k. ground (arith, g k, eq_iff i k, eq_iff j k)) in
      ap₂ (λ (x : Text × V) (xs : Dict V). x ∷ xs) (ap₂ (λ (a : Text) (b : V). (a, b)) same here)
        tail

  unfoldable pub map_values : (V → V) → Dict V → Dict V
  map_values f [] = []
  map_values f ((k, v) ∷ d) = (k, f v) ∷ map_values f d

  -- `for (const [k, v] of entries) d[k] = f(v);`
  unfoldable pub write_all : (V → V) → Dict V → Dict V → Dict V
  write_all f [] d = d
  write_all f ((k, v) ∷ entries) d = write_all f entries (set k (f v) d)

  abbrev pub or_mapped : (V → V) → Option V → Option V → Option V
  or_mapped f none o = o
  or_mapped f (some v) o = some (f v)

  pub get-write_all :
      (f : V → V) (entries d : Dict V) (k : Text)
      → IsDistinct entries
      → get k (write_all f entries d) ≡ or_mapped f (get k entries) (get k d)
  unfolding get write_all
  get-write_all f [] d k h = refl
  get-write_all f ((j, v) ∷ entries) d k (fresh, h) =
      ground (arith, get-write_all f entries (set j (f v) d) k h, get-set j k (f v) d, eq_iff j k)

  pub get-map_values :
      (f : V → V) (d : Dict V) (k : Text) → get k (map_values f d) ≡ or_mapped f (get k d) none
  unfolding get map_values
  get-map_values f [] k = refl
  get-map_values f ((j, v) ∷ d) k = ground (arith, get-map_values f d k)

  pub keys-map_values : (f : V → V) (d : Dict V) → keys (map_values f d) ≡ keys d
  unfolding map_values
  keys-map_values f [] = refl
  keys-map_values f ((k, v) ∷ d) = rw (keys-map_values f d)

  pub map_values-IsDistinct : (f : V → V) (d : Dict V) → IsDistinct d → IsDistinct (map_values f d)
  unfolding get map_values
  map_values-IsDistinct f [] h = tt
  map_values-IsDistinct f ((k, v) ∷ d) (fresh, h) =
      (ground (arith, get-map_values f d k), map_values-IsDistinct f d h)

  -- Every entry is among those of the dictionary.
  abbrev AreIn : Dict V → Dict V → Type 0
  AreIn entries d = (k : Text) → is_some (get k entries) ≡ true → is_some (get k d) ≡ true

  keys-write_all :
      (f : V → V) (entries d : Dict V) → AreIn entries d → keys (write_all f entries d) ≡ keys d
  unfolding get write_all
  keys-write_all f [] d h = refl
  keys-write_all f ((j, v) ∷ entries) d h = elim (Option-cases (get j d)) [
    | inl missing ↦ absurd (impossible (rw missing at (h j (rw (eq_refl j)))))
    | inr (w, there) ↦
        keys-write_all f entries (set j (f v) d)
          (λ k e. ground (arith, h k, get-set j k (f v) d, eq_iff j k))
        ∙ keys-set j (f v) w d there
  ]
    where
      impossible : false ≡ true → ⊥
      impossible e = cc

  pub write_all_self : (f : V → V) (d : Dict V) → IsDistinct d → write_all f d d ≡ map_values f d
  write_all_self f d h = sym (
      ext (map_values f d) (write_all f d d)
        (keys-map_values f d ∙ sym (keys-write_all f d d (λ k e. e))) (map_values-IsDistinct f d h)
        (λ k. ground (arith, get-map_values f d k, get-write_all f d d k h)))

  pub map_values-map_values :
      (f g : V → V) (d : Dict V)
      → ((v : V) → f (g v) ≡ g v)
      → map_values f (map_values g d) ≡ map_values g d
  unfolding map_values
  map_values-map_values f g [] h = refl
  map_values-map_values f g ((k, v) ∷ d) h =
      ap₂ (λ (c : V) (r : Dict V). (k, c) ∷ r) (h v) (map_values-map_values f g d h)
