-- ===== src/Dict/Laws.antt =====
-- The laws of reading and writing a dictionary.
use tukan.Prelude.{
  ◌≡◌, refl, sym, subst, ◌≢◌, inl, inr, some, [], ◌∷◌, arith, if◌then◌else◌, Bool-cases, All,
}
use tukan.Text.{Text, ◌==◌}
use tukan.Text.Equality.{eq_iff, eq_refl}
use tukan.Dict.{Dict, get, set, keys, IsDistinct}

module _ {ℓ} {V : Type ℓ} where
  pub get-set :
      (k j : Text) (v : V) (d : Dict V) → get j (set k v d) ≡ (if k == j then some v else get j d)
  unfolding get set
  get-set k j v [] = refl
  get-set k j v ((i, w) ∷ d) = ground (arith, eq_iff k j, eq_iff i k, eq_iff i j, get-set k j v d)

  pub set-IsDistinct : (k : Text) (v : V) (d : Dict V) → IsDistinct d → IsDistinct (set k v d)
  unfolding get set
  set-IsDistinct k v [] h = (refl, tt)
  set-IsDistinct k v ((i, w) ∷ d) (f, h) =
      ground (arith, eq_iff i k, eq_iff k i, get-set k i v d, set-IsDistinct k v d h)

  -- A write to a key that is there changes no key, and no order.
  pub keys-set : (k : Text) (v w : V) (d : Dict V) → get k d ≡ some w → keys (set k v d) ≡ keys d
  unfolding get set
  keys-set k v w [] h = cc
  keys-set k v w ((i, u) ∷ d) h = ground (arith, keys-set k v w d)

  pub set-set_self : (k : Text) (v w : V) (d : Dict V) → set k v (set k w d) ≡ set k v d
  unfolding set
  set-set_self k v w [] = ground (arith, eq_refl k)
  set-set_self k v w ((i, u) ∷ d) = ground (arith, set-set_self k v w d)

  pub set-get_self : (k : Text) (v : V) (d : Dict V) → get k d ≡ some v → set k v d ≡ d
  unfolding get set
  set-get_self k v [] h = cc
  set-get_self k v ((i, u) ∷ d) h = ground (arith, set-get_self k v d)

  -- Writes to two keys that are there commute.
  pub set_comm :
      (k j : Text) (v w v' w' : V) (d : Dict V)
      → k ≢ j
      → get k d ≡ some v'
      → get j d ≡ some w'
      → set k v (set j w d) ≡ set j w (set k v d)
  unfolding get set
  set_comm k j v w v' w' [] ne hk hj = cc
  set_comm k j v w v' w' ((i, u) ∷ d) ne hk hj =
      ground (arith, eq_iff i k, eq_iff i j, set_comm k j v w v' w' d ne)

  pub All-set {κ} :
      (P : Text × V → Type κ) (k : Text) (v : V) (d : Dict V)
      → P (k, v)
      → All P d
      → All P (set k v d)
  unfolding set
  All-set P k v [] p h = (p, tt)
  All-set P k v ((i, u) ∷ d) p (q, h) = elim (Bool-cases (i == k)) [
    | inl same ↦ rw same (subst (λ j. P (j, v)) (sym ((eq_iff i k).0 same)) p, h)
    | inr other ↦ rw other (q, All-set P k v d p h)
  ]

  pub All-get {κ} :
      (P : Text × V → Type κ) (k : Text) (v : V) (d : Dict V)
      → All P d
      → get k d ≡ some v
      → P (k, v)
  unfolding get
  All-get P k v [] h e = cc
  All-get P k v ((i, u) ∷ d) (q, h) e = elim (Bool-cases (i == k)) [
    | inl same ↦
        let found : u ≡ v = ground arith in
        subst (λ j. P (j, v)) ((eq_iff i k).0 same) (subst (λ w. P (i, w)) found q)
    | inr other ↦ All-get P k v d h (ground arith)
  ]
