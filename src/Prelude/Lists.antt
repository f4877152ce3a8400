-- ===== src/Prelude/Lists.antt =====
-- Lists measured and indexed by native numbers, and predicates over all entries.
use Prim.Native.Nat.{ℕ, zero, suc, ◌+◌}
use mathlib.Core.Path.{◌≡◌, refl, sym, ap, ◌∙◌, subst}
use mathlib.Core.Bool.{Bool, true, false, ◌||◌}
use mathlib.Core.Logic.{◌⊎◌, inl, inr}
use mathlib.Core.List.{List, [], ◌∷◌, ◌++◌, map, reverse, reverse-cons}
use mathlib.Core.Option.{Option, none, some}
use native.Mathlib.Omega.{arith}
use tukan.Prelude.Tests.{if◌then◌else◌, Bool-cases}

module _ {ℓ} {A : Type ℓ} where
  abbrev pub length : List A → ℕ
  length [] = 0
  length (x ∷ xs) = suc (length xs)

  abbrev pub get_elem? : List A → ℕ → Option A
  get_elem? [] i = none
  get_elem? (x ∷ xs) zero = some x
  get_elem? (x ∷ xs) (suc i) = get_elem? xs i

  abbrev pub drop : ℕ → List A → List A
  drop zero xs = xs
  drop (suc n) [] = []
  drop (suc n) (x ∷ xs) = drop n xs

  abbrev pub take : ℕ → List A → List A
  take zero xs = []
  take (suc n) [] = []
  take (suc n) (x ∷ xs) = x ∷ take n xs

  -- `xs.filter(p)` for a test
  abbrev pub keep : (A → Bool) → List A → List A
  keep p [] = []
  keep p (x ∷ xs) = let rest = keep p xs in if p x then x ∷ rest else rest

  -- `xs.some(p)`
  abbrev pub any : (A → Bool) → List A → Bool
  any p [] = false
  any p (x ∷ xs) = p x || any p xs

  -- `xs.find(p)`
  abbrev pub find : (A → Bool) → List A → Option A
  find p [] = none
  find p (x ∷ xs) = if p x then some x else find p xs

  pub length-append : (xs ys : List A) → length (xs ++ ys) ≡ length xs + length ys
  length-append [] ys = omega arith
  length-append (x ∷ xs) ys = omega (arith, length-append xs ys)

module _ {ℓ κ} {A : Type ℓ} (P : A → Type κ) where
  abbrev pub All : List A → Type κ
  All [] = Unit
  All (x ∷ xs) = P x × All xs

  pub All-append : (xs ys : List A) → All xs → All ys → All (xs ++ ys)
  All-append [] ys h k = k
  All-append (x ∷ xs) ys (p, h) k = (p, All-append xs ys h k)

module _ {ℓ} {A : Type ℓ} where
  pub keep-append : (p : A → Bool) (xs ys : List A) → keep p (xs ++ ys) ≡ keep p xs ++ keep p ys
  keep-append p [] ys = refl
  keep-append p (x ∷ xs) ys = ground (arith, keep-append p xs ys)

  pub any-append : (p : A → Bool) (xs ys : List A) → any p (xs ++ ys) ≡ (any p xs || any p ys)
  any-append p [] ys = refl
  any-append p (x ∷ xs) ys = ground (arith, any-append p xs ys)

  pub List-cases : (xs : List A) → (xs ≡ []) ⊎ ((x : A) × (rest : List A) × (xs ≡ x ∷ rest))
  List-cases [] = inl refl
  List-cases (x ∷ xs) = inr (x, xs, refl)

module _ {ℓ κ μ} {A : Type ℓ} (P : A → Type κ) (Q : A → Type μ) where
  pub All-weaken : (xs : List A) → ((x : A) → P x → Q x) → All P xs → All Q xs
  All-weaken [] f h = tt
  All-weaken (x ∷ xs) f (p, h) = (f x p, All-weaken xs f h)

-- `x` stands in the list.
abbrev pub Has : {A : Type 0} → A → List A → Type 0
Has x [] = ⊥
Has x (y ∷ ys) = (y ≡ x) ⊎ Has x ys

module _ {κ} {A : Type 0} (P : A → Type κ) where
  pub All-Has : (xs : List A) (x : A) → All P xs → Has x xs → P x
  All-Has [] x h m = absurd m
  All-Has (y ∷ ys) x (p, h) (inl e) = subst P e p
  All-Has (y ∷ ys) x (p, h) (inr m) = All-Has ys x h m

module _ {A : Type 0} where
  pub Has-behind : (xs ys : List A) (x : A) → Has x ys → Has x (xs ++ ys)
  Has-behind [] ys x h = h
  Has-behind (y ∷ xs) ys x h = inr (Has-behind xs ys x h)

  pub Has-before : (xs ys : List A) (x : A) → Has x xs → Has x (xs ++ ys)
  Has-before [] ys x h = elim h [ ]
  Has-before (y ∷ xs) ys x (inl e) = inl e
  Has-before (y ∷ xs) ys x (inr h) = inr (Has-before xs ys x h)

  pub Has-reverse : (xs : List A) (x : A) → Has x xs → Has x (reverse xs)
  Has-reverse [] x h = elim h [ ]
  Has-reverse (y ∷ xs) x (inl e) =
      subst (Has x) (sym (reverse-cons y xs)) (Has-behind (reverse xs) (y ∷ []) x (inl e))
  Has-reverse (y ∷ xs) x (inr h) =
      subst (Has x) (sym (reverse-cons y xs))
        (Has-before (reverse xs) (y ∷ []) x (Has-reverse xs x h))

  pub Has-map : {B : Type 0} (f : A → B) (xs : List A) (x : A) → Has x xs → Has (f x) (map f xs)
  Has-map f [] x h = elim h [ ]
  Has-map f (y ∷ xs) x (inl e) = inl (ap f e)
  Has-map f (y ∷ xs) x (inr h) = inr (Has-map f xs x h)

  pub Has-keep : (p : A → Bool) (xs : List A) (x : A) → Has x xs → p x ≡ true → Has x (keep p xs)
  Has-keep p [] x h e = elim h [ ]
  Has-keep p (y ∷ xs) x (inl is) e = rw (ap p is ∙ e) (inl is)
  Has-keep p (y ∷ xs) x (inr h) e = elim (Bool-cases (p y)) [
    | inl in_ ↦ rw in_ (inr (Has-keep p xs x h e))
    | inr out ↦ rw out (Has-keep p xs x h e)
  ]

  pub any-Has : (p : A → Bool) (xs : List A) (x : A) → Has x xs → p x ≡ true → any p xs ≡ true
  any-Has p [] x h e = elim h [ ]
  any-Has p (y ∷ xs) x (inl is) e = rw (ap p is ∙ e) refl
  any-Has p (y ∷ xs) x (inr h) e = ground (arith, any-Has p xs x h e)

  pub Has-any : (p : A → Bool) (xs : List A) → any p xs ≡ true → (x : A) × Has x xs × (p x ≡ true)
  Has-any p [] e = absurd (cc e)
  Has-any p (y ∷ xs) e = elim (Bool-cases (p y)) [
    | inl here ↦ (y, inl refl, here)
    | inr out ↦ let (x, h, is) = Has-any p xs (rw out at e) in (x, inr h, is)
  ]
