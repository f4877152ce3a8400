-- ===== src/Text/Equality.antt =====
-- The test `==` and equality of texts.
use tukan.Prelude.{false, ◌≢◌, ◌≡◌, refl, ◌↔◌, true, [], ◌∷◌, arith}
use tukan.Text.{Text, ◌==◌}

eq_sound : (s t : Text) → (s == t) ≡ true → s ≡ t
unfolding ◌==◌
eq_sound [] [] h = refl
eq_sound [] (d ∷ t) h = cc
eq_sound (c ∷ s) [] h = cc
eq_sound (c ∷ s) (d ∷ t) h = ground (arith, eq_sound s t)

pub eq_refl : (s : Text) → (s == s) ≡ true
unfolding ◌==◌
eq_refl [] = refl
eq_refl (c ∷ s) = ground (arith, eq_refl s)

pub eq_iff : (s t : Text) → ((s == t) ≡ true) ↔ (s ≡ t)
eq_iff s t = (eq_sound s t, λ e. ground (arith, eq_refl s))

pub ne_of_eq_false : (s t : Text) → (s == t) ≡ false → s ≢ t
ne_of_eq_false s t h e = absurd (ground (arith, eq_iff s t))
