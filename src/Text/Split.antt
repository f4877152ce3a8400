-- ===== src/Text/Split.antt =====
-- Splitting what was joined, and trimming what needs no trimming.
use tukan.Prelude.{ℕ, ◌≡◌, refl, ap, ◌∙◌, ◌≢◌, true, false, List, [], ◌∷◌, ◌++◌, arith, All}
use tukan.Text.{Text, is_space, trim_start, trim_end, trim, split, join}

abbrev pub IsFree : ℕ → Text → Type 0
IsFree sep [] = Unit
IsFree sep (c ∷ s) = (c ≢ sep) × IsFree sep s

pub split_free : (sep : ℕ) (w : Text) → IsFree sep w → split sep w ≡ w ∷ []
unfolding split
split_free sep [] h = refl
split_free sep (c ∷ w) (ne, h) = ground (arith, split_free sep w h)

pub split-append :
    (sep : ℕ) (w s : Text) → IsFree sep w → split sep (w ++ sep ∷ s) ≡ w ∷ split sep s
unfolding split
split-append sep [] s h = ground arith
split-append sep (c ∷ w) s (ne, h) = ground (arith, split-append sep w s h)

-- Texts without the separator come back from their join, if there is one at least.
pub split-join :
    (sep : ℕ) (w : Text) (ws : List Text)
    → IsFree sep w
    → All (IsFree sep) ws
    → split sep (join (sep ∷ []) (w ∷ ws)) ≡ w ∷ ws
unfolding join
split-join sep w [] h _ = split_free sep w h
split-join sep w (v ∷ ws) h (k, ks) =
    split-append sep w (join (sep ∷ []) (v ∷ ws)) h ∙ ap (λ r. w ∷ r) (split-join sep v ws k ks)

-- The text begins and ends with a character that is no space.
abbrev pub StartsPlain : Text → Type 0
StartsPlain [] = ⊥
StartsPlain (c ∷ s) = is_space c ≡ false

abbrev pub EndsPlain : Text → Type 0
EndsPlain [] = ⊥
EndsPlain (c ∷ []) = is_space c ≡ false
EndsPlain (c ∷ d ∷ s) = EndsPlain (d ∷ s)

pub trim_end_plain : (s : Text) → EndsPlain s → trim_end s ≡ s
unfolding trim_end
trim_end_plain [] h = absurd h
trim_end_plain (c ∷ []) h = rw h
trim_end_plain (c ∷ d ∷ s) h = ground (arith, trim_end_plain (d ∷ s) h)

pub trim_end-space : (s : Text) (c : ℕ) → is_space c ≡ true → trim_end (s ++ c ∷ []) ≡ trim_end s
unfolding trim_end
trim_end-space [] c h = rw h
trim_end-space (d ∷ s) c h = ground (arith, trim_end-space s c h)

pub trim_start_plain : (s : Text) → StartsPlain s → trim_start s ≡ s
unfolding trim_start
trim_start_plain [] h = absurd h
trim_start_plain (c ∷ s) h = rw h

-- A text that begins and ends plain, with one space behind it, is trimmed to itself.
pub trim_space :
    (s : Text) (c : ℕ) → StartsPlain s → EndsPlain s → is_space c ≡ true → trim (s ++ c ∷ []) ≡ s
unfolding trim
trim_space [] c h k sp = absurd h
trim_space (d ∷ s) c h k sp =
    ap trim_end (trim_start_plain (d ∷ s ++ c ∷ []) h)
    ∙ trim_end-space (d ∷ s) c sp
    ∙ trim_end_plain (d ∷ s) k

pub StartsPlain-append : (s t : Text) → StartsPlain s → StartsPlain (s ++ t)
StartsPlain-append [] t h = absurd h
StartsPlain-append (c ∷ s) t h = h

pub EndsPlain-append : (s t : Text) → EndsPlain t → EndsPlain (s ++ t)
EndsPlain-append [] t h = h
EndsPlain-append (c ∷ []) [] h = absurd h
EndsPlain-append (c ∷ []) (d ∷ t) h = h
EndsPlain-append (c ∷ d ∷ s) t h = EndsPlain-append (d ∷ s) t h

pub IsFree-append : (c : ℕ) (s t : Text) → IsFree c s → IsFree c t → IsFree c (s ++ t)
IsFree-append c [] t h k = k
IsFree-append c (d ∷ s) t (ne, h) k = (ne, IsFree-append c s t h k)

pub is_space-newline : is_space 10 ≡ true
unfolding is_space
is_space-newline = refl
