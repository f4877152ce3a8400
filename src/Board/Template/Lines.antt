-- ===== src/Board/Template/Lines.antt =====
-- Finding a marker behind lines that do not hold it, and cutting a text there.
use tukan.Prelude.{
  ℕ, zero, suc, ◌+◌, ◌-◌, ◌≡◌, refl, sym, ap, ◌∙◌, ◌≢◌, Option, some, List, [], ◌∷◌, ◌++◌, arith,
  length, take, drop, All, append_assoc, length-append,
}
use tukan.Text.{Text, starts_with, split, join}
use tukan.Text.Split.{IsFree, split-append}
use tukan.Board.Template.{index_of, later, slice}

-- the lines, each with a newline behind it
unfoldable pub flat : List Text → Text
flat [] = []
flat (l ∷ ls) = l ++ 10 ∷ flat ls

abbrev pub shift : ℕ → Option ℕ → Option ℕ
shift zero o = o
shift (suc n) o = later (shift n o)

pub join-flat :
    (ls : List Text) (m : Text) (rest : List Text)
    → join (10 ∷ []) (ls ++ m ∷ rest) ≡ flat ls ++ join (10 ∷ []) (m ∷ rest)
unfolding join flat
join-flat [] m rest = refl
join-flat (l ∷ []) m rest = sym (append_assoc l (10 ∷ []) (join (10 ∷ []) (m ∷ rest)))
join-flat (l ∷ k ∷ ls) m rest =
    ap (λ t. l ++ 10 ∷ t) (join-flat (k ∷ ls) m rest)
    ∙ sym (append_assoc l (10 ∷ flat (k ∷ ls)) (join (10 ∷ []) (m ∷ rest)))

pub split-flat : (ls : List Text) → All (IsFree 10) ls → split 10 (flat ls) ≡ ls ++ [] ∷ []
unfolding split flat
split-flat [] h = refl
split-flat (l ∷ ls) (h, hs) = split-append 10 l (flat ls) h ∙ ap (λ r. l ∷ r) (split-flat ls hs)

-- The marker does not begin in the line, whatever comes behind it.
abbrev pub IsClear : Text → Text → Type 0
IsClear marker l =
    (t : Text) → index_of marker (l ++ 10 ∷ t) ≡ shift (length l + 1) (index_of marker t)

shift-shift : (m n : ℕ) (o : Option ℕ) → shift m (shift n o) ≡ shift (m + n) o
shift-shift zero n o = let e : n ≡ 0 + n = omega arith in ap (λ k. shift k o) e
shift-shift (suc m) n o =
    let e : suc (m + n) ≡ suc m + n = omega arith in
    ap later (shift-shift m n o) ∙ ap (λ k. shift k o) e

pub shift-some : (n k : ℕ) → shift n (some k) ≡ some (n + k)
shift-some zero k = let e : k ≡ 0 + k = omega arith in ap some e
shift-some (suc n) k =
    let e : suc (n + k) ≡ suc n + k = omega arith in ap later (shift-some n k) ∙ ap some e

pub index_of-flat :
    (marker : Text) (ls : List Text) (t : Text)
    → All (IsClear marker) ls
    → index_of marker (flat ls ++ t) ≡ shift (length (flat ls)) (index_of marker t)
unfolding flat
index_of-flat marker [] t h = refl
index_of-flat marker (l ∷ ls) t (h, hs) =
    let e : length l + 1 + length (flat ls) ≡ length (l ++ 10 ∷ flat ls) =
      omega (arith, length-append l (10 ∷ flat ls)) in
    ap (index_of marker) (append_assoc l (10 ∷ flat ls) t)
    ∙ h (flat ls ++ t)
    ∙ ap (shift (length l + 1)) (index_of-flat marker ls t hs)
    ∙ shift-shift (length l + 1) (length (flat ls)) (index_of marker t)
    ∙ ap (λ n. shift n (index_of marker t)) e

-- A line without the first character of the marker is clear of it.
pub IsFree-IsClear : (c : ℕ) (m l : Text) → c ≢ 10 → IsFree c l → IsClear (c ∷ m) l
unfolding index_of starts_with
IsFree-IsClear c m [] ne h t = ground arith
IsFree-IsClear c m (d ∷ l) ne (other, h) t = ground (arith, IsFree-IsClear c m l ne h t)

pub take-append : (s t : Text) → take (length s) (s ++ t) ≡ s
take-append [] t = refl
take-append (c ∷ s) t = ap (λ r. c ∷ r) (take-append s t)

pub drop-append : (s t : Text) → drop (length s) (s ++ t) ≡ t
drop-append [] t = refl
drop-append (c ∷ s) t = drop-append s t

pub slice-append : (a b c : Text) → slice (length a) (length a + length b) (a ++ (b ++ c)) ≡ b
slice-append a b c =
    let e : length a + length b - length a ≡ length b = omega arith in
    ap (take (length a + length b - length a)) (drop-append a (b ++ c))
    ∙ ap (λ n. take n (b ++ c)) e
    ∙ take-append b c

pub drop-append_more : (k : ℕ) (s t : Text) → drop (length s + k) (s ++ t) ≡ drop k t
drop-append_more k [] t = let e : 0 + k ≡ k = omega arith in ap (λ n. drop n t) e
drop-append_more k (c ∷ s) t =
    let e : suc (length s) + k ≡ suc (length s + k) = omega arith in
    ap (λ n. drop n (c ∷ s ++ t)) e ∙ drop-append_more k s t
