-- ===== src/Text.antt =====
-- JavaScript strings: sequences of UTF-16 code units, and the methods of `String` that the program
-- calls.
pub mod Equality
pub mod Split
use Prim.Native.Char.{code}
use tukan.Prelude.{
  ℕ, String, Bool, true, false, ◌&&◌, ◌||◌, List, [], ◌∷◌, ◌++◌, Option, none, some, leb, nat_eq,
  if◌then◌else◌, ◌+◌, ◌<◌, ◌≡◌, refl,
}

abbrev pub Text : Type 0
Text = List ℕ

-- The code units of a literal (all literals of the program are ASCII but two arrows and signs).
abbrev pub units : String → Text
units String.[] = []
units (String.◌∷◌ c s) = code c ∷ units s

infix 50 ◌==◌
-- `s === t`
unfoldable pub ◌==◌ : Text → Text → Bool
[] == [] = true
[] == (d ∷ t) = false
(c ∷ s) == [] = false
(c ∷ s) == (d ∷ t) = nat_eq c d && s == t

-- `s.startsWith(t)`
unfoldable pub starts_with : Text → Text → Bool
starts_with s [] = true
starts_with [] (d ∷ t) = false
starts_with (c ∷ s) (d ∷ t) = nat_eq c d && starts_with s t

-- `s.includes(t)`
unfoldable pub includes : Text → Text → Bool
unfolding starts_with
includes [] t = starts_with [] t
includes (c ∷ s) t = starts_with (c ∷ s) t || includes s t

-- White space and line terminators, as `trim` and `\s` have them.
unfoldable pub is_space : ℕ → Bool
is_space c =
    (leb 9 c && leb c 13)
    || nat_eq c 0x20
    || nat_eq c 0xa0
    || nat_eq c 0x1680
    || (leb 0x2000 c && leb c 0x200a)
    || nat_eq c 0x2028
    || nat_eq c 0x2029
    || nat_eq c 0x202f
    || nat_eq c 0x205f
    || nat_eq c 0x3000
    || nat_eq c 0xfeff

-- `s.trimStart()`
unfoldable pub trim_start : Text → Text
unfolding is_space
trim_start [] = []
trim_start (c ∷ s) = if is_space c then trim_start s else c ∷ s

-- `s.trimEnd()`: a character stays if it is no space or if something stays behind it
keep_end : ℕ → Text → Text
unfolding is_space
keep_end c [] = if is_space c then [] else c ∷ []
keep_end c (d ∷ rest) = c ∷ d ∷ rest

unfoldable pub trim_end : Text → Text
unfolding keep_end
trim_end [] = []
trim_end (c ∷ s) = keep_end c (trim_end s)

-- `s.trim()`
unfoldable pub trim : Text → Text
unfolding trim_start trim_end
trim s = trim_end (trim_start s)

-- `s.split(sep)` at a separator of one code unit: never empty
split_cons : ℕ → List Text → List Text
split_cons c [] = (c ∷ []) ∷ []
split_cons c (w ∷ ws) = (c ∷ w) ∷ ws

unfoldable pub split : ℕ → Text → List Text
unfolding split_cons
split sep [] = [] ∷ []
split sep (c ∷ s) = let rest = split sep s in if nat_eq c sep then [] ∷ rest else split_cons c rest

-- `parts.join(sep)`
unfoldable pub join : Text → List Text → Text
join sep [] = []
join sep (w ∷ []) = w
join sep (w ∷ v ∷ ws) = w ++ (sep ++ join sep (v ∷ ws))

-- A string is falsy when it is empty.
abbrev pub is_truthy : Text → Bool
is_truthy [] = false
is_truthy (c ∷ s) = true

-- An optional string, `undefined` or empty, is falsy.
abbrev pub truthy? : Option Text → Option Text
truthy? none = none
truthy? (some []) = none
truthy? (some (c ∷ s)) = some (c ∷ s)

-- `toLowerCase` on the letters A to Z.
ascii_lower_unit : ℕ → ℕ
ascii_lower_unit c = if leb b'A' c && leb c b'Z' then c + 32 else c

unfoldable pub ascii_lower : Text → Text
unfolding ascii_lower_unit
ascii_lower [] = []
ascii_lower (c ∷ s) = ascii_lower_unit c ∷ ascii_lower s

abbrev pub IsAscii : Text → Type 0
IsAscii [] = Unit
IsAscii (c ∷ s) = (c < 128) × IsAscii s

-- `String.prototype.toLowerCase`, of which only the ASCII range is written out.
pub record LowerCase : Type 0 where
  pub to_lower_case : Text → Text
  pub ascii : (s : Text) → IsAscii s → to_lower_case s ≡ ascii_lower s

abbrev pub ascii_only : LowerCase
ascii_only = record { to_lower_case = ascii_lower; ascii = λ s h. refl }
