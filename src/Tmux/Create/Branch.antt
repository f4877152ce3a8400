-- ===== src/Tmux/Create/Branch.antt =====
-- The names that `sanitizeBranchName` makes.
use tukan.Prelude.{
  ℕ, ◌≤◌, ◌≡◌, ◌≢◌, refl, leb, nat_eq_iff, All-weaken, ◌⊎◌, inl, inr, Bool, true, false, ◌&&◌, ◌||◌,
  [], ◌∷◌, arith, nat_eq, Bool-cases, keep, All,
}
use tukan.Text.{Text, units, trim, LowerCase}
use tukan.Tmux.Create.{
  dash_spaces, is_branch_char, is_edge, single_dots, strip_start, strip_end, or_worktree, put_dot,
  put_unless_edge, sanitize_branch_name,
}

abbrev IsAllowed : ℕ → Type 0
IsAllowed c = is_branch_char c ≡ true

-- a-z, 0-9, '.', '_', '/' and '-'
abbrev pub IsBranchChar : ℕ → Type 0
IsBranchChar c =
    ((b'a' ≤ c) × (c ≤ b'z'))
    ⊎ (((b'0' ≤ c) × (c ≤ b'9')) ⊎ ((c ≡ b'.') ⊎ ((c ≡ b'_') ⊎ ((c ≡ b'/') ⊎ (c ≡ b'-')))))

-- neither a dash nor a dot nor a slash
abbrev pub IsInside : ℕ → Type 0
IsInside c = (c ≢ b'-') × (c ≢ b'.') × (c ≢ b'/')

or_true : (a b : Bool) → (a || b) ≡ true → (a ≡ true) ⊎ (b ≡ true)
or_true true b h = inl refl
or_true false b h = inr h

IsAllowed-IsBranchChar : (c : ℕ) → IsAllowed c → IsBranchChar c
unfolding is_branch_char
IsAllowed-IsBranchChar c h = elim (or_true _ (nat_eq c b'-') h) [
  | inr dash ↦ inr (inr (inr (inr (inr ((nat_eq_iff _ _).0 dash)))))
  | inl h1 ↦ elim (or_true _ (nat_eq c b'/') h1) [
    | inr slash ↦ inr (inr (inr (inr (inl ((nat_eq_iff _ _).0 slash)))))
    | inl h2 ↦ elim (or_true _ (nat_eq c b'_') h2) [
      | inr line ↦ inr (inr (inr (inl ((nat_eq_iff _ _).0 line))))
      | inl h3 ↦ elim (or_true _ (nat_eq c b'.') h3) [
        | inr dot ↦ inr (inr (inl ((nat_eq_iff _ _).0 dot)))
        | inl h4 ↦ elim (or_true (leb b'a' c && leb c b'z') (leb b'0' c && leb c b'9') h4) [
          | inl letter ↦ inl (ground arith, ground arith)
          | inr digit ↦ inr (inl (ground arith, ground arith))
        ]
      ]
    ]
  ]
]

IsInside-not_edge : (c : ℕ) → is_edge c ≡ false → IsInside c
unfolding is_edge
IsInside-not_edge c h = (ground arith, ground arith, ground arith)

-- Two dots stand side by side.
pub has_double_dot : Text → Bool
has_double_dot [] = false
has_double_dot (c ∷ []) = false
has_double_dot (c ∷ d ∷ s) = (nat_eq c b'.' && nat_eq d b'.') || has_double_dot (d ∷ s)

abbrev StartsInside : Text → Type 0
StartsInside [] = ⊥
StartsInside (c ∷ s) = is_edge c ≡ false

abbrev EndsInside : Text → Type 0
EndsInside [] = ⊥
EndsInside (c ∷ []) = is_edge c ≡ false
EndsInside (c ∷ d ∷ s) = EndsInside (d ∷ s)

-- what the proof keeps, in terms of the tests of the code
record IsSanitized (name : Text) : Type 0 where
  allowed : All IsAllowed name
  dots : has_double_dot name ≡ false
  starts : StartsInside name
  ends : EndsInside name

abbrev pub Starts : Text → Type 0
Starts [] = ⊥
Starts (c ∷ s) = IsInside c

abbrev pub Ends : Text → Type 0
Ends [] = ⊥
Ends (c ∷ []) = IsInside c
Ends (c ∷ d ∷ s) = Ends (d ∷ s)

-- A name of the allowed characters with no two dots in a row, which is not empty and neither begins
-- nor ends with a dash, a dot or a slash.
pub record IsBranchName (name : Text) : Type 0 where
  pub allowed : All IsBranchChar name
  pub dots : has_double_dot name ≡ false
  pub starts : Starts name
  pub ends : Ends name

IsSanitized-IsBranchName : (name : Text) → IsSanitized name → IsBranchName name
IsSanitized-IsBranchName name h = record {
  allowed = All-weaken IsAllowed IsBranchChar name IsAllowed-IsBranchChar h.allowed;
  dots = h.dots;
  starts = start name h.starts;
  ends = end name h.ends;
}
  where
    start : (s : Text) → StartsInside s → Starts s
    start [] k = k
    start (c ∷ s) k = IsInside-not_edge c k

    end : (s : Text) → EndsInside s → Ends s
    end [] k = k
    end (c ∷ []) k = IsInside-not_edge c k
    end (c ∷ d ∷ s) k = end (d ∷ s) k

IsAllowed-keep : (s : Text) → All IsAllowed (keep is_branch_char s)
IsAllowed-keep [] = tt
IsAllowed-keep (c ∷ s) = elim (Bool-cases (is_branch_char c)) [
  | inl here ↦ rw here (here, IsAllowed-keep s)
  | inr out ↦ rw out (IsAllowed-keep s)
]

IsAllowed-single_dots : (s : Text) → All IsAllowed s → All IsAllowed (single_dots s)
unfolding single_dots
IsAllowed-single_dots [] h = tt
IsAllowed-single_dots (c ∷ s) (p, h) = put (single_dots s) (IsAllowed-single_dots s h)
  where
    put : (t : Text) → All IsAllowed t → All IsAllowed (put_dot c t)
    put [] k = (p, tt)
    put (d ∷ t) k = elim (Bool-cases (nat_eq c b'.' && nat_eq d b'.')) [
      | inl both ↦ rw both k
      | inr other ↦ rw other (p, k)
    ]

dots-single_dots : (s : Text) → has_double_dot (single_dots s) ≡ false
unfolding single_dots has_double_dot
dots-single_dots [] = refl
dots-single_dots (c ∷ s) = put (single_dots s) (dots-single_dots s)
  where
    put : (t : Text) → has_double_dot t ≡ false → has_double_dot (put_dot c t) ≡ false
    put [] k = refl
    put (d ∷ t) k = ground (arith)

IsAllowed-strip_start : (s : Text) → All IsAllowed s → All IsAllowed (strip_start s)
unfolding strip_start
IsAllowed-strip_start [] h = tt
IsAllowed-strip_start (c ∷ s) (p, h) = elim (Bool-cases (is_edge c)) [
  | inl edge ↦ rw edge (IsAllowed-strip_start s h)
  | inr inside ↦ rw inside (p, h)
]

dots-strip_start : (s : Text) → has_double_dot s ≡ false → has_double_dot (strip_start s) ≡ false
unfolding strip_start has_double_dot
dots-strip_start [] h = refl
dots-strip_start (c ∷ []) h = ground arith
dots-strip_start (c ∷ d ∷ s) h = ground (arith, dots-strip_start (d ∷ s))

starts-strip_start : (s : Text) → (strip_start s ≡ []) ⊎ StartsInside (strip_start s)
unfolding strip_start
starts-strip_start [] = inl refl
starts-strip_start (c ∷ s) = elim (Bool-cases (is_edge c)) [
  | inl edge ↦ rw edge (starts-strip_start s)
  | inr inside ↦ rw inside (inr inside)
]

IsAllowed-put_unless_edge :
    (c : ℕ) (t : Text) → IsAllowed c → All IsAllowed t → All IsAllowed (put_unless_edge c t)
unfolding put_unless_edge
IsAllowed-put_unless_edge c [] p k = elim (Bool-cases (is_edge c)) [
  | inl edge ↦ rw edge tt
  | inr inside ↦ rw inside (p, tt)
]
IsAllowed-put_unless_edge c (d ∷ t) p k = (p, k)

IsAllowed-strip_end : (s : Text) → All IsAllowed s → All IsAllowed (strip_end s)
unfolding strip_end
IsAllowed-strip_end [] h = tt
IsAllowed-strip_end (c ∷ s) (p, h) =
    IsAllowed-put_unless_edge c (strip_end s) p (IsAllowed-strip_end s h)

dots-put_unless_edge :
    (c d : ℕ) (t : Text)
    → (nat_eq c b'.' && nat_eq d b'.') ≡ false
    → has_double_dot (put_unless_edge d t) ≡ false
    → has_double_dot (put_unless_edge c (put_unless_edge d t)) ≡ false
unfolding put_unless_edge has_double_dot
dots-put_unless_edge c d [] h k = ground arith
dots-put_unless_edge c d (x ∷ t) h k = ground arith

dots-strip_end : (s : Text) → has_double_dot s ≡ false → has_double_dot (strip_end s) ≡ false
unfolding strip_end has_double_dot
dots-strip_end [] h = refl
dots-strip_end (c ∷ []) h = ground arith
dots-strip_end (c ∷ d ∷ s) h =
    dots-put_unless_edge c d (strip_end s) (ground arith) (dots-strip_end (d ∷ s) (ground arith))

starts-strip_end : (c : ℕ) (s : Text) → is_edge c ≡ false → StartsInside (strip_end (c ∷ s))
unfolding strip_end
starts-strip_end c s h = put (strip_end s)
  where
    put : (t : Text) → StartsInside (put_unless_edge c t)
    put [] = rw h h
    put (d ∷ t) = h

ends-strip_end : (s : Text) → (strip_end s ≡ []) ⊎ EndsInside (strip_end s)
unfolding strip_end
ends-strip_end [] = inl refl
ends-strip_end (c ∷ s) = put (strip_end s) (ends-strip_end s)
  where
    put :
        (t : Text)
        → (t ≡ []) ⊎ EndsInside t
        → (put_unless_edge c t ≡ []) ⊎ EndsInside (put_unless_edge c t)
    put [] k = elim (Bool-cases (is_edge c)) [
      | inl edge ↦ rw edge (inl refl)
      | inr inside ↦ rw inside (inr inside)
    ]
    put (d ∷ t) (inl e) = cc
    put (d ∷ t) (inr k) = inr k

worktree-IsSanitized : IsSanitized (units "worktree")
unfolding has_double_dot is_branch_char is_edge
worktree-IsSanitized = record {
  allowed = (refl, (refl, (refl, (refl, (refl, (refl, (refl, (refl, tt))))))));
  dots = refl;
  starts = refl;
  ends = refl;
}

stripped-IsSanitized :
    (s : Text)
    → All IsAllowed s
    → has_double_dot s ≡ false
    → (s ≡ []) ⊎ StartsInside s
    → IsSanitized (or_worktree (strip_end s))
unfolding strip_end
stripped-IsSanitized [] a d st = worktree-IsSanitized
stripped-IsSanitized (c ∷ s) a d (inl e) = absurd (cc)
stripped-IsSanitized (c ∷ s) a d (inr inside) =
    name (strip_end (c ∷ s)) (IsAllowed-strip_end (c ∷ s) a) (dots-strip_end (c ∷ s) d)
      (starts-strip_end c s inside) (ends-strip_end (c ∷ s))
  where
    name :
        (t : Text)
        → All IsAllowed t
        → has_double_dot t ≡ false
        → StartsInside t
        → (t ≡ []) ⊎ EndsInside t
        → IsSanitized (or_worktree t)
    name [] ta td ts te = absurd ts
    name (x ∷ t) ta td ts (inl e) = absurd (cc)
    name (x ∷ t) ta td ts (inr e) = record { allowed = ta; dots = td; starts = ts; ends = e }

-- Whatever the name of the card, and however its letters are lowered, the sanitized name is one of
-- a-z, 0-9, '.', '_', '/' and '-' with no two dots in a row; it is not empty and neither begins nor
-- ends with a dash, a dot or a slash.
pub sanitize_branch_name-IsBranchName :
    (locale : LowerCase) (name : Text) → IsBranchName (sanitize_branch_name locale name)
unfolding sanitize_branch_name
sanitize_branch_name-IsBranchName locale name =
    let kept = keep is_branch_char (dash_spaces (locale.to_lower_case (trim name))) in
    let single = single_dots kept in
    IsSanitized-IsBranchName _ (
      stripped-IsSanitized (strip_start single)
        (IsAllowed-strip_start single (
          IsAllowed-single_dots kept
            (IsAllowed-keep (dash_spaces (locale.to_lower_case (trim name))))))
        (dots-strip_start single (dots-single_dots kept)) (starts-strip_start single))
