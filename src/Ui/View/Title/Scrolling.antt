-- ===== src/Ui/View/Title/Scrolling.antt =====
-- The width of the title line, and what the scrolling shows.
use native.Mathlib.Nat.{mod-eq_of_lt}
use tukan.Prelude.{
  ℕ, zero, suc, ◌+◌, ◌-◌, ◌%◌, ◌≤◌, ◌<◌, ◌≡◌, refl, ap, ◌∙◌, inl, inr, [], ◌∷◌, ◌++◌, arith, ltb,
  if◌then◌else◌, Bool-cases, length, length-append, min, take, get_elem?,
}
use tukan.Text.{Text}
use tukan.Ui.View.Scroll.{slice}
use tukan.Ui.View.Scroll.Columns.{get_elem?-slice}
use tukan.Ui.View.Title.{
  TitleLine, spaces, prefix_of, build_title_line, scroll_pause_ticks, total_ticks, next_tick,
  offset_at,
}

length-spaces : (n : ℕ) → length (spaces n) ≡ n
unfolding spaces
length-spaces zero = refl
length-spaces (suc n) = ap suc (length-spaces n)

length-take : (n : ℕ) (s : Text) → n ≤ length s → length (take n s) ≡ n
length-take zero s h = refl
length-take (suc n) [] h = absurd (omega arith)
length-take (suc n) (c ∷ s) h = ap suc (length-take n s (omega arith))

abbrev pub line_width : TitleLine → ℕ
line_width line = length line.prefix + length line.padded_name + length line.suffix

length-padded :
    (available : ℕ) (name : Text)
    → let truncated = if ltb available (length name) then take available name else name in
      length (truncated ++ spaces (available - length truncated)) ≡ available
length-padded available name = elim (Bool-cases (ltb available (length name))) [
  | inl long ↦ rw long (
      length-append (take available name) _
      ∙ omega (
        arith,
        length-take available name (ground arith),
        length-spaces (available - length (take available name)),
      ))
  | inr short ↦
      rw short (length-append name _ ∙ ground (arith, length-spaces (available - length name)))
]

-- The title line fills its width exactly, whatever the name, if there is room for the indicator and
-- the id.
pub line_width-build_title_line :
    (indicator name display_id : Text) (inner_width : ℕ)
    → length (prefix_of indicator) + (length display_id + 1) ≤ inner_width
    → line_width (build_title_line indicator name display_id inner_width) ≡ inner_width
unfolding build_title_line
line_width-build_title_line indicator name display_id inner_width room = omega (
  arith,
  length-padded (inner_width - length (prefix_of indicator) - suc (length display_id)) name,
)

-- the tick after `n` intervals
pub tick_after : (max_scroll n : ℕ) → ℕ
tick_after max_scroll zero = 0
tick_after max_scroll (suc n) = next_tick max_scroll (tick_after max_scroll n)

tick_after-lt : (max_scroll n : ℕ) → n < total_ticks max_scroll → tick_after max_scroll n ≡ n
unfolding tick_after next_tick
tick_after-lt max_scroll zero h = refl
tick_after-lt max_scroll (suc n) h =
    ap (λ t. (t + 1) % total_ticks max_scroll) (tick_after-lt max_scroll n (omega arith))
    ∙ mod-eq_of_lt (omega arith)
    ∙ omega arith

offset_at-scrolled :
    (max_scroll k : ℕ) → k ≤ max_scroll → offset_at max_scroll (scroll_pause_ticks + k) ≡ k
unfolding offset_at
offset_at-scrolled max_scroll k h = ground arith

-- The scrolling of a name that is too long shows every unit of it, within one round: some number of
-- intervals after its start, the part of the name that is shown has the unit in it.
pub scrolling_shows :
    (name : Text) (available i : ℕ)
    → 0 < available
    → available < length name
    → i < length name
    → let max_scroll = length name - available in
      (n : ℕ) × (j : ℕ) × (n < total_ticks max_scroll)
      × (j < available)
      × (get_elem? (slice (offset_at max_scroll (tick_after max_scroll n)) available name) j
          ≡ get_elem? name i)
scrolling_shows name available i some_room long within =
    let max_scroll = length name - available in
    let k = min i max_scroll in
    let n = scroll_pause_ticks + k in
    let in_round : n < total_ticks max_scroll = unfold total_ticks in omega arith in
    let here : offset_at max_scroll (tick_after max_scroll n) ≡ k =
      ap (offset_at max_scroll) (tick_after-lt max_scroll n in_round)
      ∙ offset_at-scrolled max_scroll k (omega arith) in
    (
      n,
      i - k,
      in_round,
      omega arith,
      ap (λ o. get_elem? (slice o available name) (i - k)) here
          ∙ get_elem?-slice k available i name (omega arith) (omega arith),
    )
