-- ===== src/Ui/View/Title.antt =====
-- src/ui/Card.tsx: the title line of a card, its indicator, and the scrolling of a long name.
pub mod Scrolling
use tukan.Prelude.{
  ℕ, zero, suc, ◌+◌, ◌-◌, ◌%◌, Bool, not, ◌&&◌, ◌||◌, Option, none, some, List, [], ◌∷◌, ◌++◌, ltb,
  if◌then◌else◌, or_else, is_some, length, take, drop, get_elem?,
}
use tukan.Text.{Text, starts_with, is_truthy, truthy?}
use tukan.Board.Derive.{BoardCard}

-- `home` is the variable `HOME`.
unfoldable pub shorten_path : Option Text → Text → Text
shorten_path home dir = elim (truthy? home) [
  | none ↦ dir
  | some prefix ↦ if starts_with dir prefix then b'~' ∷ drop (length prefix) dir else dir
]

abbrev pub spinner_frames : List Text
spinner_frames =
    (0x280b ∷ [])
    ∷ (0x2819 ∷ [])
    ∷ (0x2839 ∷ [])
    ∷ (0x2838 ∷ [])
    ∷ (0x283c ∷ [])
    ∷ (0x2834 ∷ [])
    ∷ (0x2826 ∷ [])
    ∷ (0x2827 ∷ [])
    ∷ (0x2807 ∷ [])
    ∷ (0x280f ∷ [])
    ∷ []

unfoldable pub next_frame : ℕ → ℕ
next_frame i = (i + 1) % length spinner_frames

-- The index of a frame is always one of the list: the default is not used.
unfoldable pub indicator_of : ℕ → BoardCard → Text
indicator_of spinner_index card =
    if card.closed
    then 0x25c7 ∷ []
    else if card.spinning
    then or_else (get_elem? spinner_frames spinner_index) []
    else if card.has_activity
    then 0x25c6 ∷ []
    else if card.active
    then 0x25cf ∷ []
    else if card.started || card.uncategorized
    then 0x25cb ∷ []
    else []

pub record TitleLine : Type 0 where
  pub prefix : Text
  pub padded_name : Text
  pub suffix : Text

-- `" ".repeat(n)`
unfoldable pub spaces : ℕ → Text
spaces zero = []
spaces (suc n) = b' ' ∷ spaces n

abbrev pub prefix_of : Text → Text
prefix_of indicator = if is_truthy indicator then indicator ++ b' ' ∷ [] else b' ' ∷ []

-- `inner_width` is not negative: a card is at least 12 wide.
unfoldable pub build_title_line : (indicator name display_id : Text) (inner_width : ℕ) → TitleLine
unfolding spaces
build_title_line indicator name display_id inner_width =
    let prefix = prefix_of indicator in
    let suffix = b' ' ∷ display_id in
    let available = inner_width - length prefix - length suffix in
    let truncated = if ltb available (length name) then take available name else name in
    record {
      prefix = prefix;
      padded_name = truncated ++ spaces (available - length truncated);
      suffix = suffix;
    }

abbrev pub scroll_pause_ticks : ℕ
scroll_pause_ticks = 6

-- `available` in the component, from the lengths of the prefix and the suffix
unfoldable pub name_width : ℕ → BoardCard → (width : ℕ) → ℕ
unfolding indicator_of
name_width spinner_index card width =
    width
    - 4
    - (if is_truthy (indicator_of spinner_index card) then 2 else 1)
    - (1 + length card.display_id)

unfoldable pub total_ticks : (max_scroll : ℕ) → ℕ
total_ticks max_scroll = scroll_pause_ticks + max_scroll + scroll_pause_ticks

unfoldable pub next_tick : (max_scroll tick : ℕ) → ℕ
unfolding total_ticks
next_tick max_scroll tick = (tick + 1) % total_ticks max_scroll

-- the scroll offset of a name that is too long
unfoldable pub offset_at : (max_scroll tick : ℕ) → ℕ
offset_at max_scroll tick =
    if ltb tick scroll_pause_ticks
    then 0
    else if ltb tick (scroll_pause_ticks + max_scroll)
    then tick - scroll_pause_ticks
    else max_scroll

-- the title line of a card at a frame of the spinner and a tick of the scrolling
unfoldable pub card_title :
    (spinner_index scroll_tick : ℕ) → Bool → (width : ℕ) → BoardCard → TitleLine
unfolding build_title_line name_width offset_at indicator_of
card_title spinner_index scroll_tick selected width card =
    let available = name_width spinner_index card width in
    build_title_line (indicator_of spinner_index card)
      (if selected && ltb available (length card.name)
        then drop (offset_at (length card.name - available) scroll_tick) card.name
        else card.name)
      card.display_id (width - 4)

-- whether the idle time is shown
unfoldable pub shows_idle_time : BoardCard → Bool
shows_idle_time card =
    card.started && not card.spinning && not card.active && is_some card.idle_time
