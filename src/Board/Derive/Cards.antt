-- ===== src/Board/Derive/Cards.antt =====
-- src/board/types.ts and derive.ts: the cards of the derived board, and how each is made.
use tukan.Prelude.{
  ℕ, ◌-◌, ◌/◌, Bool, true, false, Option, none, some, List, [], ◌∷◌, ◌++◌, leb, nat_eq,
  if◌then◌else◌, get_elem?, take,
}
use tukan.Text.{Text, units}
use tukan.Dict.{get}
use tukan.Tmux.{TmuxPane, TmuxWindow}
use tukan.Board.{Card, is_set}
use tukan.Board.Activity.{ActivityEntry, ActivityMap}

-- An integer; `negsuc n` is -(n + 1).
pub data ℤ : Type 0 where
  pos : ℕ → ℤ
  negsuc : ℕ → ℤ

-- `Math.floor((now - then) / 1000)`
unfoldable pub elapsed_seconds : (now then_ms : ℕ) → ℤ
elapsed_seconds now then_ms =
    if leb then_ms now then pos ((now - then_ms) / 1000) else negsuc ((then_ms - now - 1) / 1000)

pub record BoardCard : Type 0 where
  pub card_id : Text
  pub window_id : Option Text
  pub display_id : Text
  pub session_name : Text
  pub name : Text
  pub command : Text
  pub working_dir : Text
  pub active : Bool
  pub started : Bool
  pub closed : Bool
  pub uncategorized : Bool
  pub has_activity : Bool
  pub spinning : Bool
  pub idle_time : Option ℤ

pub record BoardColumn : Type 0 where
  pub id : Text
  pub title : Text
  pub cards : List BoardCard

-- `id.replace("@", "#")`: the first one only
unfoldable pub hash_id : Text → Text
hash_id [] = []
hash_id (c ∷ s) = if nat_eq c b'@' then b'#' ∷ s else c ∷ hash_id s

abbrev entry_activity : Option ActivityEntry → Bool
entry_activity none = false
entry_activity (some entry) = entry.has_activity

abbrev entry_spinning : Option ActivityEntry → Bool
entry_spinning none = false
entry_spinning (some entry) = entry.spinning

abbrev entry_idle_time : ℕ → Option ActivityEntry → Option ℤ
entry_idle_time now none = none
entry_idle_time now (some entry) = some (elapsed_seconds now entry.last_change_time)

abbrev first_pane : TmuxWindow → Option TmuxPane
first_pane win = get_elem? win.panes 0

-- `firstPane?.field ?? d`
abbrev pane_field : (TmuxPane → Text) → Option TmuxPane → Text → Text
pane_field field none d = d
pane_field field (some pane) d = field pane

-- a window owned by a card
unfoldable pub owned_card : ℕ → ActivityMap → Text → TmuxWindow → Card → BoardCard
unfolding hash_id elapsed_seconds
owned_card now activity_map session_name win card =
    let activity = get win.id activity_map in
    record {
      card_id = card.id;
      window_id = some win.id;
      display_id = take 8 card.id ++ (units " " ++ hash_id win.id);
      session_name = session_name;
      name = card.name;
      command = card.command;
      working_dir = pane_field (λ p. p.working_dir) (first_pane win) card.dir;
      active = win.active;
      started = true;
      closed = false;
      uncategorized = false;
      has_activity = entry_activity activity;
      spinning = entry_spinning activity;
      idle_time = entry_idle_time now activity;
    }

-- an uncategorized window, with no card record
unfoldable pub uncategorized_card : ℕ → ActivityMap → Text → TmuxWindow → BoardCard
unfolding hash_id elapsed_seconds
uncategorized_card now activity_map session_name win =
    let activity = get win.id activity_map in
    record {
      card_id = win.id;
      window_id = some win.id;
      display_id = hash_id win.id;
      session_name = session_name;
      name = win.name;
      command = pane_field (λ p. p.command) (first_pane win) [];
      working_dir = pane_field (λ p. p.working_dir) (first_pane win) [];
      active = win.active;
      started = false;
      closed = false;
      uncategorized = true;
      has_activity = entry_activity activity;
      spinning = entry_spinning activity;
      idle_time = entry_idle_time now activity;
    }

-- an unstarted or closed card
unfoldable pub idle_card : Card → BoardCard
idle_card card = record {
  card_id = card.id;
  window_id = none;
  display_id = take 8 card.id;
  session_name = card.session_name;
  name = card.name;
  command = card.command;
  working_dir = card.dir;
  active = false;
  started = false;
  closed = is_set card.started_at;
  uncategorized = false;
  has_activity = false;
  spinning = false;
  idle_time = none;
}
