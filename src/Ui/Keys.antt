-- ===== src/Ui/Keys.antt =====
-- The keys that ink's `useInput` reports to every part of src/ui: the text that was typed, and which
-- special keys were pressed.
use tukan.Prelude.{Bool, true, false, []}
use tukan.Text.{Text}

pub record Key : Type 0 where
  pub input : Text
  pub up_arrow : Bool
  pub down_arrow : Bool
  pub left_arrow : Bool
  pub right_arrow : Bool
  pub return : Bool
  pub escape : Bool
  pub ctrl : Bool
  pub meta : Bool
  pub shift : Bool
  pub tab : Bool
  pub backspace : Bool
  pub delete : Bool

abbrev pub typed : Text → Key
typed text = record {
  input = text;
  up_arrow = false;
  down_arrow = false;
  left_arrow = false;
  right_arrow = false;
  return = false;
  escape = false;
  ctrl = false;
  meta = false;
  shift = false;
  tab = false;
  backspace = false;
  delete = false;
}

abbrev pub escape_key : Key
escape_key = record (typed []) { escape = true }
