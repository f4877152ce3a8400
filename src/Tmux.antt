-- ===== src/Tmux.antt =====
-- src/tmux/types.ts: sessions, windows and panes as tmux lists them.
pub mod Panes
pub mod Parse
pub mod Create
pub mod Switch
pub mod Start
pub mod Client
use tukan.Prelude.{ℕ, Bool, Option, List}
use tukan.Text.{Text}

-- A number field holds what `Number` made of its text; `none` is NaN.
pub record TmuxPane : Type 0 where
  pub id : Text
  pub index : Option ℕ
  pub active : Bool
  pub command : Text
  pub pid : Option ℕ
  pub working_dir : Text
  pub width : Option ℕ
  pub height : Option ℕ

pub record TmuxWindow : Type 0 where
  pub id : Text
  pub index : Option ℕ
  pub name : Text
  pub active : Bool
  pub panes : List TmuxPane

pub record TmuxSession : Type 0 where
  pub id : Text
  pub name : Text
  pub attached : Bool
  pub windows : List TmuxWindow

pub record TmuxServer : Type 0 where
  pub server_name : Text
  pub sessions : List TmuxSession
