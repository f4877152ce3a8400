-- ===== src/Lib.antt =====
-- Tukan is a kanban board for tmux: a card is a task, started in a tmux window of its own, and the
-- board shows where every task and every window stands. This library models its core.
--
-- The parts and how they work together. src/tmux/client.ts asks tmux for its sessions, windows and
-- panes; src/tmux/parse.ts reads the answers. src/board/derive.ts first reconciles the stored board
-- with the live windows (`reconcileConfig`) and then derives what is shown (`deriveBoard`).
-- src/board/activity.ts compares the contents of the panes from poll to poll, and says which windows
-- are active and which cards move between In Progress and Review. src/board/navigation.ts moves the
-- cursor and the card under it, src/board/card-ops.ts changes single cards for the command line and
-- the interface, src/tmux/create.ts builds the commands that start a card, src/tmux/switch.ts those
-- that lead a client to its window, and src/state/store.ts keeps everything in files. src/cli.ts and
-- src/ui/App.tsx call these: each event of the interface, a key, a form that is handed over, an answer
-- of tmux or a timer, goes to one handler, which changes the state and saves it.
--
-- Where the parts are modelled:
--   Board            src/board/types.ts
--   Board.CardOps    src/board/card-ops.ts, the functions on cards; queries in Board.CardOps.Queries
--   Board.Columns    src/board/card-ops.ts, the names of the columns
--   Board.Activity   src/board/activity.ts
--   Board.Derive     src/board/derive.ts, `deriveBoard`
--   Board.Reconcile  src/board/derive.ts, `reconcileConfig`
--   Board.Navigation src/board/navigation.ts
--   Board.Preview    src/board/pane-preview.ts
--   Board.Template   src/board/card-template.ts
--   Tmux             src/tmux/types.ts; Tmux.Panes says which panes there are, for the specifications
--   Tmux.Parse       src/tmux/parse.ts
--   Tmux.Create      src/tmux/create.ts
--   Tmux.Switch      src/tmux/switch.ts, and `detectServerName` of src/index.tsx
--   State            src/state/types.ts
--   State.Migrate    src/state/store.ts, `migrateConfig`
--   State.Store      src/state/store.ts, the files and `readSessionState`, `writeSessionState`
--   State.Listing    src/state/store.ts, the lists of sessions
--   Cli.Refresh      src/cli.ts, what `refresh` changes in a session
--   Cli.Context      src/cli.ts, `loadContext`, `saveConfig`, and a session's round of `refresh`
--   Cli.Sessions     src/cli.ts, `loadContextForCard`, and `refresh`, `register` and `migrate`
--   Cli.Commands     src/cli.ts, `add`, `start` and `stop`; `resolve`, `edit` and `send` are in
--                    Cli.Commands.Changing
--   Cli.Watch        src/cli.ts, `checkIdle`, `stripTrailingBlanks`, `watchCardPane`
--   Tmux.Client      src/tmux/client.ts
--   Tmux.Start       src/ui/App.tsx, the commands of `startCard`, and of `start` in src/cli.ts
--   Ui.Poll          src/ui/App.tsx, the poll of the panes and `saveState`
--   Launch           src/index.tsx, what the interface starts with, and the routing of arguments
--   Ui.Keys          the keys that ink reports to src/ui
--   Ui.App           src/ui/App.tsx, its state; the keys of the board in Ui.App.Press, what the forms
--                    hand over in Ui.App.Handlers, the questions in Ui.App.Confirm, and the events and
--                    their runs in Ui.App.Step
--   Ui.View.Scroll   src/ui/Board.tsx and Column.tsx, the columns and cards that are shown
--   Ui.View.Title    src/ui/Card.tsx, the title line
--   Ui.View.Bar      src/ui/StatusBar.tsx
--   Ui.Forms.Inputs  src/ui/TextInput.tsx, SelectInput.tsx and QuickShellModal.tsx
--   Ui.Forms.NewCard src/ui/NewCardModal.tsx
--   Ui.Forms.Settings src/ui/SettingsModal.tsx
-- Prelude, Text and Dict hold what these share; Tests holds runs on small inputs. A function has the
-- name of the source's in lower case with underscores (`deriveBoard` is `derive_board`), and a loop of
-- the source is a function of its own, named for what it adds.
--
-- Representation. A string is the list of its UTF-16 code units; a `Record` or a `Map` is the list of
-- its entries in the order of insertion, and a `Set` the list of its members. Times and counts are
-- natural numbers; a difference that may be negative is compared by adding, and `idleTime` is an
-- integer. A field that may be missing is an Option, and an empty string is falsy as in the source. A
-- function that throws gives none. Files are a record of what they hold once they are parsed. A
-- handler of the interface gives the new state and the list of what it does besides: what it saves, and
-- the commands it runs. `startCard` and `confirmResolve`, which wait for git and tmux, are cut where
-- they wait: what follows is an event of its own (`card_started`, handled by `finish_start`, and
-- `resolve_ended`, handled by `end_resolve`), on the state of that time. A resolve waits only where it
-- merges a worktree, and is handled at once otherwise.
--
-- Parameters are what other code computes: `Date.now()`, `randomUUID()`, `process.cwd()`, the SHA-1
-- digest, `Number` on a text, node:path, which directories exist, the answers of git and tmux, what an
-- editor makes of a text, and `toLowerCase`, of which only the ASCII letters are fixed.
--
-- All functions are total: loops over lists are recursion on the list, and `watchCardPane`, which runs
-- until the window is gone or a signal comes, is a function of the list of the polls that it makes. No
-- fuel is used.
--
-- Not modelled: what the commands of src/cli.ts print, and its commands `peek`, `list`, `show` and
-- `sessions`, which only print; the loop of `launchTui` in src/index.tsx; and the boxes, colours and
-- idle times that src/ui renders with ink. Writing a file is one step here, and programs that write at
-- the same time are left out; writing the file of a session whose name has a slash, which throws in the
-- program, succeeds here. A lookup by the name of a member of `Object.prototype` is written out in
-- Board.Columns and in `find_cards`, where what the program takes the member for is a parameter. The key
-- `s` at a card that the board shows but does not hold gives none, where the program stores an object
-- with one field.
pub mod Prelude
pub mod Text
pub mod Dict
pub mod Board
pub mod Tmux
pub mod Cli
pub mod Launch
pub mod State
pub mod Ui
pub mod Tests
