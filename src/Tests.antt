-- ===== src/Tests.antt =====
-- Runs of the program's functions on small inputs, and the theorems at such inputs.
mod Data
mod Cards
mod Activity
mod Boards
mod Tmux
mod Cli
mod State
mod Previews
mod Templates
mod Polls
mod App
mod Views
mod Forms
mod Commands
mod Sessions
mod Launch
