-- ===== src/Ui/View.antt =====
-- src/ui/Board.tsx, Column.tsx, Card.tsx and StatusBar.tsx: what is shown, and where it is cut off.
pub mod Scroll
pub mod Title
pub mod Bar
