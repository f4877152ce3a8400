-- ===== src/Board/Template/Headers.antt =====
-- The lines of a template that stand in front of its first marker.
use tukan.Prelude.{refl, List, [], ◌∷◌, ◌++◌, arith, All}
use tukan.Text.{Text, units, starts_with}
use tukan.Text.Split.{IsFree, IsFree-append}
use tukan.Board.Template.{TemplateValues, heading, index_of, desc_marker, criteria_marker}
use tukan.Board.Template.Lines.{IsClear, IsFree-IsClear}
use tukan.Board.Template.Fields.{IsField}

-- the lines in front of the first marker
abbrev pub header : List Text → List Text
header settings = heading ++ settings ++ [] ∷ []

abbrev pub name_line : TemplateValues → Text
name_line values = units "Name: " ++ values.name

abbrev Readable : List Text → Type 0
Readable ls = All (IsFree 10) ls × All (IsClear desc_marker) ls × All (IsClear criteria_marker) ls

-- a line of the form "Key: value" can be read
abbrev pub Line : Text → Type 0
Line l = IsFree 10 l × IsFree b'#' l

pub field-Line : (key v : Text) → IsFree 10 key → IsFree b'#' key → IsField v → Line (key ++ v)
field-Line key v a b f = (IsFree-append 10 key v a f.one_line, IsFree-append b'#' key v b f.no_mark)

Readable-lines : (ls : List Text) → All Line ls → Readable (ls ++ [] ∷ [])
unfolding index_of starts_with
Readable-lines [] h = ((tt, tt), (λ t. refl, tt), (λ t. refl, tt))
Readable-lines (l ∷ ls) ((one_line, no_mark), h) =
    let (a, b, c) = Readable-lines ls h in
    (
      (one_line, a),
      (IsFree-IsClear b'#' (units "# Description") l (omega arith) no_mark, b),
      (IsFree-IsClear b'#' (units "# Acceptance Criteria") l (omega arith) no_mark, c),
    )

pub Readable-header : (settings : List Text) → All Line settings → Readable (header settings)
unfolding index_of starts_with
Readable-header settings h =
    let (a, b, c) = Readable-lines settings h in
    (
      (omega arith, (omega arith, (omega arith, (tt, a)))),
      (λ t. refl, (λ t. refl, (λ t. refl, (λ t. refl, b)))),
      (λ t. refl, (λ t. refl, (λ t. refl, (λ t. refl, c)))),
    )
