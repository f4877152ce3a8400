-- ===== src/Board/Template.antt =====
-- src/board/card-template.ts: a card as a text that is edited, and back.
pub mod Lines
pub mod Sections
pub mod Fields
pub mod Headers
pub mod RoundTrip
use tukan.Prelude.{
  ℕ, suc, ◌+◌, ◌-◌, Bool, true, false, not, ◌&&◌, ◌||◌, Option, none, some, List, [], ◌∷◌, ◌++◌,
  if◌then◌else◌, nat_eq, length, drop, take,
}
use tukan.Text.{Text, units, ◌==◌, starts_with, split, join, trim, trim_end, is_truthy}

pub record TemplateValues : Type 0 where
  pub name : Text
  pub description : Text
  pub acceptance_criteria : Text
  pub dir : Text
  pub worktree : Bool
  pub worktree_path : Text
  pub command : Text

abbrev pub heading : List Text
heading =
    units "# Tukan Card"
    ∷ units "# Lines starting with # are ignored."
    ∷ units "# Save and quit (:wq) to apply, quit without saving (:q!) to cancel."
    ∷ []
    ∷ []

abbrev pub yes_or_no : Bool → Text
yes_or_no true = units "yes"
yes_or_no false = units "no"

-- the lines that are written for a card and not for its texts alone
abbrev pub settings_lines : TemplateValues → List Text
settings_lines values =
    (units "Working Directory: " ++ values.dir)
    ∷ (units "Worktree: " ++ yes_or_no values.worktree)
    ∷ ((if values.worktree then (units "Worktree Path: " ++ values.worktree_path) ∷ [] else [])
        ++ (units "Command: " ++ values.command) ∷ [])

unfoldable pub template_lines : TemplateValues → Bool → List Text
template_lines values meta_only =
    heading
    ++ (units "Name: " ++ values.name)
      ∷ ((if meta_only then [] else settings_lines values)
          ++ []
            ∷ units "## Description"
            ∷ values.description
            ∷ []
            ∷ units "## Acceptance Criteria"
            ∷ values.acceptance_criteria
            ∷ []
            ∷ [])

unfoldable pub build_card_template : TemplateValues → Bool → Text
unfolding template_lines
build_card_template values meta_only = join (10 ∷ []) (template_lines values meta_only)

pub record ParsedTemplate : Type 0 where
  pub name : Option Text
  pub description : Option Text
  pub acceptance_criteria : Option Text
  pub dir : Option Text
  pub worktree : Option Bool
  pub worktree_path : Option Text
  pub command : Option Text

abbrev pub empty_template : ParsedTemplate
empty_template = record {
  name = none;
  description = none;
  acceptance_criteria = none;
  dir = none;
  worktree = none;
  worktree_path = none;
  command = none;
}

-- `s.indexOf(part)`, with none for -1
abbrev pub later : Option ℕ → Option ℕ
later none = none
later (some i) = some (suc i)

unfoldable pub index_of : Text → Text → Option ℕ
index_of part [] = if starts_with [] part then some 0 else none
index_of part (c ∷ s) =
    let rest = index_of part s in if starts_with (c ∷ s) part then some 0 else later rest

-- the `switch` over the keys
unfoldable pub set_field : Bool → Text → Text → ParsedTemplate → ParsedTemplate
set_field meta_only key value result =
    if key == units "Name"
    then record result { name = some value }
    else if key == units "Working Directory"
    then (if meta_only then result else record result { dir = some value })
    else if key == units "Worktree"
    then (if meta_only then result else record result { worktree = some (value == units "yes") })
    else if key == units "Worktree Path"
    then (if meta_only then result else record result { worktree_path = some value })
    else if key == units "Command"
    then (if not meta_only && is_truthy value
        then record result { command = some value }
        else result)
    else result

-- one round of the loop over the lines
unfoldable pub read_line : Bool → Text → ParsedTemplate → ParsedTemplate
unfolding set_field index_of
read_line meta_only line result =
    if starts_with line (units "#") || not (is_truthy (trim line))
    then result
    else elim (index_of (units ":") line) [
      | none ↦ result
      | some i ↦ set_field meta_only (trim (take i line)) (trim (drop (i + 1) line)) result
    ]

unfoldable pub read_lines : Bool → List Text → ParsedTemplate → ParsedTemplate
unfolding read_line
read_lines meta_only [] result = result
read_lines meta_only (line ∷ lines) result =
    read_lines meta_only lines (read_line meta_only line result)

abbrev pub desc_marker : Text
desc_marker = units "## Description"

abbrev pub criteria_marker : Text
criteria_marker = units "## Acceptance Criteria"

-- `s.slice(from, to)`, empty where `to` is not behind `from`
abbrev pub slice : ℕ → ℕ → Text → Text
slice from to s = take (to - from) (drop from s)

-- `.replace(/^\n/, "").trimEnd()`
abbrev pub without_newline : Text → Text
without_newline [] = []
without_newline (c ∷ s) = if nat_eq c 10 then s else c ∷ s

abbrev pub section_text : Text → Text
section_text s = trim_end (without_newline s)

abbrev pub or_end : Option ℕ → Text → ℕ
or_end none content = length content
or_end (some i) content = i

unfoldable pub parse_card_template : Text → Bool → ParsedTemplate
unfolding index_of read_lines
parse_card_template content meta_only =
    let desc_idx = index_of desc_marker content in
    let criteria_idx = index_of criteria_marker content in
    let header = take (or_end desc_idx content) content in
    let result = read_lines meta_only (split 10 header) empty_template in
    record result {
      description = elim desc_idx [
        | none ↦ none
        | some i ↦
            some
              (section_text (slice (i + length desc_marker) (or_end criteria_idx content) content))
      ];
      acceptance_criteria = elim criteria_idx [
        | none ↦ none
        | some i ↦ some (section_text (drop (i + length criteria_marker) content))
      ];
    }
