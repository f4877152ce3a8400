-- ===== src/Board/Template/Fields.antt =====
-- What a line of a template sets.
use tukan.Prelude.{
  ℕ, ◌+◌, ◌≡◌, refl, ap, ◌∙◌, Bool, true, false, some, ◌∷◌, ◌++◌, arith, nat_eq, take, drop,
  if◌then◌else◌, inl, inr, List-cases,
}
use tukan.Text.{Text, units, ◌==◌, starts_with, is_space, trim_start, trim_end, trim, is_truthy}
use tukan.Text.Split.{IsFree}
use tukan.Board.Template.{TemplateValues, ParsedTemplate, yes_or_no, index_of, set_field, read_line}

-- A value that stands in a line: it has no line break and no '#', and no space at its ends.
pub record IsField (value : Text) : Type 0 where
  pub one_line : IsFree 10 value
  pub no_mark : IsFree b'#' value
  pub trimmed : trim value ≡ value

-- A card whose values stand in their lines, with a command; its description has no '#', and neither
-- of its texts ends with a space or a line break.
pub record IsWritable (values : TemplateValues) : Type 0 where
  pub name : IsField values.name
  pub dir : IsField values.dir
  pub worktree_path : IsField values.worktree_path
  pub command : IsField values.command
  pub has_command : is_truthy values.command ≡ true
  pub no_mark : IsFree b'#' values.description
  pub description : trim_end values.description ≡ values.description
  pub acceptance_criteria : trim_end values.acceptance_criteria ≡ values.acceptance_criteria

is_truthy-trim : (c : ℕ) (s : Text) → is_space c ≡ false → is_truthy (trim (c ∷ s)) ≡ true
unfolding trim trim_start trim_end
is_truthy-trim c s h = elim (List-cases (trim_end s)) [
  | inl nothing ↦ ground (arith, nothing)
  | inr (d, rest, e) ↦ ground (arith, e)
]

read_line-key :
    (meta_only : Bool) (c i : ℕ) (s : Text) (result : ParsedTemplate)
    → is_space c ≡ false
    → nat_eq c b'#' ≡ false
    → index_of (units ":") (c ∷ s) ≡ some i
    → read_line meta_only (c ∷ s) result
      ≡ set_field meta_only (trim (take i (c ∷ s))) (trim (drop (i + 1) (c ∷ s))) result
unfolding read_line starts_with
read_line-key meta_only c i s result plain no_mark at = ground (arith, is_truthy-trim c s plain, at)

trim-space : (v : Text) → trim v ≡ v → trim (32 ∷ v) ≡ v
unfolding trim trim_start is_space
trim-space v h = h

module _ (result : ParsedTemplate) (v : Text) (h : trim v ≡ v) where
  pub read_name :
      (meta_only : Bool)
      → read_line meta_only (units "Name: " ++ v) result ≡ record result { name = some v }
  unfolding is_space index_of starts_with trim trim_start trim_end set_field ◌==◌
  read_name meta_only =
      read_line-key meta_only b'N' 4 (units "ame: " ++ v) result refl refl refl
      ∙ ap (λ w. record result { name = some w }) (trim-space v h)

  pub read_dir :
      read_line false (units "Working Directory: " ++ v) result ≡ record result { dir = some v }
  unfolding is_space index_of starts_with trim trim_start trim_end set_field ◌==◌
  read_dir =
      read_line-key false b'W' 17 (units "orking Directory: " ++ v) result refl refl refl
      ∙ ap (λ w. record result { dir = some w }) (trim-space v h)

  pub read_path :
      read_line false (units "Worktree Path: " ++ v) result
      ≡ record result { worktree_path = some v }
  unfolding is_space index_of starts_with trim trim_start trim_end set_field ◌==◌
  read_path =
      read_line-key false b'W' 13 (units "orktree Path: " ++ v) result refl refl refl
      ∙ ap (λ w. record result { worktree_path = some w }) (trim-space v h)

  pub read_command :
      is_truthy v ≡ true
      → read_line false (units "Command: " ++ v) result ≡ record result { command = some v }
  unfolding is_space index_of starts_with trim trim_start trim_end set_field ◌==◌
  read_command t =
      read_line-key false b'C' 7 (units "ommand: " ++ v) result refl refl refl
      ∙ ap (λ w. if is_truthy w then record result { command = some w } else result)
          (trim-space v h)
      ∙ rw t refl

pub read_worktree :
    (result : ParsedTemplate) (on : Bool)
    → read_line false (units "Worktree: " ++ yes_or_no on) result
      ≡ record result { worktree = some on }
unfolding read_line is_space index_of starts_with trim trim_start trim_end set_field ◌==◌
read_worktree result true = refl
read_worktree result false = refl
