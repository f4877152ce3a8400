-- ===== src/Tests/Templates.antt =====
-- A card and its template.
use tukan.Prelude.{◌≡◌, refl, true, false, some, ◌∷◌, arith, ◌++◌}
use tukan.Text.{units, ◌==◌, trim, trim_end, split, join, starts_with}
use tukan.Board.Template.{TemplateValues, build_card_template, parse_card_template}
use tukan.Board.Template.Fields.{IsWritable}
use tukan.Board.Template.RoundTrip.{read_back, parse-build_card_template}

abbrev values : TemplateValues
values = record {
  name = units "Fix: the parser";
  description = units "Line one" ++ 10 ∷ units "Name: not a name";
  acceptance_criteria = units "## All tests pass";
  dir = units "/src";
  worktree = true;
  worktree_path = units "../parser";
  command = units "claude";
}

values-IsWritable : IsWritable values
unfolding trim trim_end
values-IsWritable = record {
  name = record { one_line = omega arith; no_mark = omega arith; trimmed = refl };
  dir = record { one_line = omega arith; no_mark = omega arith; trimmed = refl };
  worktree_path = record { one_line = omega arith; no_mark = omega arith; trimmed = refl };
  command = record { one_line = omega arith; no_mark = omega arith; trimmed = refl };
  has_command = refl;
  no_mark = omega arith;
  description = refl;
  acceptance_criteria = refl;
}

parse-build_card_template_example :
    parse_card_template (build_card_template values false) false ≡ read_back false values
parse-build_card_template_example = parse-build_card_template values false values-IsWritable

-- A description that holds the second marker is cut there.
abbrev marked : TemplateValues
marked = record values { description = units "See ## Acceptance Criteria" }

cut_description :
    (parse_card_template (build_card_template marked true) true).description ≡ some (units "See")
unfolding parse_card_template build_card_template join split trim trim_end starts_with ◌==◌
cut_description = refl
