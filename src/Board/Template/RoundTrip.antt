-- ===== src/Board/Template/RoundTrip.antt =====
-- A card that is written as a template and read back.
use tukan.Prelude.{
  ◌≡◌, ap, ◌∙◌, Bool, true, false, not, ◌&&◌, none, some, List, [], ◌∷◌, ◌++◌, arith, All,
  if◌then◌else◌,
}
use tukan.Text.{Text, units, starts_with, is_space, trim_start, trim_end, trim, join}
use tukan.Board.Template.{
  TemplateValues, ParsedTemplate, empty_template, yes_or_no, template_lines, build_card_template,
  index_of, read_line, read_lines, desc_marker, criteria_marker, parse_card_template,
}
use tukan.Board.Template.Sections.{with_sections, parse_sections}
use tukan.Board.Template.Fields.{
  IsWritable, read_name, read_dir, read_path, read_command, read_worktree,
}
use tukan.Board.Template.Headers.{header, name_line, Line, field-Line, Readable-header}

-- what is read of a card: the settings only where they are written, and the path of a worktree only
-- where the card has one
pub read_back : Bool → TemplateValues → ParsedTemplate
read_back meta_only values = record {
  name = some values.name;
  description = some values.description;
  acceptance_criteria = some values.acceptance_criteria;
  dir = if meta_only then none else some values.dir;
  worktree = if meta_only then none else some values.worktree;
  worktree_path = if not meta_only && values.worktree then some values.worktree_path else none;
  command = if meta_only then none else some values.command;
}

-- Reading a template of such lines gives the two texts and what the lines set.
parse_header :
    (values : TemplateValues) (meta_only : Bool) (settings : List Text)
    → IsWritable values
    → All Line settings
    → parse_card_template
        (join (10 ∷ []) (
          header settings
          ++ desc_marker ∷ values.description ∷ [] ∷ criteria_marker ∷ values.acceptance_criteria
            ∷ [] ∷ []))
        meta_only
      ≡ with_sections values.description values.acceptance_criteria
          (read_lines meta_only (header settings ++ [] ∷ []) empty_template)
parse_header values meta_only settings w h =
    let (plain, no_desc, no_criteria) = Readable-header settings h in
    parse_sections (header settings) values.description values.acceptance_criteria plain no_desc
      no_criteria w.no_mark w.description w.acceptance_criteria meta_only

module _ (values : TemplateValues) (w : IsWritable values) where
  name_Line : Line (name_line values)
  name_Line = field-Line (units "Name: ") values.name (omega arith) (omega arith) w.name

  dir_Line : Line (units "Working Directory: " ++ values.dir)
  dir_Line = field-Line (units "Working Directory: ") values.dir (omega arith) (omega arith) w.dir

  path_Line : Line (units "Worktree Path: " ++ values.worktree_path)
  path_Line =
      field-Line (units "Worktree Path: ") values.worktree_path (omega arith) (omega arith)
        w.worktree_path

  command_Line : Line (units "Command: " ++ values.command)
  command_Line = field-Line (units "Command: ") values.command (omega arith) (omega arith) w.command

  worktree_Line : (on : Bool) → Line (units "Worktree: " ++ yes_or_no on)
  worktree_Line true = (omega arith, omega arith)
  worktree_Line false = (omega arith, omega arith)

  abbrev named : ParsedTemplate
  named = record empty_template { name = some values.name }

  abbrev located : Bool → ParsedTemplate
  located on = record named { dir = some values.dir; worktree = some on }

  read_meta : read_lines true (header (name_line values ∷ []) ++ [] ∷ []) empty_template ≡ named
  unfolding read_lines read_line is_space index_of starts_with trim trim_start trim_end
  read_meta = read_name empty_template values.name w.name.trimmed true

  -- the three lines that every card has, read in turn
  read_settings :
      (on : Bool) (more : List Text)
      → read_lines false
          (header (
              name_line values
              ∷ (units "Working Directory: " ++ values.dir)
              ∷ (units "Worktree: " ++ yes_or_no on)
              ∷ more)
            ++ [] ∷ [])
          empty_template
        ≡ read_lines false ((more ++ [] ∷ []) ++ [] ∷ []) (located on)
  unfolding read_lines is_space index_of starts_with trim trim_start trim_end
  read_settings on more = ap (read_lines false ((more ++ [] ∷ []) ++ [] ∷ [])) (
      ap
        (λ r.
          read_line false (units "Worktree: " ++ yes_or_no on)
            (read_line false (units "Working Directory: " ++ values.dir) r))
        (read_name empty_template values.name w.name.trimmed false)
      ∙ ap (read_line false (units "Worktree: " ++ yes_or_no on))
          (read_dir named values.dir w.dir.trimmed)
      ∙ read_worktree (record named { dir = some values.dir }) on)

  read_end :
      (result : ParsedTemplate)
      → read_lines false (((units "Command: " ++ values.command) ∷ [] ∷ []) ++ [] ∷ []) result
        ≡ record result { command = some values.command }
  unfolding read_lines read_line is_space starts_with trim trim_start trim_end
  read_end result = read_command result values.command w.command.trimmed w.has_command

  read_path_and_end :
      (result : ParsedTemplate)
      → read_lines false
          (((units "Worktree Path: " ++ values.worktree_path)
              ∷ (units "Command: " ++ values.command)
              ∷ []
              ∷ [])
            ++ [] ∷ [])
          result
        ≡ record result { worktree_path = some values.worktree_path; command = some values.command }
  unfolding read_lines
  read_path_and_end result =
      ap (read_lines false (((units "Command: " ++ values.command) ∷ [] ∷ []) ++ [] ∷ []))
        (read_path result values.worktree_path w.worktree_path.trimmed)
      ∙ read_end (record result { worktree_path = some values.worktree_path })

abbrev worktree_set : Bool → TemplateValues → TemplateValues
worktree_set on values = record values { worktree = on }

parse-build_settings :
    (values : TemplateValues) (on : Bool)
    → IsWritable values
    → parse_card_template (build_card_template (worktree_set on values) false) false
      ≡ read_back false (worktree_set on values)
unfolding build_card_template template_lines read_back
parse-build_settings values true w =
    let cmd = units "Command: " ++ values.command in
    let path = units "Worktree Path: " ++ values.worktree_path in
    parse_header values false
      (name_line values
        ∷ (units "Working Directory: " ++ values.dir)
        ∷ (units "Worktree: " ++ yes_or_no true)
        ∷ path
        ∷ cmd
        ∷ [])
      w
      (
        name_Line values w,
        (
          dir_Line values w,
          (worktree_Line values w true, (path_Line values w, (command_Line values w, tt))),
        ),
      )
    ∙ ap (with_sections values.description values.acceptance_criteria) (
        read_settings values w true (path ∷ cmd ∷ [])
        ∙ read_path_and_end values w (located values w true))
parse-build_settings values false w =
    let cmd = units "Command: " ++ values.command in
    parse_header values false
      (name_line values
        ∷ (units "Working Directory: " ++ values.dir)
        ∷ (units "Worktree: " ++ yes_or_no false)
        ∷ cmd
        ∷ [])
      w
      (
        name_Line values w,
        (dir_Line values w, (worktree_Line values w false, (command_Line values w, tt))),
      )
    ∙ ap (with_sections values.description values.acceptance_criteria)
        (read_settings values w false (cmd ∷ []) ∙ read_end values w (located values w false))

-- The texts and the settings of a writable card come back from its template: the settings where they
-- are written, which is not for the texts alone, and the path of a worktree where the card has one.
pub parse-build_card_template :
    (values : TemplateValues) (meta_only : Bool)
    → IsWritable values
    → parse_card_template (build_card_template values meta_only) meta_only
      ≡ read_back meta_only values
unfolding build_card_template template_lines read_back
parse-build_card_template values true w =
    parse_header values true (name_line values ∷ []) w (name_Line values w, tt)
    ∙ ap (with_sections values.description values.acceptance_criteria) (read_meta values w)
parse-build_card_template values false w = parse-build_settings values values.worktree w
