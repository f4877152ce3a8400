-- ===== src/Tests/Commands.antt =====
-- Commands on the first and the third card of the sample board.
use tukan.Prelude.{◌≡◌, refl, true, Option, none, some, List}
use tukan.Text.{Text, units, ◌==◌, trim, ascii_only}
use tukan.Dict.{get}
use tukan.Tmux.Start.{Command, start_window}
use tukan.Board.CardOps.Laws.{stop, finish, edit}
use tukan.Board.CardOps.Laws
use tukan.State.Migrate.{migrate_config}
use tukan.Cli.Commands
use tukan.Cli.Commands.{EditFlags, fields_of_flags}
use tukan.Cli.Commands.Changing
use tukan.Cli.Commands.Saved.{Leaves, commands_leave, start-Leaves}
use tukan.Tests.Data.{config, parser_card, docs_card}
use tukan.Tests.State.{config-IsCurrent, as_id, always, context, busy_files}
use tukan.Tests.App.{node_path, world}

abbrev flags : EditFlags
flags = record {
  name = some (units "Lexer");
  description = none;
  acceptance_criteria = none;
  dir = none;
  command = none;
}

parser_stored : get (units "aaaa-1") config.cards ≡ some parser_card
unfolding get ◌==◌
parser_stored = refl

commands_leave_example :
    Leaves always 5000 as_id context
      (units "aaaa-1")
      parser_card
      busy_files
      refl
      refl
      config-IsCurrent
      parser_stored
      stop
      (Commands.stop
        (migrate_config 5000 as_id)
        always
        5000
        context
        (units "aaaa-1")
        parser_card
        busy_files).ending
    × Leaves always 5000 as_id context
        (units "aaaa-1")
        parser_card
        busy_files
        refl
        refl
        config-IsCurrent
        parser_stored
        (edit (fields_of_flags flags))
        (Changing.edit_by_flags
          (migrate_config 5000 as_id)
          always
          context
          (units "aaaa-1")
          parser_card
          flags
          busy_files).ending
    × Leaves always 5000 as_id context
        (units "aaaa-1")
        parser_card
        busy_files
        refl
        refl
        config-IsCurrent
        parser_stored
        finish
        (Changing.resolve
          (migrate_config 5000 as_id)
          always
          5000
          ascii_only
          node_path
          world
          context
          (units "aaaa-1")
          parser_card
          true
          true
          busy_files).ending
commands_leave_example =
    commands_leave always 5000 as_id context (units "aaaa-1") parser_card busy_files refl refl
      config-IsCurrent parser_stored ascii_only node_path world true flags

docs_stored : get (units "bbbb-3") config.cards ≡ some docs_card
unfolding get ◌==◌
docs_stored = refl

abbrev opening : List Command × Option Text
opening = start_window ascii_only node_path world true none (units "main") config docs_card

opens : opening ≡ (opening.0, some (units "@9"))
unfolding start_window trim ◌==◌
opens = refl

start-Leaves_example :
    Leaves always 5000 as_id context
      (units "bbbb-3")
      docs_card
      busy_files
      refl
      refl
      config-IsCurrent
      docs_stored
      (Laws.start (units "@9"))
      (Commands.start
        (migrate_config 5000 as_id)
        always
        5000
        ascii_only
        node_path
        world
        context
        (units "bbbb-3")
        docs_card
        true
        busy_files).ending
start-Leaves_example =
    start-Leaves always 5000 as_id context (units "bbbb-3") docs_card busy_files refl refl
      config-IsCurrent docs_stored ascii_only node_path world true opening.0 (units "@9") refl opens
