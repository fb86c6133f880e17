-- ===== src/Annotate/Prepare.antt =====
-- lib/tgdb/annotate-two/commands.c, `commands_prepare_for_command`: the context in which a command runs.
use cgdb.Base.{true, false, some, ◌≡◌, refl, arith}
use cgdb.Annotate.Context.{
  void_command, internal_command, CommandState, info_source_relative, info_source_filename_pair,
  AnnotateCommand, annotate_void, annotate_info_breakpoints, annotate_tty, annotate_complete,
  annotate_info_sources, annotate_info_source_relative, annotate_info_source_filename_pair,
  annotate_info_source, annotate_list, annotate_info_line, annotate_set_prompt, AnnotateTwo, Libc,
  info_sources, complete, info_list,
}
use cgdb.Annotate.Commands.{commands_set_state}
use cgdb.Annotate.Data.{
  set_command_state, data_set_state, data_entered, prepare, commands_prepare_for_command,
}

-- The state of the commands in which the output of a command is read.
abbrev pub reading_state : AnnotateCommand → CommandState
reading_state annotate_info_sources = info_sources
reading_state annotate_list = info_list
reading_state annotate_info_source_relative = info_source_relative
reading_state annotate_info_source_filename_pair = info_source_filename_pair
reading_state annotate_complete = complete
reading_state _ = void_command

cleared :
    (libc : Libc) (command : AnnotateCommand) (a2 : AnnotateTwo)
    → a2.c.cur_command_state ≡ void_command
    → (prepare libc command a2).c.cur_command_state ≡ reading_state command
unfolding prepare set_command_state commands_set_state data_set_state data_entered
cleared libc annotate_void a2 e = e
cleared libc annotate_info_breakpoints a2 e = e
cleared libc annotate_tty a2 e = e
cleared libc annotate_complete a2 e = refl
cleared libc annotate_info_sources a2 e = refl
cleared libc annotate_info_source_relative a2 e = refl
cleared libc annotate_info_source_filename_pair a2 e = refl
cleared libc annotate_info_source a2 e = e
cleared libc annotate_list a2 e = refl
cleared libc annotate_info_line a2 e = e
cleared libc annotate_set_prompt a2 e = e

internal :
    (libc : Libc) (a2 : AnnotateTwo)
    → ((data_set_state libc internal_command a2).data_context.data_state ≡ internal_command)
      × ((data_set_state libc internal_command a2).c ≡ a2.c)
unfolding data_set_state data_entered
internal libc a2 = ground arith

-- A command of tgdb's own is never refused, whatever error a listing before it met: it runs as an
-- internal command, with the state that reads its output.
pub prepare_for_command-internal :
    (libc : Libc) (command : AnnotateCommand) (a2 : AnnotateTwo)
    → ((commands_prepare_for_command libc (some command) a2).0 ≡ true)
      × ((commands_prepare_for_command libc (some command) a2).1.data_context.data_state
          ≡ internal_command)
      × ((commands_prepare_for_command libc (some command) a2).1.c.cur_command_state
          ≡ reading_state command)
unfolding commands_prepare_for_command set_command_state commands_set_state
prepare_for_command-internal libc command a2 =
    let a3 = set_command_state libc void_command a2 in
    let a4 = record a3 { g = record a3.g { list_started = false } } in
    let i = internal libc (prepare libc command a4) in
    ground (arith, i, cleared libc command a4 refl)
