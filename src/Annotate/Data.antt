-- ===== src/Annotate/Data.antt =====
-- lib/tgdb/annotate-two/data.c: what becomes of a character that is in no annotation; and the
-- preparation of a command, commands.c.
use cgdb.Base.{
  ℕ, Bool, true, false, ◌&&◌, not, Option, none, some, List, [], ◌∷◌, ◌++◌, if◌then◌else◌, eq_list,
  before_nul,
}
use cgdb.Annotate.Context.{
  InternalState, void, at_prompt, user_at_prompt, post_prompt, user_command, gui_command,
  internal_command, CommandState, void_command, info_sources, complete, info_list,
  info_source_filename_pair, info_source_relative, AnnotateCommand, annotate_info_breakpoints,
  annotate_complete, annotate_info_sources, annotate_info_source_relative,
  annotate_info_source_filename_pair, annotate_list, Response, update_console_prompt_value,
  AnnotateTwo, Libc,
}
use cgdb.Annotate.Commands.{commands_set_state, commands_process}

abbrev pub is_internal_command : InternalState → Bool
is_internal_command internal_command = true
is_internal_command _ = false

abbrev pub is_user_at_prompt : InternalState → Bool
is_user_at_prompt user_at_prompt = true
is_user_at_prompt _ = false

abbrev pub with_state : InternalState → AnnotateTwo → AnnotateTwo
with_state s a2 = record a2 { data_context = record a2.data_context { data_state = s } }

abbrev pub respond : List Response → AnnotateTwo → AnnotateTwo
respond rs a2 = record a2 { responses = a2.responses ++ rs }

-- `commands_set_state`, on the whole context.
unfoldable pub set_command_state : Libc → CommandState → AnnotateTwo → AnnotateTwo
set_command_state libc s a2 =
    let (c, rs) = commands_set_state libc s a2.c in respond rs (record a2 { c = c })

-- The prompt that was printed, if it is another than before.
unfoldable pub update_prompt : AnnotateTwo → AnnotateTwo
update_prompt a2 =
    let prompt = before_nul a2.data_context.gdb_prompt in
    if eq_list prompt a2.data_context.gdb_prompt_last
    then a2
    else respond (if a2.cur_response_list then update_console_prompt_value prompt ∷ [] else [])
        (record a2 { data_context = record a2.data_context { gdb_prompt_last = prompt } })

-- The switch of `data_set_state`.
unfoldable pub data_entered : Libc → InternalState → AnnotateTwo → AnnotateTwo
unfolding update_prompt set_command_state
data_entered libc at_prompt a2 = record a2 {
  data_context = record a2.data_context { gdb_prompt = [] };
}
data_entered libc user_at_prompt a2 =
    set_command_state libc void_command (record (update_prompt a2) { command_finished = true })
data_entered libc post_prompt a2 = with_state void a2
data_entered libc _ a2 = a2

-- `data_set_state`.
unfoldable pub data_set_state : Libc → InternalState → AnnotateTwo → AnnotateTwo
data_set_state libc state a2 =
    if is_internal_command a2.data_context.data_state && not (is_user_at_prompt state)
    then a2
    else data_entered libc state (with_state state a2)

-- `data_process`, by the state of the data: the context, and what is written for the user.
unfoldable pub process_data : InternalState → AnnotateTwo → ℕ → AnnotateTwo × List ℕ
process_data void a2 a = (a2, a ∷ [])
process_data at_prompt a2 a = (
  record a2 {
    data_context = record a2.data_context { gdb_prompt = a2.data_context.gdb_prompt ++ a ∷ [] };
  },
  [],
)
process_data gui_command a2 a = (a2, a ∷ [])
process_data internal_command a2 a = (record a2 { c = commands_process a2.c a }, [])
process_data _ a2 a = (a2, [])

unfoldable pub data_process : AnnotateTwo → ℕ → AnnotateTwo × List ℕ
unfolding process_data
data_process a2 a = process_data a2.data_context.data_state a2 a

-- `commands_prepare_info_source`.
unfoldable pub commands_prepare_info_source : Libc → CommandState → AnnotateTwo → AnnotateTwo
commands_prepare_info_source libc state a2 =
    let a3 = data_set_state libc internal_command a2 in
    let a4 = set_command_state libc state (record a3 {
      c = record a3.c {
        info_source_string = [];
        info_source_relative_path = [];
        info_source_absolute_path = [];
      };
    }) in
    record a4 { c = record a4.c { info_source_ready = false } }

-- `commands_prepare_info_sources`.
unfoldable pub commands_prepare_info_sources : Libc → AnnotateTwo → AnnotateTwo
commands_prepare_info_sources libc a2 =
    let a3 =
      set_command_state libc info_sources
        (record a2 { c = record a2.c { sources_ready = false; info_sources_string = [] } }) in
    record a3 { g = record a3.g { info_sources_started = true } }

-- `commands_prepare_tab_completion`.
unfoldable pub commands_prepare_tab_completion : Libc → AnnotateTwo → AnnotateTwo
commands_prepare_tab_completion libc a2 =
    let a3 = set_command_state libc complete (record a2 {
      c = record a2.c { tab_completion_ready = false; tab_completion_string = [] };
    }) in
    record a3 { g = record a3.g { completion_started = true } }

-- `commands_prepare_list`.
unfoldable pub commands_prepare_list : Libc → AnnotateTwo → AnnotateTwo
commands_prepare_list libc a2 =
    let a3 = set_command_state libc info_list a2 in
    record a3 {
      g = record a3.g { list_started = true; list_had_error = false };
      c = record a3.c { info_source_ready = false };
    }

-- The switch of `commands_prepare_for_command`.
unfoldable pub prepare : Libc → AnnotateCommand → AnnotateTwo → AnnotateTwo
unfolding commands_prepare_info_sources commands_prepare_list commands_prepare_info_source
    commands_prepare_tab_completion
prepare libc annotate_info_sources a2 = commands_prepare_info_sources libc a2
prepare libc annotate_list a2 = commands_prepare_list libc a2
prepare libc annotate_info_source_relative a2 =
    commands_prepare_info_source libc info_source_relative a2
prepare libc annotate_info_source_filename_pair a2 =
    commands_prepare_info_source libc info_source_filename_pair a2
prepare libc annotate_info_breakpoints a2 = record a2 { c = record a2.c { breakpoint_string = [] } }
prepare libc annotate_complete a2 = commands_prepare_tab_completion libc a2
prepare libc _ a2 = a2

abbrev is_info_list : CommandState → Bool
is_info_list info_list = true
is_info_list _ = false

-- `commands_prepare_for_command`, with the private data of the command, and whether it returned 0.
unfoldable pub commands_prepare_for_command :
    Libc → Option AnnotateCommand → AnnotateTwo → Bool × AnnotateTwo
commands_prepare_for_command libc a_com a2 =
    let a3 = set_command_state libc void_command a2 in
    let a4 = record a3 { g = record a3.g { list_started = false } } in
    if a4.g.list_had_error && is_info_list a4.c.cur_command_state
    then (false, record a4 { g = record a4.g { list_had_error = false } })
    else elim a_com [
      | none ↦ (true, data_set_state libc user_command a4)
      | some command ↦ (true, data_set_state libc internal_command (prepare libc command a4))
    ]
