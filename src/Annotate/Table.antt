-- ===== src/Annotate/Table.antt =====
-- lib/tgdb/annotate-two/annotate.c: the annotations of gdb and what each of them does.
-- A handler returns false for -1.
use cgdb.Base.{
  ℕ, Bool, true, false, Option, none, some, List, [], ◌∷◌, ◌++◌, if◌then◌else◌, codes, before_nul,
  starts_with, drop_prefix, ℤ, negsuc,
}
use Prim.Native.String.{String}
use cgdb.Annotate.Context.{
  void, at_prompt, user_at_prompt, post_prompt, CommandState, breakpoint_headers,
  breakpoint_table_begin, breakpoint_table_end, field, record_state, info_sources, ClientCommand,
  sources_denied, inferior_exited, AnnotateTwo, Libc,
}
use cgdb.Annotate.Commands.{commands_set_field_num}
use cgdb.Annotate.Issue.{
  commands_parse_source, commands_finalize_command, commands_send_gui_sources,
  commands_send_gui_completions, commands_list_command_finished,
}
use cgdb.Annotate.Data.{is_internal_command, respond, set_command_state, data_set_state}

abbrev pub Handler : Type 0
Handler = Libc → List ℕ → AnnotateTwo → Bool × AnnotateTwo

unfoldable pub appended : Option ClientCommand → AnnotateTwo → Bool × AnnotateTwo
appended none a2 = (false, a2)
appended (some command) a2 =
    (true, record a2 { client_command_list = a2.client_command_list ++ command ∷ [] })

unfoldable pub handle_source : Handler
unfolding appended
handle_source libc buf a2 =
    let (c, command) = commands_parse_source libc buf a2.c in
    let (ok, a3) = appended command (record a2 { c = c }) in
    (ok, record a3 { source_already_received = true })

unfoldable pub handle_misc_pre_prompt : Handler
handle_misc_pre_prompt libc buf a2 = (
  true,
  if is_internal_command a2.data_context.data_state
      then record a2 { debugger_stdin = a2.debugger_stdin ++ b'\n' ∷ [] }
      else data_set_state libc at_prompt a2,
)

unfoldable pub handle_misc_prompt : Handler
handle_misc_prompt libc buf a2 = (
  true,
  record (data_set_state libc user_at_prompt
      (record a2 { g = record a2.g { misc_prompt_command = true } })) { command_finished = true },
)

unfoldable pub handle_misc_post_prompt : Handler
handle_misc_post_prompt libc buf a2 = (
  true,
  data_set_state libc post_prompt (record a2 { g = record a2.g { misc_prompt_command = false } }),
)

unfoldable pub handle_pre_prompt : Handler
handle_pre_prompt libc buf a2 = (true, data_set_state libc at_prompt a2)

-- What `handle_prompt` does once the state is set: 'info sources' or 'complete' is done.
unfoldable pub send_gui : AnnotateTwo → AnnotateTwo
send_gui a2 =
    if a2.g.info_sources_started
    then respond (commands_send_gui_sources a2.c)
        (record a2 { g = record a2.g { info_sources_started = false } })
    else if a2.g.completion_started
    then respond (commands_send_gui_completions a2.c)
        (record a2 { g = record a2.g { completion_started = false } })
    else a2

unfoldable pub handle_prompt : Handler
unfolding send_gui
handle_prompt libc buf a2 = (
  true,
  send_gui (data_set_state libc user_at_prompt (respond (commands_finalize_command libc a2.c) a2)),
)

unfoldable pub handle_post_prompt : Handler
handle_post_prompt libc buf a2 = (true, data_set_state libc post_prompt a2)

unfoldable pub handle_breakpoints_invalid : Handler
handle_breakpoints_invalid libc buf a2 = (true, a2)

unfoldable pub handle_breakpoints_headers : Handler
handle_breakpoints_headers libc buf a2 = (true, set_command_state libc breakpoint_headers a2)

unfoldable pub handle_breakpoints_table : Handler
handle_breakpoints_table libc buf a2 = (true, set_command_state libc breakpoint_table_begin a2)

unfoldable pub handle_breakpoints_table_end : Handler
handle_breakpoints_table_end libc buf a2 = (true, set_command_state libc breakpoint_table_end a2)

unfoldable pub handle_unwanted_fields : Handler
handle_unwanted_fields libc buf a2 = (true, a2)

-- The field number, -1 when `commands_parse_field` can not read one.
unfoldable pub field_num : Option ℤ → ℤ
field_num none = negsuc 0
field_num (some i) = i

unfoldable pub handle_field : Handler
unfolding field_num
handle_field libc buf a2 =
    let i = field_num (libc.scan_field (before_nul buf)) in
    (true, set_command_state libc field (record a2 { c = commands_set_field_num i a2.c }))

unfoldable pub handle_record : Handler
handle_record libc buf a2 = (true, set_command_state libc record_state a2)

unfoldable pub handle_error : Handler
handle_error libc buf a2 = (true, data_set_state libc post_prompt a2)

abbrev is_info_sources : CommandState → Bool
is_info_sources info_sources = true
is_info_sources _ = false

unfoldable pub handle_error_begin : Handler
handle_error_begin libc buf a2 = (
  true,
  if is_info_sources a2.c.cur_command_state
      then respond (sources_denied ∷ []) a2
      else if a2.g.list_started
      then respond (commands_list_command_finished a2.c ∷ [])
          (record a2 { g = record a2.g { list_started = false; list_had_error = true } })
      else data_set_state libc void a2,
)

unfoldable pub handle_quit : Handler
handle_quit libc buf a2 = (true, data_set_state libc post_prompt a2)

unfoldable pub handle_exited : Handler
handle_exited libc buf a2 = (
  true,
  respond (inferior_exited (libc.atoi (drop_prefix (before_nul buf) (codes "exited "))) ∷ []) a2,
)

-- `struct annotation`.
pub record Annotation : Type 0 where
  pub name : List ℕ
  pub f : Handler

abbrev row : String → Handler → Annotation
row s f = record { name = codes s; f = f }

-- `annotations`, without the row of NULL that ends it.
unfoldable pub annotations : List Annotation
annotations =
    row "source" handle_source
    ∷ row "pre-commands" handle_misc_pre_prompt
    ∷ row "commands" handle_misc_prompt
    ∷ row "post-commands" handle_misc_post_prompt
    ∷ row "pre-overload-choice" handle_misc_pre_prompt
    ∷ row "overload-choice" handle_misc_prompt
    ∷ row "post-overload-choice" handle_misc_post_prompt
    ∷ row "pre-instance-choice" handle_misc_pre_prompt
    ∷ row "instance-choice" handle_misc_prompt
    ∷ row "post-instance-choice" handle_misc_post_prompt
    ∷ row "pre-query" handle_misc_pre_prompt
    ∷ row "query" handle_misc_prompt
    ∷ row "post-query" handle_misc_post_prompt
    ∷ row "pre-prompt-for-continue" handle_misc_pre_prompt
    ∷ row "prompt-for-continue" handle_misc_prompt
    ∷ row "post-prompt-for-continue" handle_misc_post_prompt
    ∷ row "pre-prompt" handle_pre_prompt
    ∷ row "prompt" handle_prompt
    ∷ row "post-prompt" handle_post_prompt
    ∷ row "breakpoints-invalid" handle_breakpoints_invalid
    ∷ row "breakpoints-headers" handle_breakpoints_headers
    ∷ row "breakpoints-table-end" handle_breakpoints_table_end
    ∷ row "breakpoints-table" handle_breakpoints_table
    ∷ row "field-" handle_unwanted_fields
    ∷ row "field" handle_field
    ∷ row "record" handle_record
    ∷ row "error-begin" handle_error_begin
    ∷ row "error" handle_error
    ∷ row "quit" handle_quit
    ∷ row "exited" handle_exited
    ∷ []

-- The loop of `tgdb_parse_annotation`: a handler that fails lets it go on.
unfoldable pub dispatch : List Annotation → Libc → List ℕ → AnnotateTwo → AnnotateTwo
dispatch [] libc buf a2 = a2
dispatch (r ∷ rs) libc buf a2 = elim (starts_with buf r.name) [
  | false ↦ dispatch rs libc buf a2
  | true ↦
      (let (ok, a3) = r.f libc buf a2 in elim ok [ true ↦ a3 | false ↦ dispatch rs libc buf a3 ])
]

-- `tgdb_parse_annotation`.
unfoldable pub tgdb_parse_annotation : Libc → List ℕ → AnnotateTwo → AnnotateTwo
tgdb_parse_annotation libc buf a2 = dispatch annotations libc buf a2
