-- ===== src/Annotate/Issue.antt =====
-- lib/tgdb/annotate-two/commands.c: commands for gdb, the source annotation, and what is sent to the
-- front end when a command is done.
use cgdb.Base.{
  ℕ, suc, true, false, Option, none, some, List, [], ◌∷◌, ◌++◌, ◌==◌, if◌then◌else◌, length, ltb,
  leb, codes, before_nul, starts_with, drop_prefix,
}
use mathlib.Core.List.{reverse}
use cgdb.Annotate.Context.{
  CommandState, info_source_filename_pair, info_source_relative, Commands, AnnotateCommand,
  annotate_info_breakpoints, annotate_tty, annotate_complete, annotate_info_sources,
  annotate_info_source_relative, annotate_info_source_filename_pair, annotate_list,
  annotate_info_line, annotate_set_prompt, Response, update_file_position, update_source_files,
  filename_pair, absolute_source_denied, update_completions, ClientCommand, CommandChoice,
  tgdb_client, tgdb_client_priority, Libc,
}

-- `commands_create_command`: the command, and the file that was asked for last. `none` is NULL, and
-- a command that needs a text and gets none has no model.
unfoldable pub commands_create_command :
    AnnotateCommand → Option (List ℕ) → Commands → Commands × Option (List ℕ)
commands_create_command annotate_info_sources text c = (c, some (codes "server info sources\n"))
commands_create_command annotate_list none c =
    (record c { last_info_source_requested = none }, some (codes "server list \n"))
commands_create_command annotate_list (some name) c = (
  record c { last_info_source_requested = some (before_nul name) },
  some (codes "server list \"" ++ before_nul name ++ codes "\":1\n"),
)
commands_create_command annotate_info_line text c = (c, some (codes "server info line\n"))
commands_create_command annotate_info_source_relative text c =
    (c, some (codes "server info source\n"))
commands_create_command annotate_info_source_filename_pair text c =
    (c, some (codes "server info source\n"))
commands_create_command annotate_info_breakpoints text c =
    (c, some (codes "server info breakpoints\n"))
commands_create_command annotate_tty (some name) c =
    (c, some (codes "server tty " ++ before_nul name ++ codes "\n"))
commands_create_command annotate_complete (some number) c =
    (c, some (codes "server complete " ++ before_nul number ++ codes "\n"))
commands_create_command annotate_set_prompt (some prompt) c = (c, some (before_nul prompt))
commands_create_command _ _ c = (c, none)

-- `commands_issue_command`: the command that is appended, or `none` for the return value -1. The
-- argument `oob` is 1 for a command that is to run first, and otherwise 0 or 4.
unfoldable pub commands_issue_command :
    AnnotateCommand → Option (List ℕ) → CommandChoice → Commands → Commands × Option ClientCommand
unfolding commands_create_command
commands_issue_command command text oob c =
    let (c1, ncom) = commands_create_command command text c in
    elim ncom [
      | none ↦ (c1, none)
      | some ncom ↦ (
        c1,
        some (record {
          tgdb_command_data = ncom;
          command_choice = oob;
          client_private_data = command;
        }),
      )
    ]

-- `commands_user_ran_command`.
unfoldable pub commands_user_ran_command : Commands → Commands × Option ClientCommand
unfolding commands_issue_command
commands_user_ran_command c = commands_issue_command annotate_info_breakpoints none tgdb_client c

-- The loop of `commands_parse_source`, from the end of the text: the colons met, the text behind the
-- place up to the next one, and the place with what is before it, backwards. The text up to the
-- first colon that was overwritten, and the line number.
unfoldable pub cut_colons : Libc → ℕ → List ℕ → List ℕ → List ℕ → List ℕ × List ℕ
cut_colons libc i behind number [] = (behind, number)
cut_colons libc i behind number (x ∷ []) = (x ∷ behind, number)
cut_colons libc i behind number (x ∷ y ∷ r) = elim (leb i 3) [
  | false ↦ (reverse (x ∷ y ∷ r) ++ behind, number)
  | true ↦ elim (x == b':') [
    | true ↦
        cut_colons libc (suc i) []
          (if i == 3 then number ++ before_nul (libc.scan_word behind) else number) (y ∷ r)
    | false ↦ cut_colons libc i (x ∷ behind) number (y ∷ r)
  ]
]

-- `commands_parse_source`: file and line are stored, and 'info source' is issued.
unfoldable pub commands_parse_source : Libc → List ℕ → Commands → Commands × Option ClientCommand
unfolding commands_issue_command cut_colons
commands_parse_source libc buf c =
    let (copy, number) = cut_colons libc 0 [] [] (reverse (before_nul buf)) in
    let file =
      if starts_with copy (codes "source ") then drop_prefix copy (codes "source ") else [] in
    commands_issue_command annotate_info_source_relative none tgdb_client_priority
      (record c { absolute_path = file; line_number = number })

-- `commands_list_command_finished`.
unfoldable pub commands_list_command_finished : Commands → Response
commands_list_command_finished c = absolute_source_denied c.last_info_source_requested

-- `commands_send_source_absolute_source_file`.
unfoldable pub commands_send_source_absolute_source_file : Commands → Response
commands_send_source_absolute_source_file c =
    if ltb 0 (length c.info_source_absolute_path)
    then filename_pair c.info_source_absolute_path (
        if ltb 0 (length c.info_source_relative_path)
        then some c.info_source_relative_path
        else none)
    else absolute_source_denied c.last_info_source_requested

-- `commands_send_source_relative_source_file`.
unfoldable pub commands_send_source_relative_source_file : Libc → Commands → Response
commands_send_source_relative_source_file libc c =
    update_file_position c.absolute_path c.info_source_relative_path (libc.atoi c.line_number)

-- `commands_send_gui_sources`.
unfoldable pub commands_send_gui_sources : Commands → List Response
commands_send_gui_sources c =
    if ltb 0 (length c.inferior_source_files) then update_source_files ∷ [] else []

-- `commands_send_gui_completions`.
unfoldable pub commands_send_gui_completions : Commands → List Response
commands_send_gui_completions c = update_completions ∷ []

-- `commands_finalize_command`, by the state of the commands.
unfoldable pub finalize_in : CommandState → Libc → Commands → List Response
unfolding commands_send_source_relative_source_file commands_send_source_absolute_source_file
finalize_in info_source_relative libc c =
    (if c.info_source_ready
      then commands_send_source_relative_source_file libc c
      else absolute_source_denied c.last_info_source_requested)
    ∷ []
finalize_in info_source_filename_pair libc c =
    (if c.info_source_ready
      then commands_send_source_absolute_source_file c
      else absolute_source_denied c.last_info_source_requested)
    ∷ []
finalize_in _ libc c = []

unfoldable pub commands_finalize_command : Libc → Commands → List Response
unfolding finalize_in
commands_finalize_command libc c = finalize_in c.cur_command_state libc c
