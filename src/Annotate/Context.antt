-- ===== src/Annotate/Context.antt =====
-- The state of lib/tgdb/annotate-two: struct commands, data, globals and state_machine, and the
-- fields of struct annotate_two that the output of gdb changes. An ibuf is the list of its
-- characters. A list that the front end shares is a field, and a response that points to it has no
-- payload.
use cgdb.Base.{ℕ, Bool, false, Option, some, List, [], ℤ, pos}

-- `enum COMMAND_STATE`.
pub data CommandState : Type 0 where
  void_command breakpoint_headers breakpoint_table_begin breakpoint_table_end field record_state
        info_sources complete info_list info_source_filename_pair info_source_relative :
      CommandState

-- `enum internal_state`.
pub data InternalState : Type 0 where
  void at_prompt user_at_prompt post_prompt user_command gui_command internal_command :
      InternalState

-- `enum annotate_commands`.
pub data AnnotateCommand : Type 0 where
  annotate_void annotate_info_breakpoints annotate_tty annotate_complete annotate_info_sources
        annotate_info_source_relative annotate_info_source_filename_pair annotate_info_source
        annotate_list annotate_info_line annotate_set_prompt :
      AnnotateCommand

pub record Breakpoint : Type 0 where
  pub file : List ℕ
  pub funcname : List ℕ
  pub line : ℤ
  pub enabled : Bool

pub record Commands : Type 0 where
  pub absolute_path : List ℕ
  pub line_number : List ℕ
  pub cur_command_state : CommandState
  pub cur_field_num : ℤ
  pub breakpoint_list : List Breakpoint
  pub breakpoint_string : List ℕ
  pub breakpoint_table : Bool
  pub breakpoint_enabled : Bool
  pub breakpoint_started : Bool
  pub info_source_string : List ℕ
  pub info_source_relative_path : List ℕ
  pub info_source_absolute_path : List ℕ
  pub info_source_ready : Bool
  pub last_info_source_requested : Option (List ℕ)
  pub sources_ready : Bool
  pub info_sources_string : List ℕ
  pub inferior_source_files : List (List ℕ)
  pub tab_completion_ready : Bool
  pub tab_completion_string : List ℕ
  pub tab_completions : List (List ℕ)

-- `commands_initialize`.
unfoldable pub commands_initialize : Commands
commands_initialize = record {
  absolute_path = [];
  line_number = [];
  cur_command_state = void_command;
  cur_field_num = pos 0;
  breakpoint_list = [];
  breakpoint_string = [];
  breakpoint_table = false;
  breakpoint_enabled = false;
  breakpoint_started = false;
  info_source_string = [];
  info_source_relative_path = [];
  info_source_absolute_path = [];
  info_source_ready = false;
  last_info_source_requested = some [];
  sources_ready = false;
  info_sources_string = [];
  inferior_source_files = [];
  tab_completion_ready = false;
  tab_completion_string = [];
  tab_completions = [];
}

-- `GDB_PROMPT_SIZE`, the room for a prompt with its ending 0.
abbrev pub gdb_prompt_size : ℕ
gdb_prompt_size = 1024

-- `gdb_prompt` holds the characters before `gdb_prompt_size`. The source does not test for the room:
-- a prompt that does not fit is written past its end, which is not modelled.
pub record Data : Type 0 where
  pub data_state : InternalState
  pub gdb_prompt : List ℕ
  pub gdb_prompt_last : List ℕ

-- `data_initialize`.
unfoldable pub data_initialize : Data
data_initialize = record { data_state = void; gdb_prompt = []; gdb_prompt_last = [] }

pub record Globals : Type 0 where
  pub info_sources_started : Bool
  pub completion_started : Bool
  pub list_started : Bool
  pub list_had_error : Bool
  pub misc_prompt_command : Bool

-- `globals_initialize`.
unfoldable pub globals_initialize : Globals
globals_initialize = record {
  info_sources_started = false;
  completion_started = false;
  list_started = false;
  list_had_error = false;
  misc_prompt_command = false;
}

-- `struct tgdb_response`, as far as annotate-two sends it. `none` is the pointer NULL.
pub data Response : Type 0 where
  update_breakpoints : Response
  update_file_position : List ℕ → List ℕ → ℤ → Response
  update_source_files : Response
  sources_denied : Response
  filename_pair : List ℕ → Option (List ℕ) → Response
  absolute_source_denied : Option (List ℕ) → Response
  inferior_exited : ℤ → Response
  update_completions : Response
  update_console_prompt_value : List ℕ → Response

-- `enum tgdb_command_choice`, the two that annotate-two asks for.
pub data CommandChoice : Type 0 where
  tgdb_client tgdb_client_priority : CommandChoice

pub record ClientCommand : Type 0 where
  pub tgdb_command_data : List ℕ
  pub command_choice : CommandChoice
  pub client_private_data : AnnotateCommand

-- `enum state` of state_machine.c.
pub data MachineState : Type 0 where
  in_data new_line control_z annotation nl_data : MachineState

pub record StateMachine : Type 0 where
  pub tgdb_buffer : List ℕ
  pub tgdb_state : MachineState

-- `state_machine_initialize`.
unfoldable pub state_machine_initialize : StateMachine
state_machine_initialize = record { tgdb_buffer = []; tgdb_state = in_data }

-- `debugger_stdin` is what was written there, `responses` the list that is passed along,
-- `cur_response_list` whether that pointer is not NULL.
pub record AnnotateTwo : Type 0 where
  pub debugger_stdin : List ℕ
  pub command_finished : Bool
  pub data_context : Data
  pub sm : StateMachine
  pub c : Commands
  pub g : Globals
  pub client_command_list : List ClientCommand
  pub source_already_received : Bool
  pub responses : List Response
  pub cur_response_list : Bool

-- The C library's functions that read numbers and match regular expressions.
pub record Libc : Type 0 where
  pub atoi : List ℕ → ℤ
  -- `sscanf (buf, "field %d", &i)`
  pub scan_field : List ℕ → Option ℤ
  -- what `temp` holds after `sscanf (buf, "%s", temp)`
  pub scan_word : List ℕ → List ℕ
  -- `regexec` with the expression of a breakpoint: function, file and line
  pub match_breakpoint : List ℕ → Option (List ℕ × List ℕ × List ℕ)
