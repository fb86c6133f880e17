-- ===== src/Tgdb/Tests.antt =====
-- lib/tgdb, tgdb-base with annotate-two as its client, at concrete inputs.
use cgdb.Base.{
  ℕ, ◌+◌, ◌-◌, ◌*◌, ◌≤◌, suc, true, false, none, some, List, [], ◌∷◌, refl, codes, length, pos,
}
use cgdb.Annotate.Context.{
  AnnotateTwo, AnnotateCommand, Libc, commands_initialize, data_initialize, globals_initialize,
  state_machine_initialize, user_at_prompt,
}
use cgdb.Tgdb.{
  Command, Tgdb, console, front_end, console_command, info_sources, unqueue_and_deliver_command,
}
use cgdb.Tgdb.Turn.{Event, requested, output, interrupted, ended}
use cgdb.Tgdb.Run.{run, finished}
use cgdb.Tgdb.Order.{SendsNext, unqueue_and_deliver_command_lem}
use cgdb.Tgdb.Annotated.{a2_client}
use cgdb.Tgdb.Annotated.Turn.{a2_run_bound}

-- Digits are read up to the first other character, and a word up to a space.
abbrev digits : ℕ → List ℕ → ℕ
digits n [] = n
digits n (c ∷ cs) = digits (n * 10 + (c - 48)) cs

abbrev libc : Libc
libc = record {
  atoi = λ t. pos (digits 0 t);
  scan_field = λ t. some (pos 5);
  scan_word = λ t. t;
  match_breakpoint = λ t. none;
}

abbrev context : AnnotateTwo
context = record {
  debugger_stdin = [];
  command_finished = false;
  data_context = data_initialize;
  sm = state_machine_initialize;
  c = commands_initialize;
  g = globals_initialize;
  client_command_list = [];
  source_already_received = false;
  responses = [];
  cur_response_list = true;
}

abbrev idle : Tgdb AnnotateTwo AnnotateCommand
idle = record {
  tcc = record context { data_context = record data_initialize { data_state = user_at_prompt } };
  gdb_input_queue = [];
  gdb_client_request_queue = [];
  oob_input_queue = [];
  subsystem_ready = true;
  control_c = false;
  last_gui_command = none;
  show_gui_commands = false;
  has_sigchld_recv = false;
  quit = false;
  debugger_stdin = [];
}

abbrev decimal : ℕ → List ℕ
decimal n = (48 + n) ∷ []

-- A command is typed, gdb echoes it and shows its prompt, and the sources are asked for.
abbrev events : List Event
events =
    requested (console_command (codes "up"))
    ∷ output false (codes "up\n")
    ∷ interrupted
    ∷ output false (26 ∷ 26 ∷ codes "pre-prompt\n")
    ∷ output false (26 ∷ 26 ∷ codes "prompt\n")
    ∷ requested info_sources
    ∷ ended
    ∷ []

a2_run_bound_example :
    length (run (a2_client libc decimal) idle events).debugger_stdin
    ≤ suc (finished (a2_client libc decimal) idle events)
a2_run_bound_example = a2_run_bound libc decimal events idle refl

abbrev command_up : Command AnnotateCommand
command_up = record {
  tgdb_command_data = codes "up\n";
  command_choice = console;
  private_data = none;
}

-- A command of the front end before a console command, at a misc prompt.
abbrev queued : Tgdb AnnotateTwo AnnotateCommand
queued = record idle {
  tcc = record idle.tcc { g = record globals_initialize { misc_prompt_command = true } };
  gdb_input_queue = record command_up { command_choice = front_end } ∷ command_up ∷ command_up ∷ [];
}

unqueue_and_deliver_command_lem_example :
    SendsNext
      (a2_client libc decimal)
      []
      queued
      (unqueue_and_deliver_command (a2_client libc decimal) queued)
unqueue_and_deliver_command_lem_example =
    unqueue_and_deliver_command_lem (a2_client libc decimal) queued
