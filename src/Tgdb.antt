-- ===== src/Tgdb.antt =====
-- lib/tgdb/tgdb-base/tgdb.c: which commands are sent to gdb, and when. The client of the debugger
-- (tgdb_client_interface.c, a table of function pointers) is a record of operations on its own state.
-- A queue is the list of what stands in it, as lib/adt/queue.c keeps it. `debugger_stdin` holds the
-- commands that were written there; what the client writes itself is in its own state.
pub mod Turn
pub mod Annotated
pub mod Run
pub mod Order
mod Tests
use cgdb.Base.{
  ℕ, zero, suc, ◌+◌, Bool, true, false, ◌&&◌, ◌||◌, not, List, [], ◌∷◌, ◌++◌, length, ltb, ◌==◌,
  if◌then◌else◌, Option, none, some,
}

-- `enum tgdb_command_choice`.
pub data Choice : Type 0 where
  front_end console tgdb_client client_priority : Choice

abbrev pub is_console : Choice → Bool
is_console console = true
is_console _ = false

-- `struct tgdb_command`, with the client's private data.
pub record Command (P : Type 0) : Type 0 where
  pub tgdb_command_data : List ℕ
  pub command_choice : Choice
  pub private_data : Option P

-- `struct tgdb_request`. The debugger's commands and the breakpoint actions are the numbers of their
-- enums.
pub data Request : Type 0 where
  console_command : List ℕ → Request
  info_sources : Request
  filename_pair : List ℕ → Request
  current_location : Bool → Request
  debugger_command : ℕ → Request
  modify_breakpoint : List ℕ → ℕ → ℕ → Request
  complete : List ℕ → Request

-- `struct tgdb_client_interface`, without what is not called here. A Boolean result is false for -1;
-- that of `client_parse_io` is whether a command finished.
pub record Client (S P : Type 0) : Type 0 where
  pub is_client_ready : S → Bool
  pub prepare_for_command : Command P → S → Bool × S
  pub can_tgdb_run_commands : S → Bool
  pub client_parse_io : List ℕ → S → Bool × S × List ℕ
  pub client_commands : S → List (Command P)
  pub clear_commands : S → S
  pub tgdb_ran_command : S → Bool × S
  pub get_inferior_source_files : S → Bool × S
  pub get_filename_pair : List ℕ → S → Bool × S
  pub get_current_location : Bool → S → Bool × S
  pub completion_callback : List ℕ → S → Bool × S
  -- `none` for NULL
  pub return_command : ℕ → Option (List ℕ)
  pub modify_breakpoint_call : List ℕ → ℕ → ℕ → Option (List ℕ)

pub record Tgdb (S P : Type 0) : Type 0 where
  pub tcc : S
  pub gdb_input_queue : List (Command P)
  pub gdb_client_request_queue : List Request
  pub oob_input_queue : List (Command P)
  pub subsystem_ready : Bool
  pub control_c : Bool
  pub last_gui_command : Option (List ℕ)
  pub show_gui_commands : Bool
  pub has_sigchld_recv : Bool
  pub quit : Bool
  pub debugger_stdin : List (List ℕ)

module _ {S P : Type 0} (client : Client S P) where
  -- `tgdb_can_issue_command`.
  unfoldable pub can_issue_command : Tgdb S P → Bool
  can_issue_command t =
      t.subsystem_ready && (client.is_client_ready t.tcc && (length t.gdb_input_queue == 0))

  -- `tgdb_has_command_to_run`.
  unfoldable pub has_command_to_run : Tgdb S P → Bool
  has_command_to_run t =
      client.is_client_ready t.tcc
      && (ltb 0 (length t.gdb_input_queue) || ltb 0 (length t.oob_input_queue))

  -- `tgdb_deliver_command`, and whether it returned 0.
  unfoldable pub deliver_command : Tgdb S P → Command P → Bool × Tgdb S P
  deliver_command t command =
      let p = client.prepare_for_command command t.tcc in
      let t1 = record t {
        tcc = p.1;
        subsystem_ready = false;
        last_gui_command = elim command.command_choice [
          | front_end ↦ some command.tgdb_command_data
          | _ ↦ t.last_gui_command
        ];
      } in
      if p.0
      then (true, record t1 { debugger_stdin = t.debugger_stdin ++ command.tgdb_command_data ∷ [] })
      else (false, t1)

  -- The queue for a command; a console command is never queued.
  abbrev pub enqueue : Choice → Command P → Tgdb S P → Bool × Tgdb S P
  enqueue console command t = (false, t)
  enqueue client_priority command t =
      (true, record t { oob_input_queue = t.oob_input_queue ++ command ∷ [] })
  enqueue _ command t = (true, record t { gdb_input_queue = t.gdb_input_queue ++ command ∷ [] })

  -- `tgdb_run_or_queue_command`, and whether it returned 0.
  unfoldable pub run_or_queue_command : Tgdb S P → Command P → Bool × Tgdb S P
  unfolding can_issue_command deliver_command
  run_or_queue_command t command =
      if can_issue_command t
      then deliver_command t command
      else enqueue command.command_choice command t

  -- The loop of `tgdb_process_client_commands`: a failure ends it.
  unfoldable pub run_each : List (Command P) → Tgdb S P → Bool × Tgdb S P
  unfolding run_or_queue_command
  run_each [] t = (true, t)
  run_each (command ∷ rest) t =
      let r = run_or_queue_command t command in
      elim r.0 [ true ↦ run_each rest r.1 | false ↦ (false, r.1) ]

  -- `tgdb_process_client_commands`: the client's list is cleared at the end.
  unfoldable pub process_client_commands : Tgdb S P → Tgdb S P
  unfolding run_each
  process_client_commands t =
      let r = run_each (client.client_commands t.tcc) t in
      if r.0 then record r.1 { tcc = client.clear_commands r.1.tcc } else r.1

  -- The text of a command with a newline at its end.
  abbrev pub ends_line : List ℕ → Bool
  ends_line [] = false
  ends_line (x ∷ []) = x == 10
  ends_line (x ∷ y ∷ r) = ends_line (y ∷ r)

  -- `tgdb_send`, and whether it returned 0.
  unfoldable pub send : Tgdb S P → List ℕ → Choice → Bool × Tgdb S P
  unfolding run_or_queue_command process_client_commands
  send t text choice =
      let r = run_or_queue_command t (record {
        tgdb_command_data = if ends_line text then text else text ++ 10 ∷ [];
        command_choice = choice;
        private_data = none;
      }) in
      let p = client.tgdb_ran_command r.1.tcc in
      let t2 = record r.1 { tcc = p.1 } in
      if r.0
      then (if p.0 then (true, process_client_commands t2) else (false, t2))
      else (false, r.1)

  -- What `tgdb_process_info_sources` and its kin do with the client's answer.
  abbrev pub answered : Tgdb S P → Bool × S → Bool × Tgdb S P
  unfolding process_client_commands
  answered t p = (p.0, process_client_commands (record t { tcc = p.1 }))

  -- `tgdb_process_modify_breakpoint`, and `tgdb_process_debugger_command`, which reads the text of a
  -- command without one, for TGDB_ERROR, at NULL.
  abbrev pub send_call : Tgdb S P → Option (List ℕ) → Bool × Tgdb S P
  send_call t none = (false, t)
  send_call t (some val) = send t val front_end

  -- The cases of `tgdb_process_command`.
  unfoldable pub process_request : Tgdb S P → Request → Bool × Tgdb S P
  unfolding send process_client_commands
  process_request t (console_command text) = send t (text ++ 10 ∷ []) console
  process_request t info_sources = answered t (client.get_inferior_source_files t.tcc)
  process_request t (filename_pair file) = answered t (client.get_filename_pair file t.tcc)
  process_request t (current_location start) = answered t (client.get_current_location start t.tcc)
  process_request t (debugger_command c) = send_call t (client.return_command c)
  process_request t (modify_breakpoint file n b) =
      send_call t (client.modify_breakpoint_call file n b)
  process_request t (complete text) = answered t (client.completion_callback text t.tcc)

  -- `tgdb_process_command`, and whether it returned 0.
  unfoldable pub process_command : Tgdb S P → Request → Bool × Tgdb S P
  unfolding can_issue_command process_request
  process_command t request = if can_issue_command t then process_request t request else (false, t)

  -- What becomes of the first command of the input queue: whether one was delivered. At a misc prompt
  -- all but console commands are thrown out.
  unfoldable pub try_command : Command P → Tgdb S P → Bool × Tgdb S P
  unfolding deliver_command
  try_command command t =
      if client.can_tgdb_run_commands t.tcc && not (is_console command.command_choice)
      then (false, t)
      else deliver_command t command

  unfoldable pub deliver_first : List (Command P) → Tgdb S P → Tgdb S P
  unfolding try_command
  deliver_first [] t = record t { gdb_input_queue = [] }
  deliver_first (command ∷ rest) t =
      let r = try_command command t in
      elim r.0 [ true ↦ record r.1 { gdb_input_queue = rest } | false ↦ deliver_first rest r.1 ]

  abbrev pub deliver_next : List (Command P) → Tgdb S P → Tgdb S P
  unfolding deliver_command deliver_first
  deliver_next [] t = deliver_first t.gdb_input_queue t
  deliver_next (command ∷ rest) t =
      (deliver_command (record t { oob_input_queue = rest }) command).1

  -- `tgdb_unqueue_and_deliver_command`: the out of band commands first.
  unfoldable pub unqueue_and_deliver_command : Tgdb S P → Tgdb S P
  unqueue_and_deliver_command t = deliver_next t.oob_input_queue t

  -- `tgdb_handle_signals`.
  unfoldable pub handle_signals : Tgdb S P → Tgdb S P
  handle_signals t =
      if t.control_c
      then record t { gdb_input_queue = []; gdb_client_request_queue = []; control_c = false }
      else t

  -- `tgdb_process` from the parsing on, for what was read from gdb: the text for the user.
  unfoldable pub process_output : Tgdb S P → List ℕ → Tgdb S P × List ℕ
  unfolding process_client_commands handle_signals has_command_to_run unqueue_and_deliver_command
  process_output t input =
      let p = client.client_parse_io input t.tcc in
      let t1 = process_client_commands (record t { tcc = p.1 }) in
      let t2 = if p.0 then record t1 { subsystem_ready = true } else t1 in
      let t3 = handle_signals t2 in
      (if has_command_to_run t3 then unqueue_and_deliver_command t3 else t3, p.2)

  -- `tgdb_process` when no command of the front end is to be shown. `died` is whether waitpid finds that
  -- gdb has exited, and `input` what is read from gdb, nothing at the end of the file.
  abbrev pub gdb_quit : Tgdb S P → Bool → List ℕ → Bool
  gdb_quit t died input = (t.has_sigchld_recv && died) || (length input == 0)

  unfoldable pub process_read : Tgdb S P → Bool → List ℕ → Tgdb S P × List ℕ
  unfolding process_output
  process_read t died input =
      let t1 = record t { has_sigchld_recv = false } in
      if gdb_quit t died input then (record t1 { quit = true }, []) else process_output t1 input

  abbrev pub process_shown : Option (List ℕ) → Tgdb S P → Bool → List ℕ → Tgdb S P × List ℕ
  unfolding process_read
  process_shown (some gui) t died input =
      (record t { last_gui_command = none }, if t.show_gui_commands then gui else 10 ∷ [])
  process_shown none t died input = process_read t died input

  -- `tgdb_process`.
  unfoldable pub process : Tgdb S P → Bool → List ℕ → Tgdb S P × List ℕ
  process t died input = process_shown t.last_gui_command t died input

  -- `tgdb_signal_notification` for ^c and for the end of a child; the interrupt character, which it
  -- passes on to gdb, is not a command.
  unfoldable pub interrupt : Tgdb S P → Tgdb S P
  interrupt t = record t { control_c = true }

  unfoldable pub child_ended : Tgdb S P → Tgdb S P
  child_ended t = record t { has_sigchld_recv = true }
