-- ===== src/Annotate/Tests.antt =====
-- The filter of lib/tgdb/annotate-two at concrete inputs.
use cgdb.Base.{
  ℕ, ◌+◌, ◌-◌, ◌*◌, true, false, none, some, List, [], ◌∷◌, ◌++◌, ◌≡◌, refl, arith, codes, length,
  pos, ◌≤◌,
}
use cgdb.Annotate.Context.{
  info_source_relative, update_breakpoints, AnnotateTwo, Libc, Commands, commands_initialize,
  data_initialize, globals_initialize, state_machine_initialize, in_data, new_line, control_z,
  nl_data, internal_command, info_sources, annotate_info_source_relative, annotate_list,
  tgdb_client_priority,
}
use cgdb.Annotate.Table.{annotations, tgdb_parse_annotation, handle_exited}
use cgdb.Annotate.Machine.{handle_data}
use cgdb.Annotate.Stream.{handle_data_bound, owed}
use cgdb.Annotate.Frames.{Piece, text, note, encode, encode_all, interpret, in_state, held}
use cgdb.Annotate.Frames.Pieces.{handle_data-pieces, handle_data-plain}
use cgdb.Annotate.Silent.Output.{handle_data_silent}
use cgdb.Annotate.Prompt.{Prompted, prompt_pieces, handle_data_prompt}
use cgdb.Annotate.Dispatch.{parse_annotation-own_row}
use cgdb.Annotate.Breakpoints.{Row}
use cgdb.Annotate.Breakpoints.Rows.{at_table, table_lem}
use cgdb.Annotate.Located.{as_line, as_lines, relative_line, absolute_line, info_source_lem}
use cgdb.Annotate.Names.{join, process_all, process_all-names}
use cgdb.Annotate.Position.{parse_source-fields}
use cgdb.Annotate.Issue.{commands_parse_source}
use cgdb.Annotate.Prepare.{prepare_for_command-internal, reading_state}
use cgdb.Annotate.Data.{commands_prepare_for_command}

-- Digits are read up to the first other character, and a word up to a space.
abbrev digits : ℕ → List ℕ → ℕ
digits n [] = n
digits n (c ∷ cs) = digits (n * 10 + (c - 48)) cs

abbrev libc : Libc
libc = record {
  atoi = λ t. pos (digits 0 t);
  scan_field = λ t. some (pos 5);
  scan_word = λ t. t;
  match_breakpoint = λ t. none;
}

abbrev context : AnnotateTwo
context = record {
  debugger_stdin = [];
  command_finished = false;
  data_context = data_initialize;
  sm = state_machine_initialize;
  c = commands_initialize;
  g = globals_initialize;
  client_command_list = [];
  source_already_received = false;
  responses = [];
  cur_response_list = true;
}

abbrev running : AnnotateTwo
running = record context { data_context = record data_initialize { data_state = internal_command } }

-- The annotation `exited 3` between two texts.
abbrev exit_pieces : List Piece
exit_pieces = text (codes "hello\n") ∷ note (codes "exited 3") ∷ text (codes "bye") ∷ []

abbrev quit : List ℕ
quit = codes "quit"

-- One character, and three are written.
abbrev waiting : AnnotateTwo
waiting = in_state control_z context

three_for_one : length (handle_data libc waiting (codes "x")).1 ≡ 3
unfolding handle_data cgdb.Annotate.Data.data_process cgdb.Annotate.Data.process_data
    data_initialize
three_for_one = refl

handle_data_bound_example :
    length (handle_data libc waiting (codes "x")).1
      + owed (handle_data libc waiting (codes "x")).0.sm.tgdb_state
    ≤ 1 + 2
handle_data_bound_example = handle_data_bound libc waiting (codes "x")

handle_data-pieces_example :
    handle_data libc (in_state in_data context) (encode_all exit_pieces ++ encode (note quit)) ≡ (
      in_state nl_data (interpret libc context (exit_pieces ++ note quit ∷ [])).0,
      (interpret libc context (exit_pieces ++ note quit ∷ [])).1,
    )
handle_data-pieces_example = handle_data-pieces libc context exit_pieces quit refl refl

handle_data-plain_example :
    ((handle_data libc (in_state new_line context) (codes "ab\n")).1
        ++ held (handle_data libc (in_state new_line context) (codes "ab\n")).0.sm.tgdb_state
      ≡ codes "\nab\n")
    × ((handle_data libc (in_state new_line context) (codes "ab\n")).0 ≡ in_state new_line context)
unfolding data_initialize
handle_data-plain_example = handle_data-plain libc new_line context (codes "ab\n") refl refl refl

handle_data_silent_example :
    ((handle_data libc (in_state in_data running) (encode_all exit_pieces ++ encode (note quit))).1
      ≡ [])
    × ((handle_data libc
          (in_state in_data running)
          (encode_all exit_pieces ++ encode (note quit))).0.data_context
        ≡ running.data_context)
handle_data_silent_example = handle_data_silent libc running exit_pieces quit refl refl refl refl

handle_data_prompt_example :
    ((handle_data libc
        (in_state in_data context)
        (encode_all (prompt_pieces (codes "(gdb) ")) ++ encode (note (codes "prompt")))).1
      ≡ [])
    × Prompted libc
        (codes "(gdb) ")
        context
        (handle_data libc
          (in_state in_data context)
          (encode_all (prompt_pieces (codes "(gdb) ")) ++ encode (note (codes "prompt")))).0
unfolding data_initialize
handle_data_prompt_example =
    handle_data_prompt libc context (codes "(gdb) ") refl (omega arith) (ground arith) refl

parse_annotation-own_row_example :
    tgdb_parse_annotation libc (codes "exited" ++ codes " 3") context
    ≡ (handle_exited libc (codes "exited" ++ codes " 3") context).1
unfolding annotations
parse_annotation-own_row_example =
    parse_annotation-own_row libc context 29 (record { name = codes "exited"; f = handle_exited })
      (codes " 3") refl refl

abbrev listing : Commands
listing = record commands_initialize { cur_command_state = info_sources; sources_ready = true }

process_all-names_example :
    process_all listing (join (codes "/a/x.c") (codes "/b/y.c" ∷ []) ++ b'\n' ∷ [])
    ≡ record listing {
      inferior_source_files = listing.inferior_source_files ++ codes "/a/x.c" ∷ codes "/b/y.c" ∷ [];
    }
unfolding commands_initialize
process_all-names_example =
    process_all-names listing (codes "/a/x.c") (codes "/b/y.c" ∷ []) refl refl refl refl refl refl
      refl

parse_source-fields_example :
    commands_parse_source libc (codes "source /a:b.c:12:34:beg:0x1") commands_initialize ≡ (
      record commands_initialize { absolute_path = codes "/a:b.c"; line_number = codes "12" },
      some (record {
        tgdb_command_data = codes "server info source\n";
        command_choice = tgdb_client_priority;
        client_private_data = annotate_info_source_relative;
      }),
    )
parse_source-fields_example =
    parse_source-fields libc commands_initialize (codes "/a:b.c") (codes "12") (codes "34")
      (codes "beg") (codes "0x1") refl refl refl refl refl

prepare_for_command-internal_example :
    ((commands_prepare_for_command libc (some annotate_list) context).0 ≡ true)
    × ((commands_prepare_for_command libc (some annotate_list) context).1.data_context.data_state
        ≡ internal_command)
    × ((commands_prepare_for_command libc (some annotate_list) context).1.c.cur_command_state
        ≡ reading_state annotate_list)
prepare_for_command-internal_example = prepare_for_command-internal libc annotate_list context

-- Every place is `main` in line 3 of a.c.
abbrev one_place : Libc
one_place = record libc { match_breakpoint = λ t. some (codes "main", codes "a.c", codes "3") }

abbrev rows : List Row
rows =
    (record {
      number = codes "1";
      kind = codes "breakpoint";
      disposition = codes "keep";
      is_enabled = false;
      address = codes "0x40 ";
      place = codes "in main at a.c:3";
    })
    ∷ (record {
      number = codes "2";
      kind = codes "watchpoint";
      disposition = codes "keep";
      is_enabled = true;
      address = [];
      place = codes "watch y";
    })
    ∷ []

table_lem_example :
    ((at_table one_place rows commands_initialize).0.breakpoint_list
      ≡ (record { file = codes "a.c"; funcname = codes "main"; line = pos 3; enabled = false })
        ∷ [])
    × ((at_table one_place rows commands_initialize).1 ≡ update_breakpoints ∷ [])
unfolding commands_initialize
table_lem_example = table_lem one_place rows commands_initialize refl refl refl

abbrev locating : Commands
locating = record commands_initialize { cur_command_state = info_source_relative }

info_source_lem_example :
    process_all locating (
      as_lines (codes "Current language:  auto" ∷ [])
      ++ (as_line (relative_line (codes "x.c"))
          ++ (as_lines (codes "Compilation directory is /a" ∷ [])
              ++ (as_line (absolute_line (codes "/a/x.c")) ++ codes "Contains 3"))))
    ≡ record locating {
      info_source_relative_path = codes "x.c";
      info_source_absolute_path = codes "/a/x.c";
      info_source_ready = true;
    }
unfolding commands_initialize
info_source_lem_example =
    info_source_lem locating (codes "Current language:  auto" ∷ [])
      (codes "Compilation directory is /a" ∷ []) (codes "x.c") (codes "/a/x.c") (codes "Contains 3")
      refl refl refl refl refl refl refl
