-- ===== src/Annotate/Commands.antt =====
-- lib/tgdb/annotate-two/commands.c: what gdb prints while tgdb runs a command of its own.
-- A function that appends to the list of responses returns what it appends.
use cgdb.Base.{
  delchar, ℕ, Bool, true, false, ◌&&◌, ◌||◌, not, Option, none, some, List, [], ◌∷◌, ◌++◌, ◌==◌,
  if◌then◌else◌, length, ltb, codes, before_nul, starts_with, drop_prefix, ℤ, equals,
}
use cgdb.Annotate.Context.{
  CommandState, breakpoint_headers, breakpoint_table_begin, breakpoint_table_end, field,
  record_state, info_sources, complete, info_list, info_source_filename_pair, info_source_relative,
  Commands, Breakpoint, Response, update_breakpoints, Libc,
}

-- `strstr (text, part) != NULL`.
abbrev pub contains : List ℕ → List ℕ → Bool
contains [] part = starts_with [] part
contains (c ∷ text) part = starts_with (c ∷ text) part || contains text part

abbrev pub ends_in : ℕ → List ℕ → Bool
ends_in k [] = false
ends_in k (c ∷ []) = c == k
ends_in k (c ∷ d ∷ r) = ends_in k (d ∷ r)

-- `parse_breakpoint`: an expression that does not match is only logged.
unfoldable pub parse_breakpoint : Libc → Commands → Commands
parse_breakpoint libc c =
    let text = before_nul c.breakpoint_string in
    if not (contains text (codes " at ")) then c else elim (libc.match_breakpoint text) [
      | none ↦ c
      | some (funcname, file, line) ↦
          let tb : Breakpoint = record {
            file = file;
            funcname = funcname;
            line = libc.atoi line;
            enabled = c.breakpoint_enabled;
          } in
          record c { breakpoint_list = c.breakpoint_list ++ tb ∷ [] }
    ]

-- `ibuf_length (c->breakpoint_string) > 0`, and the breakpoint parsed then.
unfoldable pub parse_pending : Libc → Commands → Commands
unfolding parse_breakpoint
parse_pending libc c = if ltb 0 (length c.breakpoint_string) then parse_breakpoint libc c else c

-- The switch of `commands_set_state`.
unfoldable pub entered : Libc → CommandState → Commands → Commands × List Response
unfolding parse_pending parse_breakpoint
entered libc record_state c = (
  (if ltb 0 (length c.breakpoint_string)
      then record (parse_breakpoint libc c) { breakpoint_string = []; breakpoint_enabled = false }
      else c),
  [],
)
entered libc breakpoint_table_end c = (
  record (parse_pending libc c) {
    breakpoint_string = [];
    breakpoint_enabled = false;
    breakpoint_started = false;
  },
  update_breakpoints ∷ [],
)
entered libc breakpoint_headers c = (record c { breakpoint_table = false }, [])
entered libc breakpoint_table_begin c =
    (record c { breakpoint_table = true; breakpoint_started = true }, [])
entered libc _ c = (c, [])

-- `commands_set_state`.
unfoldable pub commands_set_state : Libc → CommandState → Commands → Commands × List Response
unfolding entered
commands_set_state libc state c = entered libc state (record c { cur_command_state = state })

abbrev pub is_field : CommandState → Bool
is_field field = true
is_field _ = false

-- `commands_set_field_num`.
unfoldable pub commands_set_field_num : ℤ → Commands → Commands
commands_set_field_num field_num c =
    let c1 = record c { cur_field_num = field_num } in
    if c1.breakpoint_table && is_field c1.cur_command_state && equals field_num 5
    then record c1 { breakpoint_string = [] }
    else c1

abbrev pub source_prefix : List ℕ
source_prefix = codes "Located in "

abbrev pub source_relative_prefix : List ℕ
source_relative_prefix = codes "Current source file is "

-- A whole line of 'info source'.
unfoldable pub info_source_line : Commands → Commands
info_source_line c =
    let info_ptr = c.info_source_string in
    let c1 = record c { info_source_string = [] } in
    if starts_with info_ptr source_prefix
    then record c1 {
      info_source_absolute_path =
          c.info_source_absolute_path ++ before_nul (drop_prefix info_ptr source_prefix);
      info_source_ready = true;
    }
    else if starts_with info_ptr source_relative_prefix
    then record c1 {
      info_source_relative_path =
          c.info_source_relative_path ++ before_nul (drop_prefix info_ptr source_relative_prefix);
    }
    else c1

-- `commands_process_info_source`.
unfoldable pub commands_process_info_source : Commands → ℕ → Commands
unfolding info_source_line
commands_process_info_source c a =
    if c.info_source_ready
    then c
    else if a == b'\r'
    then c
    else if a == b'\n'
    then info_source_line c
    else record c { info_source_string = c.info_source_string ++ a ∷ [] }

abbrev pub is_comma : Option ℕ → Bool
is_comma none = false
is_comma (some p) = p == b','

-- The loop of `commands_process_source_line`: the character before, what stands between `start` and
-- `i`, and the rest of the line. The names found.
unfoldable pub split_names : Option ℕ → List ℕ → List ℕ → List (List ℕ)
split_names prev piece [] = []
split_names prev piece (a ∷ []) =
    if is_comma prev && a == b' '
    then before_nul (delchar piece) ∷ []
    else before_nul (piece ++ a ∷ []) ∷ []
split_names prev piece (a ∷ b ∷ rest) = elim (is_comma prev && a == b' ') [
  | true ↦ before_nul (delchar piece) ∷ split_names (some a) [] (b ∷ rest)
  | false ↦ split_names (some a) (piece ++ a ∷ []) (b ∷ rest)
]

-- `commands_process_source_line`.
unfoldable pub commands_process_source_line : Commands → Commands
commands_process_source_line c = record c {
  inferior_source_files = c.inferior_source_files ++ split_names none [] c.info_sources_string;
}

-- A whole line of 'info sources', without its '\n'.
unfoldable pub sources_line : Commands → Commands
unfolding commands_process_source_line
sources_line c =
    let ready =
      c.sources_ready
      || starts_with c.info_sources_string (codes "Source files for which symbols ") in
    let c1 = record c { sources_ready = ready } in
    let c2 =
      if ltb 0 (length c1.info_sources_string) && ready && not (ends_in b':' c1.info_sources_string)
      then commands_process_source_line c1
      else c1 in
    record c2 { info_sources_string = [] }

-- `commands_process_sources`: the '\n' is added and taken off again.
unfoldable pub commands_process_sources : Commands → ℕ → Commands
unfolding sources_line
commands_process_sources c a =
    let c1 = record c { info_sources_string = c.info_sources_string ++ a ∷ [] } in
    if a == b'\n'
    then sources_line (record c1 { info_sources_string = delchar c1.info_sources_string })
    else c1

-- `commands_process_completion`.
unfoldable pub commands_process_completion : Commands → Commands
commands_process_completion c =
    if starts_with c.tab_completion_string (codes "server complete ")
    then c
    else record c { tab_completions = c.tab_completions ++ before_nul c.tab_completion_string ∷ [] }

-- A whole line of 'complete', without its '\n'.
unfoldable pub completion_line : Commands → Commands
unfolding commands_process_completion
completion_line c =
    let c1 = if ltb 0 (length c.tab_completion_string) then commands_process_completion c else c in
    record c1 { tab_completion_string = [] }

-- `commands_process_complete`.
unfoldable pub commands_process_complete : Commands → ℕ → Commands
unfolding completion_line
commands_process_complete c a =
    let c1 = record c { tab_completion_string = c.tab_completion_string ++ a ∷ [] } in
    if a == b'\n'
    then completion_line (record c1 { tab_completion_string = delchar c1.tab_completion_string })
    else c1

-- A character of the table of breakpoints.
unfoldable pub process_breakpoint : Commands → ℕ → Commands
process_breakpoint c a =
    if c.breakpoint_table && is_field c.cur_command_state && equals c.cur_field_num 5
    then (if a == b'\n' || a == b'\r'
        then c
        else record c { breakpoint_string = c.breakpoint_string ++ a ∷ [] })
    else if c.breakpoint_table
        && is_field c.cur_command_state
        && equals c.cur_field_num 3
        && a == b'y'
    then record c { breakpoint_enabled = true }
    else c

-- `commands_process`, by the state of the commands. None of it responds.
unfoldable pub process_in : CommandState → Commands → ℕ → Commands
unfolding commands_process_sources commands_process_complete commands_process_info_source
    process_breakpoint
process_in info_sources c a = commands_process_sources c a
process_in complete c a = commands_process_complete c a
process_in info_list c a = c
process_in info_source_filename_pair c a = commands_process_info_source c a
process_in info_source_relative c a = commands_process_info_source c a
process_in _ c a = process_breakpoint c a

unfoldable pub commands_process : Commands → ℕ → Commands
unfolding process_in
commands_process c a = process_in c.cur_command_state c a
