-- ===== src/Tgdb/Annotated.antt =====
-- lib/tgdb/annotate-two/a2-tgdb.c: annotate-two as the client of tgdb, after a2_tgdb_init. What sprintf
-- prints for %d is the argument `decimal`.
pub mod Rises
pub mod Annotations
pub mod Turn
use cgdb.Base.{
  ℕ, Bool, true, false, List, [], ◌∷◌, ◌++◌, map, Option, none, some, codes, if◌then◌else◌, ◌==◌,
}
use cgdb.Annotate.Context.{
  CommandChoice, ClientCommand, AnnotateCommand, annotate_info_breakpoints, annotate_list,
  annotate_info_line, annotate_info_sources, annotate_info_source_filename_pair, annotate_complete,
  AnnotateTwo, Libc,
}
use cgdb.Annotate.Issue.{commands_issue_command, commands_user_ran_command}
use cgdb.Annotate.Data.{is_user_at_prompt, commands_prepare_for_command}
use cgdb.Annotate.Table.{appended}
use cgdb.Annotate.Machine.{parse_io}
use cgdb.Tgdb.{Choice, Command, Client}

-- A command that is issued is appended to `client_command_list`.
abbrev pub issue :
    AnnotateCommand → Option (List ℕ) → CommandChoice → AnnotateTwo → Bool × AnnotateTwo
issue command text oob a2 =
    let (c, ncom) = commands_issue_command command text oob a2.c in
    appended ncom (record a2 { c = c })

-- The first command, and the second unless the first failed.
abbrev pub then_issue : Bool × AnnotateTwo → AnnotateCommand → Option (List ℕ) → Bool × AnnotateTwo
then_issue (false, a2) command text = (false, a2)
then_issue (true, a2) command text = issue command text CommandChoice.tgdb_client a2

unfoldable pub a2_get_source_filename_pair : List ℕ → AnnotateTwo → Bool × AnnotateTwo
a2_get_source_filename_pair file a2 =
    then_issue (issue annotate_list (some file) CommandChoice.tgdb_client a2)
      annotate_info_source_filename_pair (some file)

unfoldable pub a2_get_current_location : Bool → AnnotateTwo → Bool × AnnotateTwo
a2_get_current_location true a2 =
    then_issue (issue annotate_list none CommandChoice.tgdb_client a2) annotate_info_line none
a2_get_current_location false a2 = issue annotate_info_line none CommandChoice.tgdb_client a2

unfoldable pub a2_get_inferior_sources : AnnotateTwo → Bool × AnnotateTwo
a2_get_inferior_sources a2 = issue annotate_info_sources none CommandChoice.tgdb_client a2

unfoldable pub a2_completion_callback : List ℕ → AnnotateTwo → Bool × AnnotateTwo
a2_completion_callback command a2 =
    issue annotate_complete (some command) CommandChoice.tgdb_client a2

unfoldable pub a2_user_ran_command : AnnotateTwo → Bool × AnnotateTwo
a2_user_ran_command a2 =
    let (c, ncom) = commands_user_ran_command a2.c in appended ncom (record a2 { c = c })

-- The numbers of `enum tgdb_command_type`, from TGDB_CONTINUE to TGDB_DOWN.
abbrev names : List (List ℕ)
names =
    codes "continue"
    ∷ codes "finish"
    ∷ codes "next"
    ∷ codes "start"
    ∷ codes "run"
    ∷ codes "kill"
    ∷ codes "step"
    ∷ codes "until"
    ∷ codes "up"
    ∷ codes "down"
    ∷ []

abbrev name_at : List (List ℕ) → ℕ → Option (List ℕ)
name_at [] i = none
name_at (x ∷ xs) ℕ.zero = some x
name_at (x ∷ xs) (ℕ.suc i) = name_at xs i

unfoldable pub a2_return_client_command : ℕ → Option (List ℕ)
a2_return_client_command c = name_at names c

-- `"break \"%s\":%d"` and its kin. The actions are numbered as in `enum tgdb_breakpoint_action`.
abbrev at_line : (ℕ → List ℕ) → List ℕ → List ℕ → ℕ → List ℕ
at_line decimal verb file n = verb ++ codes " \"" ++ file ++ codes "\":" ++ decimal n

unfoldable pub a2_client_modify_breakpoint : (ℕ → List ℕ) → List ℕ → ℕ → ℕ → Option (List ℕ)
a2_client_modify_breakpoint decimal file n b =
    if b == 0
    then some (at_line decimal (codes "break") file n)
    else if b == 2
    then some (at_line decimal (codes "clear") file n)
    else if b == 1
    then some (at_line decimal (codes "tbreak") file n)
    else none

-- A command of the client as tgdb sees it.
abbrev choice_of : CommandChoice → Choice
choice_of CommandChoice.tgdb_client = Choice.tgdb_client
choice_of CommandChoice.tgdb_client_priority = Choice.client_priority

abbrev command_of : ClientCommand → Command AnnotateCommand
command_of ncom = record {
  tgdb_command_data = ncom.tgdb_command_data;
  command_choice = choice_of ncom.command_choice;
  private_data = some ncom.client_private_data;
}

-- The row of annotate-two in `tgdb_client_interfaces`.
unfoldable pub a2_client : Libc → (ℕ → List ℕ) → Client AnnotateTwo AnnotateCommand
a2_client libc decimal = record {
  is_client_ready = λ a2. is_user_at_prompt a2.data_context.data_state;
  prepare_for_command = λ ncom a2. commands_prepare_for_command libc ncom.private_data a2;
  can_tgdb_run_commands = λ a2. a2.g.misc_prompt_command;
  client_parse_io = λ input a2. parse_io libc a2 input;
  client_commands = λ a2. map command_of a2.client_command_list;
  clear_commands = λ a2. record a2 { client_command_list = [] };
  tgdb_ran_command = a2_user_ran_command;
  get_inferior_source_files = a2_get_inferior_sources;
  get_filename_pair = a2_get_source_filename_pair;
  get_current_location = a2_get_current_location;
  completion_callback = a2_completion_callback;
  return_command = a2_return_client_command;
  modify_breakpoint_call = a2_client_modify_breakpoint decimal;
}
