-- ===== src/Annotate/Stream.antt =====
-- lib/tgdb/annotate-two/state_machine.c, `a2_handle_data` on a stream of characters: its reads, its
-- carriage returns, and the length of what it writes.
use cgdb.Base.{
  ℕ, ◌+◌, ◌≤◌, List, [], ◌∷◌, ◌++◌, append_assoc, length, length-append, ◌≡◌, refl, arith, ◌==◌,
  if◌then◌else◌,
}
use cgdb.Annotate.Context.{
  InternalState, void, at_prompt, user_at_prompt, post_prompt, user_command, gui_command,
  internal_command, MachineState, in_data, new_line, control_z, annotation, nl_data, AnnotateTwo,
  Libc,
}
use cgdb.Annotate.Data.{data_process, process_data}
use cgdb.Annotate.Machine.{
  ctrl_z, goto, process_each, on_newline, on_ctrl_z, on_char, handle_char, handle_data,
}
use cgdb.Annotate.Keeps.{tgdb_parse_annotation-sm}

-- Output that is read in two pieces is handled as if it were read at once: the context is the same,
-- and the texts for the user follow each other.
pub handle_data-append :
    (libc : Libc) (a2 : AnnotateTwo) (xs ys : List ℕ)
    → handle_data libc a2 (xs ++ ys) ≡ (
      (handle_data libc (handle_data libc a2 xs).0 ys).0,
      (handle_data libc a2 xs).1 ++ (handle_data libc (handle_data libc a2 xs).0 ys).1,
    )
unfolding handle_data
handle_data-append libc a2 [] ys = refl
handle_data-append libc a2 (x ∷ xs) ys = ground (
  arith,
  handle_data-append libc (handle_char libc a2 x).0 xs ys,
  append_assoc (handle_char libc a2 x).1 (handle_data libc (handle_char libc a2 x).0 xs).1
      (handle_data libc (handle_data libc (handle_char libc a2 x).0 xs).0 ys).1,
)

abbrev pub without_returns : List ℕ → List ℕ
without_returns [] = []
without_returns (c ∷ cs) = if c == b'\r' then without_returns cs else c ∷ without_returns cs

-- Carriage returns make no difference wherever they stand.
pub handle_data-without_returns :
    (libc : Libc) (a2 : AnnotateTwo) (xs : List ℕ)
    → handle_data libc a2 xs ≡ handle_data libc a2 (without_returns xs)
unfolding handle_data handle_char
handle_data-without_returns libc a2 [] = refl
handle_data-without_returns libc a2 (x ∷ xs) = ground (
  arith,
  handle_data-without_returns libc a2 xs,
  handle_data-without_returns libc (handle_char libc a2 x).0 xs,
)

process_data-sm :
    (s : InternalState) (a2 : AnnotateTwo) (a : ℕ)
    → ((process_data s a2 a).0.sm ≡ a2.sm) × (length (process_data s a2 a).1 ≤ 1)
unfolding process_data
process_data-sm void a2 a = ground arith
process_data-sm at_prompt a2 a = ground arith
process_data-sm user_at_prompt a2 a = ground arith
process_data-sm post_prompt a2 a = ground arith
process_data-sm user_command a2 a = ground arith
process_data-sm gui_command a2 a = ground arith
process_data-sm internal_command a2 a = ground arith

process_each-sm :
    (xs : List ℕ) (a2 : AnnotateTwo)
    → ((process_each a2 xs).0.sm ≡ a2.sm) × (length (process_each a2 xs).1 ≤ length xs)
unfolding process_each data_process
process_each-sm [] a2 = ground arith
process_each-sm (x ∷ xs) a2 =
    let p = process_data-sm a2.data_context.data_state a2 x in
    let q = process_each-sm xs (data_process a2 x).0 in
    ground
      (arith, p, q, length-append (data_process a2 x).1 (process_each (data_process a2 x).0 xs).1)

-- How many characters the machine may write beyond those that it reads next. The '\n' behind an
-- annotation may still be the one before another.
abbrev pub owed : MachineState → ℕ
owed in_data = 0
owed new_line = 1
owed control_z = 2
owed annotation = 0
owed nl_data = 1

abbrev owes : AnnotateTwo → ℕ
owes a2 = owed a2.sm.tgdb_state

on_newline_bound :
    (libc : Libc) (s : MachineState) (a2 : AnnotateTwo)
    → length (on_newline libc s a2).1 + owes (on_newline libc s a2).0 ≤ 1 + owed s
unfolding on_newline
on_newline_bound libc in_data a2 = ground arith
on_newline_bound libc new_line a2 = ground (arith, process_each-sm (b'\n' ∷ []) (goto new_line a2))
on_newline_bound libc control_z a2 =
    ground (arith, process_each-sm (b'\n' ∷ ctrl_z ∷ []) (goto in_data a2))
on_newline_bound libc annotation a2 =
    ground (arith, tgdb_parse_annotation-sm libc a2.sm.tgdb_buffer (goto nl_data a2))
on_newline_bound libc nl_data a2 = ground arith

on_ctrl_z_bound :
    (s : MachineState) (a2 : AnnotateTwo)
    → a2.sm.tgdb_state ≡ s
    → length (on_ctrl_z s a2).1 + owes (on_ctrl_z s a2).0 ≤ 1 + owed s
unfolding on_ctrl_z
on_ctrl_z_bound in_data a2 e = ground (arith, process_each-sm (ctrl_z ∷ []) (goto in_data a2))
on_ctrl_z_bound new_line a2 e = ground arith
on_ctrl_z_bound control_z a2 e = ground arith
on_ctrl_z_bound annotation a2 e = ground arith
on_ctrl_z_bound nl_data a2 e = ground arith

on_char_bound :
    (s : MachineState) (a2 : AnnotateTwo) (a : ℕ)
    → a2.sm.tgdb_state ≡ s
    → length (on_char s a2 a).1 + owes (on_char s a2 a).0 ≤ 1 + owed s
unfolding on_char
on_char_bound in_data a2 a e = ground (arith, process_each-sm (a ∷ []) a2)
on_char_bound new_line a2 a e = ground (arith, process_each-sm (b'\n' ∷ a ∷ []) (goto in_data a2))
on_char_bound control_z a2 a e =
    ground (arith, process_each-sm (b'\n' ∷ ctrl_z ∷ a ∷ []) (goto in_data a2))
on_char_bound annotation a2 a e = ground arith
on_char_bound nl_data a2 a e = ground (arith, process_each-sm (a ∷ []) (goto in_data a2))

handle_char_bound :
    (libc : Libc) (a2 : AnnotateTwo) (a : ℕ)
    → length (handle_char libc a2 a).1 + owes (handle_char libc a2 a).0 ≤ 1 + owes a2
unfolding handle_char
handle_char_bound libc a2 a = ground (
  arith,
  on_newline_bound libc a2.sm.tgdb_state a2,
  on_ctrl_z_bound a2.sm.tgdb_state a2 refl,
  on_char_bound a2.sm.tgdb_state a2 a refl,
)

-- The text for the user is at most as long as the input and what was owed before it, less what is owed
-- afterwards: `gui_data` needs room for two characters more than were read, and the 0.
pub handle_data_bound :
    (libc : Libc) (a2 : AnnotateTwo) (xs : List ℕ)
    → length (handle_data libc a2 xs).1 + owed (handle_data libc a2 xs).0.sm.tgdb_state
      ≤ length xs + owed a2.sm.tgdb_state
unfolding handle_data
handle_data_bound libc a2 [] = ground arith
handle_data_bound libc a2 (x ∷ xs) = ground (
  arith,
  handle_char_bound libc a2 x,
  handle_data_bound libc (handle_char libc a2 x).0 xs,
  length-append (handle_char libc a2 x).1 (handle_data libc (handle_char libc a2 x).0 xs).1,
)
