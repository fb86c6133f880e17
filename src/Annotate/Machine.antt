-- ===== src/Annotate/Machine.antt =====
-- lib/tgdb/annotate-two/state_machine.c: the filter that takes annotations out of gdb's output.
-- A step returns the context and what it writes for the user.
use cgdb.Base.{ℕ, Bool, true, false, List, [], ◌∷◌, ◌++◌, ◌==◌, if◌then◌else◌}
use cgdb.Annotate.Context.{
  MachineState, in_data, new_line, control_z, annotation, nl_data, AnnotateTwo, Libc,
}
use cgdb.Annotate.Data.{data_process}
use cgdb.Annotate.Table.{tgdb_parse_annotation}

-- '\032', which is octal.
abbrev pub ctrl_z : ℕ
ctrl_z = 26

abbrev pub goto : MachineState → AnnotateTwo → AnnotateTwo
goto s a2 = record a2 { sm = record a2.sm { tgdb_state = s } }

-- `data_process` on several characters.
unfoldable pub process_each : AnnotateTwo → List ℕ → AnnotateTwo × List ℕ
process_each a2 [] = (a2, [])
process_each a2 (a ∷ rest) =
    let (a3, out) = data_process a2 a in let (a4, out') = process_each a3 rest in (a4, out ++ out')

-- `ibuf_addchar` on the buffer of annotations.
abbrev pub add_to_annotation : AnnotateTwo → ℕ → AnnotateTwo
add_to_annotation a2 a = record a2 {
  sm = record a2.sm { tgdb_buffer = a2.sm.tgdb_buffer ++ a ∷ [] };
}

-- The annotation in the buffer is parsed, and the buffer is emptied.
unfoldable pub end_annotation : Libc → AnnotateTwo → AnnotateTwo
end_annotation libc a2 =
    let a3 = tgdb_parse_annotation libc a2.sm.tgdb_buffer (goto nl_data a2) in
    record a3 { sm = record a3.sm { tgdb_buffer = [] } }

unfoldable pub on_newline : Libc → MachineState → AnnotateTwo → AnnotateTwo × List ℕ
unfolding process_each end_annotation
on_newline libc in_data a2 = (goto new_line a2, [])
on_newline libc new_line a2 = process_each (goto new_line a2) (b'\n' ∷ [])
on_newline libc control_z a2 = process_each (goto in_data a2) (b'\n' ∷ ctrl_z ∷ [])
on_newline libc annotation a2 = (end_annotation libc a2, [])
on_newline libc nl_data a2 = (goto new_line a2, [])

unfoldable pub on_ctrl_z : MachineState → AnnotateTwo → AnnotateTwo × List ℕ
unfolding process_each
on_ctrl_z in_data a2 = process_each (goto in_data a2) (ctrl_z ∷ [])
on_ctrl_z new_line a2 = (goto control_z a2, [])
on_ctrl_z nl_data a2 = (goto control_z a2, [])
on_ctrl_z control_z a2 = (goto annotation a2, [])
on_ctrl_z annotation a2 = (add_to_annotation a2 ctrl_z, [])

unfoldable pub on_char : MachineState → AnnotateTwo → ℕ → AnnotateTwo × List ℕ
unfolding process_each
on_char in_data a2 a = process_each a2 (a ∷ [])
on_char nl_data a2 a = process_each (goto in_data a2) (a ∷ [])
on_char new_line a2 a = process_each (goto in_data a2) (b'\n' ∷ a ∷ [])
on_char control_z a2 a = process_each (goto in_data a2) (b'\n' ∷ ctrl_z ∷ a ∷ [])
on_char annotation a2 a = (add_to_annotation a2 a, [])

-- One round of the loop of `a2_handle_data`.
unfoldable pub handle_char : Libc → AnnotateTwo → ℕ → AnnotateTwo × List ℕ
unfolding on_newline on_ctrl_z on_char
handle_char libc a2 a =
    if a == b'\r'
    then (a2, [])
    else if a == b'\n'
    then on_newline libc a2.sm.tgdb_state a2
    else if a == ctrl_z
    then on_ctrl_z a2.sm.tgdb_state a2
    else on_char a2.sm.tgdb_state a2 a

-- `a2_handle_data`: the context, and what it leaves in `gui_data`.
unfoldable pub handle_data : Libc → AnnotateTwo → List ℕ → AnnotateTwo × List ℕ
unfolding handle_char
handle_data libc a2 [] = (a2, [])
handle_data libc a2 (a ∷ rest) =
    let (a3, out) = handle_char libc a2 a in
    let (a4, out') = handle_data libc a3 rest in (a4, out ++ out')

-- `a2_parse_io`: whether a command finished, the context, and the text for the user.
unfoldable pub parse_io : Libc → AnnotateTwo → List ℕ → Bool × AnnotateTwo × List ℕ
unfolding handle_data
parse_io libc a2 input_data =
    let (a3, out) =
      handle_data libc (record a2 { command_finished = false; cur_response_list = true })
        input_data in
    (a3.command_finished, record a3 { cur_response_list = false }, out)
