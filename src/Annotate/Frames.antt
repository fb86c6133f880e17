-- ===== src/Annotate/Frames.antt =====
-- gdb's output as pieces of text and annotations, the input of
-- lib/tgdb/annotate-two/state_machine.c.
pub mod Text
pub mod Notes
pub mod Pieces
use cgdb.Base.{
  free_of, ℕ, ◌+◌, ◌≤◌, Bool, true, false, ◌&&◌, not, List, [], ◌∷◌, ◌++◌, append_assoc, append-nil,
  ◌≡◌, ◌≢◌, refl, sym, ◌∙◌, ap, arith, Bool-cases, inl, inr, ◌==◌, if◌then◌else◌, ==→≡,
}
use cgdb.Annotate.Context.{
  InternalState, void, at_prompt, user_at_prompt, post_prompt, user_command, gui_command,
  internal_command, MachineState, in_data, new_line, control_z, annotation, nl_data, AnnotateTwo,
  Libc, StateMachine,
}
use cgdb.Annotate.Data.{data_process, process_data}
use cgdb.Annotate.Table.{tgdb_parse_annotation}
use cgdb.Annotate.Machine.{
  ctrl_z, goto, process_each, add_to_annotation, end_annotation, on_newline, on_ctrl_z, on_char,
  handle_char, handle_data,
}
use cgdb.Annotate.Keeps.{with_sm, parse_annotation-with_sm}
use cgdb.Annotate.Stream.{handle_data-append, without_returns}

pub data Piece : Type 0 where
  text : List ℕ → Piece
  note : List ℕ → Piece

-- What gdb prints.
abbrev pub encode : Piece → List ℕ
encode (text t) = t
encode (note t) = b'\n' ∷ ctrl_z ∷ ctrl_z ∷ t ++ b'\n' ∷ []

abbrev pub encode_all : List Piece → List ℕ
encode_all [] = []
encode_all (p ∷ ps) = encode p ++ encode_all ps

-- Text has no ^Z in it, and an annotation is one line.
abbrev pub well_formed : List Piece → Bool
well_formed [] = true
well_formed (text t ∷ ps) = free_of ctrl_z t && well_formed ps
well_formed (note t ∷ ps) = free_of b'\n' t && well_formed ps

-- The meaning of the pieces: text goes to `data_process`, an annotation to its handler.
abbrev pub interpret : Libc → AnnotateTwo → List Piece → AnnotateTwo × List ℕ
interpret libc a2 [] = (a2, [])
interpret libc a2 (text t ∷ ps) =
    let (a3, out) = process_each a2 (without_returns t) in
    let (a4, out') = interpret libc a3 ps in (a4, out ++ out')
interpret libc a2 (note t ∷ ps) =
    interpret libc (tgdb_parse_annotation libc (without_returns t) a2) ps

-- The machine in a state, with no annotation begun.
abbrev pub machine : MachineState → StateMachine
machine s = record { tgdb_buffer = []; tgdb_state = s }

abbrev pub in_state : MachineState → AnnotateTwo → AnnotateTwo
in_state s a2 = with_sm (machine s) a2

-- A newline that may begin an annotation is held back.
abbrev pub held : MachineState → List ℕ
held new_line = b'\n' ∷ []
held _ = []

abbrev pub between : MachineState → Bool
between in_data = true
between new_line = true
between nl_data = true
between _ = false
