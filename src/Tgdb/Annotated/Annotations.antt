-- ===== src/Tgdb/Annotated/Annotations.antt =====
-- lib/tgdb/annotate-two: only the end of a command makes it ready, over all output of gdb.
use cgdb.Base.{ℕ, true, false, List, [], ◌∷◌, ◌≡◌, refl, arith, Bool-cases, inl, inr, ◌==◌}
use cgdb.Annotate.Context.{
  AnnotateTwo, Libc, MachineState, in_data, new_line, control_z, annotation, nl_data, InternalState,
  void, at_prompt, user_at_prompt, post_prompt, user_command, gui_command, internal_command,
}
use cgdb.Annotate.Data.{data_process, process_data}
use cgdb.Annotate.Table.{Annotation, annotations, dispatch, tgdb_parse_annotation}
use cgdb.Annotate.Machine.{
  goto, process_each, add_to_annotation, end_annotation, on_newline, on_ctrl_z, on_char,
  handle_char, handle_data, parse_io, ctrl_z,
}
use cgdb.Annotate.Keeps.{◌&◌}
use cgdb.Tgdb.Annotated.Rises.{
  ready, Rises, steady, in_turn, HandlerRises, handle_source-Rises, handle_misc_pre_prompt-Rises,
  handle_misc_prompt-Rises, handle_misc_post_prompt-Rises, handle_pre_prompt-Rises,
  handle_prompt-Rises, handle_error_begin-Rises, handle_post-Rises, handle_silent-Rises,
}

abbrev AllRise : List Annotation → Type 0
AllRise [] = Unit {0}
AllRise (r ∷ rs) = HandlerRises r.f × AllRise rs

annotations-AllRise : AllRise annotations
unfolding annotations
annotations-AllRise =
    let (i, h, t, e, u, f, r, x) = handle_silent-Rises in
    let (post, error, quit) = handle_post-Rises in
    let q = handle_misc_pre_prompt-Rises in
    let p = handle_misc_prompt-Rises in
    let o = handle_misc_post_prompt-Rises in
    handle_source-Rises & q & p & o & q & p & o & q & p & o & q & p & o & q & p & o
    & handle_pre_prompt-Rises & handle_prompt-Rises & post & i & h & e & t & u & f & r
    & handle_error_begin-Rises & error & quit & x & tt

dispatch-Rises :
    (rs : List Annotation) (libc : Libc) (buf : List ℕ) (a2 : AnnotateTwo)
    → AllRise rs
    → Rises a2 (dispatch rs libc buf a2)
unfolding dispatch
dispatch-Rises [] libc buf a2 k = steady a2 a2 refl refl
dispatch-Rises (r ∷ rs) libc buf a2 (k, ks) =
    let a3 = (r.f libc buf a2).1 in
    let one = k libc buf a2 in
    let more = in_turn a2 a3 (dispatch rs libc buf a3) one (dispatch-Rises rs libc buf a3 ks) in
    ground (arith, one, more, dispatch-Rises rs libc buf a2 ks)

parse_annotation-Rises :
    (libc : Libc) (buf : List ℕ) (a2 : AnnotateTwo) → Rises a2 (tgdb_parse_annotation libc buf a2)
unfolding tgdb_parse_annotation
parse_annotation-Rises libc buf a2 = dispatch-Rises annotations libc buf a2 annotations-AllRise

process_data-Rises :
    (s : InternalState) (a2 : AnnotateTwo) (a : ℕ) → Rises a2 (process_data s a2 a).0
unfolding process_data
process_data-Rises void a2 a = steady a2 a2 refl refl
process_data-Rises at_prompt a2 a = steady a2 (process_data at_prompt a2 a).0 refl refl
process_data-Rises user_at_prompt a2 a = steady a2 a2 refl refl
process_data-Rises post_prompt a2 a = steady a2 a2 refl refl
process_data-Rises user_command a2 a = steady a2 a2 refl refl
process_data-Rises gui_command a2 a = steady a2 a2 refl refl
process_data-Rises internal_command a2 a =
    steady a2 (process_data internal_command a2 a).0 refl refl

process_each-Rises : (a2 : AnnotateTwo) (xs : List ℕ) → Rises a2 (process_each a2 xs).0
unfolding process_each data_process
process_each-Rises a2 [] = steady a2 a2 refl refl
process_each-Rises a2 (a ∷ rest) =
    let a3 = (data_process a2 a).0 in
    in_turn a2 a3 (process_each a3 rest).0 (process_data-Rises a2.data_context.data_state a2 a)
      (process_each-Rises a3 rest)

on_newline-Rises :
    (libc : Libc) (s : MachineState) (a2 : AnnotateTwo) → Rises a2 (on_newline libc s a2).0
unfolding on_newline end_annotation
on_newline-Rises libc in_data a2 = steady a2 (goto new_line a2) refl refl
on_newline-Rises libc new_line a2 = process_each-Rises (goto new_line a2) (b'\n' ∷ [])
on_newline-Rises libc control_z a2 = process_each-Rises (goto in_data a2) (b'\n' ∷ ctrl_z ∷ [])
on_newline-Rises libc annotation a2 =
    parse_annotation-Rises libc a2.sm.tgdb_buffer (goto nl_data a2)
on_newline-Rises libc nl_data a2 = steady a2 (goto new_line a2) refl refl

on_ctrl_z-Rises : (s : MachineState) (a2 : AnnotateTwo) → Rises a2 (on_ctrl_z s a2).0
unfolding on_ctrl_z
on_ctrl_z-Rises in_data a2 = process_each-Rises (goto in_data a2) (ctrl_z ∷ [])
on_ctrl_z-Rises new_line a2 = steady a2 (goto control_z a2) refl refl
on_ctrl_z-Rises nl_data a2 = steady a2 (goto control_z a2) refl refl
on_ctrl_z-Rises control_z a2 = steady a2 (goto annotation a2) refl refl
on_ctrl_z-Rises annotation a2 = steady a2 (add_to_annotation a2 ctrl_z) refl refl

on_char-Rises : (s : MachineState) (a2 : AnnotateTwo) (a : ℕ) → Rises a2 (on_char s a2 a).0
unfolding on_char
on_char-Rises in_data a2 a = process_each-Rises a2 (a ∷ [])
on_char-Rises nl_data a2 a = process_each-Rises (goto in_data a2) (a ∷ [])
on_char-Rises new_line a2 a = process_each-Rises (goto in_data a2) (b'\n' ∷ a ∷ [])
on_char-Rises control_z a2 a = process_each-Rises (goto in_data a2) (b'\n' ∷ ctrl_z ∷ a ∷ [])
on_char-Rises annotation a2 a = steady a2 (add_to_annotation a2 a) refl refl

handle_char-Rises : (libc : Libc) (a2 : AnnotateTwo) (a : ℕ) → Rises a2 (handle_char libc a2 a).0
unfolding handle_char
handle_char-Rises libc a2 a =
    let s = a2.sm.tgdb_state in
    elim (Bool-cases (a == b'\r')) [
      | inl h ↦ rw h (steady a2 a2 refl refl)
      | inr h ↦ elim (Bool-cases (a == b'\n')) [
        | inl i ↦ rw (h, i) (on_newline-Rises libc s a2)
        | inr i ↦ elim (Bool-cases (a == ctrl_z)) [
          | inl j ↦ rw (h, i, j) (on_ctrl_z-Rises s a2)
          | inr j ↦ rw (h, i, j) (on_char-Rises s a2 a)
        ]
      ]
    ]

handle_data-Rises :
    (libc : Libc) (xs : List ℕ) (a2 : AnnotateTwo) → Rises a2 (handle_data libc a2 xs).0
unfolding handle_data
handle_data-Rises libc [] a2 = steady a2 a2 refl refl
handle_data-Rises libc (a ∷ rest) a2 =
    let a3 = (handle_char libc a2 a).0 in
    in_turn a2 a3 (handle_data libc a3 rest).0 (handle_char-Rises libc a2 a)
      (handle_data-Rises libc rest a3)

-- Output that finishes no command makes annotate-two ready for none.
pub parse_io-ready :
    (libc : Libc) (input : List ℕ) (a2 : AnnotateTwo)
    → (parse_io libc a2 input).0 ≡ false
    → ready (parse_io libc a2 input).1 ≡ true
    → ready a2 ≡ true
unfolding parse_io
parse_io-ready libc input a2 h r =
    let start = record a2 { command_finished = false; cur_response_list = true } in
    (handle_data-Rises libc input start).1 r h
