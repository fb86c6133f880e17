-- ===== src/Annotate/Frames/Notes.antt =====
-- One annotation, in lib/tgdb/annotate-two/state_machine.c.
use cgdb.Base.{
  free_of, ℕ, true, false, List, [], ◌∷◌, ◌++◌, append_assoc, append-nil, ◌≡◌, ap, arith,
  Bool-cases, inl, inr, ◌==◌, if◌then◌else◌,
}
use cgdb.Annotate.Context.{
  MachineState, in_data, new_line, control_z, annotation, nl_data, AnnotateTwo, Libc,
}
use cgdb.Annotate.Table.{tgdb_parse_annotation}
use cgdb.Annotate.Machine.{
  ctrl_z, process_each, end_annotation, on_newline, on_ctrl_z, on_char, handle_char, handle_data,
}
use cgdb.Annotate.Keeps.{with_sm, parse_annotation-with_sm}
use cgdb.Annotate.Stream.{handle_data-append, without_returns}
use cgdb.Annotate.Frames.{note, encode, machine, in_state, held, between}
use cgdb.Annotate.Frames.Text.{process_each-with_sm, process_each-nil}

abbrev inside : List ℕ → AnnotateTwo → AnnotateTwo
inside buf a2 = with_sm (record { tgdb_buffer = buf; tgdb_state = annotation }) a2

annotation_char :
    (libc : Libc) (buf : List ℕ) (a2 : AnnotateTwo) (c : ℕ)
    → (c == b'\n') ≡ false
    → handle_char libc (inside buf a2) c
      ≡ (inside (if c == b'\r' then buf else buf ++ c ∷ []) a2, [])
unfolding handle_char on_ctrl_z on_char
annotation_char libc buf a2 c n = ground arith

annotation_end :
    (libc : Libc) (buf : List ℕ) (a2 : AnnotateTwo)
    → handle_char libc (inside buf a2) b'\n'
      ≡ (in_state nl_data (tgdb_parse_annotation libc buf a2), [])
unfolding handle_char on_newline end_annotation
annotation_end libc buf a2 =
    ap (λ b. (record b { sm = record b.sm { tgdb_buffer = [] } }, []))
      (parse_annotation-with_sm libc buf (record { tgdb_buffer = buf; tgdb_state = nl_data }) a2)

annotation_text :
    (libc : Libc) (buf t : List ℕ) (a2 : AnnotateTwo)
    → free_of b'\n' t ≡ true
    → handle_data libc (inside buf a2) (t ++ b'\n' ∷ [])
      ≡ (in_state nl_data (tgdb_parse_annotation libc (buf ++ without_returns t) a2), [])
unfolding handle_data
annotation_text libc buf [] a2 n = ground (arith, append-nil buf, annotation_end libc buf a2)
annotation_text libc buf (c ∷ t) a2 n =
    let h : handle_char libc (inside buf a2) c
        ≡ (inside (if c == b'\r' then buf else buf ++ c ∷ []) a2, []) =
      annotation_char libc buf a2 c (ground arith) in
    elim (Bool-cases (c == b'\r')) [
      | inl e ↦ ground (arith, h, e, annotation_text libc buf t a2 (ground arith))
      | inr e ↦ ground (
        arith,
        h,
        e,
        append_assoc buf (c ∷ []) (without_returns t),
        annotation_text libc (buf ++ c ∷ []) t a2 (ground arith),
      )
    ]

-- The beginning of an annotation, wherever the machine stands.
note_begins :
    (libc : Libc) (s : MachineState) (a2 : AnnotateTwo)
    → between s ≡ true
    → handle_data libc (in_state s a2) (b'\n' ∷ ctrl_z ∷ ctrl_z ∷ [])
      ≡ (inside [] (process_each a2 (held s)).0, (process_each a2 (held s)).1)
unfolding handle_data handle_char on_newline on_ctrl_z
note_begins libc in_data a2 b = ground (arith, process_each-nil a2)
note_begins libc new_line a2 b = ground (
  arith,
  process_each-with_sm (machine new_line) a2 (b'\n' ∷ []),
  append-nil (process_each a2 (b'\n' ∷ [])).1,
)
note_begins libc nl_data a2 b = ground (arith, process_each-nil a2)
note_begins libc control_z a2 b = ground arith
note_begins libc annotation a2 b = ground arith

pub handle_note :
    (libc : Libc) (s : MachineState) (a2 : AnnotateTwo) (t : List ℕ)
    → between s ≡ true
    → free_of b'\n' t ≡ true
    → handle_data libc (in_state s a2) (encode (note t)) ≡ (
      in_state nl_data
          (tgdb_parse_annotation libc (without_returns t) (process_each a2 (held s)).0),
      (process_each a2 (held s)).1,
    )
handle_note libc s a2 t b n = ground (
  arith,
  handle_data-append libc (in_state s a2) (b'\n' ∷ ctrl_z ∷ ctrl_z ∷ []) (t ++ b'\n' ∷ []),
  note_begins libc s a2 b,
  annotation_text libc [] t (process_each a2 (held s)).0 n,
  append-nil (process_each a2 (held s)).1,
)
