-- ===== src/Annotate/Frames/Pieces.antt =====
-- A stream of texts and annotations, in lib/tgdb/annotate-two/state_machine.c.
use cgdb.Base.{
  free_of, ℕ, true, List, [], ◌∷◌, ◌++◌, append_assoc, append-nil, ◌≡◌, refl, sym, ◌∙◌, ap, arith,
}
use cgdb.Annotate.Context.{void, MachineState, in_data, nl_data, AnnotateTwo, Libc}
use cgdb.Annotate.Data.{data_process, process_data}
use cgdb.Annotate.Table.{tgdb_parse_annotation}
use cgdb.Annotate.Machine.{ctrl_z, process_each, handle_data}
use cgdb.Annotate.Stream.{handle_data-append, without_returns}
use cgdb.Annotate.Frames.{
  Piece, text, note, encode, encode_all, well_formed, interpret, in_state, held, between,
}
use cgdb.Annotate.Frames.Text.{
  process_each-append, process_each-nil, after_all, passed_all, between-after_all, passed_all-held,
  handle_text,
}
use cgdb.Annotate.Frames.Notes.{handle_note}

-- What is held back and what a text passes on is the text and what was held back before.
regrouped :
    (s : MachineState) (a2 : AnnotateTwo) (u : List ℕ)
    → between s ≡ true
    → process_each a2 (passed_all s u ++ held (after_all s u))
      ≡ process_each a2 (held s ++ without_returns u)
regrouped s a2 u b = ap (process_each a2) (passed_all-held s u b)

pieces_from :
    (libc : Libc) (s : MachineState) (a2 : AnnotateTwo) (ps : List Piece) (t : List ℕ)
    → between s ≡ true
    → well_formed ps ≡ true
    → free_of b'\n' t ≡ true
    → handle_data libc (in_state s a2) (encode_all ps ++ encode (note t)) ≡ (
      in_state nl_data (interpret libc (process_each a2 (held s)).0 (ps ++ note t ∷ [])).0,
      (process_each a2 (held s)).1
          ++ (interpret libc (process_each a2 (held s)).0 (ps ++ note t ∷ [])).1,
    )
pieces_from libc s a2 [] t b w n =
    ground (arith, handle_note libc s a2 t b n, append-nil (process_each a2 (held s)).1)
pieces_from libc s a2 (text u ∷ ps) t b w n =
    let rest = encode_all ps ++ encode (note t) in
    let A = process_each a2 (passed_all s u) in
    let s' = after_all s u in
    let B = process_each A.0 (held s') in
    let H = process_each a2 (held s) in
    let W = process_each H.0 (without_returns u) in
    let I = interpret libc W.0 (ps ++ note t ∷ []) in
    let ih : handle_data libc (in_state s' A.0) rest ≡ (
      in_state nl_data (interpret libc B.0 (ps ++ note t ∷ [])).0,
      B.1 ++ (interpret libc B.0 (ps ++ note t ∷ [])).1,
    ) =
      pieces_from libc s' A.0 ps t (between-after_all s u b) (ground arith) n in
    let same : (B.0, A.1 ++ B.1) ≡ (W.0, H.1 ++ W.1) =
      sym (process_each-append a2 (passed_all s u) (held s'))
      ∙ regrouped s a2 u b
      ∙ process_each-append a2 (held s) (without_returns u) in
    ap (handle_data libc (in_state s a2)) (append_assoc u (encode_all ps) (encode (note t)))
    ∙ handle_data-append libc (in_state s a2) u rest
    ∙ ground (
      arith,
      handle_text libc s a2 u b (ground arith),
      ih,
      same,
      append_assoc A.1 B.1 I.1,
      append_assoc H.1 W.1 I.1,
    )
pieces_from libc s a2 (note u ∷ ps) t b w n =
    let rest = encode_all ps ++ encode (note t) in
    let H = process_each a2 (held s) in
    let P = tgdb_parse_annotation libc (without_returns u) H.0 in
    ap (handle_data libc (in_state s a2))
      (append_assoc (encode (note u)) (encode_all ps) (encode (note t)))
    ∙ handle_data-append libc (in_state s a2) (encode (note u)) rest
    ∙ ground (
      arith,
      handle_note libc s a2 u b (ground arith),
      pieces_from libc nl_data P ps t refl (ground arith) n,
      process_each-nil P,
    )

process_each_void :
    (a2 : AnnotateTwo) (xs : List ℕ)
    → a2.data_context.data_state ≡ void
    → process_each a2 xs ≡ (a2, xs)
unfolding process_each data_process process_data
process_each_void a2 [] v = refl
process_each_void a2 (x ∷ xs) v = ground (arith, process_each_void a2 xs v)

-- Output that is made of texts without ^Z and of one-line annotations, and ends in an annotation, is
-- handled piece by piece: what the user
-- sees and what the context becomes are those of the texts and the annotations, whatever newlines
-- the machine holds back on the way.
pub handle_data-pieces :
    (libc : Libc) (a2 : AnnotateTwo) (ps : List Piece) (t : List ℕ)
    → well_formed ps ≡ true
    → free_of b'\n' t ≡ true
    → handle_data libc (in_state in_data a2) (encode_all ps ++ encode (note t)) ≡ (
      in_state nl_data (interpret libc a2 (ps ++ note t ∷ [])).0,
      (interpret libc a2 (ps ++ note t ∷ [])).1,
    )
handle_data-pieces libc a2 ps t w n =
    ground (arith, pieces_from libc in_data a2 ps t refl w n, process_each-nil a2)

-- In the data state VOID, and where no annotation has begun, text without ^Z reaches the user unchanged but for its carriage
-- returns: what is written, with what is held back afterwards, is what was held back before with the
-- text. The context changes only in the state of the machine.
pub handle_data-plain :
    (libc : Libc) (s : MachineState) (a2 : AnnotateTwo) (cs : List ℕ)
    → between s ≡ true
    → free_of ctrl_z cs ≡ true
    → a2.data_context.data_state ≡ void
    → ((handle_data libc (in_state s a2) cs).1
          ++ held (handle_data libc (in_state s a2) cs).0.sm.tgdb_state
        ≡ held s ++ without_returns cs)
      × ((handle_data libc (in_state s a2) cs).0 ≡ in_state (after_all s cs) a2)
handle_data-plain libc s a2 cs b n v = ground (
  arith,
  handle_text libc s a2 cs b n,
  process_each_void a2 (passed_all s cs) v,
  passed_all-held s cs b,
)
