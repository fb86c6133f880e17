-- ===== src/Annotate/Silent/Output.antt =====
-- lib/tgdb/annotate-two/state_machine.c while tgdb runs a command of its own: the whole output.
use cgdb.Base.{
  free_of, ℕ, Bool, true, false, List, [], ◌∷◌, ◌++◌, ◌≡◌, refl, ◌∙◌, ap, arith, not, ◌&&◌,
}
use cgdb.Annotate.Context.{in_data, internal_command, AnnotateTwo, Libc}
use cgdb.Annotate.Data.{data_process, process_data}
use cgdb.Annotate.Table.{tgdb_parse_annotation}
use cgdb.Annotate.Machine.{process_each, handle_data}
use cgdb.Annotate.Stream.{without_returns}
use cgdb.Annotate.Frames.{Piece, text, note, interpret, encode, encode_all, well_formed, in_state}
use cgdb.Annotate.Frames.Pieces.{handle_data-pieces}
use cgdb.Annotate.Silent.{is_prompt, annotation_silent}

process_each_silent :
    (xs : List ℕ) (a2 : AnnotateTwo)
    → a2.data_context.data_state ≡ internal_command
    → ((process_each a2 xs).0.data_context ≡ a2.data_context) × ((process_each a2 xs).1 ≡ [])
unfolding process_each data_process process_data
process_each_silent [] a2 e = (refl, refl)
process_each_silent (x ∷ xs) a2 e =
    ground (arith, process_each_silent xs (data_process a2 x).0 (ground arith))

abbrev pub no_prompts : List Piece → Bool
no_prompts [] = true
no_prompts (text t ∷ ps) = no_prompts ps
no_prompts (note t ∷ ps) = not (is_prompt (without_returns t)) && no_prompts ps

both : (a b : Bool) → (not a && b) ≡ true → (a ≡ false) × (b ≡ true)
both a b h = ground arith

interpret_silent :
    (libc : Libc) (ps : List Piece) (a2 : AnnotateTwo)
    → no_prompts ps ≡ true
    → a2.data_context.data_state ≡ internal_command
    → ((interpret libc a2 ps).1 ≡ []) × ((interpret libc a2 ps).0.data_context ≡ a2.data_context)
interpret_silent libc [] a2 n e = (refl, refl)
interpret_silent libc (text t ∷ ps) a2 n e =
    let h = process_each_silent (without_returns t) a2 e in
    let ih =
      interpret_silent libc ps (process_each a2 (without_returns t)).0 n
        (ap (λ d. d.data_state) h.0 ∙ e) in
    (
      ap (λ o. o ++ (interpret libc (process_each a2 (without_returns t)).0 ps).1) h.1 ∙ ih.0,
      ih.1 ∙ h.0,
    )
interpret_silent libc (note t ∷ ps) a2 n e =
    let (n1, n2) = both (is_prompt (without_returns t)) (no_prompts ps) n in
    let h = annotation_silent libc (without_returns t) a2 n1 e in
    let ih =
      interpret_silent libc ps (tgdb_parse_annotation libc (without_returns t) a2) n2
        (ap (λ d. d.data_state) h ∙ e) in
    (ih.0, ih.1 ∙ h)

-- While a command of tgdb's own runs, and as long as gdb does not prompt again, nothing that gdb prints
-- reaches the user, and the data context does not change, whatever other annotations come. The
-- output is made of texts without ^Z and one-line annotations, and ends in one.
pub handle_data_silent :
    (libc : Libc) (a2 : AnnotateTwo) (ps : List Piece) (t : List ℕ)
    → well_formed ps ≡ true
    → free_of b'\n' t ≡ true
    → no_prompts (ps ++ note t ∷ []) ≡ true
    → a2.data_context.data_state ≡ internal_command
    → ((handle_data libc (in_state in_data a2) (encode_all ps ++ encode (note t))).1 ≡ [])
      × ((handle_data libc (in_state in_data a2) (encode_all ps ++ encode (note t))).0.data_context
          ≡ a2.data_context)
handle_data_silent libc a2 ps t w n q e =
    ground
      (arith, handle_data-pieces libc a2 ps t w n, interpret_silent libc (ps ++ note t ∷ []) a2 q e)
