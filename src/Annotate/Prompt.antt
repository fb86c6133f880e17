-- ===== src/Annotate/Prompt.antt =====
-- lib/tgdb/annotate-two, how a prompt of gdb is taken: the annotations pre-prompt and prompt.
use cgdb.Base.{
  free_of, ℕ, true, List, [], ◌∷◌, ◌++◌, ◌≡◌, ◌≢◌, refl, ◌∙◌, ap, arith, Bool-cases, inl, inr,
  codes, before_nul, eq_list, if◌then◌else◌, append_assoc, append-nil, eq_list→≡, ltb, length, ◌<◌,
}
use cgdb.Annotate.Context.{
  gdb_prompt_size, in_data, at_prompt, user_at_prompt, internal_command, AnnotateTwo, Libc,
  Response, update_console_prompt_value, update_source_files, update_completions, void_command,
}
use cgdb.Annotate.Commands.{commands_set_state}
use cgdb.Annotate.Issue.{
  commands_finalize_command, commands_send_gui_sources, commands_send_gui_completions,
}
use cgdb.Annotate.Data.{respond, data_set_state, data_entered, data_process, process_data}
use cgdb.Annotate.Table.{
  handle_pre_prompt, handle_prompt, send_gui, annotations, dispatch, tgdb_parse_annotation,
}
use cgdb.Annotate.Machine.{ctrl_z, process_each, handle_data}
use cgdb.Annotate.Stream.{without_returns}
use cgdb.Annotate.Frames.{Piece, text, note, interpret, encode, encode_all, in_state}
use cgdb.Annotate.Frames.Pieces.{handle_data-pieces}

parse_pre_prompt :
    (libc : Libc) (a2 : AnnotateTwo)
    → tgdb_parse_annotation libc (codes "pre-prompt") a2 ≡ data_set_state libc at_prompt a2
unfolding tgdb_parse_annotation dispatch annotations handle_pre_prompt
parse_pre_prompt libc a2 = refl

parse_prompt :
    (libc : Libc) (a2 : AnnotateTwo)
    → tgdb_parse_annotation libc (codes "prompt") a2 ≡ (handle_prompt libc (codes "prompt") a2).1
unfolding tgdb_parse_annotation dispatch annotations handle_prompt
parse_prompt libc a2 = refl

-- What an annotation and a text leave alone on the way to the prompt.
abbrev Same : AnnotateTwo → AnnotateTwo → Type 0
Same a2 b2 =
    (a2.responses ≡ b2.responses)
    × (a2.c ≡ b2.c)
    × (a2.g ≡ b2.g)
    × (a2.cur_response_list ≡ b2.cur_response_list)

opens :
    (libc : Libc) (a2 : AnnotateTwo)
    → a2.data_context.data_state ≢ internal_command
    → ((data_set_state libc at_prompt a2).data_context
        ≡ record a2.data_context { data_state = at_prompt; gdb_prompt = [] })
      × Same (data_set_state libc at_prompt a2) a2
unfolding data_set_state data_entered
opens libc a2 n = ground arith

collects :
    (xs : List ℕ) (a2 : AnnotateTwo)
    → a2.data_context.data_state ≡ at_prompt
    → ((process_each a2 xs).0.data_context
        ≡ record a2.data_context { gdb_prompt = a2.data_context.gdb_prompt ++ xs })
      × Same (process_each a2 xs).0 a2
      × ((process_each a2 xs).1 ≡ [])
unfolding process_each data_process process_data
collects [] a2 e = ground (arith, append-nil a2.data_context.gdb_prompt)
collects (x ∷ xs) a2 e = ground (
  arith,
  collects xs (data_process a2 x).0 (ground arith),
  append_assoc a2.data_context.gdb_prompt (x ∷ []) xs,
)

-- The front end is told the prompt when it is another than before.
abbrev pub prompt_response : List ℕ → List ℕ → List Response
prompt_response prompt before =
    if eq_list prompt before then [] else update_console_prompt_value prompt ∷ []

-- The front end is told the source files or the completions that were asked for.
abbrev pub gui_response : AnnotateTwo → List Response
gui_response a2 =
    if a2.g.info_sources_started
    then (if ltb 0 (length a2.c.inferior_source_files) then update_source_files ∷ [] else [])
    else if a2.g.completion_started
    then update_completions ∷ []
    else []

closes :
    (libc : Libc) (a2 : AnnotateTwo)
    → a2.cur_response_list ≡ true
    → ((data_set_state libc user_at_prompt a2).data_context ≡ record {
      data_state = user_at_prompt;
      gdb_prompt = a2.data_context.gdb_prompt;
      gdb_prompt_last = before_nul a2.data_context.gdb_prompt;
    })
      × ((data_set_state libc user_at_prompt a2).command_finished ≡ true)
      × ((data_set_state libc user_at_prompt a2).responses
          ≡ a2.responses
            ++ prompt_response
                (before_nul a2.data_context.gdb_prompt)
                a2.data_context.gdb_prompt_last)
      × ((data_set_state libc user_at_prompt a2).c
          ≡ record a2.c { cur_command_state = void_command })
      × ((data_set_state libc user_at_prompt a2).g ≡ a2.g)
unfolding data_set_state data_entered commands_set_state
closes libc a2 r =
    let p = before_nul a2.data_context.gdb_prompt in
    elim (Bool-cases (eq_list p a2.data_context.gdb_prompt_last)) [
      | inl h ↦
          ground (arith, h, eq_list→≡ p a2.data_context.gdb_prompt_last h, append-nil a2.responses)
      | inr h ↦ ground (arith, h, append-nil (a2.responses ++ update_console_prompt_value p ∷ []))
    ]

sends :
    (a2 : AnnotateTwo)
    → ((send_gui a2).data_context ≡ a2.data_context)
      × ((send_gui a2).command_finished ≡ a2.command_finished)
      × ((send_gui a2).responses ≡ a2.responses ++ gui_response a2)
unfolding send_gui commands_send_gui_sources commands_send_gui_completions
sends a2 = ground (arith, append-nil a2.responses)

-- What the prompt makes of the context.
abbrev pub Prompted : Libc → List ℕ → AnnotateTwo → AnnotateTwo → Type 0
Prompted libc p before a2 =
    (a2.data_context
      ≡ record { data_state = user_at_prompt; gdb_prompt = p; gdb_prompt_last = before_nul p })
    × (a2.command_finished ≡ true)
    × (a2.responses
        ≡ ((before.responses ++ commands_finalize_command libc before.c)
            ++ prompt_response (before_nul p) before.data_context.gdb_prompt_last)
          ++ gui_response before)

handle_prompt-Prompted :
    (libc : Libc) (a2 : AnnotateTwo)
    → a2.cur_response_list ≡ true
    → Prompted libc a2.data_context.gdb_prompt a2 (handle_prompt libc (codes "prompt") a2).1
unfolding handle_prompt
handle_prompt-Prompted libc a2 r =
    let sent = respond (commands_finalize_command libc a2.c) a2 in
    let (d, f, rs, c, g) = closes libc sent r in
    let (d', f', rs') = sends (data_set_state libc user_at_prompt sent) in
    let same : gui_response (data_set_state libc user_at_prompt sent) ≡ gui_response a2 =
      ground (arith, c, g) in
    (d' ∙ d, f' ∙ f, ground (arith, rs', rs, same))

-- The pieces of a prompt.
abbrev pub prompt_pieces : List ℕ → List Piece
prompt_pieces p = note (codes "pre-prompt") ∷ text p ∷ []

interpret_prompt :
    (libc : Libc) (a2 : AnnotateTwo) (p : List ℕ)
    → a2.data_context.data_state ≢ internal_command
    → a2.cur_response_list ≡ true
    → ((interpret libc a2 (prompt_pieces p ++ note (codes "prompt") ∷ [])).1 ≡ [])
      × Prompted libc
          (without_returns p)
          a2
          (interpret libc a2 (prompt_pieces p ++ note (codes "prompt") ∷ [])).0
interpret_prompt libc a2 p n r =
    let O = data_set_state libc at_prompt a2 in
    let T = process_each O (without_returns p) in
    let H = (handle_prompt libc (codes "prompt") T.0).1 in
    let step : interpret libc a2 (prompt_pieces p ++ note (codes "prompt") ∷ []) ≡ (H, T.1 ++ []) =
      ground (arith, parse_pre_prompt libc a2, parse_prompt libc T.0) in
    let (od, (os, oc, og, oL)) = opens libc a2 n in
    let (td, (ts, tc, tg, tL), tn) = collects (without_returns p) O (ap (λ d. d.data_state) od) in
    let (hd, hf, hr) = handle_prompt-Prompted libc T.0 (tL ∙ oL ∙ r) in
    let same_prompt : T.0.data_context.gdb_prompt ≡ without_returns p = ground (arith, td, od) in
    let same_last : T.0.data_context.gdb_prompt_last ≡ a2.data_context.gdb_prompt_last =
      ground (arith, td, od) in
    (
      ground (arith, step, tn),
      (
        ground (arith, step, hd, same_prompt),
        ground (arith, step, hf),
        ground (arith, step, hr, same_prompt, same_last, ts, tc, tg, os, oc, og),
      ),
    )

-- A prompt of gdb, a text without ^Z between its two annotations and of fewer than 1024 characters
-- besides carriage returns, read while a command of tgdb's own is not running and a list of
-- responses is given, shows nothing to the user: it is stored, the command is finished, and the responses that are sent are those of the command that was
-- running, then the prompt if it is another than before, then the source files or completions that
-- were asked for.
pub handle_data_prompt :
    (libc : Libc) (a2 : AnnotateTwo) (p : List ℕ)
    → free_of ctrl_z p ≡ true
    → length (without_returns p) < gdb_prompt_size
    → a2.data_context.data_state ≢ internal_command
    → a2.cur_response_list ≡ true
    → ((handle_data libc
          (in_state in_data a2)
          (encode_all (prompt_pieces p) ++ encode (note (codes "prompt")))).1
        ≡ [])
      × Prompted libc
          (without_returns p)
          a2
          (handle_data libc
            (in_state in_data a2)
            (encode_all (prompt_pieces p) ++ encode (note (codes "prompt")))).0
handle_data_prompt libc a2 p w b n r =
    let whole = handle_data-pieces libc a2 (prompt_pieces p) (codes "prompt") (ground arith) refl in
    let (silent, (d, f, rs)) = interpret_prompt libc a2 p n r in
    (
      ground (arith, whole, silent),
      (ground (arith, whole, d), ground (arith, whole, f), ground (arith, whole, rs)),
    )
