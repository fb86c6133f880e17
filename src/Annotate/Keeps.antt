-- ===== src/Annotate/Keeps.antt =====
-- The handlers of lib/tgdb/annotate-two/annotate.c and the state machine.
use cgdb.Base.{ℕ, true, false, List, [], ◌∷◌, ◌≡◌, refl, ◌∙◌, ap, arith}
use cgdb.Annotate.Context.{
  InternalState, void_command, void, at_prompt, user_at_prompt, post_prompt, user_command,
  gui_command, internal_command, AnnotateTwo, Libc, StateMachine,
}
use cgdb.Annotate.Issue.{commands_finalize_command}
use cgdb.Annotate.Data.{
  respond, set_command_state, data_set_state, data_entered, update_prompt, with_state,
}
use cgdb.Annotate.Table.{
  Handler, handle_source, handle_misc_pre_prompt, handle_misc_prompt, handle_misc_post_prompt,
  handle_pre_prompt, handle_prompt, handle_post_prompt, handle_breakpoints_invalid,
  handle_breakpoints_headers, handle_breakpoints_table, handle_breakpoints_table_end,
  handle_unwanted_fields, handle_field, handle_record, handle_error, handle_error_begin,
  handle_quit, handle_exited, send_gui, Annotation, annotations, dispatch, tgdb_parse_annotation,
}

-- The machine in another state.
abbrev pub with_sm : StateMachine → AnnotateTwo → AnnotateTwo
with_sm m a2 = record a2 { sm = m }

update_prompt-with_sm :
    (m : StateMachine) (a2 : AnnotateTwo)
    → update_prompt (with_sm m a2) ≡ with_sm m (update_prompt a2)
unfolding update_prompt
update_prompt-with_sm m a2 = ground arith

data_entered-with_sm :
    (libc : Libc) (s : InternalState) (m : StateMachine) (a2 : AnnotateTwo)
    → data_entered libc s (with_sm m a2) ≡ with_sm m (data_entered libc s a2)
unfolding data_entered
data_entered-with_sm libc void m a2 = refl
data_entered-with_sm libc at_prompt m a2 = refl
data_entered-with_sm libc user_at_prompt m a2 =
    ap (λ b. set_command_state libc void_command (record b { command_finished = true }))
      (update_prompt-with_sm m a2)
data_entered-with_sm libc post_prompt m a2 = refl
data_entered-with_sm libc user_command m a2 = refl
data_entered-with_sm libc gui_command m a2 = refl
data_entered-with_sm libc internal_command m a2 = refl

data_set_state-with_sm :
    (libc : Libc) (s : InternalState) (m : StateMachine) (a2 : AnnotateTwo)
    → data_set_state libc s (with_sm m a2) ≡ with_sm m (data_set_state libc s a2)
unfolding data_set_state
data_set_state-with_sm libc s m a2 = ground (arith, data_entered-with_sm libc s m (with_state s a2))

-- A handler neither reads nor changes the machine.
abbrev KeepsMachine : Handler → Type 0
KeepsMachine f =
    (libc : Libc) (buf : List ℕ) (m : StateMachine) (a2 : AnnotateTwo)
    → f libc buf (with_sm m a2) ≡ ((f libc buf a2).0, with_sm m (f libc buf a2).1)

handle_source-sm : KeepsMachine handle_source
unfolding handle_source
handle_source-sm libc buf m a2 = ground arith

handle_misc_pre_prompt-sm : KeepsMachine handle_misc_pre_prompt
unfolding handle_misc_pre_prompt
handle_misc_pre_prompt-sm libc buf m a2 = ground (arith, data_set_state-with_sm libc at_prompt m a2)

handle_misc_prompt-sm : KeepsMachine handle_misc_prompt
unfolding handle_misc_prompt
handle_misc_prompt-sm libc buf m a2 =
    ap (λ b. (true, record b { command_finished = true }))
      (data_set_state-with_sm libc user_at_prompt m
        (record a2 { g = record a2.g { misc_prompt_command = true } }))

handle_misc_post_prompt-sm : KeepsMachine handle_misc_post_prompt
unfolding handle_misc_post_prompt
handle_misc_post_prompt-sm libc buf m a2 =
    ap (λ b. (true, b))
      (data_set_state-with_sm libc post_prompt m
        (record a2 { g = record a2.g { misc_prompt_command = false } }))

handle_pre_prompt-sm : KeepsMachine handle_pre_prompt
unfolding handle_pre_prompt
handle_pre_prompt-sm libc buf m a2 =
    ap (λ b. (true, b)) (data_set_state-with_sm libc at_prompt m a2)

send_gui-with_sm :
    (m : StateMachine) (a2 : AnnotateTwo) → send_gui (with_sm m a2) ≡ with_sm m (send_gui a2)
unfolding send_gui
send_gui-with_sm m a2 = ground arith

handle_prompt-sm : KeepsMachine handle_prompt
unfolding handle_prompt
handle_prompt-sm libc buf m a2 =
    let sent = respond (commands_finalize_command libc a2.c) a2 in
    ap (λ b. (true, send_gui b)) (data_set_state-with_sm libc user_at_prompt m sent)
    ∙ ap (λ b. (true, b)) (send_gui-with_sm m (data_set_state libc user_at_prompt sent))

handle_post_prompt-sm : KeepsMachine handle_post_prompt
unfolding handle_post_prompt
handle_post_prompt-sm libc buf m a2 =
    ap (λ b. (true, b)) (data_set_state-with_sm libc post_prompt m a2)

handle_error-sm : KeepsMachine handle_error
unfolding handle_error
handle_error-sm libc buf m a2 = ap (λ b. (true, b)) (data_set_state-with_sm libc post_prompt m a2)

handle_error_begin-sm : KeepsMachine handle_error_begin
unfolding handle_error_begin
handle_error_begin-sm libc buf m a2 = ground (arith, data_set_state-with_sm libc void m a2)

handle_quit-sm : KeepsMachine handle_quit
unfolding handle_quit
handle_quit-sm libc buf m a2 = ap (λ b. (true, b)) (data_set_state-with_sm libc post_prompt m a2)

handle_silent-sm :
    KeepsMachine handle_breakpoints_invalid
    × KeepsMachine handle_breakpoints_headers
    × KeepsMachine handle_breakpoints_table
    × KeepsMachine handle_breakpoints_table_end
    × KeepsMachine handle_unwanted_fields
    × KeepsMachine handle_field
    × KeepsMachine handle_record
    × KeepsMachine handle_exited
unfolding handle_breakpoints_invalid handle_breakpoints_headers handle_breakpoints_table
    handle_breakpoints_table_end handle_unwanted_fields handle_field handle_record handle_exited
    set_command_state
handle_silent-sm = (
  (λ libc buf m a2. refl),
  (λ libc buf m a2. refl),
  (λ libc buf m a2. refl),
  (λ libc buf m a2. refl),
  (λ libc buf m a2. refl),
  (λ libc buf m a2. refl),
  (λ libc buf m a2. refl),
  (λ libc buf m a2. refl),
)

abbrev AllKeep : List Annotation → Type 0
AllKeep [] = Unit {0}
AllKeep (r ∷ rs) = KeepsMachine r.f × AllKeep rs

infixr 40 ◌&◌
pub ◌&◌ : {A B : Type 0} → A → B → A × B
a & b = (a, b)

annotations-AllKeep : AllKeep annotations
unfolding annotations
annotations-AllKeep =
    let (i, h, t, e, u, f, r, x) = handle_silent-sm in
    let q = handle_misc_pre_prompt-sm in
    let p = handle_misc_prompt-sm in
    let o = handle_misc_post_prompt-sm in
    handle_source-sm & q & p & o & q & p & o & q & p & o & q & p & o & q & p & o
    & handle_pre_prompt-sm & handle_prompt-sm & handle_post_prompt-sm & i & h & e & t & u & f & r
    & handle_error_begin-sm & handle_error-sm & handle_quit-sm & x & tt

dispatch-with_sm :
    (rs : List Annotation) (libc : Libc) (buf : List ℕ) (m : StateMachine) (a2 : AnnotateTwo)
    → AllKeep rs
    → dispatch rs libc buf (with_sm m a2) ≡ with_sm m (dispatch rs libc buf a2)
unfolding dispatch
dispatch-with_sm [] libc buf m a2 k = refl
dispatch-with_sm (r ∷ rs) libc buf m a2 (k, ks) = ground (
  arith,
  k libc buf m a2,
  dispatch-with_sm rs libc buf m a2 ks,
  dispatch-with_sm rs libc buf m (r.f libc buf a2).1 ks,
)

-- An annotation neither reads nor changes the machine.
pub parse_annotation-with_sm :
    (libc : Libc) (buf : List ℕ) (m : StateMachine) (a2 : AnnotateTwo)
    → tgdb_parse_annotation libc buf (with_sm m a2) ≡ with_sm m (tgdb_parse_annotation libc buf a2)
unfolding tgdb_parse_annotation
parse_annotation-with_sm libc buf m a2 =
    dispatch-with_sm annotations libc buf m a2 annotations-AllKeep

pub tgdb_parse_annotation-sm :
    (libc : Libc) (buf : List ℕ) (a2 : AnnotateTwo) → (tgdb_parse_annotation libc buf a2).sm ≡ a2.sm
tgdb_parse_annotation-sm libc buf a2 = ap (λ b. b.sm) (parse_annotation-with_sm libc buf a2.sm a2)
