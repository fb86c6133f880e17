-- ===== src/Tgdb/Annotated/Rises.antt =====
-- lib/tgdb/annotate-two: only the end of a command makes it ready, data.c and the handlers of annotate.c.
use cgdb.Base.{
  ℕ, Bool, true, false, List, ◌≡◌, refl, ◌∙◌, sym, ap, arith, Bool-cases, inl, inr, ◌&&◌, not,
}
use cgdb.Annotate.Context.{
  InternalState, void, at_prompt, user_at_prompt, post_prompt, user_command, gui_command,
  internal_command, AnnotateTwo, Libc,
}
use cgdb.Annotate.Data.{
  is_user_at_prompt, is_internal_command, respond, set_command_state, data_set_state, data_entered,
  with_state,
}
use cgdb.Annotate.Table.{
  Handler, handle_source, handle_misc_pre_prompt, handle_misc_prompt, handle_misc_post_prompt,
  handle_pre_prompt, handle_prompt, handle_post_prompt, handle_breakpoints_invalid,
  handle_breakpoints_headers, handle_breakpoints_table, handle_breakpoints_table_end,
  handle_unwanted_fields, handle_field, handle_record, handle_error, handle_error_begin,
  handle_quit, handle_exited, send_gui,
}
use cgdb.Annotate.Issue.{commands_finalize_command}

abbrev pub ready : AnnotateTwo → Bool
ready a2 = is_user_at_prompt a2.data_context.data_state

-- A finished command stays finished, and what gets ready has finished one.
abbrev pub Rises : AnnotateTwo → AnnotateTwo → Type 0
Rises b a =
    (b.command_finished ≡ true → a.command_finished ≡ true)
    × (ready a ≡ true → a.command_finished ≡ false → ready b ≡ true)

pub steady :
    (b a : AnnotateTwo)
    → a.data_context.data_state ≡ b.data_context.data_state
    → a.command_finished ≡ b.command_finished
    → Rises b a
steady b a e f = (λ x. f ∙ x, λ x y. ap is_user_at_prompt (sym e) ∙ x)

pub in_turn : (c b a : AnnotateTwo) → Rises c b → Rises b a → Rises c a
in_turn c b a (f, g) (f2, g2) = (
  λ x. f2 (f x),
  λ x y. elim (Bool-cases b.command_finished) [
    | inl k ↦ ground (arith, f2 k, y)
    | inr k ↦ g (g2 x y) k
  ],
)

finished_prompt :
    (libc : Libc) (a2 : AnnotateTwo)
    → (data_set_state libc user_at_prompt a2).command_finished ≡ true
unfolding data_set_state data_entered set_command_state
finished_prompt libc a2 = ground arith

pub ends_command : (b a : AnnotateTwo) → a.command_finished ≡ true → Rises b a
ends_command b a h = (λ x. h, λ x y. ground (arith, h, y))

-- A state that is not that of the user at the prompt.
leaves_prompt :
    (libc : Libc) (s : InternalState) (a2 : AnnotateTwo)
    → is_user_at_prompt s ≡ false
    → (is_user_at_prompt (data_entered libc s (with_state s a2)).data_context.data_state ≡ false)
      × ((data_entered libc s (with_state s a2)).command_finished ≡ a2.command_finished)
unfolding data_entered
leaves_prompt libc void a2 h = (refl, refl)
leaves_prompt libc at_prompt a2 h = (refl, refl)
leaves_prompt libc user_at_prompt a2 h = ground (arith, h)
leaves_prompt libc post_prompt a2 h = (refl, refl)
leaves_prompt libc user_command a2 h = (refl, refl)
leaves_prompt libc gui_command a2 h = (refl, refl)
leaves_prompt libc internal_command a2 h = (refl, refl)

pub data_set_state-Rises :
    (libc : Libc) (s : InternalState) (a2 : AnnotateTwo)
    → is_user_at_prompt s ≡ false
    → Rises a2 (data_set_state libc s a2)
unfolding data_set_state
data_set_state-Rises libc s a2 h =
    let (off, same) = leaves_prompt libc s a2 h in
    let next = data_entered libc s (with_state s a2) in
    elim (Bool-cases
      (is_internal_command a2.data_context.data_state && not (is_user_at_prompt s))) [
        | inl k ↦ rw k (steady a2 a2 refl refl)
        | inr k ↦ rw k (λ x. same ∙ x, λ x y. ground (arith, x, off))
      ]

abbrev pub HandlerRises : Handler → Type 0
HandlerRises f = (libc : Libc) (buf : List ℕ) (a2 : AnnotateTwo) → Rises a2 (f libc buf a2).1

pub handle_source-Rises : HandlerRises handle_source
unfolding handle_source
handle_source-Rises libc buf a2 =
    steady a2 (handle_source libc buf a2).1 (ground arith) (ground arith)

pub handle_misc_pre_prompt-Rises : HandlerRises handle_misc_pre_prompt
unfolding handle_misc_pre_prompt
handle_misc_pre_prompt-Rises libc buf a2 =
    elim (Bool-cases (is_internal_command a2.data_context.data_state)) [
      | inl k ↦ rw k (steady a2 a2 refl refl)
      | inr k ↦ rw k (data_set_state-Rises libc at_prompt a2 refl)
    ]

pub handle_misc_prompt-Rises : HandlerRises handle_misc_prompt
unfolding handle_misc_prompt
handle_misc_prompt-Rises libc buf a2 = ends_command a2 (handle_misc_prompt libc buf a2).1 refl

pub handle_misc_post_prompt-Rises : HandlerRises handle_misc_post_prompt
unfolding handle_misc_post_prompt
handle_misc_post_prompt-Rises libc buf a2 =
    data_set_state-Rises libc post_prompt
      (record a2 { g = record a2.g { misc_prompt_command = false } }) refl

pub handle_pre_prompt-Rises : HandlerRises handle_pre_prompt
unfolding handle_pre_prompt
handle_pre_prompt-Rises libc buf a2 = data_set_state-Rises libc at_prompt a2 refl

send_gui_finished : (a2 : AnnotateTwo) → (send_gui a2).command_finished ≡ a2.command_finished
unfolding send_gui
send_gui_finished a2 = ground arith

pub handle_prompt-Rises : HandlerRises handle_prompt
unfolding handle_prompt
handle_prompt-Rises libc buf a2 =
    let sent = respond (commands_finalize_command libc a2.c) a2 in
    let next = data_set_state libc user_at_prompt sent in
    ends_command a2 (send_gui next) (send_gui_finished next ∙ finished_prompt libc sent)

pub handle_error_begin-Rises : HandlerRises handle_error_begin
unfolding handle_error_begin
handle_error_begin-Rises libc buf a2 = ground (arith, data_set_state-Rises libc void a2 refl)

-- The annotations `post-prompt`, `error` and `quit`.
pub handle_post-Rises :
    HandlerRises handle_post_prompt × HandlerRises handle_error × HandlerRises handle_quit
unfolding handle_post_prompt handle_error handle_quit
handle_post-Rises = (
  (λ libc buf a2. data_set_state-Rises libc post_prompt a2 refl),
  (λ libc buf a2. data_set_state-Rises libc post_prompt a2 refl),
  (λ libc buf a2. data_set_state-Rises libc post_prompt a2 refl),
)

pub handle_silent-Rises :
    HandlerRises handle_breakpoints_invalid
    × HandlerRises handle_breakpoints_headers
    × HandlerRises handle_breakpoints_table
    × HandlerRises handle_breakpoints_table_end
    × HandlerRises handle_unwanted_fields
    × HandlerRises handle_field
    × HandlerRises handle_record
    × HandlerRises handle_exited
unfolding handle_breakpoints_invalid handle_breakpoints_headers handle_breakpoints_table
    handle_breakpoints_table_end handle_unwanted_fields handle_field handle_record handle_exited
    set_command_state
handle_silent-Rises = (
  (λ libc buf a2. steady a2 (handle_breakpoints_invalid libc buf a2).1 refl refl),
  (λ libc buf a2. steady a2 (handle_breakpoints_headers libc buf a2).1 refl refl),
  (λ libc buf a2. steady a2 (handle_breakpoints_table libc buf a2).1 refl refl),
  (λ libc buf a2. steady a2 (handle_breakpoints_table_end libc buf a2).1 refl refl),
  (λ libc buf a2. steady a2 (handle_unwanted_fields libc buf a2).1 refl refl),
  (λ libc buf a2. steady a2 (handle_field libc buf a2).1 refl refl),
  (λ libc buf a2. steady a2 (handle_record libc buf a2).1 refl refl),
  (λ libc buf a2. steady a2 (handle_exited libc buf a2).1 refl refl),
)
