-- ===== src/Tgdb/Annotated/Turn.antt =====
-- lib/tgdb: commands are sent to gdb in turn, tgdb-base and annotate-two together.
use cgdb.Base.{
  ℕ, Bool, true, false, List, [], ◌≡◌, refl, ◌∙◌, sym, ap, arith, Bool-cases, inl, inr, ◌≤◌, suc,
  length, Option, none, some,
}
use cgdb.Annotate.Context.{
  AnnotateTwo, Libc, AnnotateCommand, user_command, internal_command, CommandChoice, InternalState,
  ClientCommand, annotate_list, annotate_info_line, void_command,
}
use cgdb.Annotate.Data.{
  commands_prepare_for_command, data_set_state, set_command_state, is_internal_command,
  is_user_at_prompt, data_entered,
}
use cgdb.Annotate.Issue.{commands_user_ran_command, commands_issue_command}
use cgdb.Annotate.Table.{appended}
use cgdb.Annotate.Prepare.{prepare_for_command-internal}
use cgdb.Tgdb.{Tgdb}
use cgdb.Tgdb.Turn.{Event, Waits}
use cgdb.Tgdb.Run.{run, finished, run_bound}
use cgdb.Tgdb.Annotated.{
  a2_client, issue, then_issue, a2_get_source_filename_pair, a2_get_current_location,
  a2_get_inferior_sources, a2_completion_callback, a2_user_ran_command,
}
use cgdb.Tgdb.Annotated.Rises.{ready}
use cgdb.Tgdb.Annotated.Annotations.{parse_io-ready}

busy_internal :
    (libc : Libc) (a2 : AnnotateTwo)
    → (ready (data_set_state libc internal_command a2) ≡ false)
      × (ready (data_set_state libc user_command a2) ≡ false)
unfolding data_set_state data_entered
busy_internal libc a2 = elim (Bool-cases (is_internal_command a2.data_context.data_state)) [
  | inl k ↦ (
    rw k (internal_busy a2.data_context.data_state k),
    rw k (internal_busy a2.data_context.data_state k),
  )
  | inr k ↦ (rw k refl, rw k refl)
]
  where
    internal_busy : (s : InternalState) → is_internal_command s ≡ true → is_user_at_prompt s ≡ false
    internal_busy InternalState.internal_command k = refl
    internal_busy InternalState.void k = refl
    internal_busy InternalState.at_prompt k = refl
    internal_busy InternalState.user_at_prompt k = ground (arith, k)
    internal_busy InternalState.post_prompt k = refl
    internal_busy InternalState.user_command k = refl
    internal_busy InternalState.gui_command k = refl

prepare_busy :
    (libc : Libc) (p : Option AnnotateCommand) (a2 : AnnotateTwo)
    → ready (commands_prepare_for_command libc p a2).1 ≡ false
unfolding commands_prepare_for_command set_command_state cgdb.Annotate.Commands.commands_set_state
prepare_busy libc none a2 =
    let a3 = set_command_state libc void_command a2 in
    let a4 = record a3 { g = record a3.g { list_started = false } } in
    ground (arith, busy_internal libc a4)
prepare_busy libc (some command) a2 =
    let (ok, e, c) = prepare_for_command-internal libc command a2 in ap is_user_at_prompt e

ready-appended : (o : Option ClientCommand) (a2 : AnnotateTwo) → ready (appended o a2).1 ≡ ready a2
unfolding appended
ready-appended none a2 = refl
ready-appended (some command) a2 = refl

ready-issue :
    (command : AnnotateCommand) (text : Option (List ℕ)) (oob : CommandChoice) (a2 : AnnotateTwo)
    → ready (issue command text oob a2).1 ≡ ready a2
ready-issue command text oob a2 =
    let p = commands_issue_command command text oob a2.c in
    ready-appended p.1 (record a2 { c = p.0 })

ready-then_issue :
    (r : Bool × AnnotateTwo) (command : AnnotateCommand) (text : Option (List ℕ))
    → ready (then_issue r command text).1 ≡ ready r.1
ready-then_issue (false, a2) command text = refl
ready-then_issue (true, a2) command text = ready-issue command text CommandChoice.tgdb_client a2

location_ready :
    (start : Bool) (a2 : AnnotateTwo) → ready (a2_get_current_location start a2).1 ≡ ready a2
unfolding a2_get_current_location
location_ready true a2 =
    ready-then_issue (issue annotate_list none CommandChoice.tgdb_client a2) annotate_info_line none
    ∙ ready-issue annotate_list none CommandChoice.tgdb_client a2
location_ready false a2 = ready-issue annotate_info_line none CommandChoice.tgdb_client a2

pub a2_client-Waits : (libc : Libc) (decimal : ℕ → List ℕ) → Waits (a2_client libc decimal)
unfolding a2_client a2_get_source_filename_pair a2_get_inferior_sources a2_completion_callback
    a2_user_ran_command
a2_client-Waits libc decimal = record {
  sent = λ command s h. prepare_busy libc command.private_data s;
  refused = λ command s h. ground (arith, h, prepare_busy libc command.private_data s);
  parsed = λ input s h r. parse_io-ready libc input s h r;
  cleared = λ s h. h;
  ran = λ s h.
      sym (
        ready-appended (commands_user_ran_command s.c).1
          (record s { c = (commands_user_ran_command s.c).0 }))
      ∙ h;
  sources = λ s h. sym (ready-issue _ _ _ s) ∙ h;
  pair = λ file s h.
      sym (
        ready-then_issue (issue annotate_list (some file) CommandChoice.tgdb_client s) _ _
        ∙ ready-issue annotate_list (some file) CommandChoice.tgdb_client s)
      ∙ h;
  location = λ start s h. sym (location_ready start s) ∙ h;
  completed = λ text s h. sym (ready-issue _ _ _ s) ∙ h;
}

-- However requests of the front end, output of gdb and signals come, tgdb with annotate-two as its
-- client never sends gdb more commands than gdb has finished and one, counted from a state in which it
-- has sent none.
pub a2_run_bound :
    (libc : Libc) (decimal : ℕ → List ℕ) (es : List Event) (t : Tgdb AnnotateTwo AnnotateCommand)
    → t.debugger_stdin ≡ []
    → length (run (a2_client libc decimal) t es).debugger_stdin
      ≤ suc (finished (a2_client libc decimal) t es)
a2_run_bound libc decimal es t h =
    run_bound (a2_client libc decimal) (a2_client-Waits libc decimal) es t h
