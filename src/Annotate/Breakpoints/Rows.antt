-- ===== src/Annotate/Breakpoints/Rows.antt =====
-- lib/tgdb/annotate-two/commands.c: what a whole table of breakpoints leaves behind.
use cgdb.Base.{
  ℕ, free_of, Bool, true, false, List-cases, List, [], ◌∷◌, ◌++◌, append-nil, append_assoc, ◌≡◌,
  refl, sym, ◌∙◌, ap, arith, inl, inr, ◌&&◌, ltb, length, pos, equals,
}
use cgdb.Annotate.Context.{
  Commands, field, record_state, breakpoint_headers, breakpoint_table_begin, breakpoint_table_end,
  Libc, Response, update_breakpoints,
}
use cgdb.Annotate.Commands.{parse_pending, commands_set_state, commands_set_field_num}
use cgdb.Annotate.Names.{process_all, is_cons}
use cgdb.Annotate.Breakpoints.{
  Row, breakpoint_of, breakpoints_of, at_field, flag, at_row, at_rows, pending, is_tidy,
  parse-breakpoint_of, record_lem, read_flag, read_place, read_other,
}

-- The context behind a row: the row before it is in the list, and it stands in the context itself.
abbrev behind : Libc → Row → Commands → Commands
behind libc r c = record c {
  cur_command_state = field;
  cur_field_num = pos 5;
  breakpoint_list = c.breakpoint_list ++ breakpoint_of libc (pending c);
  breakpoint_string = r.place;
  breakpoint_enabled = r.is_enabled;
}

abbrev pub is_place : List ℕ → Bool
is_place p = is_cons p && free_of b'\n' p && free_of b'\r' p

field_number :
    (libc : Libc) (i : ℕ) (c : Commands)
    → equals (pos i) 5 ≡ false
    → (commands_set_state libc field (commands_set_field_num (pos i) c)).0
      ≡ record c { cur_field_num = pos i; cur_command_state = field }
unfolding commands_set_state commands_set_field_num
field_number libc i c e = ground arith

-- A field that is neither 3 nor 5 is passed over, whatever its text.
other_field :
    (libc : Libc) (i : ℕ) (t : List ℕ) (c : Commands)
    → equals (pos i) 3 ≡ false
    → equals (pos i) 5 ≡ false
    → at_field libc i t c ≡ record c { cur_field_num = pos i; cur_command_state = field }
other_field libc i t c e f =
    ap (λ d. process_all d t) (field_number libc i c f)
    ∙ read_other (record c { cur_field_num = pos i; cur_command_state = field }) i t refl refl e f

field_five :
    (libc : Libc) (c : Commands)
    → c.breakpoint_table ≡ true
    → c.cur_command_state ≡ field
    → (commands_set_state libc field (commands_set_field_num (pos 5) c)).0
      ≡ record c { cur_field_num = pos 5; cur_command_state = field; breakpoint_string = [] }
unfolding commands_set_state commands_set_field_num
field_five libc c t s = rw (t, s) refl

row_lem :
    (libc : Libc) (r : Row) (c : Commands)
    → c.breakpoint_table ≡ true
    → is_tidy c ≡ true
    → is_place r.place ≡ true
    → at_row libc r c ≡ behind libc r c
row_lem libc r c t tidy p =
    let c1 : Commands = record c {
      cur_command_state = record_state;
      breakpoint_list = c.breakpoint_list ++ breakpoint_of libc (pending c);
      breakpoint_string = [];
      breakpoint_enabled = false;
    } in
    let at0 : Commands = record c1 { cur_field_num = pos 0; cur_command_state = field } in
    let at1 : Commands = record at0 { cur_field_num = pos 1 } in
    let at2 : Commands = record at0 { cur_field_num = pos 2 } in
    let at3 : Commands = record at0 { cur_field_num = pos 3 } in
    let read : Commands = record at3 { breakpoint_enabled = r.is_enabled } in
    let at4 : Commands = record read { cur_field_num = pos 4 } in
    let at5 : Commands = record at4 { cur_field_num = pos 5; breakpoint_string = [] } in
    let from3 : Commands → Commands = λ d.
      at_field libc 5 r.place (at_field libc 4 r.address (at_field libc 3 (flag r.is_enabled) d)) in
    let from1 : Commands → Commands =
      λ d. from3 (at_field libc 2 r.disposition (at_field libc 1 r.kind d)) in
    let read3 : at_field libc 3 (flag r.is_enabled) at2 ≡ read =
      ap (λ d. process_all d (flag r.is_enabled)) (field_number libc 3 at2 refl)
      ∙ read_flag at3 r.is_enabled refl refl t refl in
    ap (λ d. from1 (at_field libc 0 r.number d)) (record_lem libc c tidy)
    ∙ ap from1 (other_field libc 0 r.number c1 refl refl)
    ∙ ap (λ d. from3 (at_field libc 2 r.disposition d)) (other_field libc 1 r.kind at0 refl refl)
    ∙ ap from3 (other_field libc 2 r.disposition at1 refl refl)
    ∙ ap (λ d. at_field libc 5 r.place (at_field libc 4 r.address d)) read3
    ∙ ap (at_field libc 5 r.place) (other_field libc 4 r.address read refl refl)
    ∙ ap (λ d. process_all d r.place) (field_five libc at4 t refl)
    ∙ read_place at5 r.place refl refl t (ground arith) (ground arith)

abbrev pub are_places : List Row → Bool
are_places [] = true
are_places (r ∷ rs) = is_place r.place && are_places rs

end_lem :
    (libc : Libc) (c : Commands)
    → (commands_set_state libc breakpoint_table_end c).0.breakpoint_list
      ≡ c.breakpoint_list ++ breakpoint_of libc (pending c)
unfolding commands_set_state parse_pending
end_lem libc c =
    let parsed = parse-breakpoint_of libc (record c { cur_command_state = breakpoint_table_end }) in
    elim (List-cases c.breakpoint_string) [
      | inl e ↦ rw e (sym (append-nil c.breakpoint_list))
      | inr (y, ys, e) ↦
          let some_text : ltb 0 (length c.breakpoint_string) ≡ true = ground (arith, e) in
          rw some_text (ap (λ d. d.breakpoint_list) parsed)
    ]

rows_lem :
    (libc : Libc) (rs : List Row) (c : Commands)
    → c.breakpoint_table ≡ true
    → is_tidy c ≡ true
    → are_places rs ≡ true
    → (commands_set_state libc breakpoint_table_end (at_rows libc rs c)).0.breakpoint_list
      ≡ c.breakpoint_list ++ (breakpoint_of libc (pending c) ++ breakpoints_of libc rs)
rows_lem libc [] c t tidy p =
    end_lem libc c
    ∙ ap (λ l. c.breakpoint_list ++ l) (sym (append-nil (breakpoint_of libc (pending c))))
rows_lem libc (r ∷ rs) c t tidy p =
    let kept : is_tidy (behind libc r c) ≡ true = ground (arith, p) in
    ap (λ d. (commands_set_state libc breakpoint_table_end (at_rows libc rs d)).0.breakpoint_list)
      (row_lem libc r c t tidy (ground arith))
    ∙ rows_lem libc rs (behind libc r c) t kept (ground arith)
    ∙ append_assoc c.breakpoint_list (breakpoint_of libc (pending c))
        (breakpoint_of libc r ++ breakpoints_of libc rs)

-- The whole table: headers, the beginning, the rows, and the end.
abbrev pub at_table : Libc → List Row → Commands → Commands × List Response
at_table libc rs c =
    let c1 = (commands_set_state libc breakpoint_headers c).0 in
    let c2 = (commands_set_state libc breakpoint_table_begin c1).0 in
    commands_set_state libc breakpoint_table_end (at_rows libc rs c2)

-- A table of breakpoints, with the fields 0 to 5 in every row, adds to the list what its rows say, in
-- their order: of each row whose place the expression matches, the breakpoint with the flag of that row,
-- whatever the number, the type, the disposition and the address read. At its end the front end is told.
-- No place is empty or has a line break in it, and no row is left over from before.
pub table_lem :
    (libc : Libc) (rs : List Row) (c : Commands)
    → c.breakpoint_string ≡ []
    → c.breakpoint_enabled ≡ false
    → are_places rs ≡ true
    → ((at_table libc rs c).0.breakpoint_list ≡ c.breakpoint_list ++ breakpoints_of libc rs)
      × ((at_table libc rs c).1 ≡ update_breakpoints ∷ [])
unfolding commands_set_state
table_lem libc rs c e f p =
    let c2 : Commands = record c {
      cur_command_state = breakpoint_table_begin;
      breakpoint_table = true;
      breakpoint_started = true;
    } in
    let none_left : breakpoint_of libc (pending c2) ≡ [] = rw e refl in
    (
      rows_lem libc rs c2 refl (ground (arith, f)) p
          ∙ ap (λ l. c.breakpoint_list ++ (l ++ breakpoints_of libc rs)) none_left,
      refl,
    )
