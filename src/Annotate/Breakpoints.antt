-- ===== src/Annotate/Breakpoints.antt =====
-- lib/tgdb/annotate-two/commands.c: the table of breakpoints, row by row.
pub mod Rows
use cgdb.Base.{
  ℕ, free_of, Bool, true, false, Option, Option-cases, List-cases, none, some, List, [], ◌∷◌, ◌++◌,
  append-nil, append_assoc, ◌≡◌, refl, sym, ◌∙◌, ap, arith, Bool-cases, inl, inr, not, ◌&&◌, ◌||◌,
  before_nul, ltb, length, codes, ◌==◌, if◌then◌else◌, ℤ, pos, equals,
}
use cgdb.Annotate.Context.{
  Commands, CommandState, field, record_state, breakpoint_headers, breakpoint_table_begin,
  breakpoint_table_end, Breakpoint, Libc, Response, update_breakpoints,
}
use cgdb.Annotate.Commands.{
  contains, is_field, parse_breakpoint, parse_pending, commands_set_state, entered,
  commands_set_field_num, commands_process, process_in, process_breakpoint,
}
use cgdb.Annotate.Names.{process_all, is_cons}

-- A row of gdb: the texts of its fields 0 to 5, the third being the flag of whether it is enabled and
-- the last one the place.
pub record Row : Type 0 where
  pub number : List ℕ
  pub kind : List ℕ
  pub disposition : List ℕ
  pub is_enabled : Bool
  pub address : List ℕ
  pub place : List ℕ

-- What the row says: the breakpoint that the expression finds in a place with ` at ` in it.
abbrev pub breakpoint_of : Libc → Row → List Breakpoint
breakpoint_of libc r =
    if contains (before_nul r.place) (codes " at ")
    then elim (libc.match_breakpoint (before_nul r.place)) [
      | none ↦ []
      | some m ↦
          (record { file = m.1; funcname = m.0; line = libc.atoi m.2; enabled = r.is_enabled }) ∷ []
    ]
    else []

abbrev pub breakpoints_of : Libc → List Row → List Breakpoint
breakpoints_of libc [] = []
breakpoints_of libc (r ∷ rs) = breakpoint_of libc r ++ breakpoints_of libc rs

-- The annotations `record` and `field`, with the text behind them.
abbrev pub at_record : Libc → Commands → Commands
at_record libc c = (commands_set_state libc record_state c).0

abbrev pub at_field : Libc → ℕ → List ℕ → Commands → Commands
at_field libc i t c =
    process_all (commands_set_state libc field (commands_set_field_num (pos i) c)).0 t

abbrev pub flag : Bool → List ℕ
flag true = b'y' ∷ []
flag false = b'n' ∷ []

abbrev pub at_row : Libc → Row → Commands → Commands
at_row libc r c =
    let c0 = at_field libc 0 r.number (at_record libc c) in
    let c1 = at_field libc 1 r.kind c0 in
    let c2 = at_field libc 2 r.disposition c1 in
    let c3 = at_field libc 3 (flag r.is_enabled) c2 in
    at_field libc 5 r.place (at_field libc 4 r.address c3)

abbrev pub at_rows : Libc → List Row → Commands → Commands
at_rows libc [] c = c
at_rows libc (r ∷ rs) c = at_rows libc rs (at_row libc r c)

-- The row that stands in the context and is not yet in the list.
abbrev pub pending : Commands → Row
pending c = record {
  number = [];
  kind = [];
  disposition = [];
  is_enabled = c.breakpoint_enabled;
  address = [];
  place = c.breakpoint_string;
}

-- A flag without a place does not occur.
abbrev pub is_tidy : Commands → Bool
is_tidy c = is_cons c.breakpoint_string || not c.breakpoint_enabled

pub parse-breakpoint_of :
    (libc : Libc) (c : Commands)
    → parse_breakpoint libc c
      ≡ record c { breakpoint_list = c.breakpoint_list ++ breakpoint_of libc (pending c) }
unfolding parse_breakpoint
parse-breakpoint_of libc c =
    let text = before_nul c.breakpoint_string in
    elim (Bool-cases (contains text (codes " at "))) [
      | inr h ↦ ground (arith, h, append-nil c.breakpoint_list)
      | inl h ↦ elim (Option-cases (libc.match_breakpoint text)) [
        | inl e ↦ ground (arith, h, e, append-nil c.breakpoint_list)
        | inr (m, e) ↦ rw (h, e) refl
      ]
    ]

abbrev emptied : Commands → Commands
emptied c = record c { breakpoint_string = []; breakpoint_enabled = false }

pub record_lem :
    (libc : Libc) (c : Commands)
    → is_tidy c ≡ true
    → at_record libc c ≡ record c {
      cur_command_state = record_state;
      breakpoint_list = c.breakpoint_list ++ breakpoint_of libc (pending c);
      breakpoint_string = [];
      breakpoint_enabled = false;
    }
unfolding commands_set_state
record_lem libc c t =
    let parsed = parse-breakpoint_of libc (record c { cur_command_state = record_state }) in
    elim (List-cases c.breakpoint_string) [
      | inl e ↦
          let unset : c.breakpoint_enabled ≡ false = ground (arith, t, e) in
          rw (e, unset)
            (sym (
              ap
                (λ l. record c {
                  cur_command_state = record_state;
                  breakpoint_list = l;
                  breakpoint_string = [];
                  breakpoint_enabled = false;
                })
                (append-nil c.breakpoint_list)))
      | inr (y, ys, e) ↦
          let some_text : ltb 0 (length c.breakpoint_string) ≡ true = ground (arith, e) in
          rw some_text (ap emptied parsed)
    ]

-- The text of a field that is neither 3 nor 5.
pub read_other :
    (c : Commands) (i : ℕ) (t : List ℕ)
    → c.cur_command_state ≡ field
    → c.cur_field_num ≡ pos i
    → equals (pos i) 3 ≡ false
    → equals (pos i) 5 ≡ false
    → process_all c t ≡ c
unfolding commands_process process_breakpoint
read_other c i [] s n e f = refl
read_other c i (a ∷ t) s n e f =
    ap (λ d. process_all d t) {x = commands_process c a} {y = c} (ground (arith, s, n, e, f))
    ∙ read_other c i t s n e f

-- The texts of fields 3 and 5.
pub read_flag :
    (c : Commands) (b : Bool)
    → c.cur_command_state ≡ field
    → c.cur_field_num ≡ pos 3
    → c.breakpoint_table ≡ true
    → c.breakpoint_enabled ≡ false
    → process_all c (flag b) ≡ record c { breakpoint_enabled = b }
unfolding commands_process process_breakpoint
read_flag c true s n t e = rw (s, n, t) refl
read_flag c false s n t e = ground (arith, s, n, t, e)

read_char :
    (c : Commands) (a : ℕ)
    → c.cur_command_state ≡ field
    → c.cur_field_num ≡ pos 5
    → c.breakpoint_table ≡ true
    → (a == b'\n') ≡ false
    → (a == b'\r') ≡ false
    → commands_process c a ≡ record c { breakpoint_string = c.breakpoint_string ++ a ∷ [] }
unfolding commands_process process_breakpoint
read_char c a s n t f g = rw (s, n, t, f, g) refl

pub read_place :
    (c : Commands) (p : List ℕ)
    → c.cur_command_state ≡ field
    → c.cur_field_num ≡ pos 5
    → c.breakpoint_table ≡ true
    → free_of b'\n' p ≡ true
    → free_of b'\r' p ≡ true
    → process_all c p ≡ record c { breakpoint_string = c.breakpoint_string ++ p }
read_place c [] s n t f g =
    ap (λ x. record c { breakpoint_string = x }) (sym (append-nil c.breakpoint_string))
read_place c (a ∷ p) s n t f g =
    ap (λ d. process_all d p) (read_char c a s n t (ground arith) (ground arith))
    ∙ read_place (record c { breakpoint_string = c.breakpoint_string ++ a ∷ [] }) p s n t
        (ground arith) (ground arith)
    ∙ ap (λ x. record c { breakpoint_string = x }) (append_assoc c.breakpoint_string (a ∷ []) p)
