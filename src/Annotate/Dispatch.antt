-- ===== src/Annotate/Dispatch.antt =====
-- lib/tgdb/annotate-two/annotate.c: which handler an annotation reaches.
use cgdb.Base.{
  ℕ, Bool, true, List, [], ◌∷◌, ◌++◌, ◌≡◌, refl, arith, starts_with, ◌==◌, if◌then◌else◌, Option,
  none, some, Bool-cases, inl, inr, append-nil, ==→≡, subst, sym, ap, ◌-◌,
}
use cgdb.Annotate.Context.{AnnotateTwo, Libc}
use cgdb.Annotate.Issue.{commands_parse_source}
use cgdb.Annotate.Table.{
  Handler, handle_source, handle_misc_pre_prompt, handle_misc_prompt, handle_misc_post_prompt,
  handle_pre_prompt, handle_prompt, handle_post_prompt, handle_breakpoints_invalid,
  handle_breakpoints_headers, handle_breakpoints_table, handle_breakpoints_table_end,
  handle_unwanted_fields, handle_field, handle_record, handle_error, handle_error_begin,
  handle_quit, handle_exited, Annotation, annotations, dispatch, tgdb_parse_annotation,
}
use cgdb.Annotate.Keeps.{◌&◌}

-- The first row whose name the text begins with.
abbrev first_row : List Annotation → List ℕ → Option Annotation
first_row [] buf = none
first_row (r ∷ rs) buf = if starts_with buf r.name then some r else first_row rs buf

-- The name of a row ends where the text ends or at a space.
abbrev delimited : List ℕ → Bool
delimited [] = true
delimited (c ∷ cs) = c == b' '

-- A handler never returns -1.
abbrev Succeeds : Handler → Type 0
Succeeds f = (libc : Libc) (buf : List ℕ) (a2 : AnnotateTwo) → (f libc buf a2).0 ≡ true

handle_source-Succeeds : Succeeds handle_source
unfolding handle_source commands_parse_source
handle_source-Succeeds libc buf a2 = refl

simple-Succeed :
    Succeeds handle_misc_pre_prompt
    × Succeeds handle_misc_prompt
    × Succeeds handle_misc_post_prompt
    × Succeeds handle_error_begin
unfolding handle_misc_pre_prompt handle_misc_prompt handle_misc_post_prompt handle_error_begin
simple-Succeed =
    ((λ libc buf a2. refl), (λ libc buf a2. refl), (λ libc buf a2. refl), (λ libc buf a2. refl))

-- A row is the first that its own name matches, and its handler succeeds.
abbrev OwnRow : Annotation → Type 0
OwnRow r =
    (first_row annotations r.name ≡ some r)
    × ((cs : List ℕ) → first_row annotations (r.name ++ b' ' ∷ cs) ≡ some r)
    × Succeeds r.f

abbrev AllOwn : List Annotation → Type 0
AllOwn [] = Unit {0}
AllOwn (r ∷ rs) = OwnRow r × AllOwn rs

annotations-AllOwn : AllOwn annotations
unfolding annotations handle_pre_prompt handle_prompt handle_post_prompt handle_breakpoints_invalid
    handle_breakpoints_headers handle_breakpoints_table handle_breakpoints_table_end
    handle_unwanted_fields handle_field handle_record handle_error handle_quit handle_exited
annotations-AllOwn =
    let (pre, at, post, error) = simple-Succeed in
    (refl, (λ cs. refl), handle_source-Succeeds)
    & (refl, (λ cs. refl), pre)
    & (refl, (λ cs. refl), at)
    & (refl, (λ cs. refl), post)
    & (refl, (λ cs. refl), pre)
    & (refl, (λ cs. refl), at)
    & (refl, (λ cs. refl), post)
    & (refl, (λ cs. refl), pre)
    & (refl, (λ cs. refl), at)
    & (refl, (λ cs. refl), post)
    & (refl, (λ cs. refl), pre)
    & (refl, (λ cs. refl), at)
    & (refl, (λ cs. refl), post)
    & (refl, (λ cs. refl), pre)
    & (refl, (λ cs. refl), at)
    & (refl, (λ cs. refl), post)
    & (refl, (λ cs. refl), (λ libc buf a2. refl))
    & (refl, (λ cs. refl), (λ libc buf a2. refl))
    & (refl, (λ cs. refl), (λ libc buf a2. refl))
    & (refl, (λ cs. refl), (λ libc buf a2. refl))
    & (refl, (λ cs. refl), (λ libc buf a2. refl))
    & (refl, (λ cs. refl), (λ libc buf a2. refl))
    & (refl, (λ cs. refl), (λ libc buf a2. refl))
    & (refl, (λ cs. refl), (λ libc buf a2. refl))
    & (refl, (λ cs. refl), (λ libc buf a2. refl))
    & (refl, (λ cs. refl), (λ libc buf a2. refl))
    & (refl, (λ cs. refl), error)
    & (refl, (λ cs. refl), (λ libc buf a2. refl))
    & (refl, (λ cs. refl), (λ libc buf a2. refl))
    & (refl, (λ cs. refl), (λ libc buf a2. refl))
    & tt

abbrev row_at : List Annotation → ℕ → Option Annotation
row_at [] i = none
row_at (r ∷ rs) i = if i == 0 then some r else row_at rs (i - 1)

found : (q r : Annotation) → ◌≡◌ {A = Option Annotation} (some q) (some r) → q ≡ r
found q r p = ap {A = Option Annotation} (λ o. elim o [ none ↦ q | some x ↦ x ]) p

own_row :
    (rs : List Annotation) (i : ℕ) (r : Annotation) → AllOwn rs → row_at rs i ≡ some r → OwnRow r
own_row [] i r k e = (ground arith, (λ cs. ground arith), (λ libc buf a2. ground arith))
own_row (q ∷ rs) i r (k, ks) e = elim (Bool-cases (i == 0)) [
  | inl h ↦
      let p : some q ≡ some r = ground (arith, h) in subst OwnRow {x = q} {y = r} (found q r p) k
  | inr h ↦ own_row rs (i - 1) r ks (ground (arith, h))
]

dispatch-first_row :
    (rs : List Annotation) (libc : Libc) (buf : List ℕ) (a2 : AnnotateTwo) (r : Annotation)
    → first_row rs buf ≡ some r
    → (r.f libc buf a2).0 ≡ true
    → dispatch rs libc buf a2 ≡ (r.f libc buf a2).1
unfolding dispatch
dispatch-first_row [] libc buf a2 r e s = ground arith
dispatch-first_row (q ∷ rs) libc buf a2 r e s = elim (Bool-cases (starts_with buf q.name)) [
  | inl h ↦
      let p : some q ≡ some r = ground (arith, h) in
      subst (λ x. dispatch (q ∷ rs) libc buf a2 ≡ (x.f libc buf a2).1) {x = q} {y = r} (found q r p)
        (ground
          (arith, h, subst (λ x. (x.f libc buf a2).0 ≡ true) {x = r} {y = q} (sym (found q r p)) s))
  | inr h ↦ ground (arith, h, dispatch-first_row rs libc buf a2 r (ground arith) s)
]

-- Every row of the table is reached by its own name, alone or with arguments behind a space: no
-- row before it takes the annotation, and none behind it is tried.
pub parse_annotation-own_row :
    (libc : Libc) (a2 : AnnotateTwo) (i : ℕ) (r : Annotation) (arguments : List ℕ)
    → row_at annotations i ≡ some r
    → delimited arguments ≡ true
    → tgdb_parse_annotation libc (r.name ++ arguments) a2 ≡ (r.f libc (r.name ++ arguments) a2).1
unfolding tgdb_parse_annotation
parse_annotation-own_row libc a2 i r [] e d =
    let (o, _, s) = own_row annotations i r annotations-AllOwn e in
    ground (
      arith,
      append-nil r.name,
      dispatch-first_row annotations libc r.name a2 r o (s libc r.name a2),
    )
parse_annotation-own_row libc a2 i r (c ∷ cs) e d =
    let (_, o, s) = own_row annotations i r annotations-AllOwn e in
    let b : c ≡ b' ' = ==→≡ c b' ' d in
    rw (
      b,
      dispatch-first_row annotations libc (r.name ++ b' ' ∷ cs) a2 r (o cs)
          (s libc (r.name ++ b' ' ∷ cs) a2),
    )
