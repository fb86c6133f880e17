-- ===== src/Annotate/Silent.antt =====
-- lib/tgdb/annotate-two while tgdb runs a command of its own: the data state INTERNAL_COMMAND.
pub mod Output
use cgdb.Base.{
  free_of, ℕ, Bool, true, false, List, [], ◌∷◌, ◌++◌, ◌≡◌, refl, ◌∙◌, ap, arith, Bool-cases, inl,
  inr, not, ◌&&◌, ◌||◌, starts_with, codes,
}
use cgdb.Annotate.Context.{
  InternalState, in_data, void, at_prompt, post_prompt, internal_command, AnnotateTwo, Libc,
}
use cgdb.Annotate.Data.{
  set_command_state, data_set_state, is_user_at_prompt, data_process, process_data,
}
use cgdb.Annotate.Table.{
  Handler, handle_source, handle_misc_pre_prompt, handle_misc_prompt, handle_misc_post_prompt,
  handle_pre_prompt, handle_prompt, handle_post_prompt, handle_breakpoints_invalid,
  handle_breakpoints_headers, handle_breakpoints_table, handle_breakpoints_table_end,
  handle_unwanted_fields, handle_field, handle_record, handle_error, handle_error_begin,
  handle_quit, handle_exited, Annotation, annotations, dispatch, tgdb_parse_annotation,
}
use cgdb.Annotate.Machine.{process_each, handle_data}
use cgdb.Annotate.Stream.{without_returns}
use cgdb.Annotate.Frames.{Piece, text, note, interpret, encode, encode_all, well_formed, in_state}
use cgdb.Annotate.Frames.Pieces.{handle_data-pieces}
use cgdb.Annotate.Keeps.{◌&◌}

-- The data state is not changed but by USER_AT_PROMPT.
guarded :
    (libc : Libc) (s : InternalState) (a2 : AnnotateTwo)
    → a2.data_context.data_state ≡ internal_command
    → is_user_at_prompt s ≡ false
    → data_set_state libc s a2 ≡ a2
unfolding data_set_state
guarded libc s a2 e n = ground arith

abbrev KeepsData : Handler → Type 0
KeepsData f =
    (libc : Libc) (buf : List ℕ) (a2 : AnnotateTwo)
    → a2.data_context.data_state ≡ internal_command
    → (f libc buf a2).1.data_context ≡ a2.data_context

handle_source-data : KeepsData handle_source
unfolding handle_source
handle_source-data libc buf a2 e = ground arith

handle_misc_pre_prompt-data : KeepsData handle_misc_pre_prompt
unfolding handle_misc_pre_prompt
handle_misc_pre_prompt-data libc buf a2 e = ground arith

handle_misc_post_prompt-data : KeepsData handle_misc_post_prompt
unfolding handle_misc_post_prompt
handle_misc_post_prompt-data libc buf a2 e =
    ap (λ b. b.data_context)
      (guarded libc post_prompt (record a2 { g = record a2.g { misc_prompt_command = false } }) e
        refl)

handle_pre_prompt-data : KeepsData handle_pre_prompt
unfolding handle_pre_prompt
handle_pre_prompt-data libc buf a2 e = ap (λ b. b.data_context) (guarded libc at_prompt a2 e refl)

handle_error_begin-data : KeepsData handle_error_begin
unfolding handle_error_begin
handle_error_begin-data libc buf a2 e = ground (arith, guarded libc void a2 e refl)

-- The annotations `post-prompt`, `error` and `quit`.
handle_post-data : KeepsData handle_post_prompt × KeepsData handle_error × KeepsData handle_quit
unfolding handle_post_prompt handle_error handle_quit
handle_post-data = (
  (λ libc buf a2 e. ap (λ b. b.data_context) (guarded libc post_prompt a2 e refl)),
  (λ libc buf a2 e. ap (λ b. b.data_context) (guarded libc post_prompt a2 e refl)),
  (λ libc buf a2 e. ap (λ b. b.data_context) (guarded libc post_prompt a2 e refl)),
)

handle_silent-data :
    KeepsData handle_breakpoints_invalid
    × KeepsData handle_breakpoints_headers
    × KeepsData handle_breakpoints_table
    × KeepsData handle_breakpoints_table_end
    × KeepsData handle_unwanted_fields
    × KeepsData handle_field
    × KeepsData handle_record
    × KeepsData handle_exited
unfolding handle_breakpoints_invalid handle_breakpoints_headers handle_breakpoints_table
    handle_breakpoints_table_end handle_unwanted_fields handle_field handle_record handle_exited
    set_command_state
handle_silent-data = (
  (λ libc buf a2 e. refl),
  (λ libc buf a2 e. refl),
  (λ libc buf a2 e. refl),
  (λ libc buf a2 e. refl),
  (λ libc buf a2 e. refl),
  (λ libc buf a2 e. refl),
  (λ libc buf a2 e. refl),
  (λ libc buf a2 e. refl),
)

-- The names of the annotations that mean that gdb waits for the user.
abbrev prompts : List (List ℕ)
prompts =
    codes "commands"
    ∷ codes "overload-choice"
    ∷ codes "instance-choice"
    ∷ codes "query"
    ∷ codes "prompt-for-continue"
    ∷ codes "prompt"
    ∷ []

abbrev starts_with_any : List ℕ → List (List ℕ) → Bool
starts_with_any buf [] = false
starts_with_any buf (n ∷ ns) = starts_with buf n || starts_with_any buf ns

abbrev pub is_prompt : List ℕ → Bool
is_prompt buf = starts_with_any buf prompts

abbrev Quiet : List ℕ → Annotation → Type 0
Quiet buf r = (starts_with buf r.name ≡ true) → KeepsData r.f

abbrev AllQuiet : List ℕ → List Annotation → Type 0
AllQuiet buf [] = Unit {0}
AllQuiet buf (r ∷ rs) = Quiet buf r × AllQuiet buf rs

-- A row that does not match promises nothing.
unmatched : (f : Handler) (matches : Bool) → matches ≡ false → (matches ≡ true) → KeepsData f
unmatched f matches u v libc buf a2 e = ground arith

not_any :
    (buf : List ℕ)
    → is_prompt buf ≡ false
    → (starts_with buf (codes "commands") ≡ false)
      × (starts_with buf (codes "overload-choice") ≡ false)
      × (starts_with buf (codes "instance-choice") ≡ false)
      × (starts_with buf (codes "query") ≡ false)
      × (starts_with buf (codes "prompt-for-continue") ≡ false)
      × (starts_with buf (codes "prompt") ≡ false)
not_any buf n =
    split (starts_with buf (codes "commands")) (starts_with buf (codes "overload-choice"))
      (starts_with buf (codes "instance-choice")) (starts_with buf (codes "query"))
      (starts_with buf (codes "prompt-for-continue")) (starts_with buf (codes "prompt")) n
  where
    split :
        (a b c d e f : Bool)
        → (a || (b || (c || (d || (e || (f || false)))))) ≡ false
        → (a ≡ false) × (b ≡ false) × (c ≡ false) × (d ≡ false) × (e ≡ false) × (f ≡ false)
    split a b c d e f h = ground arith

annotations-AllQuiet : (buf : List ℕ) → is_prompt buf ≡ false → AllQuiet buf annotations
unfolding annotations
annotations-AllQuiet buf n =
    let (i, h, t, e, u, f, r, x) = handle_silent-data in
    let (post, error, quit) = handle_post-data in
    let (c1, c2, c3, c4, c5, c6) = not_any buf n in
    let q = handle_misc_pre_prompt-data in
    let o = handle_misc_post_prompt-data in
    let p = handle_misc_prompt in
    (λ _. handle_source-data)
    & (λ _. q)
    & unmatched p (starts_with buf (codes "commands")) c1
    & (λ _. o)
    & (λ _. q)
    & unmatched p (starts_with buf (codes "overload-choice")) c2
    & (λ _. o)
    & (λ _. q)
    & unmatched p (starts_with buf (codes "instance-choice")) c3
    & (λ _. o)
    & (λ _. q)
    & unmatched p (starts_with buf (codes "query")) c4
    & (λ _. o)
    & (λ _. q)
    & unmatched p (starts_with buf (codes "prompt-for-continue")) c5
    & (λ _. o)
    & (λ _. handle_pre_prompt-data)
    & unmatched handle_prompt (starts_with buf (codes "prompt")) c6
    & (λ _. post)
    & (λ _. i)
    & (λ _. h)
    & (λ _. e)
    & (λ _. t)
    & (λ _. u)
    & (λ _. f)
    & (λ _. r)
    & (λ _. handle_error_begin-data)
    & (λ _. error)
    & (λ _. quit)
    & (λ _. x)
    & tt

dispatch-data :
    (rs : List Annotation) (libc : Libc) (buf : List ℕ) (a2 : AnnotateTwo)
    → AllQuiet buf rs
    → a2.data_context.data_state ≡ internal_command
    → (dispatch rs libc buf a2).data_context ≡ a2.data_context
unfolding dispatch
dispatch-data [] libc buf a2 k e = refl
dispatch-data (r ∷ rs) libc buf a2 (k, ks) e = elim (Bool-cases (starts_with buf r.name)) [
  | inl h ↦
      let kept : (r.f libc buf a2).1.data_context ≡ a2.data_context = k h libc buf a2 e in
      ground (
        arith,
        h,
        kept,
        dispatch-data rs libc buf (r.f libc buf a2).1 ks (ap (λ d. d.data_state) kept ∙ e),
      )
  | inr h ↦ ground (arith, h, dispatch-data rs libc buf a2 ks e)
]

-- An annotation that is no prompt leaves the data context of an internal command alone.
pub annotation_silent :
    (libc : Libc) (buf : List ℕ) (a2 : AnnotateTwo)
    → is_prompt buf ≡ false
    → a2.data_context.data_state ≡ internal_command
    → (tgdb_parse_annotation libc buf a2).data_context ≡ a2.data_context
unfolding tgdb_parse_annotation
annotation_silent libc buf a2 n e =
    dispatch-data annotations libc buf a2 (annotations-AllQuiet buf n) e
