-- ===== src/Annotate/Frames/Text.antt =====
-- Text between annotations, in lib/tgdb/annotate-two/state_machine.c.
use cgdb.Base.{
  free_of, ℕ, true, false, List, [], ◌∷◌, ◌++◌, append_assoc, append-nil, ◌≡◌, refl, arith, ◌==◌,
  if◌then◌else◌,
}
use cgdb.Annotate.Context.{
  InternalState, void, at_prompt, user_at_prompt, post_prompt, user_command, gui_command,
  internal_command, MachineState, in_data, new_line, control_z, annotation, nl_data, AnnotateTwo,
  Libc, StateMachine,
}
use cgdb.Annotate.Data.{data_process, process_data}
use cgdb.Annotate.Machine.{ctrl_z, process_each, on_newline, on_char, handle_char, handle_data}
use cgdb.Annotate.Keeps.{with_sm}
use cgdb.Annotate.Stream.{without_returns}
use cgdb.Annotate.Frames.{machine, in_state, held, between}

data_process-with_sm :
    (m : StateMachine) (a2 : AnnotateTwo) (a : ℕ)
    → data_process (with_sm m a2) a ≡ (with_sm m (data_process a2 a).0, (data_process a2 a).1)
unfolding data_process
data_process-with_sm m a2 a = at a2.data_context.data_state
  where
    at :
        (s : InternalState)
        → process_data s (with_sm m a2) a
          ≡ (with_sm m (process_data s a2 a).0, (process_data s a2 a).1)
    at void = unfold process_data in refl
    at at_prompt = unfold process_data in refl
    at user_at_prompt = unfold process_data in refl
    at post_prompt = unfold process_data in refl
    at user_command = unfold process_data in refl
    at gui_command = unfold process_data in refl
    at internal_command = unfold process_data in refl

pub process_each-nil : (a2 : AnnotateTwo) → process_each a2 [] ≡ (a2, [])
unfolding process_each
process_each-nil a2 = refl

pub process_each-with_sm :
    (m : StateMachine) (a2 : AnnotateTwo) (xs : List ℕ)
    → process_each (with_sm m a2) xs ≡ (with_sm m (process_each a2 xs).0, (process_each a2 xs).1)
unfolding process_each
process_each-with_sm m a2 [] = refl
process_each-with_sm m a2 (x ∷ xs) =
    ground (arith, data_process-with_sm m a2 x, process_each-with_sm m (data_process a2 x).0 xs)

pub process_each-append :
    (a2 : AnnotateTwo) (xs ys : List ℕ)
    → process_each a2 (xs ++ ys) ≡ (
      (process_each (process_each a2 xs).0 ys).0,
      (process_each a2 xs).1 ++ (process_each (process_each a2 xs).0 ys).1,
    )
unfolding process_each
process_each-append a2 [] ys = refl
process_each-append a2 (x ∷ xs) ys = ground (
  arith,
  process_each-append (data_process a2 x).0 xs ys,
  append_assoc (data_process a2 x).1 (process_each (data_process a2 x).0 xs).1
      (process_each (process_each (data_process a2 x).0 xs).0 ys).1,
)

-- The state behind a character of a text, and what of it is passed on at once.
abbrev after : MachineState → ℕ → MachineState
after s c = if c == b'\r' then s else if c == b'\n' then new_line else in_data

abbrev passed : MachineState → ℕ → List ℕ
passed s c = if c == b'\r' then [] else if c == b'\n' then held s else held s ++ c ∷ []

text_step :
    (libc : Libc) (s : MachineState) (a2 : AnnotateTwo) (c : ℕ)
    → between s ≡ true
    → (c == ctrl_z) ≡ false
    → handle_char libc (in_state s a2) c
      ≡ (in_state (after s c) (process_each a2 (passed s c)).0, (process_each a2 (passed s c)).1)
unfolding handle_char on_newline on_char
text_step libc in_data a2 c b n =
    ground (arith, process_each-nil a2, process_each-with_sm (machine in_data) a2 (c ∷ []))
text_step libc new_line a2 c b n = ground (
  arith,
  process_each-nil a2,
  process_each-with_sm (machine in_data) a2 (b'\n' ∷ c ∷ []),
  process_each-with_sm (machine new_line) a2 (b'\n' ∷ []),
)
text_step libc nl_data a2 c b n =
    ground (arith, process_each-nil a2, process_each-with_sm (machine in_data) a2 (c ∷ []))
text_step libc control_z a2 c b n = ground arith
text_step libc annotation a2 c b n = ground arith

between-after : (s : MachineState) (c : ℕ) → between s ≡ true → between (after s c) ≡ true
between-after s c b = ground arith

-- What a text passes on, and the state behind it.
abbrev pub after_all : MachineState → List ℕ → MachineState
after_all s [] = s
after_all s (c ∷ cs) = after_all (after s c) cs

abbrev pub passed_all : MachineState → List ℕ → List ℕ
passed_all s [] = []
passed_all s (c ∷ cs) = passed s c ++ passed_all (after s c) cs

pub between-after_all :
    (s : MachineState) (cs : List ℕ) → between s ≡ true → between (after_all s cs) ≡ true
between-after_all s [] b = b
between-after_all s (c ∷ cs) b = between-after_all (after s c) cs (between-after s c b)

pub passed_all-held :
    (s : MachineState) (cs : List ℕ)
    → between s ≡ true
    → passed_all s cs ++ held (after_all s cs) ≡ held s ++ without_returns cs
passed_all-held s [] b = ground (arith, append-nil (held s))
passed_all-held s (c ∷ cs) b = ground (
  arith,
  passed_all-held (after s c) cs (between-after s c b),
  append_assoc (passed s c) (passed_all (after s c) cs) (held (after_all (after s c) cs)),
  append_assoc (held s) (c ∷ []) (without_returns cs),
)

pub handle_text :
    (libc : Libc) (s : MachineState) (a2 : AnnotateTwo) (cs : List ℕ)
    → between s ≡ true
    → free_of ctrl_z cs ≡ true
    → handle_data libc (in_state s a2) cs ≡ (
      in_state (after_all s cs) (process_each a2 (passed_all s cs)).0,
      (process_each a2 (passed_all s cs)).1,
    )
unfolding handle_data
handle_text libc s a2 [] b n = ground (arith, process_each-nil a2)
handle_text libc s a2 (c ∷ cs) b n = ground (
  arith,
  text_step libc s a2 c b (ground arith),
  handle_text libc (after s c) (process_each a2 (passed s c)).0 cs (between-after s c b)
      (ground arith),
  process_each-append a2 (passed s c) (passed_all (after s c) cs),
)
