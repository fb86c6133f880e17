-- ===== src/Annotate/Located.antt =====
-- lib/tgdb/annotate-two/commands.c: the two lines of 'info source' that name the source file.
use cgdb.Base.{
  ℕ, free_of, true, false, List, [], ◌∷◌, ◌++◌, append-nil, append_assoc, ◌≡◌, refl, sym, ◌∙◌, ap,
  arith, codes, ◌==◌, ◌&&◌, Bool, not, starts_with,
}
use cgdb.Annotate.Context.{Commands, info_source_relative}
use cgdb.Annotate.Commands.{
  commands_process, commands_process_info_source, info_source_line, source_prefix,
  source_relative_prefix,
}
use cgdb.Annotate.Names.{process_all, before_nul-free}

process_all-append :
    (c : Commands) (xs ys : List ℕ) → process_all c (xs ++ ys) ≡ process_all (process_all c xs) ys
process_all-append c [] ys = refl
process_all-append c (x ∷ xs) ys = process_all-append (commands_process c x) xs ys

in_line :
    (c : Commands) (a : ℕ)
    → c.cur_command_state ≡ info_source_relative
    → c.info_source_ready ≡ false
    → (a == b'\n') ≡ false
    → (a == b'\r') ≡ false
    → commands_process c a ≡ record c { info_source_string = c.info_source_string ++ a ∷ [] }
unfolding commands_process commands_process_info_source
in_line c a s r n m = rw (s, r, m, n) refl

line_ends :
    (c : Commands)
    → c.cur_command_state ≡ info_source_relative
    → c.info_source_ready ≡ false
    → commands_process c b'\n' ≡ info_source_line c
unfolding commands_process commands_process_info_source
line_ends c s r = rw (s, r) refl

process_line :
    (c : Commands) (t : List ℕ)
    → c.cur_command_state ≡ info_source_relative
    → c.info_source_ready ≡ false
    → free_of b'\n' t ≡ true
    → free_of b'\r' t ≡ true
    → process_all c (t ++ b'\n' ∷ [])
      ≡ info_source_line (record c { info_source_string = c.info_source_string ++ t })
process_line c [] s r f g =
    line_ends c s r
    ∙ ap (λ x. info_source_line (record c { info_source_string = x }))
        (sym (append-nil c.info_source_string))
process_line c (a ∷ t) s r f g =
    ap (λ x. process_all x (t ++ b'\n' ∷ [])) (in_line c a s r (ground arith) (ground arith))
    ∙ process_line (record c { info_source_string = c.info_source_string ++ a ∷ [] }) t s r
        (ground arith) (ground arith)
    ∙ ap (λ x. info_source_line (record c { info_source_string = x }))
        (append_assoc c.info_source_string (a ∷ []) t)

ignored :
    (c : Commands) (rest : List ℕ)
    → c.cur_command_state ≡ info_source_relative
    → c.info_source_ready ≡ true
    → process_all c rest ≡ c
ignored c [] s r = refl
ignored c (a ∷ rest) s r = ap (λ x. process_all x rest) one ∙ ignored c rest s r
  where
    one : commands_process c a ≡ c
    one = unfold commands_process commands_process_info_source in ground (arith, s, r)

abbrev pub relative_line : List ℕ → List ℕ
relative_line p = codes "Current source file is " ++ p

abbrev pub absolute_line : List ℕ → List ℕ
absolute_line p = codes "Located in " ++ p

relative_lem :
    (c : Commands) (p : List ℕ)
    → free_of 0 p ≡ true
    → info_source_line (record c { info_source_string = relative_line p }) ≡ record c {
      info_source_string = [];
      info_source_relative_path = c.info_source_relative_path ++ p;
    }
unfolding info_source_line
relative_lem c p z =
    ap
      (λ x. record c {
        info_source_string = [];
        info_source_relative_path = c.info_source_relative_path ++ x;
      })
      (before_nul-free p z)

absolute_lem :
    (c : Commands) (p : List ℕ)
    → free_of 0 p ≡ true
    → info_source_line (record c { info_source_string = absolute_line p }) ≡ record c {
      info_source_string = [];
      info_source_absolute_path = c.info_source_absolute_path ++ p;
      info_source_ready = true;
    }
unfolding info_source_line
absolute_lem c p z =
    ap
      (λ x. record c {
        info_source_string = [];
        info_source_absolute_path = c.info_source_absolute_path ++ x;
        info_source_ready = true;
      })
      (before_nul-free p z)

-- A line that names neither path, without a line break.
abbrev pub is_other : List ℕ → Bool
is_other l =
    not (starts_with l source_prefix)
    && (not (starts_with l source_relative_prefix) && (free_of b'\n' l && free_of b'\r' l))

abbrev pub are_other : List (List ℕ) → Bool
are_other [] = true
are_other (l ∷ ls) = is_other l && are_other ls

abbrev pub as_line : List ℕ → List ℕ
as_line l = l ++ b'\n' ∷ []

abbrev pub as_lines : List (List ℕ) → List ℕ
as_lines [] = []
as_lines (l ∷ ls) = as_line l ++ as_lines ls

abbrev cleared : Commands → Commands
cleared c = record c { info_source_string = [] }

both : (a b : Bool) → a && b ≡ true → (a ≡ true) × (b ≡ true)
both a b h = (ground arith, ground arith)

-- What is known of a line that names neither path.
is_other_lem :
    (l : List ℕ)
    → is_other l ≡ true
    → (starts_with l source_prefix ≡ false)
      × (starts_with l source_relative_prefix ≡ false)
      × (free_of b'\n' l ≡ true)
      × (free_of b'\r' l ≡ true)
is_other_lem l o =
    split (starts_with l source_prefix) (starts_with l source_relative_prefix) (free_of b'\n' l)
      (free_of b'\r' l) o
  where
    split :
        (a b c d : Bool)
        → not a && (not b && (c && d)) ≡ true
        → (a ≡ false) × (b ≡ false) × (c ≡ true) × (d ≡ true)
    split a b c d h = (ground arith, ground arith, ground arith, ground arith)

other_lem :
    (c : Commands) (l : List ℕ)
    → is_other l ≡ true
    → info_source_line (record c { info_source_string = l }) ≡ cleared c
unfolding info_source_line
other_lem c l o = let (n, m, f, g) = is_other_lem l o in rw (n, m) refl

-- Lines that name neither path leave nothing behind.
others_lem :
    (c : Commands) (ls : List (List ℕ))
    → c.cur_command_state ≡ info_source_relative
    → c.info_source_ready ≡ false
    → are_other ls ≡ true
    → process_all (cleared c) (as_lines ls) ≡ cleared c
others_lem c [] s r o = refl
others_lem c (l ∷ ls) s r o =
    let (h, t) = both (is_other l) (are_other ls) o in
    let (n, m, f, g) = is_other_lem l h in
    process_all-append (cleared c) (as_line l) (as_lines ls)
    ∙ ap (λ x. process_all x (as_lines ls)) (process_line (cleared c) l s r f g ∙ other_lem c l h)
    ∙ others_lem c ls s r t

-- The lines before a line that names a path, and that line, in front of what follows.
through :
    (c after : Commands) (ls : List (List ℕ)) (l rest : List ℕ)
    → c.cur_command_state ≡ info_source_relative
    → c.info_source_ready ≡ false
    → are_other ls ≡ true
    → free_of b'\n' l && free_of b'\r' l ≡ true
    → info_source_line (record c { info_source_string = l }) ≡ after
    → process_all (cleared c) (as_lines ls ++ (as_line l ++ rest)) ≡ process_all after rest
through c after ls l rest s r o f e =
    process_all-append (cleared c) (as_lines ls) (as_line l ++ rest)
    ∙ ap (λ x. process_all x (as_line l ++ rest)) (others_lem c ls s r o)
    ∙ process_all-append (cleared c) (as_line l) rest
    ∙ ap (λ x. process_all x rest)
        (process_line (cleared c) l s r (ground arith) (ground arith) ∙ e)

abbrev pub is_path : List ℕ → Bool
is_path p = free_of 0 p && (free_of b'\n' p && free_of b'\r' p)

-- Of the lines of 'info source', the one that names the relative path and the one after it that names
-- the absolute path store these two paths. The lines before the first and between the two that name
-- neither leave nothing behind, and whatever gdb prints behind them is not looked at. The paths have no
-- line break and no 0 in them, and the other lines no carriage return.
pub info_source_lem :
    (c : Commands) (before between : List (List ℕ)) (relative absolute rest : List ℕ)
    → c.cur_command_state ≡ info_source_relative
    → c.info_source_ready ≡ false
    → c.info_source_string ≡ []
    → are_other before ≡ true
    → are_other between ≡ true
    → is_path relative ≡ true
    → is_path absolute ≡ true
    → process_all c (
        as_lines before
        ++ (as_line (relative_line relative)
            ++ (as_lines between ++ (as_line (absolute_line absolute) ++ rest))))
      ≡ record c {
        info_source_relative_path = c.info_source_relative_path ++ relative;
        info_source_absolute_path = c.info_source_absolute_path ++ absolute;
        info_source_ready = true;
      }
info_source_lem c before between relative absolute rest s r e o q f g =
    let last = as_line (absolute_line absolute) ++ rest in
    let text =
      as_lines before ++ (as_line (relative_line relative) ++ (as_lines between ++ last)) in
    let after1 : Commands = record c {
      info_source_string = [];
      info_source_relative_path = c.info_source_relative_path ++ relative;
    } in
    let after2 : Commands = record after1 {
      info_source_absolute_path = c.info_source_absolute_path ++ absolute;
      info_source_ready = true;
    } in
    ap (λ x. process_all (record c { info_source_string = x }) text) e
    ∙ through c after1 before (relative_line relative) (as_lines between ++ last) s r o
        (ground arith) (relative_lem c relative (ground arith))
    ∙ through after1 after2 between (absolute_line absolute) rest s r q (ground arith)
        (absolute_lem after1 absolute (ground arith))
    ∙ ignored after2 rest s refl
    ∙ ap (λ x. record after2 { info_source_string = x }) (sym e)
