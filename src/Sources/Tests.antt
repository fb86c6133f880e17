-- ===== src/Sources/Tests.antt =====
-- cgdb/sources.c at concrete inputs.
use cgdb.Base.{
  map, ℕ, ◌<◌, List, [], ◌∷◌, length, Bool, true, false, some, ◌≡◌, refl, arith, codes, pos,
}
use cgdb.Annotate.Context.{Breakpoint}
use cgdb.Sources.{
  Files, Source, Sviewer, get_relative_node, update_breakpoints, source_new, read_lines,
}
use cgdb.Sources.Marks.{nth, update_breakpoints_lem}
use cgdb.Sources.Run
use cgdb.Sources.Run.{added, related, executed, marked, scrolled, reloaded, run_new-IsValid}
use cgdb.Sources.Keep.{IsValid}

-- Three lines for every path, without colours.
abbrev files : Files
files = record {
  modified = λ p. some 5;
  content = λ p. some (codes "one\ntwo\r\nthree\r");
  highlight = λ p lines. lines;
}

-- A carriage return in front of a newline stays in the line, and one at the end of the file does not.
returns_stay :
    read_lines 4095 [] (codes "one\ntwo\r\nthree\r")
    ≡ codes "one" ∷ codes "two\r" ∷ codes "three" ∷ []
unfolding read_lines
returns_stay = refl

abbrev at : ℕ → Bool → Breakpoint
at n on = record { file = codes "a.c"; funcname = codes "f"; line = pos n; enabled = on }

-- A breakpoint in the first line, and one in the second that is disabled after it was enabled.
abbrev breakpoints : List Breakpoint
breakpoints = at 1 true ∷ at 2 true ∷ at 2 false ∷ []

abbrev main : Source
main = record {
  address = 0;
  path = codes "/a.c";
  lpath = some (codes "a.c");
  tlines = some (codes "one" ∷ codes "two" ∷ []);
  buf_length = 2;
  breakpts = 0 ∷ 1 ∷ [];
  sel_line = pos 0;
  sel_rline = pos 0;
  exe_line = pos 0;
  last_modification = 5;
}

abbrev viewer : Sviewer
viewer = record { list_head = main ∷ []; cur = some 0; fresh = 1 }

update_breakpoints_lem_example :
    (n' : Source) × (get_relative_node (update_breakpoints files viewer breakpoints) (codes "a.c")
      ≡ some n')
    × (n'.tlines ≡ some (codes "one" ∷ codes "two" ∷ []))
    × (n'.buf_length ≡ length n'.breakpts)
    × (1 < n'.buf_length)
    × (nth n'.breakpts 1 ≡ 2)
update_breakpoints_lem_example =
    update_breakpoints_lem files viewer breakpoints main (codes "one" ∷ codes "two" ∷ []) 1
      (codes "a.c") refl refl refl (omega arith)

-- The files a while later, newer and of one line.
abbrev later : Files
later = record files { modified = λ p. some 6; content = λ p. some (codes "four\n") }

abbrev uses : List (Files × Run.Op)
uses =
    (files, executed (some (codes "/a.c")) (pos 2))
    ∷ (files, related (codes "/a.c") (codes "a.c"))
    ∷ (files, marked breakpoints)
    ∷ (later, reloaded true (codes "/a.c") true)
    ∷ (later, executed (some (codes "/b.c")) (pos 9))
    ∷ (files, scrolled (pos 3))
    ∷ []

-- The file that changed is read again.
read_again : map (λ n. n.buf_length) (Run.run source_new uses).list_head ≡ 1 ∷ 1 ∷ []
unfolding cgdb.Sources.source_vscroll cgdb.Sources.source_set_exec_line cgdb.Sources.source_reload
    update_breakpoints cgdb.Sources.source_set_relative_path cgdb.Sources.load_text
read_again = refl

run_new-IsValid_example : IsValid (Run.run source_new uses)
run_new-IsValid_example = run_new-IsValid uses
