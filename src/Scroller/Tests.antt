-- ===== src/Scroller/Tests.antt =====
-- The scroller at concrete inputs.
use cgdb.Base.{codes, ◌≡◌, refl, ℕ, suc, ◌≤◌, List, [], ◌∷◌, ◌++◌, some, length, true, false, arith}
use cgdb.Scroller.{
  Scroller, scr_new, parse, scr_add, expand_all, expand_char, fill_tab, last_kept, count, scr_end,
  add_first, add_lines, up, up_lines, scr_up, scr_down,
}
use cgdb.Scroller.Editor.{Editor}
use cgdb.Scroller.Parse.{parse-edit_all}
use cgdb.Scroller.Log.{Log, log_all, Settled}
use cgdb.Scroller.Add.{
  Shows, scr_add-Shows, add_chunks, newlines, WellFormed, add_chunks-WellFormed,
}
use cgdb.Scroller.Rows.{rows}
use cgdb.Scroller.Move.{Reached, scr_up-scr_down-Stands}
use cgdb.Scroller.Height.{get_line_height}
use cgdb.Scroller.Height.Codes.{Piece, plain, colour, get_line_height-spell}
use cgdb.Scroller.Height.Ends.{get_line_height_ends}

typed :
    parse 0 [] (codes "ab" ++ 9 ∷ 8 ∷ codes "c  " ++ 13 ∷ 120 ∷ 1 ∷ []) ≡ some (codes "xb     c", 1)
unfolding parse expand_all expand_char fill_tab last_kept count
typed = refl

abbrev shown : Scroller
shown = record {
  buffer = codes "one" ∷ codes "xwo words" ∷ codes "" ∷ codes "g" ∷ [];
  r = 3;
  c = 0;
  pos = 1;
}

added :
    scr_add 4 scr_new
      (codes "one" ++ 10 ∷ codes "two words" ++ 13 ∷ codes "x" ++ 10 ∷ 10 ∷ codes "g")
    ≡ some shown
unfolding scr_add add_first add_lines parse expand_all expand_char fill_tab last_kept count scr_end
added = refl

moved_up : scr_up 4 shown 3 ≡ record shown { r = 1; c = 4 }
unfolding scr_up up_lines up
moved_up = refl

abbrev typing : Editor
typing = record { left = codes "ab"; right = codes "c d" }

abbrev tabbed : List ℕ
tabbed = 8 ∷ 9 ∷ 127 ∷ codes "x"

parse-edit_all_example : parse 2 (codes "abc d") tabbed ≡ some (codes "a      x", 8)
parse-edit_all_example = parse-edit_all typing tabbed (refl, refl)

abbrev one_line : Log
one_line = record {
  lines = codes "one" ∷ [];
  current = record { left = codes "t"; right = codes "wo" };
}

abbrev one_shown : Scroller
one_shown = record { buffer = codes "one" ∷ codes "two" ∷ []; r = 1; c = 0; pos = 1 }

abbrev arriving : List ℕ
arriving = 13 ∷ codes "three" ++ 10 ∷ codes "f"

scr_add-Shows_example :
    (next : Scroller) × (scr_add 80 one_shown arriving ≡ some next)
    × Shows next (log_all arriving one_line)
    × Settled (log_all arriving one_line)
    × (next.r ≡ 2)
scr_add-Shows_example =
    scr_add-Shows 80 one_shown one_line arriving (refl, refl) (refl, (refl, refl), refl)

abbrev output : List (List ℕ)
output = (codes "ab" ++ 10 ∷ []) ∷ (10 ∷ 9 ∷ []) ∷ codes "c" ∷ []

add_chunks-WellFormed_example :
    (last : Scroller) × (add_chunks 80 scr_new output ≡ some last)
    × WellFormed last
    × (length last.buffer ≡ suc (newlines output))
add_chunks-WellFormed_example = add_chunks-WellFormed 80 output

-- The rows are `one`, `xwo `, `word`, `s` and the empty line.
abbrev wrapped : Scroller
wrapped = record { buffer = codes "one" ∷ codes "xwo words" ∷ codes "" ∷ []; r = 1; c = 8; pos = 0 }

scr_up-scr_down-Stands_example :
    Reached 4 wrapped.buffer 1 (scr_up 4 wrapped 2)
    × Reached 4 wrapped.buffer 4 (scr_down 4 wrapped 2)
scr_up-scr_down-Stands_example =
    scr_up-scr_down-Stands 4 wrapped 3 2 (omega arith) (omega arith, (2, refl, omega arith, refl))

abbrev coloured : List Piece
coloured =
    colour (codes "1") (codes "31")
    ∷ plain 65
    ∷ plain 66
    ∷ plain 67
    ∷ colour (codes "0") (codes "0")
    ∷ []

get_line_height-spell_example : get_line_height true (codes "[1;31mABC[0;0m") 2 ≡ some 2
get_line_height-spell_example = get_line_height-spell coloured 2 (omega arith) refl

get_line_height_ends_example :
    ((v : ℕ) × (get_line_height true (codes "[[1;2mx") 3 ≡ some (rows 3 v)) × (v ≤ 7))
    × (get_line_height false (codes "[[1;2mx") 3 ≡ some 3)
get_line_height_ends_example = get_line_height_ends true (codes "[[1;2mx") 3 (omega arith)
