-- ===== src/Scroller/Editor.antt =====
-- cgdb/scroller.c, what `parse` promises: an editor of one line, whose text stands left and right of
-- a cursor, without arrays and indices.
use cgdb.Base.{
  ℕ, zero, suc, ◌-◌, ◌%◌, ◌||◌, List, [], ◌∷◌, ◌++◌, ◌==◌, if◌then◌else◌, length, delchar,
}
use cgdb.Scroller.{isprint, isspace}

pub record Editor : Type 0 where
  pub left : List ℕ
  pub right : List ℕ

abbrev pub behind : List ℕ → List ℕ
behind [] = []
behind (x ∷ xs) = xs

-- A character is written over the one at the cursor.
abbrev pub write : ℕ → Editor → Editor
write ch e = record { left = e.left ++ ch ∷ []; right = behind e.right }

abbrev pub write_spaces : ℕ → Editor → Editor
write_spaces zero e = e
write_spaces (suc n) e = write_spaces n (write 32 e)

-- The last character of a text, as a text.
abbrev pub last_char : List ℕ → List ℕ
last_char [] = []
last_char (x ∷ []) = x ∷ []
last_char (x ∷ y ∷ r) = last_char (y ∷ r)

-- The cursor moves back over a character, which stays.
abbrev pub step_back : Editor → Editor
step_back e = record { left = delchar e.left; right = last_char e.left ++ e.right }

abbrev pub line_start : Editor → Editor
line_start e = record { left = []; right = e.left ++ e.right }

abbrev pub edit : ℕ → Editor → Editor
edit ch e =
    if ch == 8 || ch == 127
    then step_back e
    else if ch == 9
    then write_spaces (8 - length e.left % 8) e
    else if ch == 13
    then line_start e
    else if isprint ch
    then write ch e
    else e

abbrev pub edit_all : List ℕ → Editor → Editor
edit_all [] e = e
edit_all (ch ∷ buf) e = edit_all buf (edit ch e)

-- A text without the spaces at its end.
abbrev pub drop_blanks : List ℕ → List ℕ
drop_blanks [] = []
drop_blanks (x ∷ xs) =
    let r = drop_blanks xs in elim r [ [] ↦ if isspace x then [] else x ∷ [] | y ∷ ys ↦ x ∷ y ∷ ys ]

-- Only what stands behind the character at the cursor loses its spaces.
abbrev pub tidy : List ℕ → List ℕ
tidy [] = []
tidy (x ∷ xs) = x ∷ drop_blanks xs

abbrev pub text : Editor → List ℕ
text e = e.left ++ tidy e.right
