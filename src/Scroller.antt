-- ===== src/Scroller.antt =====
-- cgdb/scroller.c: the buffer of lines that the gdb window shows. A line is a C string; while it is
-- changed it is an array with the size that malloc was asked for. A store outside an array gives
-- `none`. Codes are those of ASCII, and the window is a parameter, `width` columns wide.
pub mod Editor
pub mod Array
pub mod Trim
pub mod Parse
pub mod Log
pub mod Add
pub mod Rows
pub mod Move
pub mod Height
mod Tests
use cgdb.Base.{
  ℕ, zero, suc, ◌+◌, ◌-◌, ◌*◌, ◌/◌, ◌%◌, Bool, true, false, ◌||◌, ◌&&◌, not, List, [], ◌∷◌, ◌++◌,
  ltb, leb, ◌==◌, if◌then◌else◌, before_nul, length, Option, none, some, ◌>>=◌,
}

pub record Scroller : Type 0 where
  pub buffer : List (List ℕ)
  pub r : ℕ
  pub c : ℕ
  pub pos : ℕ

-- `count`.
unfoldable pub count : List ℕ → ℕ → ℕ
count [] c = 0
count (x ∷ s) c = if x == c then suc (count s c) else count s c

-- `isprint` and `isspace`, in the C locale.
abbrev pub isprint : ℕ → Bool
isprint c = leb 32 c && ltb c 127

abbrev pub isspace : ℕ → Bool
isspace c = c == 32 || (leb 9 c && leb c 13)

abbrev pub zeros : ℕ → List ℕ
zeros zero = []
zeros (suc n) = 0 ∷ zeros n

-- `rv[i] = x`.
abbrev pub put : List ℕ → ℕ → ℕ → Option (List ℕ)
put [] i x = none
put (y ∷ rv) zero x = some (x ∷ rv)
put (y ∷ rv) (suc i) x = do rest ← put rv i x; some (y ∷ rest)

-- `rv[j]`.
abbrev pub at : List ℕ → ℕ → ℕ
at [] i = 0
at (y ∷ rv) zero = y
at (y ∷ rv) (suc i) = at rv i

-- The case of a tab, with at most `n` rounds.
unfoldable pub fill_tab : ℕ → List ℕ → ℕ → Option (List ℕ × ℕ)
fill_tab zero rv i = none
fill_tab (suc n) rv i = do
  filled ← put rv i 32
  if suc i % 8 == 0 then some (filled, suc i) else fill_tab n filled (suc i)

-- The switch of `parse` on one character. A tab takes at most 8 rounds.
unfoldable pub expand_char : ℕ → List ℕ → ℕ → Option (List ℕ × ℕ)
unfolding fill_tab
expand_char ch rv i =
    if ch == 8 || ch == 127
    then some (rv, if ltb 0 i then i - 1 else i)
    else if ch == 9
    then fill_tab 8 rv i
    else if ch == 13
    then some (rv, 0)
    else if isprint ch
    then (do stored ← put rv i ch; some (stored, suc i))
    else some (rv, i)

unfoldable pub expand_all : List ℕ → List ℕ → ℕ → Option (List ℕ × ℕ)
unfolding expand_char
expand_all [] rv i = some (rv, i)
expand_all (ch ∷ buf) rv i = do next ← expand_char ch rv i; expand_all buf next.0 next.1

-- The loop at the end of `parse`, from j = n - 1 down: its result is j + 1.
unfoldable pub last_kept : List ℕ → ℕ → ℕ → ℕ
last_kept rv i zero = 0
last_kept rv i (suc j) = if ltb i j && isspace (at rv j) then last_kept rv i j else suc j

-- `parse`: the new line and the new `current.pos`.
unfoldable pub parse : ℕ → List ℕ → List ℕ → Option (List ℕ × ℕ)
unfolding count expand_all last_kept
parse pos orig buf =
    let size = length orig + length buf + 7 * count buf 9 in
    do
      (rv, i) ← expand_all buf (orig ++ zeros (size - length orig + 1)) pos
      cut ← put rv (last_kept rv i (length (before_nul rv))) 0
      some (before_nul cut, i)

-- `scr_new`.
abbrev pub scr_new : Scroller
scr_new = record { buffer = [] ∷ []; r = 0; c = 0; pos = 0 }

-- `buffer[i]`.
abbrev pub line_at : List (List ℕ) → ℕ → List ℕ
line_at [] i = []
line_at (l ∷ ls) zero = l
line_at (l ∷ ls) (suc i) = line_at ls i

-- `buffer[i] = l`.
abbrev pub put_line : List (List ℕ) → ℕ → List ℕ → List (List ℕ)
put_line [] i l = []
put_line (x ∷ ls) zero l = l ∷ ls
put_line (x ∷ ls) (suc i) l = x ∷ put_line ls i l

-- What `scr_up`, `scr_down` and `scr_refresh` do first with the column.
abbrev pub align : ℕ → ℕ → ℕ
align width c = if ltb 0 c && not (c % width == 0) then (c / width) * width else c

-- One round of the loop of `scr_up`: `none` at the top.
unfoldable pub up : ℕ → Scroller → Option Scroller
up width scr =
    if ltb 0 scr.c
    then some (record scr { c = scr.c - width })
    else if ltb 0 scr.r
    then (let len = length (line_at scr.buffer (scr.r - 1)) in
        some (record scr {
          r = scr.r - 1;
          c = if ltb width len then ((len - 1) / width) * width else scr.c;
        }))
    else none

unfoldable pub up_lines : ℕ → ℕ → Scroller → Scroller
unfolding up
up_lines width zero scr = scr
up_lines width (suc n) scr = elim (up width scr) [ none ↦ scr | some s ↦ up_lines width n s ]

-- `scr_up`.
unfoldable pub scr_up : ℕ → Scroller → ℕ → Scroller
unfolding up_lines
scr_up width scr nlines = up_lines width nlines (record scr { c = align width scr.c })

-- One round of the loop of `scr_down`: `none` at the bottom.
unfoldable pub down : ℕ → Scroller → Option Scroller
down width scr =
    if ltb (scr.c + width) (length (line_at scr.buffer scr.r))
    then some (record scr { c = scr.c + width })
    else if ltb (scr.r + 1) (length scr.buffer)
    then some (record scr { r = scr.r + 1; c = 0 })
    else none

unfoldable pub down_lines : ℕ → ℕ → Scroller → Scroller
unfolding down
down_lines width zero scr = scr
down_lines width (suc n) scr = elim (down width scr) [ none ↦ scr | some s ↦ down_lines width n s ]

-- `scr_down`.
unfoldable pub scr_down : ℕ → Scroller → ℕ → Scroller
unfolding down_lines
scr_down width scr nlines = down_lines width nlines (record scr { c = align width scr.c })

-- `scr_home`.
unfoldable pub scr_home : Scroller → Scroller
scr_home scr = record scr { r = 0; c = 0 }

-- `scr_end`.
unfoldable pub scr_end : ℕ → Scroller → Scroller
scr_end width scr =
    let last = length scr.buffer - 1 in
    record scr { r = last; c = (length (line_at scr.buffer last) / width) * width }

-- The text in front of the next newline, and what `strchr (buf, '\n')` finds: the text behind it.
abbrev pub before_newline : List ℕ → List ℕ
before_newline [] = []
before_newline (x ∷ buf) = if x == 10 then [] else x ∷ before_newline buf

abbrev pub after_newline : List ℕ → Option (List ℕ)
after_newline [] = none
after_newline (x ∷ buf) = if x == 10 then some buf else after_newline buf

-- The first part of `scr_add`: the last line of the buffer and the position.
unfoldable pub add_first : Scroller → List ℕ → Option (List (List ℕ) × ℕ)
unfolding parse
add_first scr buf =
    let last = length scr.buffer - 1 in
    if ltb 0 (length (before_newline buf))
    then (do
      (l, pos) ← parse scr.pos (line_at scr.buffer last) (before_newline buf)
      some (put_line scr.buffer last l, pos))
    else some (scr.buffer, scr.pos)

-- The loop of `scr_add`, with at most `n` rounds.
unfoldable pub add_lines : ℕ → Option (List ℕ) → List (List ℕ) → ℕ → Option (List (List ℕ) × ℕ)
unfolding parse
add_lines n none buffer pos = some (buffer, pos)
add_lines zero (some buf) buffer pos = none
add_lines (suc n) (some buf) buffer pos = do
  (l, p) ← parse 0 [] (before_newline buf)
  add_lines n (after_newline buf) (buffer ++ l ∷ []) p

-- `scr_add`.
unfoldable pub scr_add : ℕ → Scroller → List ℕ → Option Scroller
unfolding add_first add_lines scr_end
scr_add width scr buf = do
  (first, start) ← add_first scr buf
  (lines, p) ← add_lines (length buf) (after_newline buf) first start
  some (scr_end width (record scr { buffer = lines; pos = p }))
