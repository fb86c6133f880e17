-- ===== src/Scroller/Height.antt =====
-- cgdb/scroller.c: `get_line_height`, which leaves out colour codes such as `[1;31m`. The option
-- CGDBRC_ANSI_CODES is the argument `ansi`. The loops run on as many rounds as the line is long.
pub mod Codes
pub mod Ends
use cgdb.Base.{
  ℕ, zero, suc, ◌+◌, ◌-◌, ◌*◌, ◌/◌, ◌≤◌, ◌<◌, Bool, true, false, ◌&&◌, ◌||◌, not, List, [], ◌∷◌,
  ◌++◌, ◌≡◌, refl, ◌∙◌, sym, ap, arith, length-append, length, Bool-cases, inl, inr, if◌then◌else◌,
  ltb, leb, ◌==◌, ◌⊎◌, Option, none, some, ◌>>=◌, free_of,
}
use cgdb.Scroller.{isspace}
use cgdb.Scroller.Rows.{rows}
use native.Mathlib.Nat.{div-eq-sub-div, div-eq_of_lt}

abbrev pub isdigit : ℕ → Bool
isdigit c = leb 48 c && leb c 57

-- Where `strtol (s, &end, 10)` stops.
abbrev pub skip_spaces : List ℕ → List ℕ
skip_spaces [] = []
skip_spaces (c ∷ s) = if isspace c then skip_spaces s else c ∷ s

abbrev pub skip_sign : List ℕ → List ℕ
skip_sign [] = []
skip_sign (c ∷ s) = if c == 43 || c == 45 then s else c ∷ s

abbrev pub skip_digits : List ℕ → List ℕ
skip_digits [] = []
skip_digits (c ∷ s) = if isdigit c then skip_digits s else c ∷ s

abbrev pub starts : (ℕ → Bool) → List ℕ → Bool
starts p [] = false
starts p (c ∷ s) = p c

abbrev pub behind : List ℕ → List ℕ
behind [] = []
behind (c ∷ s) = s

abbrev pub strtol_end : List ℕ → List ℕ
strtol_end s = let t = skip_sign (skip_spaces s) in if starts isdigit t then skip_digits t else s

-- One round of the loop over the numbers of a code.
unfoldable pub code_number : List ℕ → List ℕ
code_number s = let e = strtol_end s in if starts (λ c. c == 59) e then behind e else e

-- One round of the first loop at a character `c`: what it adds to `length`, and where it goes on.
unfoldable pub pass_char : Bool → ℕ → List ℕ → ℕ × List ℕ
unfolding code_number
pass_char ansi c s =
    let e = code_number (code_number s) in
    if (ansi && c == 91) && starts (λ d. d == 109) e then (0, behind e) else (1, s)

unfoldable pub line_length : Bool → ℕ → List ℕ → Option ℕ
unfolding pass_char
line_length ansi n [] = some 0
line_length ansi zero (c ∷ s) = none
line_length ansi (suc n) (c ∷ s) = do
  rest ← line_length ansi n (pass_char ansi c s).1
  some ((pass_char ansi c s).0 + rest)

-- `while ((length -= width) > 0) ++height`.
unfoldable pub count_height : ℕ → ℕ → ℕ → ℕ → Option ℕ
count_height zero width len height = none
count_height (suc n) width len height =
    if ltb width len then count_height n width (len - width) (suc height) else some height

-- `get_line_height`.
unfoldable pub get_line_height : Bool → List ℕ → ℕ → Option ℕ
unfolding line_length count_height
get_line_height ansi s width = do
  len ← line_length ansi (length s) s
  count_height (suc len) width len 1
