-- ===== src/Scroller/Height/Codes.antt =====
-- cgdb/scroller.c: `get_line_height` on a line with colour codes.
use cgdb.Base.{
  ℕ, zero, suc, ◌≤◌, ◌<◌, Bool, true, false, ◌&&◌, ◌||◌, not, List, [], ◌∷◌, ◌++◌, ◌≡◌, refl, ◌∙◌,
  ap, arith, length-append, length, ◌==◌, some,
}
use cgdb.Scroller.{isspace}
use cgdb.Scroller.Rows.{rows}
use cgdb.Scroller.Height.{
  isdigit, skip_digits, starts, strtol_end, code_number, pass_char, line_length, get_line_height,
}
use cgdb.Scroller.Height.Ends.{count_height_lem}

-- What a line is made of: characters that are no `[`, and codes of two numbers.
pub data Piece : Type 0 where
  plain : ℕ → Piece
  colour : (first second : List ℕ) → Piece

abbrev all_digits : List ℕ → Bool
all_digits [] = true
all_digits (c ∷ s) = isdigit c && all_digits s

-- No character is a `[`, and the numbers of a code have digits.
abbrev pub proper : List Piece → Bool
proper [] = true
proper (plain c ∷ ps) = not (c == 91) && proper ps
proper (colour a b ∷ ps) =
    (all_digits a && starts isdigit a) && ((all_digits b && starts isdigit b) && proper ps)

abbrev pub spell : List Piece → List ℕ
spell [] = []
spell (plain c ∷ ps) = c ∷ spell ps
spell (colour a b ∷ ps) = 91 ∷ (a ++ 59 ∷ (b ++ 109 ∷ spell ps))

abbrev pub plain_count : List Piece → ℕ
plain_count [] = 0
plain_count (plain c ∷ ps) = suc (plain_count ps)
plain_count (colour a b ∷ ps) = plain_count ps

skip_digits-append :
    (a : List ℕ) (c : ℕ) (s : List ℕ)
    → all_digits a ≡ true
    → isdigit c ≡ false
    → skip_digits (a ++ c ∷ s) ≡ c ∷ s
skip_digits-append [] c s h k = ground (arith, k)
skip_digits-append (d ∷ a) c s h k =
    ground (arith, h, skip_digits-append a c s (ground (arith, h)) k)

strtol_digits :
    (a : List ℕ) (c : ℕ) (s : List ℕ)
    → all_digits a ≡ true
    → starts isdigit a ≡ true
    → isdigit c ≡ false
    → strtol_end (a ++ c ∷ s) ≡ c ∷ s
strtol_digits [] c s h g k = ground (arith, g)
strtol_digits (d ∷ a) c s h g k =
    let no_space : isspace d ≡ false = ground (arith, g) in
    let no_sign : (d == 43 || d == 45) ≡ false = ground (arith, g) in
    rw (no_space, no_sign, g) (skip_digits-append a c s (ground (arith, h)) k)

pass_colour :
    (a b s : List ℕ)
    → (all_digits a && starts isdigit a) ≡ true
    → (all_digits b && starts isdigit b) ≡ true
    → pass_char true 91 (a ++ 59 ∷ (b ++ 109 ∷ s)) ≡ (0, s)
unfolding pass_char code_number
pass_colour a b s h k =
    let one =
      strtol_digits a 59 (b ++ 109 ∷ s) (ground (arith, h)) (ground (arith, h)) (ground arith) in
    let two = strtol_digits b 109 s (ground (arith, k)) (ground (arith, k)) (ground arith) in
    rw (one, two) refl

pass_plain : (c : ℕ) (s : List ℕ) → (c == 91) ≡ false → pass_char true c s ≡ (1, s)
unfolding pass_char
pass_plain c s h = rw h refl

line_length-spell :
    (ps : List Piece) (n : ℕ)
    → proper ps ≡ true
    → length (spell ps) ≤ n
    → line_length true n (spell ps) ≡ some (plain_count ps)
unfolding line_length
line_length-spell [] n p h = refl
line_length-spell (plain c ∷ ps) zero p h = ground (arith, h)
line_length-spell (plain c ∷ ps) (suc n) p h =
    let one = pass_plain c (spell ps) (ground (arith, p)) in
    rw (one, line_length-spell ps n (ground (arith, p)) (omega (arith, h))) (ap some (omega arith))
line_length-spell (colour a b ∷ ps) zero p h = ground (arith, h)
line_length-spell (colour a b ∷ ps) (suc n) p h =
    let code = pass_colour a b (spell ps) (ground (arith, p)) (ground (arith, p)) in
    let size = length-append a (59 ∷ (b ++ 109 ∷ spell ps)) in
    let size2 = length-append b (109 ∷ spell ps) in
    rw (code, line_length-spell ps n (ground (arith, p)) (omega (arith, h, size, size2)))
      (ap some (omega arith))

-- With colour codes on, a line made of codes of two numbers and of other characters, of which none is a
-- `[`, is as high as the rows that its other characters take in a window that is not of width 0.
pub get_line_height-spell :
    (ps : List Piece) (width : ℕ)
    → 0 < width
    → proper ps ≡ true
    → get_line_height true (spell ps) width ≡ some (rows width (plain_count ps))
unfolding get_line_height
get_line_height-spell ps width w p =
    let v = plain_count ps in
    let e = line_length-spell ps (length (spell ps)) p (omega arith) in
    rw e (count_height_lem (suc v) width v 1 w (omega arith) ∙ ap some (omega arith))
