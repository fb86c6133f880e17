-- ===== src/Scroller/Rows.antt =====
-- cgdb/scroller.c: the rows of the window that the lines take, numbered from the first line on.
use cgdb.Base.{
  ℕ, zero, suc, ◌+◌, ◌-◌, ◌*◌, ◌/◌, ◌≤◌, ◌<◌, true, false, List, [], ◌∷◌, ◌≡◌, arith, length,
  Bool-cases, inl, inr, if◌then◌else◌, ltb,
}
use native.Mathlib.Nat.{mul-mod_left, le-div_iff_mul-le, div-lt_iff_lt-mul}
use cgdb.Scroller.{Scroller, line_at, align}

-- A line of `len` characters takes this many rows.
abbrev pub rows : ℕ → ℕ → ℕ
rows width len = if ltb width len then suc ((len - 1) / width) else 1

-- The rows of the first `r` lines, and of all.
abbrev pub above : ℕ → List (List ℕ) → ℕ → ℕ
above width ls zero = 0
above width [] (suc r) = 0
above width (l ∷ ls) (suc r) = rows width (length l) + above width ls r

abbrev pub total : ℕ → List (List ℕ) → ℕ
total width ls = above width ls (length ls)

-- `current.r` and `current.c` are at the start of row `n`.
abbrev pub Stands : ℕ → Scroller → ℕ → Type 0
Stands width scr n =
    (scr.r < length scr.buffer)
    × ((q : ℕ) × (scr.c ≡ q * width)
        × (q < rows width (length (line_at scr.buffer scr.r)))
        × (n ≡ above width scr.buffer scr.r + q))

pub align_lem : (width q : ℕ) → align width (q * width) ≡ q * width
align_lem width q = ground (arith, mul-mod_left q width)

pub above-suc :
    (width : ℕ) (ls : List (List ℕ)) (r : ℕ)
    → r < length ls
    → above width ls (suc r) ≡ above width ls r + rows width (length (line_at ls r))
above-suc width [] r h = ground arith
above-suc width (l ∷ ls) zero h = omega arith
above-suc width (l ∷ ls) (suc r) h = omega (arith, above-suc width ls r (omega (arith, h)))

-- Where the line goes on, there is a next row.
pub goes_on :
    (width len q : ℕ) → 0 < width → ltb (q * width + width) len ≡ true → suc q < rows width len
goes_on width len q w h =
    let next : suc q * width ≡ q * width + width = grind arith in
    let under : suc q ≤ (len - 1) / width = (le-div_iff_mul-le w).1 (ground (arith, h, next)) in
    ground (arith, h, under)

pub ends :
    (width len q : ℕ) → 0 < width → ltb (q * width + width) len ≡ false → rows width len ≤ suc q
ends width len q w h = elim (Bool-cases (ltb width len)) [
  | inl b ↦
      let next : suc q * width ≡ q * width + width = grind arith in
      let under : (len - 1) / width < suc q =
        (div-lt_iff_lt-mul w).1 (ground (arith, h, b, next)) in
      ground (arith, b, under)
  | inr b ↦ ground (arith, b)
]

pub above_bound :
    (width : ℕ) (ls : List (List ℕ)) (r : ℕ)
    → r < length ls
    → above width ls r + rows width (length (line_at ls r)) ≤ total width ls
above_bound width [] r h = ground arith
above_bound width (l ∷ ls) zero h = omega arith
above_bound width (l ∷ ls) (suc r) h = omega (arith, above_bound width ls r (omega (arith, h)))
