-- ===== src/Scroller/Height/Ends.antt =====
-- cgdb/scroller.c: the loops of `get_line_height` end.
use cgdb.Base.{
  ℕ, zero, suc, ◌+◌, ◌-◌, ◌/◌, ◌≤◌, ◌<◌, Bool, true, false, List, [], ◌∷◌, ◌≡◌, refl, ◌∙◌, ap,
  arith, length, Bool-cases, inl, inr, ltb, some,
}
use cgdb.Scroller.Rows.{rows}
use native.Mathlib.Nat.{div-eq-sub-div, div-eq_of_lt}
use cgdb.Scroller.Height.{
  skip_spaces, skip_sign, skip_digits, behind, strtol_end, code_number, pass_char, line_length,
  count_height, get_line_height,
}

rows_step :
    (width len : ℕ)
    → 0 < width
    → ltb width len ≡ true
    → rows width len ≡ suc (rows width (len - width))
rows_step width len w b =
    let d : (len - 1) / width ≡ (len - 1 - width) / width + 1 =
      div-eq-sub-div w (ground (arith, b)) in
    elim (Bool-cases (ltb width (len - width))) [
      | inl k ↦
          let e : len - 1 - width ≡ len - width - 1 = omega arith in
          ground (arith, b, k, d, ap (λ z. z / width) e)
      | inr k ↦
          let e : (len - 1 - width) / width ≡ 0 = div-eq_of_lt (ground (arith, b, k, w)) in
          ground (arith, b, k, d, e)
    ]

pub count_height_lem :
    (n width len height : ℕ)
    → 0 < width
    → len < n
    → count_height n width len height ≡ some (height + rows width len - 1)
unfolding count_height
count_height_lem zero width len height w h = ground (arith, h)
count_height_lem (suc n) width len height w h = elim (Bool-cases (ltb width len)) [
  | inl b ↦
      let shorter : len - width < n = ground (arith, h, w, b) in
      let same : suc height + rows width (len - width) - 1 ≡ height + rows width len - 1 =
        omega (arith, rows_step width len w b) in
      let step : count_height (suc n) width len height
          ≡ count_height n width (len - width) (suc height) =
        rw b refl in
      step ∙ count_height_lem n width (len - width) (suc height) w shorter ∙ ap some same
  | inr b ↦ ground (arith, b)
]

skip_digits_bound : (s : List ℕ) → length (skip_digits s) ≤ length s
skip_digits_bound [] = omega arith
skip_digits_bound (c ∷ s) = ground (arith, skip_digits_bound s)

skip_spaces_bound : (s : List ℕ) → length (skip_spaces s) ≤ length s
skip_spaces_bound [] = omega arith
skip_spaces_bound (c ∷ s) = ground (arith, skip_spaces_bound s)

skip_sign_bound : (s : List ℕ) → length (skip_sign s) ≤ length s
skip_sign_bound [] = omega arith
skip_sign_bound (c ∷ s) = ground arith

behind_bound : (s : List ℕ) → length (behind s) ≤ length s
behind_bound [] = omega arith
behind_bound (c ∷ s) = omega arith

strtol_bound : (s : List ℕ) → length (strtol_end s) ≤ length s
strtol_bound s =
    let t = skip_sign (skip_spaces s) in
    ground (arith, skip_digits_bound t, skip_sign_bound (skip_spaces s), skip_spaces_bound s)

code_number_bound : (s : List ℕ) → length (code_number s) ≤ length s
unfolding code_number
code_number_bound s = ground (arith, strtol_bound s, behind_bound (strtol_end s))

pass_char_bound :
    (ansi : Bool) (c : ℕ) (s : List ℕ)
    → (length (pass_char ansi c s).1 ≤ length s) × ((pass_char ansi c s).0 ≤ 1)
unfolding pass_char
pass_char_bound ansi c s =
    let e = code_number (code_number s) in
    ground (arith, behind_bound e, code_number_bound s, code_number_bound (code_number s))

line_length_lem :
    (ansi : Bool) (n : ℕ) (s : List ℕ)
    → length s ≤ n
    → (v : ℕ) × (line_length ansi n s ≡ some v) × (v ≤ length s)
unfolding line_length
line_length_lem ansi n [] h = (0, refl, omega arith)
line_length_lem ansi zero (c ∷ s) h = ground (arith, h)
line_length_lem ansi (suc n) (c ∷ s) h =
    let (shorter, one) = pass_char_bound ansi c s in
    let (v, e, l) = line_length_lem ansi n (pass_char ansi c s).1 (omega (arith, h, shorter)) in
    ((pass_char ansi c s).0 + v, rw e refl, omega (arith, l, one, shorter))

line_length_off : (s : List ℕ) (n : ℕ) → length s ≤ n → line_length false n s ≡ some (length s)
unfolding line_length pass_char
line_length_off [] n h = refl
line_length_off (c ∷ s) zero h = ground (arith, h)
line_length_off (c ∷ s) (suc n) h =
    rw (line_length_off s n (omega (arith, h))) (ap some (omega arith))

-- In a window that is not of width 0, both loops of `get_line_height` end on every line, and the line
-- is as high as the rows of at most its characters; of all of them with colour codes off.
pub get_line_height_ends :
    (ansi : Bool) (s : List ℕ) (width : ℕ)
    → 0 < width
    → ((v : ℕ) × (get_line_height ansi s width ≡ some (rows width v)) × (v ≤ length s))
      × (get_line_height false s width ≡ some (rows width (length s)))
unfolding get_line_height
get_line_height_ends ansi s width w =
    let (v, e, l) = line_length_lem ansi (length s) s (omega arith) in
    let off = line_length_off s (length s) (omega arith) in
    (
      (v, rw e (count_height_lem (suc v) width v 1 w (omega arith) ∙ ap some (omega arith)), l),
      rw off (
          count_height_lem (suc (length s)) width (length s) 1 w (omega arith)
          ∙ ap some (omega arith)),
    )
