-- ===== src/Scroller/Move.antt =====
-- cgdb/scroller.c: moving over the rows.
use cgdb.Base.{
  ℕ, zero, suc, ◌+◌, ◌-◌, ◌*◌, ◌/◌, ◌<◌, true, false, List, ◌≡◌, refl, ◌∙◌, sym, ap, arith, subst,
  length, Bool-cases, inl, inr, if◌then◌else◌, ltb, ◌⊎◌, none, some, min,
}
use cgdb.Scroller.{Scroller, line_at, align, up, up_lines, scr_up, down, down_lines, scr_down}
use cgdb.Scroller.Rows.{
  rows, above, total, Stands, align_lem, above-suc, goes_on, ends, above_bound,
}

product_pos : (q width : ℕ) → 0 < width → ltb 0 (q * width) ≡ ltb 0 q
product_pos zero width h = ground arith
product_pos (suc q) width h =
    let e : suc q * width ≡ q * width + width = grind arith in ground (arith, e, h)

product_step : (q width : ℕ) → ltb 0 q ≡ true → q * width ≡ (q - 1) * width + width
product_step zero width h = ground (arith, h)
product_step (suc q) width h =
    let e : suc q * width ≡ q * width + width = grind arith in
    let z : q ≡ suc q - 1 = omega arith in e ∙ ap (λ n. n * width + width) z

up_lem :
    (width : ℕ) (scr : Scroller) (n : ℕ)
    → 0 < width
    → Stands width scr n
    → ((n ≡ 0) × (up width scr ≡ none))
      ⊎ ((s : Scroller) × (up width scr ≡ some s)
          × Stands width s (n - 1)
          × (s.buffer ≡ scr.buffer)
          × (0 < n))
unfolding up
up_lem width scr n w (r, (q, c, l, e)) = elim (Bool-cases (ltb 0 q)) [
  | inl b ↦
      let more : ltb 0 scr.c ≡ true = ap (ltb 0) c ∙ product_pos q width w ∙ b in
      let step : q * width ≡ (q - 1) * width + width = product_step q width b in
      inr (
        record scr { c = scr.c - width },
        rw more refl,
        (r, (q - 1, omega (arith, c, step), ground (arith, l), ground (arith, e, b))),
        refl,
        ground (arith, e, b),
      )
  | inr b ↦
      let at_start : ltb 0 scr.c ≡ false = ap (ltb 0) c ∙ product_pos q width w ∙ b in
      elim (Bool-cases (ltb 0 scr.r)) [
        | inl k ↦
            let len = length (line_at scr.buffer (scr.r - 1)) in
            let column = if ltb width len then ((len - 1) / width) * width else scr.c in
            let before : suc (scr.r - 1) ≡ scr.r = ground (arith, k) in
            let sum = above-suc width scr.buffer (scr.r - 1) (omega (arith, r)) in
            let same = ap (above width scr.buffer) before in
            inr (
              record scr { r = scr.r - 1; c = column },
              rw (at_start, k) refl,
              (
                omega (arith, r),
                (
                  rows width len - 1,
                  ground (arith, at_start),
                  ground arith,
                  ground (arith, e, sum, same, b),
                ),
              ),
              refl,
              ground (arith, e, sum, same),
            )
        | inr k ↦
            let z : scr.r ≡ 0 = ground (arith, k) in
            inl (ground (arith, e, b, ap (above width scr.buffer) z), rw (at_start, k) refl)
      ]
]

-- The scroller stands at row `n` of the lines `ls`.
abbrev pub Reached : ℕ → List (List ℕ) → ℕ → Scroller → Type 0
Reached width ls n scr = Stands width scr n × (scr.buffer ≡ ls)

row_change :
    (width : ℕ) (ls : List (List ℕ)) (n m : ℕ) (scr t : Scroller)
    → Path Scroller t scr
    → n ≡ m
    → Reached width ls n scr
    → Reached width ls m t
row_change width ls n m scr t e h s =
    subst (λ z. Reached width ls z t) h (subst (Reached width ls n) (sym e) s)

up_lines_lem :
    (width : ℕ) (k : ℕ) (scr : Scroller) (n : ℕ)
    → 0 < width
    → Stands width scr n
    → Reached width scr.buffer (n - k) (up_lines width k scr)
unfolding up_lines
up_lines_lem width zero scr n w s =
    row_change width scr.buffer n (n - 0) scr scr refl (omega arith) (s, refl)
up_lines_lem width (suc k) scr n w s = elim (up_lem width scr n w s) [
  | inl (z, p) ↦
      row_change width scr.buffer n (n - suc k) scr (up_lines width (suc k) scr)
        (rw (up_lines, p) refl) (omega (arith, z)) (s, refl)
  | inr (t, p, s2, b, l) ↦
      let (s3, b3) = up_lines_lem width k t (n - 1) w s2 in
      let r = up_lines width k t in
      row_change width scr.buffer (n - 1 - k) (n - suc k) r (up_lines width (suc k) scr)
        (rw (up_lines, p) refl) (omega arith) (s3, b3 ∙ b)
]

down_lem :
    (width : ℕ) (scr : Scroller) (n : ℕ)
    → 0 < width
    → Stands width scr n
    → ((suc n ≡ total width scr.buffer) × (down width scr ≡ none))
      ⊎ ((s : Scroller) × (down width scr ≡ some s)
          × Stands width s (suc n)
          × (s.buffer ≡ scr.buffer)
          × (suc n < total width scr.buffer))
unfolding down
down_lem width scr n w (r, (q, c, l, e)) =
    let len = length (line_at scr.buffer scr.r) in
    let bound = above_bound width scr.buffer scr.r r in
    let here = above-suc width scr.buffer scr.r r in
    let same : ltb (scr.c + width) len ≡ ltb (q * width + width) len =
      ap (λ z. ltb (z + width) len) c in
    elim (Bool-cases (ltb (q * width + width) len)) [
      | inl b ↦
          let step : suc q * width ≡ q * width + width = grind arith in
          let more = goes_on width len q w b in
          inr (
            record scr { c = scr.c + width },
            rw (same ∙ b) refl,
            (r, (suc q, omega (arith, c, step), more, omega (arith, e))),
            refl,
            omega (arith, e, bound, more),
          )
      | inr b ↦
          let last = ends width len q w b in
          elim (Bool-cases (ltb (scr.r + 1) (length scr.buffer))) [
            | inl k ↦
                let next : suc scr.r ≡ scr.r + 1 = omega arith in
                let there = above_bound width scr.buffer (scr.r + 1) (ground (arith, k)) in
                let moved = ap (above width scr.buffer) next in
                let some_row : 0 < rows width (length (line_at scr.buffer (scr.r + 1))) =
                  ground arith in
                inr (
                  record scr { r = scr.r + 1; c = 0 },
                  rw (same ∙ b, k) refl,
                  (
                    ground (arith, k),
                    (0, omega arith, some_row, omega (arith, e, last, l, here, moved)),
                  ),
                  refl,
                  omega (arith, e, last, l, here, moved, there, some_row),
                )
            | inr k ↦
                let all : suc scr.r ≡ length scr.buffer = ground (arith, k, r) in
                let whole = ap (above width scr.buffer) all in
                inl (omega (arith, e, last, l, here, whole), rw (same ∙ b, k) refl)
          ]
    ]

down_lines_lem :
    (width : ℕ) (k : ℕ) (scr : Scroller) (n : ℕ)
    → 0 < width
    → Stands width scr n
    → Reached width scr.buffer (min (n + k) (total width scr.buffer - 1)) (down_lines width k scr)
unfolding down_lines
down_lines_lem width zero scr n w s =
    let t = total width scr.buffer in
    let under : n < t = omega (arith, above_bound width scr.buffer scr.r s.0, s.1.2, s.1.3) in
    row_change width scr.buffer n (min (n + 0) (t - 1)) scr scr refl (omega (arith, under))
      (s, refl)
down_lines_lem width (suc k) scr n w s =
    let t = total width scr.buffer in
    let d = down_lines width (suc k) scr in
    elim (down_lem width scr n w s) [
      | inl (z, p) ↦
          row_change width scr.buffer n (min (n + suc k) (t - 1)) scr d (rw (down_lines, p) refl)
            (omega (arith, z)) (s, refl)
      | inr (u, p, s2, b, l) ↦
          let (s3, b3) = down_lines_lem width k u (suc n) w s2 in
          let same : min (suc n + k) (total width u.buffer - 1) ≡ min (n + suc k) (t - 1) =
            ap (λ z. min (suc n + k) (total width z - 1)) b
            ∙ ap (λ z. min z (t - 1)) (omega arith) in
          row_change width scr.buffer (min (suc n + k) (total width u.buffer - 1))
            (min (n + suc k) (t - 1)) (down_lines width k u) d (rw (down_lines, p) refl) same
            (s3, b3 ∙ b)
    ]

aligned :
    (width : ℕ) (scr : Scroller) (n : ℕ)
    → Stands width scr n
    → Path Scroller scr (record scr { c = align width scr.c })
aligned width scr n (r, (q, c, l, e)) =
    ap (λ (z : ℕ). record scr { c = z }) (c ∙ sym (align_lem width q) ∙ ap (align width) (sym c))

-- From the start of row `n`, `scr_up` goes `k` rows up, or to the first row where there are fewer, and
-- `scr_down` goes `k` rows down, or to the last row. Neither changes the lines. Rows are counted over
-- all lines, each wrapped at the width of the window, which is not 0.
pub scr_up-scr_down-Stands :
    (width : ℕ) (scr : Scroller) (n k : ℕ)
    → 0 < width
    → Stands width scr n
    → Reached width scr.buffer (n - k) (scr_up width scr k)
      × Reached width scr.buffer (min (n + k) (total width scr.buffer - 1)) (scr_down width scr k)
unfolding scr_up scr_down
scr_up-scr_down-Stands width scr n k w s =
    let a = aligned width scr n s in
    (
      subst (λ (z : Scroller). Reached width scr.buffer (n - k) (up_lines width k z)) a
          (up_lines_lem width k scr n w s),
      subst
          (λ (z : Scroller).
            Reached width scr.buffer (min (n + k) (total width scr.buffer - 1))
              (down_lines width k z))
          a (down_lines_lem width k scr n w s),
    )
