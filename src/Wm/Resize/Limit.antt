-- ===== src/Wm/Resize/Limit.antt =====
-- lib/wm/wm_splitter.c: `wm_splitter_resize_window`, with the size limited to what is possible.
use cgdb.Base.{
  ℕ, ◌+◌, ◌-◌, ◌≤◌, Bool, true, false, ◌&&◌, not, List, [], ◌∷◌, ◌++◌, ◌≡◌, refl, ◌∙◌, sym, ap,
  arith, subst, length, min, max, ltb, ◌==◌, Bool-cases, inl, inr, ==→≡, some, ==_refl,
}
use cgdb.Wm.Resize.{
  Orientation, horizontal, same_orientation, Splitter, room, limit, resize_window, find_child,
  other_minimums, Child, enlarge, reduce,
}
use cgdb.Wm.Resize.Row.{Contig, AtLeast, dims, slack, mins, dims-append, AtLeast-split, slack_lem}
use cgdb.Wm.Resize.Fits.{Resized, enlarge_lem, reduce_lem}

-- No child is the window `i`.
abbrev pub apart : ℕ → List Child → Bool
apart i [] = true
apart i (c ∷ cs) = not (c.id == i) && apart i cs

-- The separator between the children.
abbrev pub separator : Orientation → ℕ
separator horizontal = 0
separator _ = 1

-- The splitter's children fill it from `p` on, none too small.
abbrev pub Fits : ℕ → Splitter → Type 0
Fits p s =
    Contig (separator s.orientation) p s.children × AtLeast s.children × (dims s.children ≡ room s)

find_child_lem :
    (i : ℕ) (before : List Child) (w : Child) (after : List Child)
    → w.id ≡ i
    → apart i before ≡ true
    → find_child i (before ++ w ∷ after) ≡ some (before, after)
unfolding find_child
find_child_lem i [] w after e h = rw (e, ==_refl i) refl
find_child_lem i (c ∷ before) w after e h =
    let other : (c.id == i) ≡ false = ground (arith, h) in
    rw (other, find_child_lem i before w after e (ground (arith, h))) refl

others_apart : (i : ℕ) (cs : List Child) → apart i cs ≡ true → other_minimums i cs ≡ mins cs
unfolding other_minimums
others_apart i [] h = refl
others_apart i (c ∷ cs) h = ground (arith, h, others_apart i cs (ground (arith, h)))

other_minimums_lem :
    (i : ℕ) (before : List Child) (w : Child) (after : List Child)
    → w.id ≡ i
    → apart i before ≡ true
    → apart i after ≡ true
    → other_minimums i (before ++ w ∷ after) ≡ mins before + mins after
unfolding other_minimums
other_minimums_lem i [] w after e h g =
    let same : (w.id == i) ≡ true = rw (e, ==_refl i) refl in
    ground (arith, same, others_apart i after g)
other_minimums_lem i (c ∷ before) w after e h g =
    ground (arith, h, other_minimums_lem i before w after e (ground (arith, h)) g)

-- The size that is nearest to the one asked for, of those that a window can have: from its minimum to
-- what it has with all that the others can spare.
abbrev pub nearest : Child → ℕ → ℕ → ℕ
nearest w spared size = min (w.dimension + spared) (max w.minimum size)

-- The limited size is one that the window can have.
limit_lem :
    (s : Splitter) (before : List Child) (w : Child) (after : List Child) (size : ℕ)
    → s.children ≡ before ++ w ∷ after
    → apart w.id before ≡ true
    → apart w.id after ≡ true
    → AtLeast (before ++ w ∷ after)
    → dims s.children ≡ room s
    → (w.minimum ≤ limit s w size)
      × (limit s w size ≤ w.dimension + (slack before + slack after))
      × (limit s w size ≡ nearest w (slack before + slack after) size)
unfolding limit
limit_lem s before w after size e h g a d =
    let (k1, (k2, k3)) = AtLeast-split before (w ∷ after) a in
    let others : other_minimums w.id s.children ≡ mins before + mins after =
      ap (other_minimums w.id) e ∙ other_minimums_lem w.id before w after refl h g in
    let whole : dims s.children ≡ dims before + (w.dimension + dims after) =
      ap dims e ∙ dims-append before (w ∷ after) in
    let one = slack_lem before k1 in
    let two = slack_lem after k3 in
    let most : room s - other_minimums w.id s.children
        ≡ w.dimension + (slack before + slack after) =
      omega (arith, others, whole, one, two, d) in
    ground (arith, most, k2)

-- In a splitter of two or more children that fill it in line, none smaller than its minimum, a child is
-- resized along the split: it gets the size that is nearest to the one asked for, between its minimum and
-- what it has with all that the other children have above their minimums; the children still are the
-- same ones and fill the splitter in line, with the separators of a vertical split, and none is
-- smaller than its minimum. No address stands twice among the children.
pub resize_window-Resized :
    (s : Splitter) (before : List Child) (w : Child) (after : List Child) (dir : Orientation)
    (p size : ℕ)
    → s.children ≡ before ++ w ∷ after
    → apart w.id before ≡ true
    → apart w.id after ≡ true
    → 2 ≤ length s.children
    → same_orientation dir s.orientation ≡ true
    → Fits p s
    → (kids : List Child) × (resize_window s w dir size ≡ some (record s { children = kids }))
      × Resized
          (separator s.orientation)
          p
          s.children
          w.id
          (nearest w (slack before + slack after) size)
          kids
unfolding resize_window
resize_window-Resized s before w after dir p size e h g z o (c, a, d) =
    let n = limit s w size in
    let gap = separator s.orientation in
    let c2 : Contig gap p (before ++ w ∷ after) = subst (Contig gap p) e c in
    let a2 : AtLeast (before ++ w ∷ after) = subst AtLeast e a in
    let (low, high, near) = limit_lem s before w after size e h g a2 d in
    let z2 : 2 ≤ length (before ++ w ∷ after) = omega (arith, z, ap (λ x. length x) e) in
    let many : (length s.children == 1) ≡ false = ground (arith, z) in
    let found : find_child w.id s.children ≡ some (before, after) =
      ap (find_child w.id) e ∙ find_child_lem w.id before w after refl h in
    subst
      (λ z.
        (kids : List Child) × (resize_window s w dir size ≡ some (record s { children = kids }))
        × Resized gap p s.children w.id z kids)
      near
      (elim (Bool-cases (n == w.dimension)) [
        | inl q ↦ (
          s.children,
          rw (many, o, q) refl,
          (c, a, refl, refl, (before, w, after, e, refl, sym (==→≡ n w.dimension q))),
        )
        | inr q ↦ elim (Bool-cases (ltb n w.dimension)) [
          | inl b ↦
              let r = reduce (w.dimension - n) before w after in
              let size_lem : w.dimension - (w.dimension - n) ≡ n = ground (arith, b) in
              let t =
                reduce_lem gap p (w.dimension - n) before w after c2 a2 z2 (omega (arith, low)) in
              (
                r,
                rw (many, o, q, found, b) refl,
                subst (λ x. Resized gap p x w.id n r) (sym e)
                    (subst (λ m. Resized gap p (before ++ w ∷ after) w.id m r) size_lem t),
              )
          | inr b ↦
              let r = enlarge (n - w.dimension) before w after in
              let size_lem : w.dimension + (n - w.dimension) ≡ n = ground (arith, b) in
              let t =
                enlarge_lem gap p (n - w.dimension) before w after c2 a2 (omega (arith, high)) in
              (
                r,
                rw (many, o, q, found, b) refl,
                subst (λ x. Resized gap p x w.id n r) (sym e)
                    (subst (λ m. Resized gap p (before ++ w ∷ after) w.id m r) size_lem t),
              )
        ]
      ])
