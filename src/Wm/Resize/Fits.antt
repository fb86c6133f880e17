-- ===== src/Wm/Resize/Fits.antt =====
-- lib/wm/wm_splitter.c: `wm_splitter_resize_window` on a splitter whose children stand in line.
use cgdb.Base.{
  ℕ, ◌+◌, ◌-◌, ◌≤◌, ◌<◌, List, [], ◌∷◌, ◌++◌, ◌≡◌, refl, ◌∙◌, sym, ap, arith, subst, length,
  length-append,
}
use cgdb.Wm.Resize.{Child, enlarge, reduce, grow_last, borrow_after, borrow_before}
use cgdb.Wm.Resize.Row.{
  Contig, AtLeast, dims, span, slack, ids, Contig-split, Contig-join, dims-append, ids-append,
  AtLeast-append, AtLeast-split,
}
use cgdb.Wm.Resize.Borrow.{borrow_after_lem}
use cgdb.Wm.Resize.Back.{borrow_before_lem}

-- The same windows in line from `p` on, none too small, with the same space in all; the window `i` has
-- the size `n`.
abbrev pub Resized : ℕ → ℕ → List Child → ℕ → ℕ → List Child → Type 0
Resized gap p children i n kids =
    Contig gap p kids
    × AtLeast kids
    × (ids kids ≡ ids children)
    × (dims kids ≡ dims children)
    × ((l : List Child) × (v : Child) × (r : List Child) × (kids ≡ l ++ v ∷ r)
        × (v.id ≡ i)
        × (v.dimension ≡ n))

pub enlarge_lem :
    (gap p change : ℕ) (before : List Child) (w : Child) (after : List Child)
    → Contig gap p (before ++ w ∷ after)
    → AtLeast (before ++ w ∷ after)
    → change ≤ slack before + slack after
    → Resized gap p
        (before ++ w ∷ after)
        w.id
        (w.dimension + change)
        (enlarge change before w after)
unfolding enlarge
enlarge_lem gap p change before w after h k l =
    let (h1, (h2, h3)) = Contig-split gap p before (w ∷ after) h in
    let (k1, (k2, k3)) = AtLeast-split before (w ∷ after) k in
    let q = p + span gap before in
    let a = borrow_after change w [] after in
    let start : q + w.dimension + gap ≡ q + w.dimension + gap + 0 = omega arith in
    let (((f, g), a1, i1, d1, n1, s1, e1, m1), z1) =
      borrow_after_lem gap q change w [] after (h2, tt) tt
        (subst (λ z. Contig gap z after) start h3) k3 in
    let b = borrow_before a.need a.window before in
    let (((f2, g2), a2, i2, d2, n2, s2, e2, m2), z2) =
      borrow_before_lem gap p a.need a.window before h1 f k1 in
    let there : q + a.window.dimension + gap ≡ p + span gap b.others + b.window.dimension + gap =
      omega (arith, s2) in
    let grown : b.window.dimension ≡ w.dimension + change = omega (arith, n1, n2, z1, z2, l) in
    let enough : b.window.minimum ≤ b.window.dimension = omega (arith, grown, k2, m1, m2) in
    (
      Contig-join gap p b.others (b.window ∷ a.others) f2
          (g2, subst (λ z. Contig gap z a.others) there g),
      AtLeast-append b.others (b.window ∷ a.others) a2 (enough, a1),
      ids-append b.others (b.window ∷ a.others)
          ∙ ap (λ z. z ++ b.window.id ∷ ids a.others) i2
          ∙ ap (λ z. ids before ++ z ∷ ids a.others) (e2 ∙ e1)
          ∙ ap (λ z. ids before ++ w.id ∷ z) i1
          ∙ sym (ids-append before (w ∷ after)),
      omega (
        arith,
        dims-append b.others (b.window ∷ a.others),
        dims-append before (w ∷ after),
        d1,
        d2,
      ),
      (b.others, b.window, a.others, refl, e2 ∙ e1, grown),
    )

-- The last of the predecessors takes what the window gives up.
grow_last_lem :
    (gap p change : ℕ) (cs : List Child)
    → 0 < length cs
    → Contig gap p cs
    → AtLeast cs
    → Contig gap p (grow_last change cs)
      × AtLeast (grow_last change cs)
      × (ids (grow_last change cs) ≡ ids cs)
      × (dims (grow_last change cs) ≡ dims cs + change)
      × (span gap (grow_last change cs) ≡ span gap cs + change)
grow_last_lem gap p change [] z h k = ground (arith, z)
grow_last_lem gap p change (c ∷ []) z (h, _) (k, _) =
    ((h, tt), (omega (arith, k), tt), refl, omega arith, omega arith)
grow_last_lem gap p change (c ∷ d ∷ cs) z (h, h2) (k, k2) =
    let (a, b, i, s, t) =
      grow_last_lem gap (p + c.dimension + gap) change (d ∷ cs) (omega arith) h2 k2 in
    ((h, a), (k, b), ap (λ x. c.id ∷ x) i, omega (arith, s), omega (arith, t))

pub reduce_lem :
    (gap p change : ℕ) (before : List Child) (w : Child) (after : List Child)
    → Contig gap p (before ++ w ∷ after)
    → AtLeast (before ++ w ∷ after)
    → 2 ≤ length (before ++ w ∷ after)
    → change ≤ w.dimension - w.minimum
    → Resized gap p (before ++ w ∷ after) w.id (w.dimension - change) (reduce change before w after)
unfolding reduce
reduce_lem gap p change before w [] h k z l =
    let (h1, (h2, h3)) = Contig-split gap p before (w ∷ []) h in
    let (k1, (k2, k3)) = AtLeast-split before (w ∷ []) k in
    let (a, b, i, s, t) =
      grow_last_lem gap p change before (omega (arith, z, length-append before (w ∷ []))) h1 k1 in
    let g = grow_last change before in
    let v : Child = record w { position = w.position + change; dimension = w.dimension - change } in
    (
      Contig-join gap p g (v ∷ []) a (omega (arith, h2, t), tt),
      AtLeast-append g (v ∷ []) b (omega (arith, k2, l), tt),
      ids-append g (v ∷ []) ∙ ap (λ x. x ++ w.id ∷ []) i ∙ sym (ids-append before (w ∷ [])),
      omega (arith, dims-append g (v ∷ []), dims-append before (w ∷ []), s, l),
      (g, v, [], refl, refl, refl),
    )
reduce_lem gap p change before w (c ∷ after) h k z l =
    let (h1, (h2, (h3, h4))) = Contig-split gap p before (w ∷ c ∷ after) h in
    let (k1, (k2, (k3, k4))) = AtLeast-split before (w ∷ c ∷ after) k in
    let v : Child = record w { dimension = w.dimension - change } in
    let d : Child = record c { position = c.position - change; dimension = c.dimension + change } in
    let q = p + span gap before in
    let there : q + w.dimension + gap + c.dimension + gap
        ≡ q + v.dimension + gap + d.dimension + gap =
      omega (arith, l) in
    (
      Contig-join gap p before (v ∷ d ∷ after) h1
          (h2, (omega (arith, h3, l), subst (λ x. Contig gap x after) there h4)),
      AtLeast-append before (v ∷ d ∷ after) k1 (omega (arith, k2, l), (omega (arith, k3), k4)),
      ids-append before (v ∷ d ∷ after) ∙ sym (ids-append before (w ∷ c ∷ after)),
      omega (arith, dims-append before (v ∷ d ∷ after), dims-append before (w ∷ c ∷ after), l),
      (before, v, d ∷ after, refl, refl, refl),
    )
