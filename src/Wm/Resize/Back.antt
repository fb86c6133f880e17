-- ===== src/Wm/Resize/Back.antt =====
-- lib/wm/wm_splitter.c: the loop that borrows space from the predecessors.
use cgdb.Base.{
  ℕ, ◌+◌, ◌-◌, ◌≤◌, false, List, [], ◌∷◌, ◌≡◌, refl, ◌∙◌, sym, ap, arith, subst, map, ltb, ◌==◌,
  Bool-cases, inl, inr,
}
use cgdb.Wm.Resize.{Child, Borrowed, move_up, spare, borrow_back, borrow_before}
use cgdb.Wm.Resize.Row.{Contig, AtLeast, dims, span, slack, ids, move_up-Contig, move_up-Alike}

-- The window at the end of the children has gained what is no longer missing.
abbrev pub Yielded : ℕ → ℕ → ℕ → Child → List Child → Borrowed → Type 0
Yielded gap p need w before b =
    (Contig gap p b.others × (b.window.position ≡ p + span gap b.others))
    × AtLeast b.others
    × (ids b.others ≡ ids before)
    × (b.window.dimension + dims b.others ≡ w.dimension + dims before)
    × (b.window.dimension + b.need ≡ w.dimension + need)
    × (b.window.dimension + span gap b.others ≡ w.dimension + span gap before)
    × (b.window.id ≡ w.id)
    × (b.window.minimum ≡ w.minimum)

yielded :
    (gap p need : ℕ) (w c : Child) (rest : List Child) (b : Borrowed)
    → (c.position ≡ p)
    → c.minimum ≤ c.dimension
    → Yielded gap (p + c.dimension + gap) need w rest b
    → let t = spare b.need c in
      Yielded gap p need w (c ∷ rest) (record {
        need = b.need - t;
        window = record b.window {
          position = b.window.position - t;
          dimension = b.window.dimension + t;
        };
        others = record c { dimension = c.dimension - t } ∷ map (move_up t) b.others;
      })
yielded gap p need w c rest b e l ((f, q), a, i, d, n, s, k, m) =
    let t = spare b.need c in
    let moved = map (move_up t) b.others in
    let (m1, m2, m3, m4, m5) = move_up-Alike t b.others in
    let under : t ≤ c.dimension - c.minimum = ground arith in
    let within : t ≤ b.need = ground arith in
    let start : p + c.dimension + gap - t ≡ p + (c.dimension - t) + gap = omega (arith, under) in
    let in_line : Contig gap (p + (c.dimension - t) + gap) moved =
      subst (λ z. Contig gap z moved) start
        (move_up-Contig gap t (p + c.dimension + gap) b.others (omega (arith, under)) f) in
    (
      ((e, in_line), omega (arith, q, m5 gap, under)),
      (omega (arith, under, l), m4 a),
      ap (λ z. c.id ∷ z) (sym m3 ∙ i),
      omega (arith, d, m1, under),
      omega (arith, n, within),
      omega (arith, s, m5 gap, under),
      k,
      m,
    )

pub borrow_before_lem :
    (gap p need : ℕ) (w : Child) (before : List Child)
    → Contig gap p before
    → (w.position ≡ p + span gap before)
    → AtLeast before
    → Yielded gap p need w before (borrow_before need w before)
      × ((borrow_before need w before).need ≡ need - slack before)
unfolding borrow_before borrow_back
borrow_before_lem gap p need w [] h e a =
    (((tt, e), tt, refl, refl, refl, refl, refl, refl), omega arith)
borrow_before_lem gap p need w (c ∷ rest) (f, h) e (l, a) =
    let b = borrow_before need w rest in
    let (y, n) = borrow_before_lem gap (p + c.dimension + gap) need w rest h (omega (arith, e)) a in
    let enough : ltb c.dimension c.minimum ≡ false = ground (arith, l) in
    elim (Bool-cases (b.need == 0)) [
      | inl z ↦
          let ((g, q), a2, i, d, m, s, k, u) = y in
          rw z (
            (
              ((f, g), omega (arith, q)),
              (l, a2),
              ap (λ x. c.id ∷ x) i,
              omega (arith, d),
              m,
              omega (arith, s),
              k,
              u,
            ),
            ground (arith, n, z),
          )
      | inr z ↦ rw (z, enough) (yielded gap p need w c rest b f l y, ground (arith, n))
    ]
