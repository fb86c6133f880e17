-- ===== src/Wm/Resize/Borrow.antt =====
-- lib/wm/wm_splitter.c: the loops that borrow space from the successors and the predecessors.
use cgdb.Base.{
  ℕ, ◌+◌, ◌-◌, ◌≤◌, false, List, [], ◌∷◌, ◌++◌, ◌≡◌, refl, ◌∙◌, sym, ap, arith, subst, map, ltb,
  ◌==◌, Bool-cases, inl, inr, append_assoc, append-nil,
}
use cgdb.Wm.Resize.{Child, Borrowed, move_down, spare, borrow, borrow_after}
use cgdb.Wm.Resize.Row.{
  Contig, AtLeast, dims, span, slack, ids, Contig-join, move_down-Contig, span-append,
  move_down-Alike, dims-append, ids-append, AtLeast-append,
}

-- The window, and the children behind it.
abbrev pub Follows : ℕ → ℕ → Child → List Child → Type 0
Follows gap p w others = (w.position ≡ p) × Contig gap (p + w.dimension + gap) others

-- The window has gained what is no longer missing, the others have lost it, and all stand in line.
abbrev pub Lent : ℕ → ℕ → ℕ → Child → List Child → Borrowed → Type 0
Lent gap p need w others b =
    Follows gap p b.window b.others
    × AtLeast b.others
    × (ids b.others ≡ ids others)
    × (b.window.dimension + dims b.others ≡ w.dimension + dims others)
    × (b.window.dimension + b.need ≡ w.dimension + need)
    × (b.window.dimension + span gap b.others ≡ w.dimension + span gap others)
    × (b.window.id ≡ w.id)
    × (b.window.minimum ≡ w.minimum)

lent :
    (gap p need : ℕ) (w c : Child) (passed : List Child)
    → Follows gap p w passed
    → AtLeast passed
    → (c.position ≡ p + w.dimension + gap + span gap passed)
    → c.minimum ≤ c.dimension
    → let t = spare need c in
      Lent gap p need w (passed ++ c ∷ []) (record {
        need = need - t;
        window = record w { dimension = w.dimension + t };
        others =
            map (move_down t) passed
            ++ record c { position = c.position + t; dimension = c.dimension - t } ∷ [];
      })
lent gap p need w c passed (f, g) a e l =
    let t = spare need c in
    let d = record c { position = c.position + t; dimension = c.dimension - t } in
    let moved = map (move_down t) passed in
    let (m1, m2, m3, m4, m5) = move_down-Alike t passed in
    let under : t ≤ c.dimension - c.minimum = ground arith in
    let within : t ≤ need = ground arith in
    let start : p + w.dimension + gap + t ≡ p + (w.dimension + t) + gap = omega arith in
    let there : d.position ≡ p + (w.dimension + t) + gap + span gap moved =
      omega (arith, e, m5 gap) in
    let in_line : Contig gap (p + (w.dimension + t) + gap) moved =
      subst (λ q. Contig gap q moved) start
        (move_down-Contig gap t (p + w.dimension + gap) passed g) in
    (
      (f, Contig-join gap (p + (w.dimension + t) + gap) moved (d ∷ []) in_line (there, tt)),
      AtLeast-append moved (d ∷ []) (m4 a) (omega (arith, under, l), tt),
      ids-append moved (d ∷ [])
          ∙ ap (λ z. z ++ c.id ∷ []) (sym m3)
          ∙ sym (ids-append passed (c ∷ [])),
      omega (arith, dims-append moved (d ∷ []), dims-append passed (c ∷ []), m1, under, l),
      omega (arith, within),
      omega (
        arith,
        span-append gap moved (d ∷ []),
        span-append gap passed (c ∷ []),
        m5 gap,
        under,
        l,
      ),
      refl,
      refl,
    )

unchanged :
    (gap p : ℕ) (w c : Child) (passed : List Child) (need : ℕ)
    → Follows gap p w passed
    → AtLeast passed
    → (c.position ≡ p + w.dimension + gap + span gap passed)
    → c.minimum ≤ c.dimension
    → Lent gap p need w
        (passed ++ c ∷ [])
        (record { need = need; window = w; others = passed ++ c ∷ [] })
unchanged gap p w c passed need (f, g) a e l = (
  (f, Contig-join gap (p + w.dimension + gap) passed (c ∷ []) g (e, tt)),
  AtLeast-append passed (c ∷ []) a (l, tt),
  refl,
  refl,
  refl,
  refl,
  refl,
  refl,
)

borrow_lem :
    (gap p need : ℕ) (w c : Child) (passed : List Child)
    → Follows gap p w passed
    → AtLeast passed
    → (c.position ≡ p + w.dimension + gap + span gap passed)
    → c.minimum ≤ c.dimension
    → Lent gap p need w (passed ++ c ∷ []) (borrow need w passed c)
      × ((borrow need w passed c).need ≡ need - (c.dimension - c.minimum))
unfolding borrow
borrow_lem gap p need w c passed f a e l =
    let enough : ltb c.dimension c.minimum ≡ false = ground (arith, l) in
    elim (Bool-cases (need == 0)) [
      | inl z ↦ rw z (unchanged gap p w c passed need f a e l, ground (arith, z))
      | inr z ↦ rw (z, enough) (lent gap p need w c passed f a e l, ground arith)
    ]

both_rounds :
    (gap p need : ℕ) (w c : Child) (passed rest : List Child) (b r : Borrowed)
    → Lent gap p need w (passed ++ c ∷ []) b
    → Lent gap p b.need b.window (b.others ++ rest) r
    → Lent gap p need w (passed ++ c ∷ rest) r
both_rounds gap p need w c passed rest b r (f, a, i, d, n, s, k, m)
      (f2, a2, i2, d2, n2, s2, k2, m2) =
    let shape = append_assoc passed (c ∷ []) rest in
    (
      f2,
      a2,
      i2
          ∙ ids-append b.others rest
          ∙ ap (λ z. z ++ ids rest) i
          ∙ sym (ids-append (passed ++ c ∷ []) rest)
          ∙ ap ids shape,
      omega (
        arith,
        d,
        d2,
        dims-append b.others rest,
        dims-append (passed ++ c ∷ []) rest,
        ap dims shape,
      ),
      omega (arith, n, n2),
      omega (
        arith,
        s,
        s2,
        span-append gap b.others rest,
        span-append gap (passed ++ c ∷ []) rest,
        ap (span gap) shape,
      ),
      k2 ∙ k,
      m2 ∙ m,
    )

pub borrow_after_lem :
    (gap p need : ℕ) (w : Child) (passed rest : List Child)
    → Follows gap p w passed
    → AtLeast passed
    → Contig gap (p + w.dimension + gap + span gap passed) rest
    → AtLeast rest
    → Lent gap p need w (passed ++ rest) (borrow_after need w passed rest)
      × ((borrow_after need w passed rest).need ≡ need - slack rest)
unfolding borrow_after
borrow_after_lem gap p need w passed [] f a h k =
    let r : Borrowed = record { need = need; window = w; others = passed } in
    (
      subst (λ z. Lent gap p need w z r) (sym (append-nil passed))
          (f, a, refl, refl, refl, refl, refl, refl),
      omega arith,
    )
borrow_after_lem gap p need w passed (c ∷ rest) f a (e, h) (l, k) =
    let b = borrow need w passed c in
    let (one, n) = borrow_lem gap p need w c passed f a e l in
    let start : p + w.dimension + gap + span gap passed + c.dimension + gap
        ≡ p + b.window.dimension + gap + span gap b.others =
      omega (arith, one.5, span-append gap passed (c ∷ [])) in
    let (others, n2) =
      borrow_after_lem gap p b.need b.window b.others rest one.0 one.1
        (subst (λ z. Contig gap z rest) start h) k in
    (
      both_rounds gap p need w c passed rest b (borrow_after b.need b.window b.others rest) one
          others,
      omega (arith, n, n2),
    )
