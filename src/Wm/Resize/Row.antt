-- ===== src/Wm/Resize/Row.antt =====
-- lib/wm/wm_splitter.c: children that stand one after the other along the split.
use cgdb.Base.{ℕ, ◌+◌, ◌-◌, ◌≤◌, List, [], ◌∷◌, ◌++◌, ◌≡◌, refl, ap, arith, subst, map}
use cgdb.Wm.Resize.{Child, move_up, move_down}

-- From `p` on, each child begins where the one before it and `gap` end.
abbrev pub Contig : ℕ → ℕ → List Child → Type 0
Contig gap p [] = Unit {0}
Contig gap p (c ∷ cs) = (c.position ≡ p) × Contig gap (p + c.dimension + gap) cs

-- No child is smaller than its minimum.
abbrev pub AtLeast : List Child → Type 0
AtLeast [] = Unit {0}
AtLeast (c ∷ cs) = (c.minimum ≤ c.dimension) × AtLeast cs

abbrev pub dims : List Child → ℕ
dims [] = 0
dims (c ∷ cs) = c.dimension + dims cs

-- What the children and the gaps behind them take.
abbrev pub span : ℕ → List Child → ℕ
span gap [] = 0
span gap (c ∷ cs) = c.dimension + gap + span gap cs

-- What the children can spare.
abbrev pub slack : List Child → ℕ
slack [] = 0
slack (c ∷ cs) = c.dimension - c.minimum + slack cs

abbrev pub mins : List Child → ℕ
mins [] = 0
mins (c ∷ cs) = c.minimum + mins cs

-- The windows themselves, in their order.
abbrev pub ids : List Child → List ℕ
ids [] = []
ids (c ∷ cs) = c.id ∷ ids cs

module _ (gap : ℕ) where
  pub Contig-split :
      (p : ℕ) (xs ys : List Child)
      → Contig gap p (xs ++ ys)
      → Contig gap p xs × Contig gap (p + span gap xs) ys
  Contig-split p [] ys h = (tt, subst (λ n. Contig gap n ys) {x = p} {y = p + 0} (omega arith) h)
  Contig-split p (c ∷ xs) ys (e, h) =
      let (a, b) = Contig-split (p + c.dimension + gap) xs ys h in
      let same : p + c.dimension + gap + span gap xs ≡ p + span gap (c ∷ xs) = omega arith in
      ((e, a), subst (λ n. Contig gap n ys) same b)

  pub Contig-join :
      (p : ℕ) (xs ys : List Child)
      → Contig gap p xs
      → Contig gap (p + span gap xs) ys
      → Contig gap p (xs ++ ys)
  Contig-join p [] ys a b = subst (λ n. Contig gap n ys) {x = p + 0} {y = p} (omega arith) b
  Contig-join p (c ∷ xs) ys (e, a) b =
      let same : p + span gap (c ∷ xs) ≡ p + c.dimension + gap + span gap xs = omega arith in
      (e, Contig-join (p + c.dimension + gap) xs ys a (subst (λ n. Contig gap n ys) same b))

  pub move_down-Contig :
      (n p : ℕ) (xs : List Child) → Contig gap p xs → Contig gap (p + n) (map (move_down n) xs)
  move_down-Contig n p [] h = h
  move_down-Contig n p (c ∷ xs) (e, h) =
      let same : p + c.dimension + gap + n ≡ p + n + c.dimension + gap = omega arith in
      (
        omega (arith, e),
        subst (λ q. Contig gap q (map (move_down n) xs)) same
            (move_down-Contig n (p + c.dimension + gap) xs h),
      )

  pub move_up-Contig :
      (n p : ℕ) (xs : List Child)
      → n ≤ p
      → Contig gap p xs
      → Contig gap (p - n) (map (move_up n) xs)
  move_up-Contig n p [] l h = h
  move_up-Contig n p (c ∷ xs) l (e, h) =
      let same : p + c.dimension + gap - n ≡ p - n + c.dimension + gap = omega (arith, l) in
      (
        omega (arith, e),
        subst (λ q. Contig gap q (map (move_up n) xs)) same
            (move_up-Contig n (p + c.dimension + gap) xs (omega (arith, l)) h),
      )

  pub span-append : (xs ys : List Child) → span gap (xs ++ ys) ≡ span gap xs + span gap ys
  span-append [] ys = omega arith
  span-append (c ∷ xs) ys = omega (arith, span-append xs ys)

-- What moving leaves alone.
abbrev pub Alike : List Child → List Child → Type 0
Alike xs ys =
    (dims xs ≡ dims ys)
    × (slack xs ≡ slack ys)
    × (ids xs ≡ ids ys)
    × (AtLeast xs → AtLeast ys)
    × ((gap : ℕ) → span gap xs ≡ span gap ys)

pub move_down-Alike : (n : ℕ) (xs : List Child) → Alike xs (map (move_down n) xs)
move_down-Alike n [] = (refl, refl, refl, λ a. a, λ gap. refl)
move_down-Alike n (c ∷ xs) =
    let (a, b, d, e, f) = move_down-Alike n xs in
    (
      ap (λ z. c.dimension + z) a,
      ap (λ z. c.dimension - c.minimum + z) b,
      ap (λ z. c.id ∷ z) d,
      λ h. (h.0, e h.1),
      λ gap. ap (λ z. c.dimension + gap + z) (f gap),
    )

pub move_up-Alike : (n : ℕ) (xs : List Child) → Alike xs (map (move_up n) xs)
move_up-Alike n [] = (refl, refl, refl, λ a. a, λ gap. refl)
move_up-Alike n (c ∷ xs) =
    let (a, b, d, e, f) = move_up-Alike n xs in
    (
      ap (λ z. c.dimension + z) a,
      ap (λ z. c.dimension - c.minimum + z) b,
      ap (λ z. c.id ∷ z) d,
      λ h. (h.0, e h.1),
      λ gap. ap (λ z. c.dimension + gap + z) (f gap),
    )

pub dims-append : (xs ys : List Child) → dims (xs ++ ys) ≡ dims xs + dims ys
dims-append [] ys = omega arith
dims-append (c ∷ xs) ys = omega (arith, dims-append xs ys)

pub ids-append : (xs ys : List Child) → ids (xs ++ ys) ≡ ids xs ++ ids ys
ids-append [] ys = refl
ids-append (c ∷ xs) ys = ap (λ z. c.id ∷ z) (ids-append xs ys)

pub AtLeast-append : (xs ys : List Child) → AtLeast xs → AtLeast ys → AtLeast (xs ++ ys)
AtLeast-append [] ys a b = b
AtLeast-append (c ∷ xs) ys (l, a) b = (l, AtLeast-append xs ys a b)

pub AtLeast-split : (xs ys : List Child) → AtLeast (xs ++ ys) → AtLeast xs × AtLeast ys
AtLeast-split [] ys a = (tt, a)
AtLeast-split (c ∷ xs) ys (l, a) = let (b, d) = AtLeast-split xs ys a in ((l, b), d)

pub slack_lem : (xs : List Child) → AtLeast xs → slack xs + mins xs ≡ dims xs
slack_lem [] a = omega arith
slack_lem (c ∷ xs) (l, a) = omega (arith, l, slack_lem xs a)
