-- ===== src/Adt/TgdbList/Append.antt =====
-- lib/adt/tgdb_list.c: what append does to a list.
use cgdb.Base.{
  ℕ, ◌<◌, false, ◌==◌, Option, none, some, List, [], ◌∷◌, ◌++◌, length, length-append, ◌≡◌, refl,
  ◌∙◌, sym, ap, arith, ◌⊎◌, inl, inr, pos, ==_refl,
}
use cgdb.Adt.TgdbList.{
  ListNode, TgdbList, Memory, write, change, new_node, insert, append, counted, increment,
}
use cgdb.Adt.TgdbList.Cells.{first, last_from, Chain, Chain-extend, last_node, change_lem}

module _ {ℓ} {A : Type ℓ} where
  -- The tail of a list of one is NULL after an append, and the node after a deletion.
  abbrev pub IsTail : List (ℕ × A) → ℕ → Type 0
  IsTail [] t = t ≡ 0
  IsTail (c ∷ []) t = (t ≡ 0) ⊎ (t ≡ c.0)
  IsTail (c ∷ d ∷ r) t = t ≡ last_from d.0 r

  abbrev pub Holds : Memory A → TgdbList → List (ℕ × A) → Type ℓ
  Holds m l xs =
      (l.size ≡ pos (length xs))
      × (l.head ≡ first xs)
      × IsTail xs l.tail
      × (0 < m.fresh)
      × Chain m 0 xs

  -- A node at the end of a list that is not empty.
  abbrev Linked : Memory A → ℕ → A → List (ℕ × A) → A → Type ℓ
  Linked m a x r z =
      (m1 : Memory A) × (m2 : Memory A) × (change (new_node m z) m.fresh
          (λ d. record d { next = 0; prev = last_from a r })
        ≡ some m1)
      × (change m1 (last_from a r) (λ d. record d { next = m.fresh }) ≡ some m2)
      × (0 < m2.fresh)
      × Chain m2 0 ((a, x) ∷ r ++ (m.fresh, z) ∷ [])

  relink : ℕ → Option (ListNode A) → Option (ListNode A)
  relink b none = none
  relink b (some d) = some (record d { next = b })

  relinked :
      (b : ℕ) (d f : ListNode A)
      → some d ≡ some f
      → some (record d { next = b }) ≡ some (record f { next = b })
  unfolding relink
  relinked b d f h = ap (relink b) h

  linked :
      (m : Memory A) (a : ℕ) (x : A) (r : List (ℕ × A)) (z : A)
      → 0 < m.fresh
      → Chain m 0 ((a, x) ∷ r)
      → Linked m a x r z
  unfolding new_node
  linked m a x r z h c =
      let t = last_from a r in
      let (d, e, p, q) = last_node m 0 a x r c in
      let m0 = new_node m z in
      let n : ListNode A = record { next = 0; prev = t; item = z } in
      let m1 = write m0 m.fresh n in
      let m2 = write m1 t (record d { next = m.fresh }) in
      let other : (t == m.fresh) ≡ false = ground (arith, q) in
      let other' : (m.fresh == t) ≡ false = ground (arith, q) in
      (
        m1,
        m2,
        change_lem m0 m.fresh _ (record { next = 0; prev = 0; item = z }) h
            (rw (==_refl m.fresh) refl),
        change_lem m1 t _ d p (rw (other, e) refl),
        omega (arith, h),
        Chain-extend m m2 0 a x r m.fresh z c (omega arith) h (omega arith)
            (λ b i j. rw (i, j) refl) (λ f g. rw (==_refl t) (relinked m.fresh d f (sym e ∙ g)))
            (rw (other', ==_refl m.fresh) refl),
      )

  last_from-append : (a : ℕ) (r : List (ℕ × A)) (b : ℕ) (y : A) → last_from a (r ++ (b, y) ∷ []) ≡ b
  last_from-append a [] b y = refl
  last_from-append a (c ∷ r) b y = last_from-append c.0 r b y

  -- Append puts the item behind the others, in a node of its own.
  pub append_lem :
      (m : Memory A) (l : TgdbList) (xs : List (ℕ × A)) (z : A)
      → Holds m l xs
      → (m' : Memory A) × (l' : TgdbList) × (append m l z ≡ some (m', l'))
        × Holds m' l' (xs ++ (m.fresh, z) ∷ [])
  unfolding append insert
  append_lem m l [] z (s, h, t, f, c) =
      let m0 = new_node m z in
      let m1 = write m0 m.fresh (record { next = 0; prev = 0; item = z }) in
      let e : change m0 m.fresh (λ d. record d { next = 0; prev = 0 }) ≡ some m1 =
        change_lem m0 m.fresh _ (record { next = 0; prev = 0; item = z }) f
          (unfold new_node in rw (==_refl m.fresh) refl) in
      (
        m1,
        counted (record l { head = m.fresh }),
        rw (t, s, e) refl,
        (
          ap increment s,
          refl,
          inl t,
          unfold new_node in omega (arith, f),
          (
            f,
            unfold new_node in omega arith,
            refl,
            unfold new_node in (rw (==_refl m.fresh) refl),
            tt,
          ),
        ),
      )
  append_lem m l ((a, x) ∷ []) z (s, h, inl t, f, c) =
      let (m1, m2, e1, e2, g, k) = linked m a x [] z f c in
      (
        m2,
        counted (record l { tail = m.fresh }),
        rw (t, s, h, e1, e2) refl,
        (ap increment s, h, refl, g, k),
      )
  append_lem m l ((a, x) ∷ []) z (s, h, inr t, f, c) =
      let (m1, m2, e1, e2, g, k) = linked m a x [] z f c in
      let far : (a == 0) ≡ false = ground (arith, c.0) in
      (
        m2,
        counted (record l { tail = m.fresh }),
        rw (t, e1, e2, far) refl,
        (ap increment s, h, refl, g, k),
      )
  append_lem m l ((a, x) ∷ b ∷ r) z (s, h, t, f, c) =
      let (m1, m2, e1, e2, g, k) = linked m a x (b ∷ r) z f c in
      let (d, e, p, q) = last_node m 0 a x (b ∷ r) c in
      let far : (last_from b.0 r == 0) ≡ false = ground (arith, p) in
      let size = length-append r ((m.fresh, z) ∷ []) in
      (
        m2,
        counted (record l { tail = m.fresh }),
        rw (t, e1, e2, far) refl,
        (
          ap increment s ∙ ap pos (omega (arith, size)),
          h,
          sym (last_from-append b.0 r m.fresh z),
          g,
          k,
        ),
      )
