-- ===== src/Adt/TgdbList/Clear.antt =====
-- lib/adt/tgdb_list.c: taking nodes off the front, and walking along a list.
use cgdb.Base.{
  ℕ, zero, suc, ◌<◌, Bool, true, false, ◌==◌, some, List, [], ◌∷◌, length, ◌≡◌, refl, ◌∙◌, ap,
  arith, inl, inr, pos, equals, Bool-cases, if◌then◌else◌, ==_refl,
}
use cgdb.Adt.TgdbList.{
  ListNode, TgdbList, Memory, load, write, change, delete, delete_linked, decrement, uncounted,
  without_first, unlinked, clear, foreach_from, foreach, free,
}
use cgdb.Adt.TgdbList.Cells.{first, has, items, Chain, Chain-frame, change_lem, apart, apart}
use cgdb.Adt.TgdbList.Append.{Holds, IsTail}

module _ {ℓ} {A : Type ℓ} where
  -- A chain without its first cell, whose node is unlinked.
  shorter :
      (m : Memory A) (a b : ℕ) (y : A) (r : List (ℕ × A)) (d : ListNode A)
      → Chain m a ((b, y) ∷ r)
      → has a ((b, y) ∷ r) ≡ false
      → Chain (write (write m b (record { next = first r; prev = 0; item = y })) a d) 0 ((b, y) ∷ r)
  shorter m a b y r d (p, q, o, e, c) h =
      let far : (b == a) ≡ false = ground (arith, h) in
      let outside : has a r ≡ false = ground (arith, h) in
      let m2 = write (write m b (record { next = first r; prev = 0; item = y })) a d in
      (
        p,
        q,
        o,
        rw (far, ==_refl b) refl,
        Chain-frame m m2 b r c
            (λ f i.
              let fa : (f == a) ≡ false = ground (arith, apart a f r outside i) in
              let fb : (f == b) ≡ false = ground (arith, apart b f r o i) in rw (fa, fb) refl)
            (omega arith),
      )

  pub delete_first :
      (m : Memory A) (l : TgdbList) (a : ℕ) (x : A) (r : List (ℕ × A))
      → Holds m l ((a, x) ∷ r)
      → (m' : Memory A) × (l' : TgdbList) × (delete m l a ≡ some (m', l')) × Holds m' l' r
  unfolding delete delete_linked
  delete_first m l a x [] (s, h, t, f, c) =
      let n : ListNode A = record { next = 0; prev = 0; item = x } in
      let e : change m a unlinked ≡ some (write m a n) = change_lem m a unlinked n c.0 c.3 in
      (
        write m a n,
        uncounted (record l { head = 0; tail = 0 }),
        rw (s, e) refl,
        (ap decrement s, refl, refl, f, tt),
      )
  delete_first m l a x ((b, y) ∷ r) (s, h, t, f, (p, q, o, e, c)) =
      let n : ListNode A = record { next = b; prev = 0; item = x } in
      let d : ListNode A = record { next = first r; prev = 0; item = y } in
      let m1 = write m b d in
      let m2 = write m1 a (unlinked n) in
      let e1 : change m b (λ w. record w { prev = 0 }) ≡ some m1 =
        change_lem m b _ (record { next = first r; prev = a; item = y }) c.0 c.3 in
      let far : (a == b) ≡ false = ground (arith, o) in
      let e2 : change m1 a unlinked ≡ some m2 = change_lem m1 a unlinked n p (rw far e) in
      let here : (a == 0) ≡ false = ground (arith, p) in
      let loaded : load m a ≡ some n = rw (here, e) refl in
      let none_left : (suc (suc (length r)) == 0) ≡ false = ground arith in
      let one_left : (suc (suc (length r)) == 1) ≡ false = ground arith in
      (
        m2,
        uncounted (without_first l b),
        rw (s, none_left, one_left, loaded, e1, e2) refl,
        (ap decrement s, refl, after r s t, f, shorter m a b y r (unlinked n) c o),
      )
    where
      after :
          (r : List (ℕ × A))
          → l.size ≡ pos (suc (suc (length r)))
          → IsTail ((a, x) ∷ (b, y) ∷ r) l.tail
          → IsTail ((b, y) ∷ r) (if equals l.size 2 then 0 else l.tail)
      after [] s t = rw s (inl refl)
      after (g ∷ r) s t =
          let more : (suc (suc (suc (length r))) == 2) ≡ false = ground arith in rw (s, more) t

  -- Enough rounds clear a list.
  pub clear_lem :
      (k : ℕ) (m : Memory A) (l : TgdbList) (xs : List (ℕ × A))
      → Holds m l xs
      → length xs < k
      → (m' : Memory A) × (l' : TgdbList) × (clear k m l ≡ some (m', l')) × Holds m' l' []
  unfolding clear
  clear_lem zero m l xs w h = absurd (omega (arith, h))
  clear_lem (suc k) m l [] w h = (m, l, rw w.1 refl, w)
  clear_lem (suc k) m l ((a, x) ∷ r) w h =
      let (m1, l1, e1, w1) = delete_first m l a x r w in
      let (m2, l2, e2, w2) = clear_lem k m1 l1 r w1 (omega (arith, h)) in
      let here : (l.head == 0) ≡ false = ground (arith, w.4.0, w.1) in
      let e : delete m l l.head ≡ some (m1, l1) = ap (delete m l) w.1 ∙ e1 in
      (m2, l2, rw (here, e, e2) refl, w2)

module _ {ℓ κ} {A : Type ℓ} {S : Type κ} (func : A → S → Bool × S) where
  -- `func` on the items in order, until it answers false.
  abbrev pub visit : List A → S → Bool × S
  visit [] s = (true, s)
  visit (x ∷ xs) s = elim (func x s).0 [
    | true ↦ visit xs (func x s).1
    | false ↦ (false, (func x s).1)
  ]

  -- The items from the one on that ended it.
  abbrev pub unvisited : List A → S → List A
  unvisited [] s = []
  unvisited (x ∷ xs) s = elim (func x s).0 [ true ↦ unvisited xs (func x s).1 | false ↦ x ∷ xs ]

  pub foreach_from_lem :
      (k : ℕ) (m : Memory A) (prev : ℕ) (xs : List (ℕ × A)) (s : S)
      → Chain m prev xs
      → length xs < k
      → foreach_from func k m (first xs) s ≡ some (visit (items xs) s)
  unfolding foreach_from
  foreach_from_lem zero m prev xs s c h = absurd (omega (arith, h))
  foreach_from_lem (suc k) m prev [] s c h = refl
  foreach_from_lem (suc k) m prev ((a, x) ∷ r) s (p, q, o, e, c) h =
      let here : (a == 0) ≡ false = ground (arith, p) in
      elim (Bool-cases (func x s).0) [
        | inl t ↦ rw (here, e, t) (foreach_from_lem k m a r (func x s).1 c (omega (arith, h)))
        | inr t ↦ rw (here, e, t) refl
      ]

  pub foreach_lem :
      (k : ℕ) (m : Memory A) (l : TgdbList) (xs : List (ℕ × A)) (s : S)
      → Holds m l xs
      → length xs < k
      → foreach func k m l s ≡ some (visit (items xs) s)
  unfolding foreach
  foreach_lem k m l xs s w h = rw w.1 (foreach_from_lem k m 0 xs s w.4 h)

  pub free_lem :
      (k : ℕ) (m : Memory A) (l : TgdbList) (xs : List (ℕ × A)) (s : S)
      → Holds m l xs
      → length xs < k
      → (m' : Memory A) × (l' : TgdbList) × (ys : List (ℕ × A)) × (free func k m l s
          ≡ some ((visit (items xs) s).0, (visit (items xs) s).1, m', l'))
        × (items ys ≡ unvisited (items xs) s)
        × Holds m' l' ys
  unfolding free
  free_lem zero m l xs s w h = absurd (omega (arith, h))
  free_lem (suc k) m l [] s w h = (m, l, [], rw w.1 refl, refl, w)
  free_lem (suc k) m l ((a, x) ∷ r) s w h =
      let here : (l.head == 0) ≡ false = ground (arith, w.4.0, w.1) in
      let loaded : m.node_at l.head ≡ some (record { next = first r; prev = 0; item = x }) =
        ap m.node_at w.1 ∙ w.4.3 in
      elim (Bool-cases (func x s).0) [
        | inl t ↦
            let (m1, l1, e1, w1) = delete_first m l a x r w in
            let (m2, l2, ys, e2, i, w2) = free_lem k m1 l1 r (func x s).1 w1 (omega (arith, h)) in
            let e : delete m l l.head ≡ some (m1, l1) = ap (delete m l) w.1 ∙ e1 in
            (m2, l2, ys, rw (here, loaded, t, e, e2) refl, rw t i, w2)
        | inr t ↦ (m, l, (a, x) ∷ r, rw (here, loaded, t) refl, rw t refl, w)
      ]
