-- ===== src/Adt/TgdbList/Prepend.antt =====
-- lib/adt/tgdb_list.c: an item that is put in front of a list of one item.
use cgdb.Base.{
  ℕ, suc, ◌<◌, ◌==◌, Bool, some, List, [], ◌∷◌, ◌≡◌, refl, ◌∙◌, arith, pos, ==_refl, equals, false,
  Option, ◌>>=◌,
}
use cgdb.Adt.TgdbList.{
  TgdbList, ListNode, Memory, tgdb_list_init, write, change, new_node, insert, append, prepend,
  foreach,
}
use cgdb.Adt.TgdbList.Cells.{items, change_lem}
use cgdb.Adt.TgdbList.Append.{Holds}
use cgdb.Adt.TgdbList.Clear.{visit, foreach_from_lem}
use cgdb.Adt.TgdbList.Run.{Op, kept, run, run-Holds}

module _ {ℓ} {A : Type ℓ} where
  new_lem :
      (m : Memory A) (x : A) (f : ListNode A → ListNode A)
      → 0 < m.fresh
      → change (new_node m x) m.fresh f
        ≡ some (write (new_node m x) m.fresh (f (record { next = 0; prev = 0; item = x })))
  unfolding new_node
  new_lem m x f h =
      change_lem (new_node m x) m.fresh f (record { next = 0; prev = 0; item = x }) h
        (rw (==_refl m.fresh) refl)

  -- A list without a tail, of any number of items but one: the new node becomes the head.
  append_untailed :
      (m : Memory A) (l : TgdbList) (n : ℕ) (z : A)
      → 0 < m.fresh
      → l.size ≡ pos n
      → l.tail ≡ 0
      → equals (pos n) 1 ≡ false
      → (m' : Memory A) × (append m l z
          ≡ some (m', record { size = pos (suc n); head = m.fresh; tail = 0 }))
        × (m.fresh < m'.fresh)
        × (m'.node_at m.fresh ≡ some (record { next = 0; prev = 0; item = z }))
  unfolding append insert
  append_untailed m l n z h o t k = (
    write (new_node m z) m.fresh (record { next = 0; prev = 0; item = z }),
    rw (t, o, k, new_lem m z (λ d. record d { next = 0; prev = 0 }) h) refl,
    unfold new_node in omega arith,
    rw (==_refl m.fresh) refl,
  )

  -- A list of one item: the new node becomes the head, and there still is no tail.
  prepend_untailed :
      (m : Memory A) (a : ℕ) (x y : A)
      → 0 < a
      → a < m.fresh
      → m.node_at a ≡ some (record { next = 0; prev = 0; item = x })
      → (m' : Memory A) × (prepend m (record { size = pos 1; head = a; tail = 0 }) y
          ≡ some (m', record { size = pos 2; head = m.fresh; tail = 0 }))
        × (0 < m'.fresh)
  unfolding prepend insert
  prepend_untailed m a x y p q e =
      let old : ListNode A = record { next = 0; prev = 0; item = x } in
      let f : ListNode A → ListNode A = λ d. record d { next = a; prev = 0 } in
      let g : ListNode A → ListNode A = λ d. record d { prev = m.fresh } in
      let m1 = write (new_node m y) m.fresh (f (record { next = 0; prev = 0; item = y })) in
      let far : (a == m.fresh) ≡ false = ground (arith, q) in
      let here : (a == 0) ≡ false = ground (arith, p) in
      (
        write m1 a (g old),
        rw (here, new_lem m y f (omega (arith, q)), far, e) refl,
        unfold new_node in omega arith,
      )

  -- Three items are put into the list that `ops` leave: one behind, one in front, and one behind.
  abbrev pub put_three : List (Op A) → A → A → A → Memory A → Option (Memory A × TgdbList)
  put_three ops x y z m = run 0 ops m tgdb_list_init >>= λ r.
      append r.0 r.1 x >>= λ r1. prepend r1.0 r1.1 y >>= λ r2. append r2.0 r2.1 z

module _ {ℓ κ} {A : Type ℓ} {S : Type κ} (func : A → S → Bool × S) where
  last_only :
      (m : Memory A) (l : TgdbList) (cells : List (ℕ × A)) (x y z : A) (s : S) (k : ℕ)
      → Holds m l cells
      → items cells ≡ []
      → 1 < k
      → (m1 : Memory A) × (l1 : TgdbList) × ((append m l x >>= λ r.
            prepend r.0 r.1 y >>= λ r2. append r2.0 r2.1 z)
          ≡ some (m1, l1))
        × (l1.size ≡ pos 3)
        × (foreach func k m1 l1 s ≡ some (visit func (z ∷ []) s))
  unfolding foreach
  last_only m l (c ∷ r) x y z s k w i h = absurd (cc i)
  last_only m l [] x y z s k (o, _, t, f, _) i h =
      let (m1, e1, g1, n1) = append_untailed m l 0 x f o t refl in
      let (m2, e2, f2) = prepend_untailed m1 m.fresh x y f g1 n1 in
      let l2 : TgdbList = record { size = pos 2; head = m1.fresh; tail = 0 } in
      let (m3, e3, g3, n3) = append_untailed m2 l2 2 z f2 refl refl refl in
      (
        m3,
        record { size = pos 3; head = m2.fresh; tail = 0 },
        rw (e1, e2, e3) refl,
        refl,
        foreach_from_lem func k m3 0 ((m2.fresh, z) ∷ []) s (f2, g3, refl, n3, tt)
            (omega (arith, h)),
      )

  -- When an item is appended to an empty list, one is put in front of it and another one is appended,
  -- the size is 3, but foreach calls its function on the last one only: the others can not be reached.
  -- The list is empty after any appending and clearing, and at least two rounds are given.
  pub prepend-append :
      (ops : List (Op A)) (m : Memory A) (x y z : A) (s : S) (k : ℕ)
      → 0 < m.fresh
      → kept [] ops ≡ []
      → 1 < k
      → (m1 : Memory A) × (l1 : TgdbList) × (put_three ops x y z m ≡ some (m1, l1))
        × (l1.size ≡ pos 3)
        × (foreach func k m1 l1 s ≡ some (visit func (z ∷ []) s))
  prepend-append ops m x y z s k h e o =
      let (m0, l0, cells, r, i, w) = run-Holds ops m h in
      let (m1, l1, p, q, v) = last_only m0 l0 cells x y z s k w (i ∙ e) o in (m1, l1, rw r p, q, v)
