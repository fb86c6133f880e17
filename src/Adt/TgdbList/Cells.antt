-- ===== src/Adt/TgdbList/Cells.antt =====
-- lib/adt/tgdb_list.c: the nodes of a list as a chain in the memory.
use cgdb.Base.{
  ℕ, ◌<◌, ◌≤◌, Bool, true, false, ◌||◌, ◌==◌, some, List, [], ◌∷◌, ◌++◌, ◌≡◌, refl, ◌∙◌, arith, inl,
  inr, ==→≡, Bool-cases,
}
use cgdb.Adt.TgdbList.{ListNode, Memory, write, change}

module _ {ℓ} {A : Type ℓ} where
  -- The cells of a list are the addresses of its nodes and their items, in order.
  abbrev pub first : List (ℕ × A) → ℕ
  first [] = 0
  first (c ∷ r) = c.0

  abbrev pub last_from : ℕ → List (ℕ × A) → ℕ
  last_from a [] = a
  last_from a (c ∷ r) = last_from c.0 r

  abbrev pub has : ℕ → List (ℕ × A) → Bool
  has a [] = false
  has a (c ∷ r) = (a == c.0) || has a r

  abbrev pub items : List (ℕ × A) → List A
  items [] = []
  items (c ∷ r) = c.1 ∷ items r

  -- The cells stand one after the other in the memory, with `prev` in front.
  abbrev pub Chain : Memory A → ℕ → List (ℕ × A) → Type ℓ
  Chain m prev [] = Unit
  Chain m prev (c ∷ r) =
      (0 < c.0)
      × (c.0 < m.fresh)
      × (has c.0 r ≡ false)
      × (m.node_at c.0 ≡ some (record { next = first r; prev = prev; item = c.1 }))
      × Chain m c.0 r

  pub has_last : (a : ℕ) (x : A) (r : List (ℕ × A)) → has (last_from a r) ((a, x) ∷ r) ≡ true
  has_last a x [] = ground arith
  has_last a x (c ∷ r) = ground (arith, has_last c.0 c.1 r)

  pub has-append :
      (a : ℕ) (r : List (ℕ × A)) (b : ℕ) (y : A) → has a (r ++ (b, y) ∷ []) ≡ (has a r || (a == b))
  has-append a [] b y = elim (Bool-cases (a == b)) [ inl k ↦ rw k refl | inr k ↦ rw k refl ]
  has-append a (c ∷ r) b y = elim (Bool-cases (a == c.0)) [
    | inl k ↦ rw k refl
    | inr k ↦ rw k (has-append a r b y)
  ]

  pub apart : (a b : ℕ) (r : List (ℕ × A)) → has a r ≡ false → has b r ≡ true → (a == b) ≡ false
  apart a b r h k = elim (Bool-cases (a == b)) [
    | inl e ↦ absurd (cc (h, k, ==→≡ a b e))
    | inr e ↦ e
  ]

  pub Chain-fresh :
      (m : Memory A) (prev : ℕ) (r : List (ℕ × A)) (a : ℕ)
      → Chain m prev r
      → m.fresh ≤ a
      → has a r ≡ false
  Chain-fresh m prev [] a c h = refl
  Chain-fresh m prev (d ∷ r) a (p, q, o, e, c) h = ground (arith, Chain-fresh m d.0 r a c h)

  -- A chain stays in a memory in which its nodes are as before.
  pub Chain-frame :
      (m n : Memory A) (prev : ℕ) (r : List (ℕ × A))
      → Chain m prev r
      → ((a : ℕ) → has a r ≡ true → n.node_at a ≡ m.node_at a)
      → m.fresh ≤ n.fresh
      → Chain n prev r
  Chain-frame m n prev [] c same h = tt
  Chain-frame m n prev (d ∷ r) (p, q, o, e, c) same h = (
    p,
    omega (arith, q, h),
    o,
    same d.0 (ground arith) ∙ e,
    Chain-frame m n d.0 r c (λ a i. same a (ground (arith, i))) h,
  )

  -- The last node gets a successor.
  pub Chain-extend :
      (m n : Memory A) (prev a : ℕ) (x : A) (r : List (ℕ × A)) (b : ℕ) (y : A)
      → Chain m prev ((a, x) ∷ r)
      → m.fresh ≤ b
      → 0 < b
      → b < n.fresh
      → ((c : ℕ) → (c == last_from a r) ≡ false → (c == b) ≡ false → n.node_at c ≡ m.node_at c)
      → ((d : ListNode A)
          → m.node_at (last_from a r) ≡ some d
          → n.node_at (last_from a r) ≡ some (record d { next = b }))
      → n.node_at b ≡ some (record { next = 0; prev = last_from a r; item = y })
      → Chain n prev ((a, x) ∷ r ++ (b, y) ∷ [])
  Chain-extend m n prev a x [] b y (p, q, o, e, c) h i j same last new =
      (p, omega (arith, q, h, j), ground (arith, q, h), last _ e, (i, j, refl, new, tt))
  Chain-extend m n prev a x (d ∷ r) b y (p, q, o, e, c) h i j same last new =
      let far : (a == last_from d.0 r) ≡ false =
        apart a (last_from d.0 r) (d ∷ r) o (has_last d.0 d.1 r) in
      let outside = has-append a (d ∷ r) b y in
      (
        p,
        omega (arith, q, h, j),
        ground (arith, outside, o, q, h),
        same a far (ground (arith, q, h)) ∙ e,
        Chain-extend m n a d.0 d.1 r b y c h i j same last new,
      )

  pub last_node :
      (m : Memory A) (prev a : ℕ) (x : A) (r : List (ℕ × A))
      → Chain m prev ((a, x) ∷ r)
      → (d : ListNode A) × (m.node_at (last_from a r) ≡ some d)
        × (0 < last_from a r)
        × (last_from a r < m.fresh)
  last_node m prev a x [] (p, q, o, e, c) = (_, e, p, q)
  last_node m prev a x (d ∷ r) (p, q, o, e, c) = last_node m a d.0 d.1 r c

  pub change_lem :
      (m : Memory A) (p : ℕ) (f : ListNode A → ListNode A) (d : ListNode A)
      → 0 < p
      → m.node_at p ≡ some d
      → change m p f ≡ some (write m p (f d))
  unfolding change
  change_lem m p f d h e = let k : (p == 0) ≡ false = ground (arith, h) in rw (k, e) refl
