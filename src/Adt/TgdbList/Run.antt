-- ===== src/Adt/TgdbList/Run.antt =====
-- lib/adt/tgdb_list.c: a list that is filled, cleared and walked along.
use cgdb.Base.{
  ℕ, suc, ◌<◌, ◌≤◌, Bool, Option, none, some, List, [], ◌∷◌, ◌++◌, length, length-append, ◌≡◌, refl,
  ◌∙◌, sym, ap, arith, subst, inl, inr, pos, ◌>>=◌, Bool-cases,
}
use cgdb.Adt.TgdbList.{TgdbList, Memory, tgdb_list_init, append, clear, foreach, free}
use cgdb.Adt.TgdbList.Cells.{items}
use cgdb.Adt.TgdbList.Append.{Holds, append_lem}
use cgdb.Adt.TgdbList.Clear.{clear_lem, visit, unvisited, foreach_lem, free_lem}

-- What is done to a list, and what should be in it afterwards.
pub data Op {ℓ} (A : Type ℓ) : Type ℓ where
  added : A → Op A
  cleared : Op A

module _ {ℓ} {A : Type ℓ} where
  abbrev pub kept : List A → List (Op A) → List A
  kept xs [] = xs
  kept xs (added x ∷ ops) = kept (xs ++ x ∷ []) ops
  kept xs (cleared ∷ ops) = kept [] ops

  -- The list after `ops`; a clearing is given one round more than there are items.
  abbrev pub run : ℕ → List (Op A) → Memory A → TgdbList → Option (Memory A × TgdbList)
  run n [] m l = some (m, l)
  run n (added x ∷ ops) m l = append m l x >>= λ r. run (suc n) ops r.0 r.1
  run n (cleared ∷ ops) m l = clear (suc n) m l >>= λ r. run 0 ops r.0 r.1

  items-append :
      (xs : List (ℕ × A)) (a : ℕ) (x : A) → items (xs ++ (a, x) ∷ []) ≡ items xs ++ x ∷ []
  items-append [] a x = refl
  items-append (y ∷ ys) a x = ap (λ z. y.1 ∷ z) (items-append ys a x)

  length-items : (xs : List (ℕ × A)) → length (items xs) ≡ length xs
  length-items [] = refl
  length-items (x ∷ xs) = ap suc (length-items xs)

  -- A list with the given items.
  abbrev Stores : Memory A → TgdbList → List A → Type ℓ
  Stores m l xs = (cells : List (ℕ × A)) × (items cells ≡ xs) × Holds m l cells

  run_lem :
      (ops : List (Op A)) (m : Memory A) (l : TgdbList) (xs : List A)
      → Stores m l xs
      → (m' : Memory A) × (l' : TgdbList) × (run (length xs) ops m l ≡ some (m', l'))
        × Stores m' l' (kept xs ops)
  run_lem [] m l xs w = (m, l, refl, w)
  run_lem (added x ∷ ops) m l xs (cells, i, w) =
      let (m1, l1, e1, w1) = append_lem m l cells x w in
      let (m2, l2, e2, w2) =
        run_lem ops m1 l1 (xs ++ x ∷ []) (
          cells ++ (m.fresh, x) ∷ [],
          items-append cells m.fresh x ∙ ap (λ z. z ++ x ∷ []) i,
          w1,
        ) in
      let size : length (xs ++ x ∷ []) ≡ suc (length xs) =
        omega (arith, length-append xs (x ∷ [])) in
      (m2, l2, rw e1 (subst (λ n. run n ops m1 l1 ≡ some (m2, l2)) size e2), w2)
  run_lem (cleared ∷ ops) m l xs (cells, i, w) =
      let size : length cells ≡ length xs = sym (length-items cells) ∙ ap length i in
      let (m1, l1, e1, w1) = clear_lem (suc (length xs)) m l cells w (omega (arith, size)) in
      let (m2, l2, e2, w2) = run_lem ops m1 l1 [] ([], refl, w1) in (m2, l2, rw e1 e2, w2)

  init-Stores : (m : Memory A) → 0 < m.fresh → Stores m tgdb_list_init []
  init-Stores m h = ([], refl, (refl, refl, refl, h, tt))

  -- What is done from an empty list on leaves a list of the items kept.
  pub run-Holds :
      (ops : List (Op A)) (m : Memory A)
      → 0 < m.fresh
      → (m1 : Memory A) × (l1 : TgdbList) × (cells : List (ℕ × A)) × (run 0 ops m tgdb_list_init
          ≡ some (m1, l1))
        × (items cells ≡ kept [] ops)
        × Holds m1 l1 cells
  run-Holds ops m h =
      let (m1, l1, e, (cells, i, w)) = run_lem ops m tgdb_list_init [] (init-Stores m h) in
      (m1, l1, cells, e, i, w)

  -- The memory in which nothing is allocated yet.
  abbrev pub empty : Memory A
  empty = record { node_at = λ a. none; fresh = 1 }

module _ {ℓ κ} {A : Type ℓ} {S : Type κ} (func : A → S → Bool × S) where
  length-unvisited : (xs : List A) (s : S) → length (unvisited func xs s) ≤ length xs
  length-unvisited [] s = omega arith
  length-unvisited (x ∷ xs) s = elim (Bool-cases (func x s).0) [
    | inl t ↦ rw (length, t) (omega (arith, length-unvisited xs (func x s).1))
    | inr t ↦ rw (length, t) (omega arith)
  ]

  -- Appending and clearing in any order goes well from an empty list on, and then the size is the number
  -- of the items that were appended since the last clearing; with more rounds than there are of them,
  -- foreach calls its function on just these items in their order until it fails, and free does the
  -- same, after which the list holds the items from the one that failed on and foreach visits these.
  pub run_init-foreach :
      (ops : List (Op A)) (m : Memory A) (s t : S) (k : ℕ)
      → 0 < m.fresh
      → length (kept [] ops) < k
      → (m1 : Memory A) × (l1 : TgdbList) × (m2 : Memory A) × (l2 : TgdbList) × (run 0 ops m
            tgdb_list_init
          ≡ some (m1, l1))
        × (l1.size ≡ pos (length (kept [] ops)))
        × (foreach func k m1 l1 s ≡ some (visit func (kept [] ops) s))
        × (free func k m1 l1 s
            ≡ some ((visit func (kept [] ops) s).0, (visit func (kept [] ops) s).1, m2, l2))
        × (foreach func k m2 l2 t ≡ some (visit func (unvisited func (kept [] ops) s) t))
  run_init-foreach ops m s t k h o =
      let (m1, l1, e, (cells, i, w)) = run_lem ops m tgdb_list_init [] (init-Stores m h) in
      let size : length cells ≡ length (kept [] ops) = sym (length-items cells) ∙ ap length i in
      let (m2, l2, left, f, j, v) = free_lem func k m1 l1 cells s w (omega (arith, size, o)) in
      let fewer : length left ≤ length cells = omega (
        arith,
        length-items left,
        length-items cells,
        length-unvisited (items cells) s,
        ap length j,
      ) in
      (
        m1,
        l1,
        m2,
        l2,
        e,
        w.0 ∙ ap pos size,
        foreach_lem func k m1 l1 cells s w (omega (arith, size, o))
            ∙ ap (λ z. some (visit func z s)) i,
        f ∙ ap (λ z. some ((visit func z s).0, (visit func z s).1, m2, l2)) i,
        foreach_lem func k m2 l2 left t v (omega (arith, size, fewer, o))
            ∙ ap (λ z. some (visit func z t)) (j ∙ ap (λ z. unvisited func z s) i),
      )
