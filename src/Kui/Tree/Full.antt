-- ===== src/Kui/Tree/Full.antt =====
-- Whether the leaves of the trie of lib/kui/kui_tree.c are mapped, when a mapping is registered.
use cgdb.Base.{
  ℕ, suc, some, List, [], ◌∷◌, ◌==◌, ◌≡◌, ◌≢◌, ◌∙◌, refl, sym, subst, arith, Option-cases,
  Bool-cases, inl, inr,
}
use cgdb.Kui.Tree.{
  Node, Children, node, nil, cons, find, key, count, create, insert_sorted, update, ensure,
  node_insert,
}
use cgdb.Kui.Tree.Spec.{descend, IsFull, AreFull, IsLive}

module _ {V : Type 0} where
  AreFull-update :
      (x : ℕ) (f : Node V → Node V)
      → ((n : Node V) → IsFull n → IsLive (f n) × IsFull (f n))
      → (c : Children V) → AreFull c
      → AreFull (update x f c)
  unfolding AreFull update
  AreFull-update x f h nil v = v
  AreFull-update x f h (cons n r) v = ground (arith, h n, AreFull-update x f h r)

  AreFull-update-insert_sorted :
      (x : ℕ) (f : Node V → Node V)
      → ((n : Node V) → IsFull n → IsLive (f n) × IsFull (f n))
      → (c : Children V) → AreFull c
      → AreFull (update x f (insert_sorted (create x) c))
  unfolding AreFull update insert_sorted
  AreFull-update-insert_sorted x f h nil v = ground (arith, h (create x))
  AreFull-update-insert_sorted x f h (cons n r) v =
      ground
        (arith, h n, h (create x), AreFull-update x f h r, AreFull-update-insert_sorted x f h r)

  count-update : (x : ℕ) (f : Node V → Node V) (c : Children V) → count (update x f c) ≡ count c
  unfolding update
  count-update x f nil = refl
  count-update x f (cons n r) = ground (arith, count-update x f r)

  count-insert_sorted : (n : Node V) (c : Children V) → count (insert_sorted n c) ≡ suc (count c)
  unfolding insert_sorted
  count-insert_sorted n nil = refl
  count-insert_sorted n (cons a r) = ground (arith, count-insert_sorted n r)

  count-ensure : (x : ℕ) (c : Children V) → count (ensure x c) ≢ 0
  unfolding ensure find
  count-ensure x nil = ground (arith, count-insert_sorted (create x) nil)
  count-ensure x (cons a r) = ground (arith, count-insert_sorted (create x) (cons a r))

  node_insert-IsLive : (n : Node V) (ks : List ℕ) (d : V) → IsLive (node_insert n ks d)
  unfolding node_insert
  node_insert-IsLive (node k m c) [] d = inl (λ e. cc)
  node_insert-IsLive (node k m c) (x ∷ ks) d =
      inr (λ z. count-ensure x c (sym (count-update x (λ n. node_insert n ks d) (ensure x c)) ∙ z))

  -- Registering a key list keeps every leaf below the root mapped.
  pub node_insert-IsFull :
      (n : Node V) (ks : List ℕ) (d : V) → IsFull n → IsFull (node_insert n ks d)
  unfolding node_insert IsFull ensure
  node_insert-IsFull (node k m c) [] d v = v
  node_insert-IsFull (node k m c) (x ∷ ks) d v = elim (Option-cases (find x c)) [
    | inl e ↦
        rw (e, ensure)
          (AreFull-update-insert_sorted x (λ n. node_insert n ks d)
            (λ n w. (node_insert-IsLive n ks d, node_insert-IsFull n ks d w)) c v)
    | inr (n, e) ↦
        rw (e, ensure)
          (AreFull-update x (λ n. node_insert n ks d)
            (λ n w. (node_insert-IsLive n ks d, node_insert-IsFull n ks d w)) c v)
  ]

  find-IsFull :
      (x : ℕ) (c : Children V) (f : Node V) → AreFull c → find x c ≡ some f → IsLive f × IsFull f
  unfolding AreFull find
  find-IsFull x nil f v e = cc
  find-IsFull x (cons n r) f v e = elim (Bool-cases (key n == x)) [
    | inl h ↦ let p : n ≡ f = ground arith in (subst IsLive p v.0, subst IsFull p v.1)
    | inr h ↦ find-IsFull x r f v.2 (ground arith)
  ]

  below-IsLive :
      (ks : List ℕ) (f x : Node V) → IsLive f → IsFull f → descend f ks ≡ some x → IsLive x
  unfolding IsFull
  below-IsLive [] f x l v d = subst IsLive {x = f} {y = x} (ground arith) l
  below-IsLive (k ∷ ks) (node j m c) x l v d = elim (Option-cases (find k c)) [
    | inl e ↦ absurd (cc (e, d))
    | inr (f, e) ↦ let w = find-IsFull k c f v e in below-IsLive ks f x w.0 w.1 (ground arith)
  ]

  -- A node at the end of a path is mapped, or has children.
  pub descend-IsLive :
      (n : Node V) (k : ℕ) (ks : List ℕ) (x : Node V)
      → IsFull n
      → descend n (k ∷ ks) ≡ some x
      → IsLive x
  unfolding IsFull
  descend-IsLive (node j m c) k ks x v d = elim (Option-cases (find k c)) [
    | inl e ↦ absurd (cc (e, d))
    | inr (f, e) ↦ let w = find-IsFull k c f v e in below-IsLive ks f x w.0 w.1 (ground arith)
  ]
