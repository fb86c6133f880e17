-- ===== src/Kui/Tree/Sorted.antt =====
-- The order of the children in the trie of lib/kui/kui_tree.c, when a mapping is registered.
use cgdb.Base.{ℕ, ◌<◌, none, List, [], ◌∷◌, ◌≡◌, ◌∙◌, arith}
use cgdb.Kui.Tree.{
  Node, Children, node, nil, cons, find, key, create, insert_sorted, update, ensure, node_insert,
}
use cgdb.Kui.Tree.Spec.{Above, IsSorted, AreSorted}
use cgdb.Kui.Tree.Lookup.{key-node_insert}

module _ {V : Type 0} where
  pub Above-mono : (a b : ℕ) (c : Children V) → a < b → Above b c → Above a c
  Above-mono a b nil h v = v
  Above-mono a b (cons n r) h v = ground (arith, Above-mono a b r h)

  Above-insert_sorted :
      (a : ℕ) (n : Node V) (c : Children V) → a < key n → Above a c → Above a (insert_sorted n c)
  unfolding insert_sorted
  Above-insert_sorted a n nil h v = ground arith
  Above-insert_sorted a n (cons m r) h v = ground (arith, Above-insert_sorted a n r h)

  Above-update :
      (a x : ℕ) (f : Node V → Node V)
      → ((n : Node V) → key n ≡ x → key (f n) ≡ x)
      → (c : Children V) → Above a c
      → Above a (update x f c)
  unfolding update
  Above-update a x f h nil v = v
  Above-update a x f h (cons n r) v = ground (arith, h n, Above-update a x f h r)

  AreSorted-insert_sorted :
      (x : ℕ) (c : Children V)
      → find x c ≡ none
      → AreSorted c
      → AreSorted (insert_sorted (create x) c)
  unfolding insert_sorted find AreSorted
  AreSorted-insert_sorted x nil e s = ground arith
  AreSorted-insert_sorted x (cons n r) e s = ground (
    arith,
    Above-mono x (key n) r,
    AreSorted-insert_sorted x r,
    Above-insert_sorted (key n) (create x) r,
  )

  pub AreSorted-update :
      (x : ℕ) (f : Node V → Node V)
      → ((n : Node V) → key n ≡ x → key (f n) ≡ x)
      → ((n : Node V) → IsSorted n → IsSorted (f n))
      → (c : Children V) → AreSorted c
      → AreSorted (update x f c)
  unfolding update AreSorted
  AreSorted-update x f h k nil s = s
  AreSorted-update x f h k (cons n r) s =
      ground (arith, h n, k n, AreSorted-update x f h k r, Above-update (key n) x f h r)

  AreSorted-ensure : (x : ℕ) (c : Children V) → AreSorted c → AreSorted (ensure x c)
  unfolding ensure
  AreSorted-ensure x c s = ground (arith, AreSorted-insert_sorted x c)

  -- Registering a key list keeps the children of every node sorted.
  pub node_insert-IsSorted :
      (n : Node V) (ks : List ℕ) (d : V) → IsSorted n → IsSorted (node_insert n ks d)
  unfolding node_insert IsSorted
  node_insert-IsSorted (node k m c) [] d s = s
  node_insert-IsSorted (node k m c) (x ∷ ks) d s =
      AreSorted-update x (λ n. node_insert n ks d) (λ n e. key-node_insert n ks d ∙ e)
        (λ n t. node_insert-IsSorted n ks d t) (ensure x c) (AreSorted-ensure x c s)
