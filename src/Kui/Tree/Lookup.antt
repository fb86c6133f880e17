-- ===== src/Kui/Tree/Lookup.antt =====
-- Registering a mapping in the trie of lib/kui/kui_tree.c: what the trie holds afterwards.
use cgdb.Base.{
  ℕ, Option, none, some, List, [], ◌∷◌, ◌==◌, eq_list, ◌≡◌, ◌∙◌, refl, if◌then◌else◌, arith,
  Option-cases, inl, inr,
}
use cgdb.Kui.Tree.{
  Node, Children, node, nil, cons, find, key, children, create, insert_sorted, update, ensure,
  node_insert,
}
use cgdb.Kui.Tree.Spec.{lookup}

module _ {V : Type 0} where
  abbrev pub apply : (Node V → Node V) → Option (Node V) → Option (Node V)
  apply f none = none
  apply f (some n) = some (f n)

  pub find-update :
      (x j : ℕ) (f : Node V → Node V)
      → ((n : Node V) → key n ≡ x → key (f n) ≡ x)
      → (c : Children V) → find j (update x f c) ≡ (if x == j then apply f (find j c) else find j c)
  unfolding find update
  find-update x j f h nil = ground arith
  find-update x j f h (cons n r) = ground (arith, h n, find-update x j f h r)

  pub find-insert_sorted :
      (x j : ℕ) (c : Children V)
      → find x c ≡ none
      → find j (insert_sorted (create x) c) ≡ (if x == j then some (create x) else find j c)
  unfolding find insert_sorted
  find-insert_sorted x j nil h = ground arith
  find-insert_sorted x j (cons n r) h = ground (arith, find-insert_sorted x j r)

  -- The child that `node_insert` goes on into.
  abbrev pub child_or_new : ℕ → Option (Node V) → Node V
  child_or_new x none = create x
  child_or_new x (some n) = n

  pub find-ensure :
      (x j : ℕ) (c : Children V)
      → find j (ensure x c) ≡ (if x == j then some (child_or_new x (find x c)) else find j c)
  unfolding ensure
  find-ensure x j c = elim (Option-cases (find x c)) [
    | inl e ↦ rw (e, ensure) (find-insert_sorted x j c e)
    | inr (n, e) ↦ rw (e, ensure) (ground arith)
  ]

  pub key-node_insert : (n : Node V) (ks : List ℕ) (d : V) → key (node_insert n ks d) ≡ key n
  unfolding node_insert
  key-node_insert (node k m c) [] d = refl
  key-node_insert (node k m c) (x ∷ ks) d = refl

  pub find-node_insert :
      (n : Node V) (x j : ℕ) (ks : List ℕ) (d : V)
      → find j (children (node_insert n (x ∷ ks) d)) ≡ (
          if x == j
          then some (node_insert (child_or_new x (find x (children n))) ks d)
          else find j (children n))
  unfolding node_insert
  find-node_insert (node k m c) x j ks d = ground (
    arith,
    find-update x j (λ n. node_insert n ks d) (λ n e. key-node_insert n ks d ∙ e) (ensure x c),
    find-ensure x j c,
  )

  lookup-create : (x : ℕ) (js : List ℕ) → lookup (create {V = V} x) js ≡ none
  unfolding find
  lookup-create x [] = refl
  lookup-create x (j ∷ js) = refl

  -- After a key list is registered, it leads to its macro, and every other key list leads where it
  -- led before.
  pub lookup-node_insert :
      (n : Node V) (ks : List ℕ) (d : V) (js : List ℕ)
      → lookup (node_insert n ks d) js ≡ (if eq_list ks js then some d else lookup n js)
  unfolding node_insert
  lookup-node_insert (node k m c) [] d [] = refl
  lookup-node_insert (node k m c) [] d (j ∷ js) = refl
  lookup-node_insert (node k m c) (x ∷ ks) d [] = refl
  lookup-node_insert (node k m c) (x ∷ ks) d (j ∷ js) = ground (
    arith,
    find-node_insert (node k m c) x j ks d,
    lookup-node_insert (child_or_new x (find x c)) ks d js,
    lookup-create x js,
  )
