-- ===== src/Kui/Tree/Forget.antt =====
-- `kui_tree_delete` of lib/kui/kui_tree.c as a whole: what it forgets and what it fails to forget.
use cgdb.Base.{
  ℕ, false, Option, none, some, List, [], ◌∷◌, ◌≡◌, ◌∙◌, refl, sym, subst, arith, Option-cases, inl,
  inr, ◌≢◌, ◌⊎◌,
}
use cgdb.Kui.Tree.{
  Node, Children, node, nil, cons, find, key, children, count, update, prune, node_delete, Tree,
  tree_delete,
}
use cgdb.Kui.Tree.Spec.{descend, lookup, IsSorted, AreSorted}
use cgdb.Kui.Tree.Sorted.{AreSorted-update}
use cgdb.Kui.Tree.Lookup.{find-update}
use cgdb.Kui.Tree.Remove.{
  is_prefix, key-find, find-IsSorted, find-remove, remove_total, update_self,
}
use cgdb.Kui.Tree.Delete.{Left, node_delete_total, prune_total, Left-trans}

module _ {V : Type 0} where
  -- What `kui_tree_delete` makes of the root.
  abbrev deleted : Node V → List ℕ → Option (Node V)
  deleted n ks = elim (node_delete n ks) [ none ↦ none | some (n', from) ↦ prune from n' ]

  deleted_total :
      (n : Node V) (ks : List ℕ) (t : Node V)
      → IsSorted n
      → descend n ks ≡ some t
      → (n' : Node V) × (deleted n ks ≡ some n') × Left n ks n'
  deleted_total n ks t s d =
      let (n', g, l) = node_delete_total n ks t s d in
      let (n'', p, l') = prune_total n' ks l.sorted in
      (n'', ground (arith, g, p), Left-trans n n' n'' ks l l')

  deleted-node :
      (k x : ℕ) (m : Option V) (c : Children V) (f f' : Node V) (ks : List ℕ)
      → find x c ≡ some f
      → deleted f ks ≡ some f'
      → deleted (node k m c) (x ∷ ks) ≡ prune (some f') (node k m (update x (λ _. f') c))
  unfolding node_delete
  deleted-node k x m c f f' ks e d = ground arith

  lookup-prune :
      (k x : ℕ) (m : Option V) (u : Children V) (f n : Node V) (ks : List ℕ)
      → AreSorted u
      → find x u ≡ some f
      → prune (some f) (node k m u) ≡ some n
      → (count (children f) ≡ 0) ⊎ (lookup f ks ≡ none)
      → lookup n (x ∷ ks) ≡ none
  unfolding prune
  lookup-prune k x m u f n ks s e p h =
      let (r, q) = remove_total x u f e in
      ground (arith, q, key-find x u f e, find-remove x x u r s q)

  lookup-deleted_node :
      (k x : ℕ) (m : Option V) (c : Children V) (f f' n : Node V) (ks : List ℕ)
      → AreSorted c
      → find x c ≡ some f
      → deleted f ks ≡ some f'
      → Left f ks f'
      → (count (children f') ≡ 0) ⊎ (lookup f' ks ≡ none)
      → deleted (node k m c) (x ∷ ks) ≡ some n
      → lookup n (x ∷ ks) ≡ none
  lookup-deleted_node k x m c f f' n ks s e d l o h =
      let same : key f' ≡ x = l.same_key ∙ key-find x c f e in
      lookup-prune k x m (update x (λ _. f') c) f' n ks
        (AreSorted-update x (λ _. f') (λ _ _. same) (λ _ _. l.sorted) c s)
        (ground (arith, find-update x x (λ _. f') (λ _ _. same) c))
        (sym (deleted-node k x m c f f' ks e d) ∙ h) o

  -- The step of the induction: `gone` says what the deletion left of the child.
  lookup-deleted_child :
      (n : Node V) (x : ℕ) (ks : List ℕ) (t n' : Node V)
      → IsSorted n
      → descend n (x ∷ ks) ≡ some t
      → deleted n (x ∷ ks) ≡ some n'
      → ((f f' : Node V)
          → IsSorted f
          → descend f ks ≡ some t
          → deleted f ks ≡ some f'
          → (count (children f') ≡ 0) ⊎ (lookup f' ks ≡ none))
      → lookup n' (x ∷ ks) ≡ none
  unfolding IsSorted
  lookup-deleted_child (node k m c) x ks t n' s d h gone = elim (Option-cases (find x c)) [
    | inl e ↦ absurd (cc (e, d))
    | inr (f, e) ↦
        let sorted = find-IsSorted x c f s e in
        let at : descend f ks ≡ some t = ground arith in
        let (f', g, l) = deleted_total f ks t sorted at in
        lookup-deleted_node k x m c f f' n' ks s e g l (gone f f' sorted at g) h
  ]

  lookup-deleted_leaf :
      (n : Node V) (x : ℕ) (ks : List ℕ) (t n' : Node V)
      → IsSorted n
      → descend n (x ∷ ks) ≡ some t
      → count (children t) ≡ 0
      → deleted n (x ∷ ks) ≡ some n'
      → lookup n' (x ∷ ks) ≡ none
  unfolding node_delete prune
  lookup-deleted_leaf n x [] t n' s d z h =
      lookup-deleted_child n x [] t n' s d h
        (λ f f' _ at g. inl (let e : f' ≡ t = ground arith in rw e z))
  lookup-deleted_leaf n x (y ∷ r) t n' s d z h =
      lookup-deleted_child n x (y ∷ r) t n' s d h
        (λ f f' sf at g. inr (lookup-deleted_leaf f y r t f' sf at z g))

  has_children :
      (n : Node V) (k : ℕ) (ks : List ℕ) (t : Node V)
      → descend n (k ∷ ks) ≡ some t
      → count (children n) ≢ 0
  unfolding find
  has_children (node j m nil) k ks t d = cc
  has_children (node j m (cons a r)) k ks t d = omega arith

  not_pruned : (f n : Node V) → count (children f) ≢ 0 → prune (some f) n ≡ some n
  unfolding prune
  not_pruned f (node k m c) h = ground arith

  -- A node with children is not removed, and neither is anything above it.
  node_delete_inner :
      (n : Node V) (ks : List ℕ) (t : Node V)
      → descend n ks ≡ some t
      → count (children t) ≢ 0
      → (from : Option (Node V)) × (node_delete n ks ≡ some (n, from)) × (prune from n ≡ some n)
  unfolding node_delete
  node_delete_inner n [] t d h = (none, refl, unfold prune in refl)
  node_delete_inner (node k m c) (x ∷ ks) t d h = elim (Option-cases (find x c)) [
    | inl e ↦ absurd (cc (e, d))
    | inr (f, e) ↦
        let at : descend f ks ≡ some t = ground arith in
        let (from, g, p) = node_delete_inner f ks t at h in
        (
          some f,
          ground (arith, g, p, update_self x c f e),
          not_pruned f (node k m c) (inner ks f at),
        )
  ]
    where
      inner : (ks : List ℕ) (f : Node V) → descend f ks ≡ some t → count (children f) ≢ 0
      inner [] f at = let e : f ≡ t = ground arith in rw e h
      inner (y ∷ r) f at = has_children f y r t at

  node_delete_missing : (n : Node V) (ks : List ℕ) → descend n ks ≡ none → node_delete n ks ≡ none
  unfolding node_delete
  node_delete_missing n [] d = cc
  node_delete_missing (node k m c) (x ∷ ks) d = elim (Option-cases (find x c)) [
    | inl e ↦ ground arith
    | inr (f, e) ↦ ground (arith, node_delete_missing f ks)
  ]

  -- The deletion of a key list whose path is not in the trie returns -1.
  tree_delete_missing :
      (t : Tree V) (ks : List ℕ) → descend t.root ks ≡ none → tree_delete t ks ≡ none
  unfolding tree_delete
  tree_delete_missing t [] d = refl
  tree_delete_missing t (k ∷ ks) d = ground (arith, node_delete_missing t.root (k ∷ ks) d)

  deleted_of :
      (t t' : Tree V) (ks : List ℕ) → tree_delete t ks ≡ some t' → deleted t.root ks ≡ some t'.root
  unfolding tree_delete
  deleted_of t t' [] e = cc
  deleted_of t t' (k ∷ ks) e = ground arith

  -- A deletion that succeeds in a sorted trie leaves every key list that is not a prefix of the
  -- deleted one with the macro that it had.
  pub lookup-tree_delete :
      (t t' : Tree V) (ks js : List ℕ)
      → IsSorted t.root
      → tree_delete t ks ≡ some t'
      → is_prefix js ks ≡ false
      → lookup t'.root js ≡ lookup t.root js
  lookup-tree_delete t t' ks js s e p = elim (Option-cases (descend t.root ks)) [
    | inl d ↦ absurd (cc (tree_delete_missing t ks d, e))
    | inr (n, d) ↦
        let (r, g, l) = deleted_total t.root ks n s d in
        let same : r ≡ t'.root = cc (g, deleted_of t t' ks e) in
        subst (λ r. lookup r js ≡ lookup t.root js) same (l.kept js p)
  ]

  -- A deletion in a sorted trie unmaps a non-empty key list that no other key list extends.
  pub tree_delete_leaf :
      (t t' : Tree V) (k : ℕ) (ks : List ℕ) (n : Node V)
      → IsSorted t.root
      → descend t.root (k ∷ ks) ≡ some n
      → count (children n) ≡ 0
      → tree_delete t (k ∷ ks) ≡ some t'
      → lookup t'.root (k ∷ ks) ≡ none
  tree_delete_leaf t t' k ks n s d z e =
      lookup-deleted_leaf t.root k ks n t'.root s d z (deleted_of t t' (k ∷ ks) e)

  -- The deletion of a non-empty key list that other key lists extend succeeds and changes nothing: the
  -- macro stays mapped.
  pub tree_delete_inner :
      (t : Tree V) (k : ℕ) (ks : List ℕ) (n : Node V)
      → descend t.root (k ∷ ks) ≡ some n
      → count (children n) ≢ 0
      → tree_delete t (k ∷ ks) ≡ some t
  unfolding tree_delete
  tree_delete_inner t k ks n d h =
      let (from, g, p) = node_delete_inner t.root (k ∷ ks) n d h in ground (arith, g, p)
