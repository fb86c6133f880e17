-- ===== src/Kui/Tree/Delete.antt =====
-- Deleting a mapping from the trie of lib/kui/kui_tree.c: when it succeeds and what is left.
use cgdb.Base.{
  ℕ, false, Option, none, some, List, [], ◌∷◌, ◌==◌, ◌≡◌, ◌∙◌, refl, arith, Option-cases,
  Bool-cases, inl, inr, ==→≡,
}
use cgdb.Kui.Tree.{
  Node, Children, node, nil, cons, find, key, children, count, remove, update, prune, node_delete,
}
use cgdb.Kui.Tree.Spec.{descend, lookup, IsSorted, AreSorted}
use cgdb.Kui.Tree.Sorted.{AreSorted-update}
use cgdb.Kui.Tree.Lookup.{find-update}
use cgdb.Kui.Tree.Remove.{
  is_prefix, key-find, find-IsSorted, find-remove, remove_total, AreSorted-remove,
}

module _ {V : Type 0} where
  -- The child that the first key of a list leads to.
  abbrev pub first_child : Node V → List ℕ → Option (Node V)
  first_child n [] = none
  first_child n (k ∷ ks) = find k (children n)

  -- `n'` is `n` with nothing changed but what lies on the path `ks`.
  pub record Left (n : Node V) (ks : List ℕ) (n' : Node V) : Type 0 where
    pub same_key : key n' ≡ key n
    pub sorted : IsSorted n'
    pub kept : (js : List ℕ) → is_prefix js ks ≡ false → lookup n' js ≡ lookup n js

  lookup_leaf :
      (n : Node V) (j : ℕ) (js : List ℕ) → count (children n) ≡ 0 → lookup n (j ∷ js) ≡ none
  unfolding find
  lookup_leaf (node k m nil) j js e = refl
  lookup_leaf (node k m (cons n r)) j js e = cc

  prune-kept :
      (k : ℕ) (m : Option V) (c r : Children V) (f : Node V) (x : ℕ) (ks js : List ℕ)
      → AreSorted c
      → find x c ≡ some f
      → count (children f) ≡ 0
      → remove x c ≡ some r
      → is_prefix js (x ∷ ks) ≡ false
      → lookup (node k m r) js ≡ lookup (node k m c) js
  prune-kept k m c r f x ks [] s e z h p = cc
  prune-kept k m c r f x ks (j ∷ []) s e z h p = ground (arith, find-remove x j c r s h)
  prune-kept k m c r f x ks (j ∷ i ∷ js) s e z h p =
      ground (arith, find-remove x j c r s h, lookup_leaf f i js z)

  pub prune_total :
      (n : Node V) (ks : List ℕ)
      → IsSorted n
      → (n' : Node V) × (prune (first_child n ks) n ≡ some n') × Left n ks n'
  unfolding prune IsSorted
  prune_total n [] s = (n, refl, record { same_key = refl; sorted = s; kept = λ js h. refl })
  prune_total (node k m c) (x ∷ ks) s = elim (Option-cases (find x c)) [
    | inl e ↦ (node k m c, rw e, record { same_key = refl; sorted = s; kept = λ js h. refl })
    | inr (f, e) ↦ elim (Bool-cases (count (children f) == 0)) [
      | inl z ↦
          let (r, h) = remove_total x c f e in
          (
            node k m r,
            rw e (ground (arith, h, key-find x c f e)),
            record {
              same_key = refl;
              sorted = AreSorted-remove x c r s h;
              kept = λ js p. prune-kept k m c r f x ks js s e (==→≡ _ _ z) h p;
            },
          )
      | inr z ↦ (
        node k m c,
        rw e (ground arith),
        record { same_key = refl; sorted = s; kept = λ js h. refl },
      )
    ]
  ]

  Left-node :
      (k x : ℕ) (m : Option V) (c : Children V) (a b : Node V) (ks : List ℕ)
      → AreSorted c
      → find x c ≡ some a
      → Left a ks b
      → Left (node k m c) (x ∷ ks) (node k m (update x (λ _. b) c))
  unfolding IsSorted
  Left-node k x m c a b ks s e l = record {
    same_key = refl;
    sorted = AreSorted-update x (λ _. b) (λ _ _. same) (λ _ _. l.sorted) c s;
    kept = kept_at;
  }
    where
      same : key b ≡ x
      same = l.same_key ∙ key-find x c a e

      kept_at :
          (js : List ℕ)
          → is_prefix js (x ∷ ks) ≡ false
          → lookup (node k m (update x (λ _. b) c)) js ≡ lookup (node k m c) js
      kept_at [] h = cc
      kept_at (j ∷ js) h = ground (arith, find-update x j (λ _. b) (λ _ _. same) c, l.kept js)

  pub Left-trans : (a b c : Node V) (ks : List ℕ) → Left a ks b → Left b ks c → Left a ks c
  Left-trans a b c ks l r = record {
    same_key = r.same_key ∙ l.same_key;
    sorted = r.sorted;
    kept = λ js h. r.kept js h ∙ l.kept js h;
  }

  pub node_delete_total :
      (n : Node V) (ks : List ℕ) (t : Node V)
      → IsSorted n
      → descend n ks ≡ some t
      → (n' : Node V) × (node_delete n ks ≡ some (n', first_child n' ks)) × Left n ks n'
  unfolding node_delete IsSorted
  node_delete_total n [] t s d =
      (n, refl, record { same_key = refl; sorted = s; kept = λ js h. refl })
  node_delete_total (node k m c) (x ∷ ks) t s d = elim (Option-cases (find x c)) [
    | inl e ↦ absurd (cc (e, d))
    | inr (f, e) ↦
        let (f', g, l) = node_delete_total f ks t (find-IsSorted x c f s e) (ground arith) in
        let (f'', p, l') = prune_total f' ks l.sorted in
        let both = Left-trans f f' f'' ks l l' in
        let same : key f'' ≡ x = both.same_key ∙ key-find x c f e in
        (
          node k m (update x (λ _. f'') c),
          ground (arith, g, p, find-update x x (λ _. f'') (λ _ _. same) c),
          Left-node k x m c f f'' ks s e both,
        )
  ]
