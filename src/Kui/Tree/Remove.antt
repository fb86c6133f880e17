-- ===== src/Kui/Tree/Remove.antt =====
-- The parts of a deletion in the trie of lib/kui/kui_tree.c: finding, replacing and removing a
-- child of a node whose children are sorted.
use cgdb.Base.{
  ℕ, Bool, true, false, none, some, List, [], ◌∷◌, ◌==◌, ◌≡◌, refl, subst, if◌then◌else◌, arith,
  Option-cases, Bool-cases, inl, inr, ◌&&◌,
}
use cgdb.Kui.Tree.{Node, Children, nil, cons, find, key, remove, update}
use cgdb.Kui.Tree.Spec.{Above, IsSorted, AreSorted}
use cgdb.Kui.Tree.Sorted.{Above-mono}

-- The first list is a prefix of the second.
abbrev pub is_prefix : List ℕ → List ℕ → Bool
is_prefix [] ks = true
is_prefix (j ∷ js) [] = false
is_prefix (j ∷ js) (k ∷ ks) = j == k && is_prefix js ks

module _ {V : Type 0} where
  pub key-find : (x : ℕ) (c : Children V) (f : Node V) → find x c ≡ some f → key f ≡ x
  unfolding find
  key-find x nil f e = cc
  key-find x (cons n r) f e = ground (arith, key-find x r f)

  pub find-IsSorted :
      (x : ℕ) (c : Children V) (f : Node V) → AreSorted c → find x c ≡ some f → IsSorted f
  unfolding find AreSorted
  find-IsSorted x nil f s e = cc
  find-IsSorted x (cons n r) f s e = elim (Bool-cases (key n == x)) [
    | inl h ↦ subst IsSorted (ground arith) s.0
    | inr h ↦ find-IsSorted x r f s.2 (ground arith)
  ]

  -- Nothing smaller is found in a list of greater keys.
  find-Above : (x : ℕ) (c : Children V) → Above x c → find x c ≡ none
  unfolding find
  find-Above x nil a = refl
  find-Above x (cons n r) a = ground arith

  pub find-remove :
      (x j : ℕ) (c : Children V) (r : Children V)
      → AreSorted c
      → remove x c ≡ some r
      → find j r ≡ (if x == j then none else find j c)
  unfolding find remove AreSorted
  find-remove x j nil r s e = cc
  find-remove x j (cons n c) r s e = elim (Option-cases (remove x c)) [
    | inl h ↦ ground (arith, find-Above (key n) c s.1, find-Above j c, Above-mono j (key n) c)
    | inr (r', h) ↦ ground (
      arith,
      find-Above (key n) c s.1,
      find-Above j c,
      Above-mono j (key n) c,
      find-remove x j c r',
    )
  ]

  pub remove_total :
      (x : ℕ) (c : Children V) (f : Node V)
      → find x c ≡ some f
      → (r : Children V) × (remove x c ≡ some r)
  unfolding find remove
  remove_total x nil f e = cc
  remove_total x (cons n c) f e = elim (Bool-cases (key n == x)) [
    | inl h ↦ (c, rw h)
    | inr h ↦ let (r, h') = remove_total x c f (ground arith) in (cons n r, rw (h, h'))
  ]

  Above-remove :
      (a x : ℕ) (c : Children V) (r : Children V) → Above a c → remove x c ≡ some r → Above a r
  unfolding remove
  Above-remove a x nil r v e = cc
  Above-remove a x (cons n c) r v e = elim (Option-cases (remove x c)) [
    | inl h ↦ subst (Above a) (ground arith) v.1
    | inr (r', h) ↦ elim (Bool-cases (key n == x)) [
      | inl t ↦ subst (Above a) (ground arith) v.1
      | inr t ↦
          let w : Above a (cons n r') = (v.0, Above-remove a x c r' v.1 h) in
          subst (Above a) {x = cons n r'} (ground arith) w
    ]
  ]

  pub AreSorted-remove :
      (x : ℕ) (c : Children V) (r : Children V) → AreSorted c → remove x c ≡ some r → AreSorted r
  unfolding remove AreSorted
  AreSorted-remove x nil r s e = cc
  AreSorted-remove x (cons n c) r s e = elim (Option-cases (remove x c)) [
    | inl h ↦ subst AreSorted (ground arith) s.2
    | inr (r', h) ↦ elim (Bool-cases (key n == x)) [
      | inl t ↦ subst AreSorted (ground arith) s.2
      | inr t ↦
          let w : AreSorted (cons n r') =
            (s.0, Above-remove (key n) x c r' s.1 h, AreSorted-remove x c r' s.2 h) in
          subst AreSorted {x = cons n r'} (ground arith) w
    ]
  ]

  pub update_self :
      (x : ℕ) (c : Children V) (f : Node V) → find x c ≡ some f → update x (λ _. f) c ≡ c
  unfolding find update
  update_self x nil f e = refl
  update_self x (cons n r) f e = ground (arith, update_self x r f)
