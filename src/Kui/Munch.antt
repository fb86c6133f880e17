-- ===== src/Kui/Munch.antt =====
-- Longest-match reading of keys, the specification of `kui_findkey` in lib/kui/kui.c.
use cgdb.Base.{
  ℕ, Option, none, some, List, [], ◌∷◌, ◌++◌, ◌≡◌, refl, arith, Option-cases, inl, inr, ◌⊎◌,
}
use cgdb.Kui.Tree.{Node, node, nil, cons, find, macro_value, children, count}
use cgdb.Kui.Tree.Spec.{descend, macro_of, longest}

module _ {V : Type 0} where
  abbrev pub mapped_here : Option V → List ℕ → Option (V × List ℕ)
  mapped_here none rest = none
  mapped_here (some v) rest = some (v, rest)

  abbrev pub or_mapped : Option (V × List ℕ) → Option (V × List ℕ) → Option (V × List ℕ)
  or_mapped none b = b
  or_mapped (some a) b = some a

  -- The macro of the longest non-empty mapped prefix, and the keys behind that prefix.
  abbrev pub munch : Node V → List ℕ → Option (V × List ℕ)
  munch n [] = none
  munch n (k ∷ ks) = elim (find k (children n)) [
    | none ↦ none
    | some child ↦ or_mapped (munch child ks) (mapped_here (macro_value child) ks)
  ]

  abbrev pub extend : List ℕ → Option (V × List ℕ) → Option (V × List ℕ)
  extend rest none = none
  extend rest (some (v, ks)) = some (v, ks ++ rest)

  -- The last mapped node of the path is where the longest mapped prefix ends.
  pub munch-longest :
      (n : Node V) (ks : List ℕ)
      → ((longest n ks ≡ none) × (munch n ks ≡ none))
        ⊎ ((c : Node V) × (v : V) × (ex : List ℕ) × (longest n ks ≡ some c)
            × (macro_value c ≡ some v)
            × (munch n ks ≡ some (v, ex)))
  munch-longest n [] = inl (refl, refl)
  munch-longest n (k ∷ ks) = elim (Option-cases (find k (children n))) [
    | inl e ↦ inl (ground arith, ground arith)
    | inr (c, e) ↦ elim (munch-longest c ks) [
      | inr (d, v, ex, l, m, u) ↦ inr (d, v, ex, ground arith, m, ground arith)
      | inl (l, u) ↦ elim (Option-cases (macro_value c)) [
        | inl m ↦ inl (ground arith, ground arith)
        | inr (v, m) ↦ inr (c, v, ks, ground arith, m, ground arith)
      ]
    ]
  ]

  -- One key more: either the longer prefix is mapped, or the key is one more extra key.
  pub munch-append :
      (n : Node V) (ks : List ℕ) (k : ℕ)
      → munch n (ks ++ k ∷ [])
        ≡ or_mapped
            (mapped_here (macro_of (descend n (ks ++ k ∷ []))) [])
            (extend (k ∷ []) (munch n ks))
  munch-append n [] k = ground arith
  munch-append n (x ∷ ks) k = elim (Option-cases (find x (children n))) [
    | inl e ↦ ground arith
    | inr (c, e) ↦ ground (arith, munch-append c ks k)
  ]

  munch_leaf : (n : Node V) (rest : List ℕ) → count (children n) ≡ 0 → munch n rest ≡ none
  unfolding find
  munch_leaf n [] z = refl
  munch_leaf (node k m nil) (x ∷ r) z = refl
  munch_leaf (node k m (cons a c)) (x ∷ r) z = cc

  -- Once the path is lost, or has come to a leaf, no longer prefix is mapped.
  pub munch_stuck :
      (n : Node V) (ks rest : List ℕ)
      → (descend n ks ≡ none) ⊎ ((c : Node V) × (descend n ks ≡ some c) × (count (children c) ≡ 0))
      → munch n (ks ++ rest) ≡ extend rest (munch n ks)
  munch_stuck n [] rest h = elim h [
    | inl d ↦ cc
    | inr (c, d, z) ↦ munch_leaf n rest (let e : n ≡ c = ground arith in rw e z)
  ]
  munch_stuck n (x ∷ ks) rest h = elim (Option-cases (find x (children n))) [
    | inl e ↦ ground arith
    | inr (c, e) ↦ ground (arith, munch_stuck c ks rest)
  ]
