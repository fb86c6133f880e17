-- ===== src/Kui/Tree/Spec.antt =====
-- What a trie of lib/kui/kui_tree.c stands for: the node at the end of a key list, the macro that
-- is mapped to a key list, and the longest mapped prefix of the keys typed.
use cgdb.Base.{ℕ, ◌<◌, Option, none, some, List, [], ◌∷◌, ◌≢◌, ◌⊎◌}
use cgdb.Kui.Tree.{Node, Children, node, nil, cons, find, key, macro_value, children, count}

module _ {V : Type 0} where
  -- The node at the end of a path of keys.
  abbrev pub descend : Node V → List ℕ → Option (Node V)
  descend n [] = some n
  descend n (k ∷ ks) = elim (find k (children n)) [ none ↦ none | some child ↦ descend child ks ]

  abbrev pub macro_of : Option (Node V) → Option V
  macro_of none = none
  macro_of (some n) = macro_value n

  -- The macro that is mapped to exactly this key list.
  abbrev pub lookup : Node V → List ℕ → Option V
  lookup n ks = macro_of (descend n ks)

  abbrev pub keep_mapped : Node V → Option V → Option (Node V)
  keep_mapped n none = none
  keep_mapped n (some v) = some n

  abbrev pub or_else : Option (Node V) → Option (Node V) → Option (Node V)
  or_else none b = b
  or_else (some a) b = some a

  -- The last mapped node on the path of the keys, the start of the path not counted: that of the
  -- longest non-empty mapped prefix.
  abbrev pub longest : Node V → List ℕ → Option (Node V)
  longest n [] = none
  longest n (k ∷ ks) = elim (find k (children n)) [
    | none ↦ none
    | some child ↦ or_else (longest child ks) (keep_mapped child (macro_value child))
  ]

  -- Every key of the list is greater.
  abbrev pub Above : ℕ → Children V → Type 0
  Above k nil = Unit {0}
  Above k (cons n r) = (k < key n) × Above k r

  -- The node is mapped, or has children.
  abbrev pub IsLive : Node V → Type 0
  IsLive n = (macro_value n ≢ none) ⊎ (count (children n) ≢ 0)

-- The children are in strictly ascending order of their keys, at every level.
unfoldable mutual
  pub IsSorted : {V : Type 0} → Node V → Type 0
  IsSorted (node k m c) = AreSorted c

  pub AreSorted : {V : Type 0} → Children V → Type 0
  AreSorted nil = Unit {0}
  AreSorted (cons n r) = IsSorted n × Above (key n) r × AreSorted r

-- Every node below is mapped or has children.
unfoldable mutual
  pub IsFull : {V : Type 0} → Node V → Type 0
  IsFull (node k m c) = AreFull c

  pub AreFull : {V : Type 0} → Children V → Type 0
  AreFull nil = Unit {0}
  AreFull (cons n r) = IsLive n × IsFull n × AreFull r
