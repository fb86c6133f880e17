-- ===== src/Kui/Tree/Match.antt =====
-- Matching the keys typed against the trie: what `kui_tree_push_key` keeps track of.
use cgdb.Base.{
  ℕ, Bool, true, false, Option, none, some, List, [], ◌∷◌, ◌++◌, ◌==◌, ◌≡◌, refl, ap, if◌then◌else◌,
  arith, Option-cases, inl, inr,
}
use cgdb.Kui.Tree.{
  Node, find, macro_value, children, count, TreeState, matching, found_map, not_found, Tree,
  reset_state, enter, push_key,
}
use cgdb.Kui.Tree.Spec.{descend, lookup, longest, or_else, keep_mapped}

abbrev pub is_some {ℓ} : {A : Type ℓ} → Option A → Bool
is_some none = false
is_some (some a) = true

module _ {V : Type 0} where
  -- The state at the end of a path: a leaf is a map, and the empty path is still matching.
  abbrev pub state_of : Option (Node V) → TreeState
  state_of none = not_found
  state_of (some n) = if count (children n) == 0 then found_map else matching

  abbrev pub state_at : Node V → List ℕ → TreeState
  state_at n [] = matching
  state_at n (k ∷ ks) = state_of (descend n (k ∷ ks))

  -- The fields of the tree are right for the keys `ks` that were pushed since the reset.
  pub record Tracks (t : Tree V) (ks : List ℕ) : Type 0 where
    pub at : t.cur ≡ descend t.root ks
    pub last : t.found_node ≡ longest t.root ks
    pub flag : t.found ≡ is_some (longest t.root ks)
    pub phase : t.state ≡ state_at t.root ks

  pub reset_state-Tracks : (t : Tree V) → Tracks (reset_state t) []
  unfolding reset_state
  reset_state-Tracks t = ground arith

  abbrev step_to : Option (Node V) → ℕ → Option (Node V)
  step_to none k = none
  step_to (some n) k = find k (children n)

  abbrev step_longest : Option (Node V) → Option (Node V) → Option (Node V)
  step_longest b none = b
  step_longest b (some n) = or_else (keep_mapped n (macro_value n)) b

  descend-append :
      (n : Node V) (ks : List ℕ) (k : ℕ) → descend n (ks ++ k ∷ []) ≡ step_to (descend n ks) k
  descend-append n [] k = ground arith
  descend-append n (x ∷ ks) k = elim (Option-cases (find x (children n))) [
    | inl e ↦ ground arith
    | inr (c, e) ↦ ground (arith, descend-append c ks k)
  ]

  longest-append :
      (n : Node V) (ks : List ℕ) (k : ℕ)
      → longest n (ks ++ k ∷ []) ≡ step_longest (longest n ks) (descend n (ks ++ k ∷ []))
  longest-append n [] k = ground arith
  longest-append n (x ∷ ks) k = elim (Option-cases (find x (children n))) [
    | inl e ↦ ground arith
    | inr (c, e) ↦ ground (arith, longest-append c ks k)
  ]

  state_at-append :
      (n : Node V) (ks : List ℕ) (k : ℕ)
      → state_at n (ks ++ k ∷ []) ≡ state_of (descend n (ks ++ k ∷ []))
  state_at-append n [] k = refl
  state_at-append n (x ∷ ks) k = refl

  not_matching : (n : Node V) (ks : List ℕ) → descend n ks ≡ none → state_at n ks ≡ not_found
  not_matching n [] e = cc
  not_matching n (k ∷ ks) e = ap state_of e

  -- A key that is pushed while the tree is matching is never refused; the fields are then right
  -- for the keys with this one at their end, and `*map_found` says whether exactly these keys
  -- are mapped.
  pub push_key-Tracks :
      (t : Tree V) (ks : List ℕ) (k : ℕ)
      → Tracks t ks
      → t.state ≡ matching
      → (t' : Tree V) × (push_key t k ≡ some (t', is_some (lookup t.root (ks ++ k ∷ []))))
        × Tracks t' (ks ++ k ∷ [])
        × (t'.root ≡ t.root)
  unfolding push_key enter
  push_key-Tracks t ks k v m = elim (Option-cases (descend t.root ks)) [
    | inl e ↦ cc (v.phase, not_matching t.root ks e)
    | inr (n, e) ↦ elim (Option-cases (find k (children n))) [
      | inl e' ↦ (
        record t { state = not_found; cur = none },
        ground (
          arith,
          descend-append t.root ks k,
          longest-append t.root ks k,
          state_at-append t.root ks k,
        ),
        ground (
          arith,
          descend-append t.root ks k,
          longest-append t.root ks k,
          state_at-append t.root ks k,
        ),
        refl,
      )
      | inr (c, e') ↦ (
        (enter t c).0,
        ground (
          arith,
          descend-append t.root ks k,
          longest-append t.root ks k,
          state_at-append t.root ks k,
        ),
        ground (
          arith,
          descend-append t.root ks k,
          longest-append t.root ks k,
          state_at-append t.root ks k,
        ),
        ground arith,
      )
    ]
  ]

  -- A mapped node at the end of the path is the last mapped node of the path.
  pub longest_end :
      (n : Node V) (k : ℕ) (ks : List ℕ) (c : Node V) (v : V)
      → descend n (k ∷ ks) ≡ some c
      → macro_value c ≡ some v
      → longest n (k ∷ ks) ≡ some c
  longest_end n k [] c v d m = elim (Option-cases (find k (children n))) [
    | inl e ↦ absurd (cc (e, d))
    | inr (f, e) ↦ ground arith
  ]
  longest_end n k (j ∷ ks) c v d m = elim (Option-cases (find k (children n))) [
    | inl e ↦ absurd (cc (e, d))
    | inr (f, e) ↦ ground (arith, longest_end f j ks c v)
  ]
