-- ===== src/Kui/Context/Buffer.antt =====
-- The volatile buffer of lib/kui/kui.c when a search ends, and the map that was found.
use cgdb.Base.{
  before_nul, ℕ, false, none, some, List, [], ◌∷◌, ◌++◌, ◌≡◌, ◌∙◌, refl, ap, arith, Option-cases,
  inl, inr, append_assoc, sym,
}
use mathlib.Core.List.{reverse, reverse-cons}
use cgdb.Kui.Tree.{Node, macro_value, get_data, finalize_state}
use cgdb.Kui.Tree.Spec.{descend, longest, IsFull}
use cgdb.Kui.Tree.Match.{Tracks, state_at, longest_end}
use cgdb.Kui.Tree.Full.{descend-IsLive}
use cgdb.Kui.MapSet.{KuiMap, MapSet}
use cgdb.Kui.Context.{
  is_found, with_tree, prepend_each, prepend_value, take_last, update_buffer, was_map_found,
}

pub prepend_each-eq : (vs b : List ℕ) → prepend_each vs b ≡ reverse vs ++ b
unfolding prepend_each
prepend_each-eq [] b = refl
prepend_each-eq (v ∷ vs) b =
    prepend_each-eq vs (v ∷ b) ∙ sym (rw (reverse-cons v vs) (append_assoc (reverse vs) (v ∷ []) b))

pub prepend_value-eq : (vs b : List ℕ) → prepend_value vs b ≡ vs ++ b
unfolding prepend_value
prepend_value-eq [] b = refl
prepend_value-eq (v ∷ vs) b = ap (λ r. v ∷ r) (prepend_value-eq vs b)

take_last-append : (x : ℕ) (xs : List ℕ) (k : ℕ) → take_last x (xs ++ k ∷ []) ≡ (k, x ∷ xs)
unfolding take_last
take_last-append x [] k = refl
take_last-append x (y ∷ ys) k = rw (take_last-append y ys k)

pub update_buffer_last :
    (b xs : List ℕ) (k : ℕ)
    → update_buffer b (xs ++ k ∷ []) none ≡ some (some k, prepend_each xs b, xs)
unfolding update_buffer take_last
update_buffer_last b [] k = refl
update_buffer_last b (x ∷ xs) k = ground (arith, take_last-append x xs k)

pub update_buffer_map :
    (b volatile : List ℕ) (m : KuiMap)
    → update_buffer b volatile (some m)
      ≡ some (none, prepend_value (before_nul m.literal_value) (prepend_each volatile b), volatile)
unfolding update_buffer
update_buffer_map b volatile m = refl

-- One map set, its tree as it is after the finalising step.
abbrev pub finalized : MapSet → List MapSet
finalized m = with_tree m (finalize_state m.ktree) ∷ []

pub finds_map :
    (m : MapSet) (ks : List ℕ) {c : Node KuiMap} {v : KuiMap}
    → Tracks m.ktree ks
    → longest m.ktree.root ks ≡ some c
    → macro_value c ≡ some v
    → was_map_found (finalized m) none ≡ some (some v)
unfolding was_map_found finalize_state get_data
finds_map m ks t l e = ground arith

pub finds_none :
    (m : MapSet) (ks : List ℕ)
    → Tracks m.ktree ks
    → longest m.ktree.root ks ≡ none
    → is_found m.ktree.state ≡ false
    → was_map_found (finalized m) none ≡ some none
unfolding was_map_found finalize_state
finds_none m ks t l e = ground arith

-- A tree that says FOUND has found a map.
pub found_needs_map :
    (n : Node KuiMap) (ks : List ℕ)
    → IsFull n
    → longest n ks ≡ none
    → is_found (state_at n ks) ≡ false
found_needs_map n [] f l = refl
found_needs_map n (k ∷ ks) f l = elim (Option-cases (descend n (k ∷ ks))) [
  | inl e ↦ rw e
  | inr (c, e) ↦ elim (Option-cases (macro_value c)) [
    | inr (v, m) ↦ absurd (cc (longest_end n k ks c v e m, l))
    | inl m ↦ rw e (ground (arith, descend-IsLive n k ks c f e))
  ]
]
